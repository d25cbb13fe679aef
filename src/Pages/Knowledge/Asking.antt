-- ===== src/Pages/Knowledge/Asking.antt =====
-- Asking and indexing.
use rafineai_self_hosted.Prelude.{
  trim, true, false, none, [], ◌≡◌, refl, inl, inr, Bool-cases, is_empty, if◌then◌else◌,
}
use rafineai_self_hosted.Exec.{message, Outcome, ok, fail, try_catch, finally}
use rafineai_self_hosted.Exec.Rules.{try_catch-ok}
use rafineai_self_hosted.Types.{RagAnswer, Document}
use rafineai_self_hosted.Page.{rag_answer, Machine, Env, on_ui}
use rafineai_self_hosted.Page.Quiet.{IsQuiet, Outcome-cases}
use rafineai_self_hosted.Pages.Knowledge.{
  Knowledge, ask_call, ask_attempt, ask, report, index_attempt, index_doc,
}

-- What the page shows of an answer, and of a failure: never an earlier answer.
abbrev pub answered : Outcome RagAnswer → Knowledge → Knowledge
answered (ok r) s = record s { asking = false; error = ""; answer = r.answer; sources = r.sources }
answered (fail e) s = record s { asking = false; error = message e; answer = ""; sources = [] }

module _ {W : Type 0} (env : Env Knowledge W) where
  abbrev asked : Machine Knowledge W → Machine Knowledge W
  asked m =
      (finally (try_catch (ask_attempt env m.ui.question m.ui.selected) report)
        (on_ui (λ s. record s { asking = false }))
        (on_ui (λ s. record s { asking = true; error = ""; answer = ""; sources = [] }) m)).1

  ask-shown :
      (m : Machine Knowledge W)
      → IsQuiet env
      → (asked m).ui
        ≡ answered (env.call rag_answer (ask_call m.ui.question m.ui.selected) m.world).0 m.ui
  unfolding ask_attempt
  ask-shown m quiet =
      rw quiet
        (elim (Outcome-cases
          (env.call rag_answer (ask_call m.ui.question m.ui.selected) m.world).0) [
            | inl (a, h) ↦ rw h refl
            | inr (e, h) ↦ rw h refl
          ])

  -- Where nothing else runs meanwhile, `ask` never throws; with a blank question the page stays as it
  -- was, and otherwise it shows the answer to this question with its sources, or why there is none.
  pub ask-answered :
      (m : Machine Knowledge W)
      → IsQuiet env
      → ((ask env m).0 ≡ ok tt)
        × ((ask env m).1.ui ≡ (
            if is_empty (trim m.ui.question)
            then m.ui
            else answered
                (env.call rag_answer (ask_call m.ui.question m.ui.selected) m.world).0
                m.ui))
  unfolding ask
  ask-answered m quiet = elim (Bool-cases (is_empty (trim m.ui.question))) [
    | inl h ↦ rw h (refl, refl)
    | inr h ↦ rw h (
      try_catch-ok (ask_attempt env m.ui.question m.ui.selected) report _ (λ e t. refl),
      ask-shown m quiet,
    )
  ]

  -- Whatever happens to the request, indexing a document ends with no document marked as being indexed.
  pub index_doc-indexing :
      (d : Document) (m : Machine Knowledge W)
      → ((index_doc env d m).0 ≡ ok tt) × ((index_doc env d m).1.ui.indexing ≡ none)
  unfolding index_doc
  index_doc-indexing d m = (try_catch-ok (index_attempt env d) report _ (λ e t. refl), refl)
