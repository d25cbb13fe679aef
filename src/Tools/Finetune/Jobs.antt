-- ===== src/Tools/Finetune/Jobs.antt =====
-- The jobs and the training files.
use rafineai_self_hosted.Prelude.{true, false, ◌≡◌, refl, inl, inr, All, All-filter, ◌===◌}
use rafineai_self_hosted.Exec.{ok}
use rafineai_self_hosted.Exec.Rules.{try_catch-ok}
use rafineai_self_hosted.Page.{list, job, document, get, Machine, Env}
use rafineai_self_hosted.Page.Quiet.{IsQuiet, Outcome-cases}
use rafineai_self_hosted.Tools.Finetune.{
  Finetune, is_trainable, refresh, report, create_attempt, create,
}

-- Where nothing else runs meanwhile, a refresh keeps the choice of training files to the trainable
-- ones, whether its requests succeed or fail.
pub refresh-trainable :
    {W : Type 0} (env : Env Finetune W) (m : Machine Finetune W)
    → IsQuiet env
    → All (λ d. is_trainable d ≡ true) m.ui.docs
    → All (λ d. is_trainable d ≡ true) (refresh env m).1.ui.docs
unfolding refresh
refresh-trainable env m quiet h =
    elim (Outcome-cases (env.call (list job) (get "/api/tools/finetune/jobs") m.world).0) [
      | inl (a, p) ↦
          elim (Outcome-cases
            (env.call (list document) (get "/api/documents")
              (env.call (list job) (get "/api/tools/finetune/jobs") m.world).1).0) [
                | inl (b, q) ↦ rw (p, q) (All-filter is_trainable b)
                | inr (e, q) ↦ rw (p, q, quiet, quiet) h
              ]
      | inr (e, p) ↦ rw (p, quiet, quiet) h
    ]

-- With a file chosen, `create` never throws and ends with the form released, whatever its requests
-- and the other handlers do.
pub create-released :
    {W : Type 0} (env : Env Finetune W) (m : Machine Finetune W)
    → m.ui.doc_id === "" ≡ false
    → ((create env m).0 ≡ ok tt) × ((create env m).1.ui.creating ≡ false)
unfolding create
create-released env m chosen =
    rw chosen
      (try_catch-ok (create_attempt env m.ui.doc_id m.ui.base_model) report _ (λ e t. refl), refl)
