-- ===== src/Pages/Knowledge.antt =====
-- panel/app/(dash)/knowledge/page.tsx.
pub mod Asking
pub mod Keys
pub mod View
use rafineai_self_hosted.Prelude.{
  String, Text, trim, Bool, true, false, Option, none, some, List, [], ◌∷◌, ◌++◌, filter, is_empty,
  toggle_id, if◌then◌else◌,
}
use rafineai_self_hosted.Exec.{
  Failure, message, Exec, Done, captured, try_catch, finally, ◌>>=◌, ◌>>◌, skip,
}
use rafineai_self_hosted.Json.{Json, str, words, object, array}
use rafineai_self_hosted.Types.{Document, RagAnswer}
use rafineai_self_hosted.Page.{
  list, document, rag_answer, Call, get, post, no_content, ◌/+◌, Machine, Env, await_api, on_ui,
  set_ui, load, request,
}

pub record Knowledge : Type 0 where
  pub docs : List Document
  pub selected : List String
  pub question : Text
  pub answer : String
  pub sources : List String
  pub error : String
  pub indexing : Option String
  pub asking : Bool

-- toggle(id)
unfoldable pub toggle : String → Knowledge → Knowledge
toggle id s = record s { selected = toggle_id id s.selected }

unfoldable pub indexed : Knowledge → List Document
indexed s = filter (λ (d : Document). d.indexed) s.docs

abbrev pub report : {W : Type 0} → Failure → Exec (Machine Knowledge W) Done
report e = set_ui (λ s. record s { error = message e })

-- `document_ids` is left out (undefined) where nothing is selected.
abbrev id_fields : List String → List (String × Json)
id_fields [] = []
id_fields (i ∷ is) = ("document_ids", array str (i ∷ is)) ∷ []

abbrev pub ask_call : Text → List String → Call
ask_call question selected =
    post "/api/rag/ask" (object (("question", words (trim question)) ∷ id_fields selected))

module _ {W : Type 0} (env : Env Knowledge W) where
  unfoldable pub refresh : Exec (Machine Knowledge W) Done
  unfolding load
  refresh = load env (list document) (get "/api/documents") (λ ds s. record s { docs = ds })

  unfoldable pub mount : Exec (Machine Knowledge W) Done
  unfolding refresh
  mount = try_catch refresh report

  unfoldable pub index_attempt : Document → Exec (Machine Knowledge W) Done
  unfolding request refresh
  index_attempt d = do
    request env (record { method = "POST"; path = "/api/rag/index/" /+ d.id; content = no_content })
    refresh

  -- indexDoc(d)
  unfoldable pub index_doc : Document → Exec (Machine Knowledge W) Done
  index_doc d = do
    set_ui (λ s. record s { indexing = some d.id; error = "" })
    finally (try_catch (index_attempt d) report) (on_ui (λ s. record s { indexing = none }))

  unfoldable pub ask_attempt : Text → List String → Exec (Machine Knowledge W) Done
  unfolding await_api
  ask_attempt question selected = do
    r ← await_api env rag_answer (ask_call question selected)
    set_ui (λ s. record s { answer = r.answer; sources = r.sources })

  -- ask()
  unfoldable pub ask : Exec (Machine Knowledge W) Done
  ask = captured λ c. if is_empty (trim c.ui.question) then skip else (do
    set_ui (λ s. record s { asking = true; error = ""; answer = ""; sources = [] })
    finally (try_catch (ask_attempt c.ui.question c.ui.selected) report)
        (on_ui (λ s. record s { asking = false })))
