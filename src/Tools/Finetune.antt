-- ===== src/Tools/Finetune.antt =====
-- panel/app/(dash)/tools/finetune/page.tsx.
pub mod Jobs
pub mod View
use rafineai_self_hosted.Prelude.{
  String, Text, text, contains, ends_with, Bool, ◌||◌, List, [], ◌∷◌, filter, ◌===◌, if◌then◌else◌,
}
use rafineai_self_hosted.Exec.{
  Failure, message, Exec, Done, captured, try_catch, finally, ◌>>=◌, ◌>>◌,
}
use rafineai_self_hosted.Json.{str, object}
use rafineai_self_hosted.Types.{Document}
use rafineai_self_hosted.ToolTypes.{Job}
use rafineai_self_hosted.Page.{
  list, job, document, get, post, Machine, Env, await_api, both, on_ui, set_ui, request,
}

pub record Finetune : Type 0 where
  pub jobs : List Job
  pub docs : List Document
  pub doc_id : String
  pub base_model : String
  pub error : String
  pub creating : Bool

-- The class of a job's status label.
unfoldable pub status_class : String → String
status_class s =
    if s === "succeeded"
    then "bg-green-100 text-green-700"
    else if s === "failed"
    then "bg-red-100 text-red-700"
    else if s === "cancelled"
    then "bg-slate-100 text-slate-500"
    else if s === "running"
    then "bg-sky-100 text-sky-700"
    else if s === "queued"
    then "bg-amber-100 text-amber-700"
    else if s === "pending"
    then "bg-amber-100 text-amber-700"
    else ""

unfoldable pub is_trainable : Document → Bool
is_trainable d = ends_with (text ".jsonl") d.filename || contains (text "json") d.mime_type

abbrev pub report : {W : Type 0} → Failure → Exec (Machine Finetune W) Done
report e = set_ui (λ s. record s { error = message e })

module _ {W : Type 0} (env : Env Finetune W) where
  unfoldable pub refresh : Exec (Machine Finetune W) Done
  unfolding both await_api
  refresh = do
    (j, d) ←
        both (await_api env (list job) (get "/api/tools/finetune/jobs"))
          (await_api env (list document) (get "/api/documents"))
    set_ui (λ s. record s { jobs = j; docs = filter is_trainable d })

  unfoldable pub mount : Exec (Machine Finetune W) Done
  unfolding refresh
  mount = try_catch refresh report

  unfoldable pub create_attempt : String → String → Exec (Machine Finetune W) Done
  unfolding request refresh
  create_attempt doc_id base_model = do
    request env (
        post "/api/tools/finetune/jobs"
          (object (("document_id", str doc_id) ∷ ("base_model", str base_model) ∷ [])))
    refresh

  unfoldable pub create : Exec (Machine Finetune W) Done
  create = captured λ m.
      if m.ui.doc_id === ""
      then set_ui (λ s. record s { error = "Eğitim belgesi seçin (.jsonl)." })
      else (do
        set_ui (λ s. record s { creating = Bool.true; error = "" })
        finally (try_catch (create_attempt m.ui.doc_id m.ui.base_model) report)
            (on_ui (λ s. record s { creating = Bool.false })))
