-- ===== src/Tools/Finetune/View.antt =====
-- What the fine-tuning page shows: the form and the rows of the jobs.
use rafineai_self_hosted.Prelude.{
  String, Text, Bool, ◌||◌, List, map, is_empty, ◌===◌, if◌then◌else◌,
}
use rafineai_self_hosted.Types.{Document}
use rafineai_self_hosted.ToolTypes.{Job}
use rafineai_self_hosted.Pages.Documents.View.{created}
use rafineai_self_hosted.Tools.Finetune.{Finetune, status_class}

-- The options for the training file, less the empty one.
unfoldable pub options : Finetune → List (String × Text)
options s = map (λ (d : Document). (d.id, d.filename)) s.docs

unfoldable pub create_label : Finetune → String
create_label s = if s.creating then "Başlatılıyor…" else "Fine-tune başlat"

unfoldable pub create_disabled : Finetune → Bool
create_disabled s = s.creating || s.doc_id === ""

-- The line that no JSONL document was found.
unfoldable pub lacks_documents : Finetune → Bool
lacks_documents s = is_empty s.docs

abbrev or_else : String → String → String
or_else v other = if v === "" then other else v

pub record Row : Type 0 where
  pub base_model : String
  pub job_id : String
  pub class : String
  pub status : String
  pub result : String
  pub created : Text

unfoldable pub row_of : Job → Row
unfolding status_class created
row_of j = record {
  base_model = j.base_model;
  job_id = or_else j.external_job_id "—";
  class = or_else (status_class j.status) "bg-slate-100 text-slate-600";
  status = j.status;
  result = or_else j.fine_tuned_model "—";
  created = created j.created_at;
}

unfoldable pub rows : Finetune → List Row
unfolding row_of
rows s = map row_of s.jobs
