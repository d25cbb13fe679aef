-- ===== src/Pages/Audit/View.antt =====
-- What the audit page shows: a row for each request. `date` prints a date.
use rafineai_self_hosted.Prelude.{
  ℕ, String, Bool, ◌&&◌, Option, none, some, List, [], ◌∷◌, map, is_empty, leb, ◌===◌,
  if◌then◌else◌,
}
use rafineai_self_hosted.Types.{AuditRow}
use rafineai_self_hosted.Pages.Audit.{Audit}
use Prim.Native.String

pub record Row : Type 0 where
  pub time : String
  pub model : String
  pub class : String
  pub status : ℕ
  pub request_tokens : ℕ
  pub response_tokens : ℕ
  pub latency_ms : ℕ
  pub policies : String

abbrev or_dash : Option String → String
or_dash none = "—"
or_dash (some m) = m

-- xs.join(", ")
unfoldable pub join_names : List String → String
join_names [] = ""
join_names (x ∷ []) = x
join_names (x ∷ y ∷ xs) = String.◌++◌ x (String.◌++◌ ", " (join_names (y ∷ xs)))

module _ (date : String → String) where
  unfoldable pub row_of : AuditRow → Row
  unfolding join_names
  row_of r = record {
    time = date r.created_at;
    model = or_dash r.model;
    class = if leb 400 r.status_code then "text-red-600" else "text-green-600";
    status = r.status_code;
    request_tokens = r.request_tokens;
    response_tokens = r.response_tokens;
    latency_ms = r.latency_ms;
    policies = if is_empty r.applied_policies then "—" else join_names r.applied_policies;
  }

  unfoldable pub rows : Audit → List Row
  unfolding row_of
  rows s = map row_of s.rows

-- The line "No audit records yet."
unfoldable pub is_bare : Audit → Bool
is_bare s = is_empty s.rows && s.error === ""
