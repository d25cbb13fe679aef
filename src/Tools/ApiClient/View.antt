-- ===== src/Tools/ApiClient/View.antt =====
-- What the API client shows: the saved requests, the buttons and the response.
use rafineai_self_hosted.Prelude.{
  ℕ, String, Text, Bool, true, false, not, ◌&&◌, ◌||◌, Option, none, some, List, map, is_empty,
  ◌===◌, if◌then◌else◌,
}
use rafineai_self_hosted.Decimal.{to_fixed}
use rafineai_self_hosted.ToolTypes.{ApiResponse, Saved}
use rafineai_self_hosted.Tools.ApiClient.{ApiClient, status_color}

unfoldable pub rows : ApiClient → List (String × String)
rows s = map (λ (r : Saved). (r.method, r.name)) s.saved

-- The buttons to send and to save: a label, and whether it is disabled.
unfoldable pub send_button : ApiClient → String × Bool
send_button s = (if s.loading then "…" else "Gönder", s.loading || s.url === "")

unfoldable pub save_disabled : ApiClient → Bool
save_disabled s = s.url === ""

-- The response, its size in tenths of a KB, with the button for an explanation.
pub record View : Type 0 where
  pub class : String
  pub status : ℕ
  pub time_ms : ℕ
  pub size : ℕ
  pub explain_label : String
  pub explain_disabled : Bool
  pub explanation : Option Text
  pub body : String

abbrev unless_empty : Text → Option Text
unless_empty t = if is_empty t then none else some t

abbrev view_of : ApiClient → ApiResponse → View
unfolding to_fixed
view_of s r = record {
  class = status_color (some r);
  status = r.status;
  time_ms = r.time_ms;
  size = to_fixed 10 (record { num = r.size_bytes; den = 1024 });
  explain_label = if s.explaining then "LLM düşünüyor…" else "🤖 LLM'e sor";
  explain_disabled = s.explaining;
  explanation = unless_empty s.explanation;
  body = r.body;
}

unfoldable pub response : ApiClient → Option View
unfolding view_of
response s = elim s.resp [ none ↦ none | some r ↦ some (view_of s r) ]

-- The hint to send a request.
unfoldable pub has_hint : ApiClient → Bool
has_hint s = (elim s.resp [ none ↦ true | some r ↦ false ]) && not s.loading
