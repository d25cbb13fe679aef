-- ===== src/Pages/Tests.antt =====
-- The pages at concrete states.
use rafineai_self_hosted.Prelude.{
  text, includes, true, false, ◌&&◌, none, some, [], ◌∷◌, ◌++◌, take, List, String, length, ◌≡◌,
  refl, ◌===◌, if◌then◌else◌,
}
use rafineai_self_hosted.Types.{Alert}
use rafineai_self_hosted.Page.Samples.{server, at_rest, scan}
use rafineai_self_hosted.Pages.Policy as Policy
use rafineai_self_hosted.Pages.Alerts.{
  Alerts, snippet_text, toggle_expand, is_long, display_snippet,
}
use rafineai_self_hosted.Pages.Alerts.Snippets.{
  unmask, unmask-snippet_text, toggle_expand-display_snippet,
}
use rafineai_self_hosted.Pages.Documents.{Preview, Documents}
use rafineai_self_hosted.Pages.Documents.Lifetimes.{
  Session, Reachable, create, show, start, next, ask,
}
use rafineai_self_hosted.Pages.Documents.Lifetimes.Alive.{IsAlive, Reachable-IsAlive}
use rafineai_self_hosted.Pages.Documents.Previews.{open_all, open_all-leak}

unmask-snippet_text_example :
    unmask (snippet_text (text "tel [MASKED], tc [MASKED]")) ≡ text "tel [MASKED], tc [MASKED]"
unmask-snippet_text_example = unmask-snippet_text (text "tel [MASKED], tc [MASKED]")

abbrev shown : Preview
shown = record { doc = scan; url = "blob:1"; text = none }

abbrev previewing : Documents
previewing = record {
  docs = scan ∷ [];
  error = "";
  uploading = false;
  preview = some shown;
  live_urls = "blob:1" ∷ [];
}

open_all-leak_example :
    (urls : List String) × (length urls ≡ 2)
    × ((open_all server (scan ∷ scan ∷ []) (at_rest previewing)).ui.live_urls
        ≡ urls ++ "blob:1" ∷ [])
open_all-leak_example =
    open_all-leak server (scan ∷ scan ∷ []) (at_rest previewing) (λ w s. refl)
      (λ d w. ("blob:2", refl))

abbrev empty_page : Documents
empty_page = record {
  docs = scan ∷ [];
  error = "";
  uploading = false;
  preview = none;
  live_urls = [];
}

-- The scan is opened, its deletion is asked for, and it is opened again before the deletion ends.
abbrev reopened : Session
reopened = record {
  page = record {
    docs = scan ∷ [];
    error = "";
    uploading = false;
    preview = some (record { doc = scan; url = "blob:2"; text = none });
    live_urls = "blob:2" ∷ "blob:1" ∷ [];
  };
  opening = [];
  asked = some shown ∷ [];
}

reopened-Reachable : Reachable reopened
reopened-Reachable =
    next
      (next
        (next
          (next
            (next
              (start {s = record { page = empty_page; opening = []; asked = [] }} refl refl refl)
              (create scan "blob:1" (tt, tt, tt)))
            (show [] [] scan "blob:1" none refl))
          ask)
        (create scan "blob:2" (refl, tt, (refl, tt))))
      (show [] [] scan "blob:2" none refl)

Reachable-IsAlive_example :
    IsAlive (some (record { doc = scan; url = "blob:2"; text = none })) ("blob:2" ∷ "blob:1" ∷ [])
Reachable-IsAlive_example = Reachable-IsAlive reopened reopened-Reachable

abbrev leaked : Alert
leaked = record {
  id = "a1";
  user_id = none;
  conversation_id = none;
  rule_name = "TCKN";
  category = "pii";
  action = "mask";
  severity = "high";
  snippet = text "tc [MASKED]";
  resolved = false;
  created_at = "";
}

abbrev alerts : Alerts
alerts = record { alerts = leaked ∷ []; only_open = true; expanded = []; error = "" }

toggle_expand-display_snippet_example :
    display_snippet (toggle_expand "a1" alerts).expanded leaked ≡ (
      if "a1" === "a1"
      then (if is_long leaked && includes "a1" []
          then take 300 leaked.snippet ++ text "…"
          else leaked.snippet)
      else display_snippet [] leaked)
toggle_expand-display_snippet_example = toggle_expand-display_snippet leaked leaked alerts
