-- ===== src/Tools/Tests.antt =====
-- The tool pages at concrete states.
use rafineai_self_hosted.Prelude.{text, trim, text_eq, false, none, [], ◌∷◌, ◌≡◌, refl}
use rafineai_self_hosted.ToolTypes.{Saved}
use rafineai_self_hosted.Tools.ApiClient.{ApiClient, parse_headers, load_saved}
use rafineai_self_hosted.Page.Samples.{server, server-IsQuiet, at_rest}
use rafineai_self_hosted.Tools.Sentry.{Sentry, explain}
use rafineai_self_hosted.Tools.Sentry.View.{link_button}
use rafineai_self_hosted.Tools.Sentry.Buttons.{rested, explain-link_button}
use rafineai_self_hosted.Tools.ApiClient.Headers.{load_saved-parse_headers}

abbrev get_page : Saved
get_page = record {
  id = "1";
  name = "page";
  method = "GET";
  url = "https://example.com";
  headers = (text "accept", text "text/html") ∷ (text "x-trace", text "a:b") ∷ [];
  body = "";
}

abbrev blank : ApiClient
blank = record {
  method = "GET";
  url = "";
  headers_text = [];
  body = "";
  resp = none;
  error = "";
  loading = false;
  saved = [];
  explanation = [];
  explaining = false;
}

load_saved-parse_headers_example :
    parse_headers (load_saved get_page blank).headers_text ≡ get_page.headers
unfolding text trim text_eq
load_saved-parse_headers_example =
    load_saved-parse_headers get_page blank
      ((refl, refl, refl, refl, refl), ((refl, refl, refl, refl, refl), tt)) (refl, (refl, tt))

abbrev sentry : Sentry
sentry = record {
  projects = [];
  active = "";
  issues = [];
  error = "";
  link_input = [];
  analyzing = [];
  result = none;
  analysis_error = "";
}

explain-link_button_example :
    link_button (explain server (text "7") (at_rest sentry)).1.ui ≡ rested []
unfolding text trim
explain-link_button_example =
    explain-link_button server (text "7") (at_rest sentry) server-IsQuiet refl
