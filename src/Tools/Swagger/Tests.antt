-- ===== src/Tools/Swagger/Tests.antt =====
-- The Swagger page at a small document.
use rafineai_self_hosted.Prelude.{String, false, Option, some, none, [], ◌∷◌, All, ◌≡◌, refl}
use rafineai_self_hosted.Exec.{ok}
use rafineai_self_hosted.Json.{Json, str, obj, end, field, lookup, member}
use rafineai_self_hosted.Page.{Machine}
use rafineai_self_hosted.Tools.ApiClient.{ApiClient, prefill}
use rafineai_self_hosted.Tools.Swagger.{
  Endpoint, Swagger, endpoints_of, parse_spec, send_to_api_client,
}
use rafineai_self_hosted.Tools.Swagger.Endpoints.{
  Routes, paths, listing, parse_spec-listing, handed_over, send_to_api_client-prefill,
}

abbrev routes : Routes
routes =
    (
      "/pets",
      ("get", field "summary" (str "List") end)
          ∷ ("parameters", end)
          ∷ ("post", field "operationId" (str "add") end)
          ∷ [],
    )
    ∷ ("/pets/{id}", ("delete", end) ∷ [])
    ∷ []

abbrev spec : Json
spec = obj (field "info" (obj end) (field "paths" (obj (paths routes)) end))

abbrev parse : String → Option Json
parse raw = some spec

abbrev to_string : Json → String
to_string (str s) = s
to_string v = "[object Object]"

abbrev blank_page : Swagger
blank_page = record {
  spec_url = "";
  spec_text = "";
  base_url = str "https://api.example.com";
  endpoints = [];
  title = str "";
  error = "old";
  stored = none;
  location = none;
}

abbrev at_start : Machine Swagger Unit
at_start = record { ui = blank_page; world = tt }

parse_spec-listing_example :
    ((parse_spec parse to_string "null" "{…}" at_start).0 ≡ ok tt)
    × ((parse_spec parse to_string "null" "{…}" at_start).1.ui.endpoints ≡ listing routes)
    × ((parse_spec parse to_string "null" "{…}" at_start).1.ui.error ≡ "")
unfolding member lookup
parse_spec-listing_example =
    parse_spec-listing parse to_string "null" "{…}" spec end routes at_start refl refl refl

abbrev client : ApiClient
client = record {
  method = "GET";
  url = "";
  headers_text = [];
  body = "";
  resp = none;
  error = "";
  loading = false;
  saved = [];
  explanation = [];
  explaining = false;
}

send_to_api_client-prefill_example :
    All
      (λ (ep : Endpoint).
        prefill (send_to_api_client to_string ep blank_page).stored client
        ≡ handed_over to_string ep blank_page client)
      (listing routes)
unfolding endpoints_of lookup
send_to_api_client-prefill_example =
    send_to_api_client-prefill to_string (obj (paths routes)) (listing routes) blank_page client
      refl
