-- ===== src/Tools/ApiClient.antt =====
-- panel/app/(dash)/tools/api-client/page.tsx. `prompt` and the stored prefill are arguments. The names
-- of an object's members keep the order of their first assignment (names that are array indices,
-- which JavaScript moves to the front, are left out).
pub mod Headers
pub mod View
use rafineai_self_hosted.Prelude.{
  ℕ, String, Text, trim, Bool, true, false, Option, none, some, List, [], ◌∷◌, ◌++◌, map, is_empty,
  ◌==◌, ◌===◌, text_eq, split_on, join, leb, if◌then◌else◌,
}
use rafineai_self_hosted.Exec.{
  Failure, message, Exec, Done, captured, try_catch, finally, ◌>>=◌, ◌>>◌, skip, detach,
}
use rafineai_self_hosted.Json.{Json, str, num, words, object}
use rafineai_self_hosted.ToolTypes.{ApiResponse, Saved}
use rafineai_self_hosted.Page.{
  list, saved, api_response, plain_text, Call, get, post, delete, ◌/+◌, Machine, Env, on_ui, set_ui,
  load, request,
}

pub record ApiClient : Type 0 where
  pub method : String
  pub url : String
  pub headers_text : Text
  pub body : String
  pub resp : Option ApiResponse
  pub error : String
  pub loading : Bool
  pub saved : List Saved
  pub explanation : Text
  pub explaining : Bool

-- What stands before and after the first c.
abbrev before : ℕ → Option (Text × Text) → Option (Text × Text)
before x none = none
before x (some (k, v)) = some (x ∷ k, v)

unfoldable pub cut : ℕ → Text → Option (Text × Text)
cut c [] = none
cut c (x ∷ s) = let rest = cut c s in if x == c then some ([], s) else before x rest

-- h[k] = v
unfoldable pub assign : Text → Text → List (Text × Text) → List (Text × Text)
assign k v [] = (k, v) ∷ []
assign k v ((j, u) ∷ h) = if text_eq j k then (j, v) ∷ h else (j, u) ∷ assign k v h

abbrev add_cut : Option (Text × Text) → List (Text × Text) → List (Text × Text)
add_cut none h = h
add_cut (some (k, v)) h = if is_empty k then h else assign (trim k) (trim v) h

-- One line of the headers: a line whose first colon stands after its first character.
unfoldable pub add_line : Text → List (Text × Text) → List (Text × Text)
unfolding cut assign trim
add_line line h = add_cut (cut 58 line) h

unfoldable pub add_lines : List Text → List (Text × Text) → List (Text × Text)
unfolding add_line
add_lines [] h = h
add_lines (l ∷ ls) h = add_lines ls (add_line l h)

-- parseHeaders()
unfoldable pub parse_headers : Text → List (Text × Text)
unfolding add_lines split_on
parse_headers t = add_lines (split_on 10 t) []

abbrev pub line_of : Text × Text → Text
line_of (k, v) = k ++ 58 ∷ 32 ∷ v

-- Object.entries(headers).map(([k, v]) => `${k}: ${v}`).join("\n")
unfoldable pub headers_text_of : List (Text × Text) → Text
unfolding join
headers_text_of h = join 10 (map line_of h)

-- load(s)
unfoldable pub load_saved : Saved → ApiClient → ApiClient
unfolding headers_text_of
load_saved r s = record s {
  method = r.method;
  url = r.url;
  body = r.body;
  headers_text = headers_text_of r.headers;
  resp = none;
  explanation = [];
}

-- The prefill that the Swagger page stored, with its method and url where they are not blank.
abbrev pub prefill : Option (String × String) → ApiClient → ApiClient
prefill none s = s
prefill (some (m, u)) s = record s {
  method = if m === "" then s.method else m;
  url = if u === "" then s.url else u;
}

-- The class of the status: green below 400.
abbrev pub status_color : Option ApiResponse → String
status_color none = "text-red-600"
status_color (some r) = if leb 400 r.status then "text-red-600" else "text-green-600"

abbrev pub report : {W : Type 0} → Failure → Exec (Machine ApiClient W) Done
report e = set_ui (λ s. record s { error = message e })

-- `header_object` is the JSON object of the headers.
module _ (header_object : List (Text × Text) → Json) where
  abbrev pub request_fields : ApiClient → List (String × Json)
  request_fields s =
      ("method", str s.method)
      ∷ ("url", str s.url)
      ∷ ("headers", header_object (parse_headers s.headers_text))
      ∷ ("body", str s.body)
      ∷ []

  abbrev pub send_call : ApiClient → Call
  send_call s = post "/api/tools/api-client/send" (object (request_fields s))

  abbrev pub explain_call : ApiResponse → ApiClient → Call
  explain_call r s = post "/api/tools/api-client/explain" (
      object (
        ("request", object (request_fields s))
        ∷ ("response", object (("status", num r.status) ∷ ("body", str r.body) ∷ []))
        ∷ []))

  module _ {W : Type 0} (env : Env ApiClient W) where
    unfoldable pub refresh_saved : Exec (Machine ApiClient W) Done
    unfolding load
    refresh_saved =
        load env (list saved) (get "/api/tools/api-client/requests")
          (λ rs s. record s { saved = rs })

    unfoldable pub mount : Option (String × String) → Exec (Machine ApiClient W) Done
    unfolding refresh_saved
    mount stored = do detach refresh_saved; set_ui (prefill stored)

    unfoldable pub send_attempt : ApiClient → Exec (Machine ApiClient W) Done
    unfolding load
    send_attempt s = load env api_response (send_call s) (λ r t. record t { resp = some r })

    unfoldable pub send : Exec (Machine ApiClient W) Done
    send = captured λ m. do
      set_ui (λ s. record s { loading = true; error = ""; resp = none; explanation = [] })
      finally (try_catch (send_attempt m.ui) report) (on_ui (λ s. record s { loading = false }))

    -- save(), with the name that the prompt gave
    unfoldable pub save : String → Exec (Machine ApiClient W) Done
    unfolding request refresh_saved
    save name = captured λ m. if name === "" then skip else (do
      request env (
          post "/api/tools/api-client/requests" (object (("name", str name) ∷ request_fields m.ui)))
      refresh_saved)

    unfoldable pub del : Saved → Exec (Machine ApiClient W) Done
    unfolding request refresh_saved
    del r = do request env (delete ("/api/tools/api-client/requests/" /+ r.id)); refresh_saved

    unfoldable pub explain_attempt : ApiResponse → ApiClient → Exec (Machine ApiClient W) Done
    unfolding load
    explain_attempt r s =
        load env plain_text (explain_call r s) (λ t u. record u { explanation = t })

    abbrev explain_of : Option ApiResponse → ApiClient → Exec (Machine ApiClient W) Done
    explain_of none s = skip
    explain_of (some r) s = do
      set_ui (λ t. record t { explaining = true; explanation = [] })
      finally (try_catch (explain_attempt r s) report)
          (on_ui (λ t. record t { explaining = false }))

    unfoldable pub explain : Exec (Machine ApiClient W) Done
    explain = captured λ m. explain_of m.ui.resp m.ui
