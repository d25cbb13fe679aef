-- ===== src/Client/Transfers.antt =====
-- The other requests of panel/lib/api.ts: uploads, protected downloads, the login, and the opening
-- of a chat stream. `URL.createObjectURL` is the platform's: a download returns the response.
use rafineai_self_hosted.Prelude.{
  String, Text, not, Option, none, some, List, [], ◌∷◌, ◌==◌, if◌then◌else◌,
}
use rafineai_self_hosted.Exec.{api_error, Exec, Done, pure, throw, gets, ◌>>=◌, ◌>>◌, modify}
use rafineai_self_hosted.Json.{Json, str, words, member, object}
use rafineai_self_hosted.Client.{
  Session, Response, is_ok, Body, json, form_data, Request, Browser, Platform, authorize,
  clear_session, fetch, read_json, choose, message_text, store_tokens, try_refresh,
}
use Prim.Native.String

-- getToken() and getRole(), in the browser.
abbrev pub get_token : Session → Option String
get_token s = s.access

abbrev pub get_role : Session → Option String
get_role s = s.role

-- clearSession()
abbrev pub log_out : Exec Browser Done
log_out = modify λ b. record b { session = clear_session }

abbrev post_json : String → Json → Request
post_json path body = record {
  path = path;
  method = "POST";
  headers = ("content-type", "application/json") ∷ [];
  body = json body;
}

module _ (platform : Platform) where
  abbrev upload_detail : Option Json → Option Json
  upload_detail none = none
  upload_detail (some b) = choose (member "detail" b)

  upload_error : Response → String
  unfolding member
  upload_error res = message_text platform res.status_text (upload_detail res.body)

  upload_result : Response → Exec Browser Json
  upload_result res =
      if not (is_ok res) then throw (api_error res.status (upload_error res)) else read_json res

  abbrev upload_request : String → List (String × String) → Session → Request
  upload_request path parts s = record {
    path = path;
    method = "POST";
    headers = authorize s [];
    body = form_data parts;
  }

  send_upload : String → List (String × String) → Exec Browser Response
  send_upload path parts b = fetch (upload_request path parts b.session) b

  upload_retry : String → List (String × String) → Response → Exec Browser Json
  upload_retry path parts res =
      if res.status == 401
      then (do
        renewed ← try_refresh platform
        if renewed
            then (do again ← send_upload path parts; upload_result again)
            else upload_result res)
      else upload_result res

  -- uploadFile(path, formData)
  unfoldable pub upload_file : String → List (String × String) → Exec Browser Json
  unfolding upload_retry send_upload upload_result upload_error fetch
  upload_file path parts = do res ← send_upload path parts; upload_retry path parts res

  -- login(email, password)
  unfoldable pub login : String → String → Exec Browser Json
  unfolding fetch member
  login email password = do
    res ← fetch (
        post_json "/api/auth/login"
          (object (("email", str email) ∷ ("password", str password) ∷ [])))
    if not (is_ok res)
        then throw (api_error res.status "Invalid credentials")
        else do tokens ← read_json res; store_tokens platform tokens; pure tokens

-- authedBlobUrl(path), up to the object URL
unfoldable pub authed_blob : String → Exec Browser Response
authed_blob path = do
  session ← gets (λ (b : Browser). b.session)
  res ←
      fetch (record {
        path = path;
        method = "GET";
        headers = authorize session [];
        body = Body.no_body;
      })
  if not (is_ok res) then throw (api_error res.status "içerik yüklenemedi") else pure res

-- The request of streamChat; `none` stands for a response without a body.
unfoldable pub open_stream : String → Text → Exec Browser Response
open_stream conversation_id content = do
  session ← gets (λ (b : Browser). b.session)
  let path = String.◌++◌ "/api/conversations/" (String.◌++◌ conversation_id "/chat/stream")
  let hs = authorize session (("content-type", "application/json") ∷ [])
  res ← fetch (record {
    path = path;
    method = "POST";
    headers = hs;
    body = json (object (("content", words content) ∷ []));
  })
  if not (is_ok res) then throw (api_error res.status "stream failed") else pure res
