-- ===== src/Client.antt =====
-- panel/lib/api.ts over `fetch` and `localStorage`: the session, the request with its retry after a
-- refresh, uploads, downloads and the login. The network is a list of what `fetch` will give, one
-- entry for each call; where the list ends `fetch` rejects. `sent` records the requests, the latest
-- first. The stream's loop is in Stream.
pub mod Transfers
pub mod Retry
pub mod Sessions
pub mod Calls
pub mod Tests
use rafineai_self_hosted.Prelude.{
  ℕ, String, Bool, true, false, not, ◌&&◌, ◌||◌, Option, none, some, List, [], ◌∷◌, leb, ◌==◌,
  ◌===◌, if◌then◌else◌,
}
use rafineai_self_hosted.Exec.{
  Failure, api_error, platform_error, Outcome, ok, fail, Exec, Done, pure, throw, gets, caught,
  try_catch, ◌>>=◌, ◌>>◌, modify, skip,
}
use rafineai_self_hosted.Json.{
  Json, null, str, Member, value, undefined, type_error, member, member?, object,
}
use Prim.Native.String

-- `localStorage` at the keys "rafine_access", "rafine_refresh" and "rafine_role".
pub record Session : Type 0 where
  pub access : Option String
  pub refresh : Option String
  pub role : Option String

pub record Response : Type 0 where
  pub status : ℕ
  pub status_text : String
  -- What `res.json()` gives, `none` where the body is no JSON; for a download, the body itself.
  pub body : Option Json

-- `res.ok`
abbrev pub is_ok : Response → Bool
is_ok r = leb 200 r.status && leb r.status 299

pub data Reply : Type 0 where
  network_error : Reply
  response : Response → Reply

-- A request body: the text JSON.stringify(value), or a form with the names of its parts and files.
pub data Body : Type 0 where
  no_body : Body
  json : Json → Body
  form_data : List (String × String) → Body

-- A `Headers` object, by lower-case names.
abbrev pub Headers : Type 0
Headers = List (String × String)

pub record Options : Type 0 where
  pub method : String
  pub headers : Headers
  pub body : Body

pub record Request : Type 0 where
  pub path : String
  pub method : String
  pub headers : Headers
  pub body : Body

pub record Browser : Type 0 where
  pub session : Session
  pub network : List Reply
  pub sent : List Request

-- `String(value)` and `JSON.stringify(value)`, which the platform gives.
pub record Platform : Type 0 where
  pub to_string : Json → String
  pub stringify : Json → String

-- headers.has(name), headers.set(name, v)
unfoldable pub has_header : String → Headers → Bool
has_header name [] = false
has_header name ((k, v) ∷ hs) = k === name || has_header name hs

unfoldable pub set_header : String → String → Headers → Headers
set_header name v [] = (name, v) ∷ []
set_header name v ((k, w) ∷ hs) =
    let rest = set_header name v hs in if k === name then (k, v) ∷ hs else (k, w) ∷ rest

abbrev pub bearer : String → String
bearer token = String.◌++◌ "Bearer " token

-- `if (token) …`: neither null nor the empty string.
abbrev pub truthy : Option String → Option String
truthy none = none
truthy (some t) = if t === "" then none else some t

abbrev with_token : Option String → Headers → Headers
with_token none hs = hs
with_token (some t) hs = set_header "authorization" (bearer t) hs

-- The header that every request of the client starts from.
unfoldable pub authorize : Session → Headers → Headers
authorize s hs = with_token (truthy s.access) hs

abbrev is_json_body : Body → Bool
is_json_body (json j) = true
is_json_body _ = false

unfoldable pub api_headers : Session → Options → Headers
unfolding authorize has_header set_header
api_headers s opts =
    let hs = authorize s opts.headers in
    if is_json_body opts.body && not (has_header "content-type" hs)
    then set_header "content-type" "application/json" hs
    else hs

abbrev network_failure : Failure
network_failure = platform_error "Failed to fetch"

answer : List Reply → Outcome Response × List Reply
answer [] = (fail network_failure, [])
answer (network_error ∷ rest) = (fail network_failure, rest)
answer (response r ∷ rest) = (ok r, rest)

-- fetch(url, …): records the request and takes the network's next answer.
pub fetch : Request → Exec Browser Response
unfolding answer
fetch q b = let (o, rest) = answer b.network in (o, record b { network = rest; sent = q ∷ b.sent })

abbrev pub set_session : String → String → String → Session
set_session access refresh role = record {
  access = some access;
  refresh = some refresh;
  role = some role;
}

abbrev pub clear_session : Session
clear_session = record { access = none; refresh = none; role = none }

abbrev json_of : Option Json → Exec Browser Json
json_of none = throw (platform_error "Unexpected token")
json_of (some j) = pure j

-- res.json()
abbrev pub read_json : Response → Exec Browser Json
read_json r = json_of r.body

-- `body.detail ?? body.error?.message ?? msg`, and a TypeError's way to `catch`.
abbrev choose : Member → Option Json
choose (value null) = none
choose (value v) = some v
choose _ = none

abbrev first_of_two : Option Json → Option Json → Option Json
first_of_two (some v) o = some v
first_of_two none o = o

abbrev detail_of : Option Json → Option Json
detail_of none = none
detail_of (some b) =
    first_of_two (choose (member "detail" b)) (choose (member? "message" (member "error" b)))

module _ (platform : Platform) where
  abbrev member_text : Member → String
  member_text (value (str s)) = s
  member_text (value v) = platform.to_string v
  member_text undefined = "undefined"
  member_text type_error = "undefined"

  -- setSession(data.access_token, data.refresh_token, data.role)
  abbrev store_tokens : Json → Exec Browser Done
  store_tokens null = throw (platform_error "Cannot read properties of null")
  store_tokens d = modify λ b. record b {
    session =
        set_session (member_text (member "access_token" d)) (member_text (member "refresh_token" d))
          (member_text (member "role" d));
  }

  abbrev refresh_request : String → Request
  refresh_request token = record {
    path = "/api/auth/refresh";
    method = "POST";
    headers = ("content-type", "application/json") ∷ [];
    body = json (object (("refresh_token", str token) ∷ []));
  }

  abbrev refreshed : Response → Exec Browser Bool
  refreshed res =
      if is_ok res then (do data' ← read_json res; store_tokens data'; pure true) else pure false

  abbrev refresh_with : Option String → Exec Browser Bool
  refresh_with none = pure false
  refresh_with (some token) = do res ← fetch (refresh_request token); refreshed res

  pub try_refresh : Exec Browser Bool
  unfolding fetch member
  try_refresh b = refresh_with (truthy b.session.refresh) b

  abbrev message_text : String → Option Json → String
  message_text default none = default
  message_text default (some (str s)) = s
  message_text default (some v) = platform.stringify v

  unfoldable pub error_message : Response → String
  unfolding member member?
  error_message res = message_text res.status_text (detail_of res.body)

  -- The end of `api`: errors, 204, and the body.
  abbrev pub api_result : Response → Exec Browser (Option Json)
  api_result res =
      if not (is_ok res)
      then throw (api_error res.status (error_message res))
      else if res.status == 204
      then pure none
      else do j ← read_json res; pure (some j)

  abbrev pub api_request : String → Options → Session → Request
  api_request path opts s = record {
    path = path;
    method = opts.method;
    headers = api_headers s opts;
    body = opts.body;
  }

  pub send_request : String → Options → Exec Browser Response
  send_request path opts b = fetch (api_request path opts b.session) b

  -- api(path, opts, false)
  pub api_again : String → Options → Exec Browser (Option Json)
  api_again path opts = do res ← send_request path opts; api_result res

  -- `res.status === 401 && retry && (await tryRefresh())`
  pub api_retry : String → Options → Response → Exec Browser (Option Json)
  unfolding try_refresh api_again
  api_retry path opts res =
      if res.status == 401
      then (do renewed ← try_refresh; if renewed then api_again path opts else api_result res)
      else api_result res

  -- api(path, opts)
  pub api : String → Options → Exec Browser (Option Json)
  unfolding api_retry send_request fetch
  api path opts = do res ← send_request path opts; api_retry path opts res
