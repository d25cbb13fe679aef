-- ===== src/Tools/Swagger.antt =====
-- panel/app/(dash)/tools/swagger/page.tsx. JSON.parse is the parameter `parse`, and `to_string` is
-- String(v). A JSON object keeps the order of its members. The prefill that the page stores for the
-- API Client is its method and url. `no_object` is the message of the TypeError at a null.
pub mod Endpoints
pub mod Tests
use rafineai_self_hosted.Prelude.{
  ℕ, suc, ◌+◌, String, Bool, true, false, not, Option, none, some, List, [], ◌∷◌, ◌++◌, map, length,
  is_empty, ◌==◌, ◌===◌, if◌then◌else◌,
}
use rafineai_self_hosted.Exec.{
  Failure, platform_error, message, Exec, Outcome, Done, pure, throw, try_catch, ◌>>=◌, ◌>>◌,
}
use rafineai_self_hosted.Json.{
  Json, null, bool, num, str, words, arr, obj, Items, nil, cons, Fields, end, field, lookup, Member,
  value, undefined, type_error, member, member?, object,
}
use rafineai_self_hosted.ToolTypes.{ApiResponse}
use rafineai_self_hosted.Page.{api_response, post, ◌/+◌, Machine, Env, await_api, set_ui}
use Prim.Native.String

pub record Endpoint : Type 0 where
  pub method : String
  pub path : String
  pub summary : Json

pub record Swagger : Type 0 where
  pub spec_url : String
  pub spec_text : String
  pub base_url : Json
  pub endpoints : List Endpoint
  pub title : Json
  pub error : String
  pub stored : Option (String × String)
  pub location : Option String

-- v || w
abbrev is_truthy : Json → Bool
is_truthy null = false
is_truthy (bool b) = b
is_truthy (num n) = not (n == 0)
is_truthy (str s) = not (s === "")
is_truthy (words t) = not (is_empty t)
is_truthy (arr vs) = true
is_truthy (obj fs) = true

unfoldable pub or_else : Member → Json → Json
or_else (value v) w = if is_truthy v then v else w
or_else undefined w = w
or_else type_error w = w

-- v?.[0], of which only a member is read, which a character of a string does not have
abbrev first_member : Option Json → Member
first_member none = undefined
first_member (some v) = value v

unfoldable pub first? : Member → Member
unfolding lookup
first? (value (arr (cons v vs))) = value v
first? (value (obj fs)) = first_member (lookup "0" fs)
first? _ = undefined

-- ["get", "post", "put", "patch", "delete"].includes(method), and method.toUpperCase()
unfoldable pub method_name : String → Option String
method_name m =
    if m === "get"
    then some "GET"
    else if m === "post"
    then some "POST"
    else if m === "put"
    then some "PUT"
    else if m === "patch"
    then some "PATCH"
    else if m === "delete"
    then some "DELETE"
    else none

-- op.summary || op.operationId || "", where op is no null
unfoldable pub summary_of : Json → Json
unfolding or_else member
summary_of op = or_else (member "summary" op) (or_else (member "operationId" op) (str ""))

-- The endpoints, or `none` for the TypeError.
abbrev pub push : Endpoint → Option (List Endpoint) → Option (List Endpoint)
push e none = none
push e (some es) = some (e ∷ es)

abbrev pub endpoint_at :
    String → Json → Option String → Option (List Endpoint) → Option (List Endpoint)
unfolding summary_of
endpoint_at path op none rest = rest
endpoint_at path null (some m) rest = none
endpoint_at path op (some m) rest =
    push (record { method = m; path = path; summary = summary_of op }) rest

-- The inner loop, before the endpoints of the later paths.
unfoldable pub methods_of : String → Fields → Option (List Endpoint) → Option (List Endpoint)
unfolding endpoint_at method_name
methods_of path end rest = rest
methods_of path (field m op fs) rest = endpoint_at path op (method_name m) (methods_of path fs rest)

abbrev path_item : String → Json → Option (List Endpoint) → Option (List Endpoint)
unfolding methods_of
path_item path null rest = none
path_item path (obj fs) rest = methods_of path fs rest
path_item path _ rest = rest

unfoldable pub paths_of : Fields → Option (List Endpoint)
unfolding path_item
paths_of end = some []
paths_of (field path v fs) = path_item path v (paths_of fs)

unfoldable pub set_spec_url : String → Swagger → Swagger
set_spec_url t s = record s { spec_url = t }

unfoldable pub set_spec_text : String → Swagger → Swagger
set_spec_text t s = record s { spec_text = t }

abbrev pub Handler : Type 0 → Type 0
Handler W = Exec (Machine Swagger W) Done

module _ (to_string : Json → String) where
  -- The names of an array's members are their indices.
  unfoldable pub indexed_paths : ℕ → Items → Option (List Endpoint)
  unfolding path_item
  indexed_paths i nil = some []
  indexed_paths i (cons v vs) = path_item (to_string (num i)) v (indexed_paths (suc i) vs)

  -- The loop over Object.entries(spec.paths || {})
  unfoldable pub endpoints_of : Json → Option (List Endpoint)
  unfolding paths_of indexed_paths
  endpoints_of (obj fs) = paths_of fs
  endpoints_of (arr vs) = indexed_paths 0 vs
  endpoints_of _ = some []

  -- sendToApiClient(ep)
  unfoldable pub send_to_api_client : Endpoint → Swagger → Swagger
  unfolding or_else
  send_to_api_client ep s = record s {
    stored =
        some (ep.method, String.◌++◌ (to_string (or_else (value s.base_url) (str ""))) ep.path);
    location = some "/tools/api-client";
  }

module _ (parse : String → Option Json) (to_string : Json → String) (no_object : String) where
  module _ {W : Type 0} where
    abbrev set_endpoints : Option (List Endpoint) → Handler W
    set_endpoints none = throw (platform_error no_object)
    set_endpoints (some eps) = set_ui (λ s. record s { endpoints = eps })

    abbrev read_spec : Json → Member → Handler W
    unfolding endpoints_of or_else member? member first?
    read_spec spec type_error = throw (platform_error no_object)
    read_spec spec info = do
      set_ui (λ s. record s { title = or_else (member? "title" info) (str "OpenAPI") })
      set_ui (λ s. record s {
        base_url = or_else (member? "url" (first? (member "servers" spec))) (str "");
      })
      set_endpoints (endpoints_of to_string (or_else (member "paths" spec) (obj end)))

    abbrev parsed : Option Json → Handler W
    unfolding read_spec member
    parsed none = set_ui (λ s. record s {
      error = "Geçersiz JSON. (YAML desteklenmez — JSON yapıştırın veya URL kullanın.)";
    })
    parsed (some spec) = read_spec spec (member "info" spec)

    -- parseSpec(raw)
    unfoldable pub parse_spec : String → Handler W
    unfolding parsed
    parse_spec raw = do set_ui (λ s. record s { error = "" }); parsed (parse raw)

    -- loadFromUrl()
    unfoldable pub load_from_url : Env Swagger W → Handler W
    unfolding parse_spec
    load_from_url env m =
        (do
          set_ui (λ s. record s { error = "" })
          try_catch
              (do
                r ← await_api env api_response (
                    post "/api/tools/api-client/send" (
                      object (
                        ("method", str "GET")
                        ∷ ("url", str m.ui.spec_url)
                        ∷ ("headers", obj end)
                        ∷ [])))
                set_ui (λ s. record s { spec_text = r.body })
                parse_spec r.body)
              (λ e. set_ui (λ s. record s { error = message e })))
          m

-- The buttons, and the heading of the endpoints.
unfoldable pub load_disabled : Swagger → Bool
load_disabled s = s.spec_url === ""

unfoldable pub parse_disabled : Swagger → Bool
parse_disabled s = s.spec_text === ""

unfoldable pub heading : Swagger → Option (Json × ℕ × Json)
heading s = if is_empty s.endpoints then none else some (s.title, length s.endpoints, s.base_url)

-- METHOD_COLORS[ep.method] || "text-slate-600"
unfoldable pub method_color : String → String
method_color m =
    if m === "GET"
    then "text-sky-600"
    else if m === "POST"
    then "text-green-600"
    else if m === "PUT"
    then "text-amber-600"
    else if m === "PATCH"
    then "text-amber-600"
    else if m === "DELETE"
    then "text-red-600"
    else "text-slate-600"
