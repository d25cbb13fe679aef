-- ===== src/Tools/Swagger/Endpoints.antt =====
-- The endpoints that the Swagger page lists, and what it hands to the API Client.
use rafineai_self_hosted.Prelude.{
  ℕ, suc, String, Bool, true, false, Option, none, some, List, [], ◌∷◌, ◌++◌, map, All, ◌≡◌, refl,
  ap, ◌∙◌, ◌===◌, if◌then◌else◌, Option-cases, not, ◌==◌, is_empty, arith, inl, inr,
}
use rafineai_self_hosted.Exec.{ok}
use rafineai_self_hosted.Json.{
  Json, null, bool, num, str, words, obj, arr, lookup, Items, nil, cons, Fields, end, field, member,
  value, entries,
}
use rafineai_self_hosted.Page.{Machine}
use rafineai_self_hosted.Tools.ApiClient.{ApiClient, prefill}
use rafineai_self_hosted.Tools.Swagger.{
  Endpoint, Swagger, or_else, method_name, summary_of, push, methods_of, path_item, paths_of,
  indexed_paths, endpoints_of, parse_spec, endpoint_at, send_to_api_client,
}
use Prim.Native.String
use mathlib.Core.Path.{subst}

-- The paths of a document: each with its members, and each member an object.
abbrev pub Routes : Type 0
Routes = List (String × List (String × Fields))

abbrev members : List (String × Fields) → Fields
members ops = entries (map (λ (o : String × Fields). (o.0, obj o.1)) ops)

abbrev pub paths : Routes → Fields
paths rs = entries (map (λ (r : String × List (String × Fields)). (r.0, obj (members r.1))) rs)

-- The members of a path that are methods, each with its name on the page.
abbrev pub methods : List (String × String)
methods =
    ("get", "GET")
    ∷ ("post", "POST")
    ∷ ("put", "PUT")
    ∷ ("patch", "PATCH")
    ∷ ("delete", "DELETE")
    ∷ []

abbrev pub name_in : List (String × String) → String → Option String
name_in [] m = none
name_in ((k, v) ∷ table) m = if m === k then some v else name_in table m

-- The values that a description takes for missing: null, false, 0 and "".
abbrev pub is_missing : Option Json → Bool
is_missing none = true
is_missing (some null) = true
is_missing (some (bool b)) = not b
is_missing (some (num n)) = n == 0
is_missing (some (str s)) = s === ""
is_missing (some (words t)) = is_empty t
is_missing (some v) = false

abbrev pub first_given : Option Json → Json → Json
first_given none default = default
first_given (some v) default = if is_missing (some v) then default else v

-- The summary of an operation, else its operation id, else nothing.
abbrev pub description : Fields → Json
unfolding lookup
description op = first_given (lookup "summary" op) (first_given (lookup "operationId" op) (str ""))

-- What the page should list: the members that are methods, path by path.
abbrev pub listed_if : Option String → String → Fields → List Endpoint
listed_if none path op = []
listed_if (some m) path op = record { method = m; path = path; summary = description op } ∷ []

abbrev pub operations : String → List (String × Fields) → List Endpoint
operations path [] = []
operations path ((m, op) ∷ ops) = listed_if (name_in methods m) path op ++ operations path ops

abbrev pub listing : Routes → List Endpoint
listing [] = []
listing ((path, ops) ∷ rs) = operations path ops ++ listing rs

method_name-name_in : (m : String) → method_name m ≡ name_in methods m
unfolding method_name
method_name-name_in m = refl

or_else-first_given : (v w : Json) → or_else (value v) w ≡ first_given (some v) w
unfolding or_else
or_else-first_given null w = refl
or_else-first_given (bool b) w = ground arith
or_else-first_given (num n) w = ground arith
or_else-first_given (str s) w = ground arith
or_else-first_given (words t) w = ground arith
or_else-first_given (arr vs) w = refl
or_else-first_given (obj fs) w = refl

member-first_given :
    (k : String) (op : Fields) (w : Json)
    → or_else (member k (obj op)) w ≡ first_given (lookup k op) w
unfolding or_else member
member-first_given k op w = elim (Option-cases (lookup k op)) [
  | inl e ↦ rw e refl
  | inr (v, e) ↦ rw e (or_else-first_given v w)
]

summary_of-description : (op : Fields) → summary_of (obj op) ≡ description op
unfolding summary_of description
summary_of-description op =
    member-first_given "summary" op (or_else (member "operationId" (obj op)) (str ""))
    ∙ ap (first_given (lookup "summary" op)) (member-first_given "operationId" op (str ""))

methods_of-members :
    (path : String) (ops : List (String × Fields)) (rest : List Endpoint)
    → methods_of path (members ops) (some rest) ≡ some (operations path ops ++ rest)
unfolding methods_of
methods_of-members path [] rest = refl
methods_of-members path ((m, op) ∷ ops) rest = elim (Option-cases (name_in methods m)) [
  | inl e ↦ rw (method_name-name_in m, e, methods_of-members path ops rest) refl
  | inr (n, e) ↦
      rw (method_name-name_in m, e, methods_of-members path ops rest, summary_of-description op)
        refl
]

paths_of-paths : (rs : Routes) → paths_of (paths rs) ≡ some (listing rs)
unfolding paths_of
paths_of-paths [] = refl
paths_of-paths ((path, ops) ∷ rs) =
    ap (methods_of path (members ops)) (paths_of-paths rs)
    ∙ methods_of-members path ops (listing rs)

module _ (parse : String → Option Json) (to_string : Json → String) (no_object : String)
    {W : Type 0} where
  -- Of a text that reads as a document whose info is an object and whose paths are objects of objects, the page
  -- lists, in their order, exactly the members that are called get, post, put, patch or delete, each
  -- as the method GET, POST, PUT, PATCH or DELETE with its path and with its summary, else its
  -- operation id, else "" (null, false, 0 and "" count as missing), and it reports no error.
  pub parse_spec-listing :
      (raw : String) (spec : Json) (info : Fields) (rs : Routes) (m : Machine Swagger W)
      → parse raw ≡ some spec
      → member "info" spec ≡ value (obj info)
      → member "paths" spec ≡ value (obj (paths rs))
      → ((parse_spec parse to_string no_object raw m).0 ≡ ok tt)
        × ((parse_spec parse to_string no_object raw m).1.ui.endpoints ≡ listing rs)
        × ((parse_spec parse to_string no_object raw m).1.ui.error ≡ "")
  unfolding parse_spec or_else endpoints_of
  parse_spec-listing raw spec info rs m h k l = rw (h, k, l, paths_of-paths rs) (refl, refl, refl)

-- Whatever holds of an endpoint with a method that is no blank holds of every endpoint.
abbrev AllOf : (Endpoint → Type 0) → Option (List Endpoint) → Type 0
AllOf P none = Unit
AllOf P (some eps) = All P eps

-- No name of a method is blank.
abbrev Named : Option String → Type 0
Named none = Unit
Named (some n) = (n === "") ≡ false

five-Named :
    (a b c d e : Bool)
    → Named (
        if a
        then some "GET"
        else if b
        then some "POST"
        else if c
        then some "PUT"
        else if d
        then some "PATCH"
        else if e
        then some "DELETE"
        else none)
five-Named true b c d e = refl
five-Named false true c d e = refl
five-Named false false true d e = refl
five-Named false false false true e = refl
five-Named false false false false true = refl
five-Named false false false false false = tt

method_name-Named : (m : String) → Named (method_name m)
unfolding method_name
method_name-Named m =
    five-Named (m === "get") (m === "post") (m === "put") (m === "patch") (m === "delete")

module _ (P : Endpoint → Type 0)
    (known : (m path : String) (v : Json)
      → (m === "") ≡ false
      → P (record { method = m; path = path; summary = v }))
    (to_string : Json → String) where
  push-AllOf : (e : Endpoint) (o : Option (List Endpoint)) → P e → AllOf P o → AllOf P (push e o)
  push-AllOf e none h k = tt
  push-AllOf e (some es) h k = (h, k)

  endpoint_at-AllOf :
      (path : String) (op : Json) (o : Option String) (rest : Option (List Endpoint))
      → ((n : String) → o ≡ some n → (n === "") ≡ false)
      → AllOf P rest
      → AllOf P (endpoint_at path op o rest)
  unfolding endpoint_at
  endpoint_at-AllOf path op none rest h k = k
  endpoint_at-AllOf path null (some n) rest h k = tt
  endpoint_at-AllOf path op (some n) rest h k = push-AllOf _ rest (known n path _ (h n refl)) k

  methods_of-AllOf :
      (path : String) (fs : Fields) (rest : Option (List Endpoint))
      → AllOf P rest
      → AllOf P (methods_of path fs rest)
  unfolding methods_of
  methods_of-AllOf path end rest k = k
  methods_of-AllOf path (field m op fs) rest k =
      endpoint_at-AllOf path op (method_name m) _ (λ n e. subst Named e (method_name-Named m))
        (methods_of-AllOf path fs rest k)

  path_item-AllOf :
      (path : String) (v : Json) (rest : Option (List Endpoint))
      → AllOf P rest
      → AllOf P (path_item path v rest)
  unfolding path_item
  path_item-AllOf path null rest k = tt
  path_item-AllOf path (obj fs) rest k = methods_of-AllOf path fs rest k
  path_item-AllOf path v rest k = k

  paths_of-AllOf : (fs : Fields) → AllOf P (paths_of fs)
  unfolding paths_of
  paths_of-AllOf end = tt
  paths_of-AllOf (field path v fs) = path_item-AllOf path v (paths_of fs) (paths_of-AllOf fs)

  indexed_paths-AllOf : (i : ℕ) (vs : Items) → AllOf P (indexed_paths to_string i vs)
  unfolding indexed_paths
  indexed_paths-AllOf i nil = tt
  indexed_paths-AllOf i (cons v vs) = path_item-AllOf _ v _ (indexed_paths-AllOf (suc i) vs)

  endpoints_of-AllOf : (v : Json) → AllOf P (endpoints_of to_string v)
  unfolding endpoints_of
  endpoints_of-AllOf (obj fs) = paths_of-AllOf fs
  endpoints_of-AllOf (arr vs) = indexed_paths-AllOf 0 vs
  endpoints_of-AllOf v = tt

-- The method and the url that the API Client opens with.
abbrev pub handed_over : (Json → String) → Endpoint → Swagger → ApiClient → ApiClient
unfolding or_else
handed_over to_string ep s c =
    let url = String.◌++◌ (to_string (or_else (value s.base_url) (str ""))) ep.path in
    record c { method = ep.method; url = if url === "" then c.url else url }

-- Of every endpoint that any document gives, sendToApiClient hands over its method and its url, the
-- base url before the path: with the prefill that it stored the API Client has that method, and that
-- url where it is not blank.
pub send_to_api_client-prefill :
    (to_string : Json → String) (doc : Json) (eps : List Endpoint) (s : Swagger) (c : ApiClient)
    → endpoints_of to_string doc ≡ some eps
    → All
        (λ (ep : Endpoint).
          prefill (send_to_api_client to_string ep s).stored c ≡ handed_over to_string ep s c)
        eps
unfolding send_to_api_client
send_to_api_client-prefill to_string doc eps s c h = subst (AllOf _) h (
    endpoints_of-AllOf
      (λ (ep : Endpoint).
        prefill (send_to_api_client to_string ep s).stored c ≡ handed_over to_string ep s c)
      (λ m path v named. rw named refl) to_string doc)
