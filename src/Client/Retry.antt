-- ===== src/Client/Retry.antt =====
-- The retry of `api`: at most one refresh, and never a stale token.
use rafineai_self_hosted.Prelude.{
  ◌+◌, ◌≤◌, String, Option, some, ◌≡◌, refl, ◌≢◌, ◌⊎◌, inl, inr, Bool, true, false, ◌==◌,
  if◌then◌else◌, none, [], ◌∷◌, ◌∙◌, Option-cases, Bool-cases, length, find, arith, ◌===◌, eq_iff,
}
use rafineai_self_hosted.Exec.{Outcome, ok, fail, Failure, Exec, continue, ◌>>=◌}
use rafineai_self_hosted.Exec.Rules.{Preserves, Preserves-cond, bind-at}
use rafineai_self_hosted.Json.{Json, member}
use rafineai_self_hosted.Client.{
  Session, Response, api_result, Options, Request, Browser, Platform, fetch, set_session,
  member_text, Headers, set_header, bearer, authorize, api_headers, try_refresh, api_request,
  api_again, api_retry, api, send_request,
}
use rafineai_self_hosted.Client.Transfers.{login}
use Prim.Native.String

-- The latest request to a path.
abbrev pub latest : String → Browser → Option Request
latest path b = find (λ (q : Request). q.path === path) b.sent

-- The value of a header.
abbrev pub value_of : String → Headers → Option String
value_of name [] = none
value_of name ((k, v) ∷ hs) = if k === name then some v else value_of name hs

-- The authorization that goes with an access token, and without one the header `given`.
abbrev pub carried : Option String → Option String → Option String
carried none given = given
carried (some t) given = if t === "" then given else some (String.◌++◌ "Bearer " t)

set_header-value_of :
    (name v : String) (hs : Headers) → value_of name (set_header name v hs) ≡ some v
unfolding set_header
set_header-value_of name v [] = rw ((eq_iff name name).1 refl) refl
set_header-value_of name v ((k, w) ∷ hs) = ground (arith, set_header-value_of name v hs)

set_header-value_of_other :
    (name other v : String) (hs : Headers)
    → (other === name) ≡ false
    → value_of name (set_header other v hs) ≡ value_of name hs
unfolding set_header
set_header-value_of_other name other v [] h = rw h refl
set_header-value_of_other name other v ((k, w) ∷ hs) h =
    ground (arith, set_header-value_of_other name other v hs h, eq_iff k other)

authorize-authorization :
    (s : Session) (hs : Headers)
    → value_of "authorization" (authorize s hs) ≡ carried s.access (value_of "authorization" hs)
unfolding authorize
authorize-authorization s hs = elim (Option-cases s.access) [
  | inl e ↦ rw e refl
  | inr (t, e) ↦ elim (Bool-cases (t === "")) [
    | inl blank ↦ rw (e, blank) refl
    | inr given ↦ rw (e, given) (set_header-value_of "authorization" (bearer t) hs)
  ]
]

content_type-authorization :
    (json_body : Bool) (hs : Headers)
    → value_of "authorization"
        (if json_body then set_header "content-type" "application/json" hs else hs)
      ≡ value_of "authorization" hs
content_type-authorization true hs =
    set_header-value_of_other "authorization" "content-type" "application/json" hs refl
content_type-authorization false hs = refl

api_headers-authorization :
    (s : Session) (opts : Options)
    → value_of "authorization" (api_headers s opts)
      ≡ carried s.access (value_of "authorization" opts.headers)
unfolding api_headers
api_headers-authorization s opts =
    content_type-authorization _ (authorize s opts.headers) ∙ authorize-authorization s opts.headers

module _ (platform : Platform) where
  -- Whatever the network answers, `api` makes at most three requests.
  pub api-sent_bound :
      (path : String) (opts : Options) (b : Browser)
      → length (api platform path opts b).1.sent ≤ length b.sent + 3
  unfolding api
  api-sent_bound path opts b = ground arith

  module _ (path : String) (opts : Options) (other : path ≢ "/api/auth/refresh") where
    abbrev Authorized : Browser → Type 0
    Authorized b = latest path b ≡ some (api_request platform path opts b.session)

    send_request-Authorized : (b : Browser) → Authorized (send_request platform path opts b).1
    unfolding send_request fetch
    send_request-Authorized b = rw ((eq_iff path path).1 refl)

    api_result-Preserves :
        (P : Browser → Type 0) (res : Response) → Preserves P (api_result platform res)
    api_result-Preserves P res b h =
        let same : (api_result platform res b).1 ≡ b = ground arith in rw same h

    api_again-Authorized : (b : Browser) → Authorized (api_again platform path opts b).1
    unfolding api_again
    api_again-Authorized b =
        bind-at {P = Authorized} (send_request platform path opts) (api_result platform) b
          (send_request-Authorized b) (api_result-Preserves Authorized)

    try_refresh-Authorized :
        (b : Browser)
        → Authorized b
        → ((try_refresh platform b).0 ≡ ok true) ⊎ Authorized (try_refresh platform b).1
    unfolding try_refresh
    try_refresh-Authorized b h = ground (arith, eq_iff "/api/auth/refresh" path)

    abbrev after_refresh : Response → Bool → Exec Browser (Option Json)
    after_refresh res renewed =
        if renewed then api_again platform path opts else api_result platform res

    after_refresh-Authorized :
        (res : Response) (o : Outcome Bool) (c : Browser)
        → (o ≡ ok true) ⊎ Authorized c
        → Authorized (continue o (after_refresh res) c).1
    after_refresh-Authorized res (ok true) c h = api_again-Authorized c
    after_refresh-Authorized res (ok false) c (inl e) = cc
    after_refresh-Authorized res (ok false) c (inr a) = api_result-Preserves Authorized res c a
    after_refresh-Authorized res (fail e) c (inl e') = cc
    after_refresh-Authorized res (fail e) c (inr a) = a

    api_retry-Authorized :
        (res : Response) → Preserves Authorized (api_retry platform path opts res)
    unfolding api_retry
    api_retry-Authorized res =
        Preserves-cond (res.status == 401) (try_refresh platform >>= after_refresh res)
          (api_result platform res)
          (λ c k.
            after_refresh-Authorized res (try_refresh platform c).0 (try_refresh platform c).1
              (try_refresh-Authorized c k))
          (api_result-Preserves Authorized res)

  api_requested :
      (path : String) (opts : Options) (b : Browser)
      → path ≢ "/api/auth/refresh"
      → latest path (api platform path opts b).1
        ≡ some (api_request platform path opts (api platform path opts b).1.session)
  unfolding api
  api_requested path opts b h =
      bind-at {P = Authorized path opts h} (send_request platform path opts)
        (api_retry platform path opts) b (send_request-Authorized path opts h b)
        (api_retry-Authorized path opts h)

  -- Whatever the network answers to a call of `api` with another path than "/api/auth/refresh": the latest
  -- request to the path has the method and the body of the call, and its authorization is "Bearer " with
  -- the access token that is stored when `api` ends, so that a retry after a refresh carries the new
  -- one; where that token is missing or blank, it is the one that the call gave, if any.
  pub api-authorized :
      (path : String) (opts : Options) (b : Browser)
      → path ≢ "/api/auth/refresh"
      → (q : Request) × (latest path (api platform path opts b).1 ≡ some q)
        × (q.method ≡ opts.method)
        × (q.body ≡ opts.body)
        × (value_of "authorization" q.headers
            ≡ carried
                (api platform path opts b).1.session.access
                (value_of "authorization" opts.headers))
  api-authorized path opts b h =
      let s = (api platform path opts b).1.session in
      (
        api_request platform path opts s,
        api_requested path opts b h,
        refl,
        refl,
        api_headers-authorization s opts,
      )

  -- What a login makes of the session: the tokens that it returned, or no change.
  abbrev pub after_login : Outcome Json → Session → Session
  after_login (ok j) s =
      set_session (member_text platform (member "access_token" j))
        (member_text platform (member "refresh_token" j)) (member_text platform (member "role" j))
  after_login (fail e) s = s

  after_login-cases :
      (o : Outcome Json) (s t : Session)
      → ((j : Json) → o ≡ ok j → t ≡ after_login (ok j) s)
      → ((e : Failure) → o ≡ fail e → t ≡ s)
      → t ≡ after_login o s
  after_login-cases (ok j) s t h k = h j refl
  after_login-cases (fail e) s t h k = k e refl

  -- A login that returns has stored the tokens that it returns; one that throws has stored nothing.
  pub login-session :
      (email password : String) (b : Browser)
      → (login platform email password b).1.session
        ≡ after_login (login platform email password b).0 b.session
  unfolding login
  login-session email password b =
      after_login-cases (login platform email password b).0 b.session
        (login platform email password b).1.session (λ j h. ground arith) (λ e h. ground arith)
