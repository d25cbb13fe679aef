-- ===== src/Client/Calls.antt =====
-- What `api` makes of the stored session, and its calls as runs of the steps of Client/Sessions.
use rafineai_self_hosted.Prelude.{
  String, Option, none, some, List, [], ◌∷◌, ◌≡◌, ◌≢◌, refl, sym, ◌⊎◌, inl, inr, Bool, false, true,
  not, ◌&&◌, leb, ◌===◌, ◌∙◌, Bool-cases, ◌==◌, if◌then◌else◌, arith, Option-cases,
}
use mathlib.Core.Path.{subst}
use rafineai_self_hosted.Exec.{◌>>=◌}
use rafineai_self_hosted.Exec.Rules.{Preserves, Preserves-cond, bind-at}
use rafineai_self_hosted.Json.{Json, null, member}
use rafineai_self_hosted.Client.{
  clear_session, Session, Response, Reply, network_error, response, api_result, Options, Browser,
  Request, Platform, fetch, set_session, member_text, truthy, try_refresh, api_again, api_retry,
  api, send_request,
}
use rafineai_self_hosted.Client.Sessions.{
  Tab, Run, begin_refresh, end_refresh, done, then_step, Run-out,
}

-- The tab of a page between its calls.
abbrev pub tab : Session → Tab
tab s = record { session = s; refreshing = 0 }

abbrev body_of : Option Json → Json
body_of none = null
body_of (some j) = j

abbrev next_body : List Reply → Json
next_body [] = null
next_body (network_error ∷ rest) = null
next_body (response r ∷ rest) = body_of r.body

-- A token that is neither missing nor blank.
abbrev pub is_present : Option String → Bool
is_present none = false
is_present (some t) = not (t === "")

nested_tests :
    (a b : Bool) (s t : Session)
    → (if a then (if b then s else t) else t) ≡ (if a && b then s else t)
nested_tests true b s t = refl
nested_tests false b s t = refl

module _ (platform : Platform) where
  abbrev tokens_of : Json → Session
  tokens_of j =
      set_session (member_text platform (member "access_token" j))
        (member_text platform (member "refresh_token" j)) (member_text platform (member "role" j))

  try_refresh-cases :
      (b : Browser)
      → ((try_refresh platform b).1.session ≡ b.session)
        ⊎ ((truthy b.session.refresh ≢ none)
            × ((try_refresh platform b).1.session ≡ tokens_of (next_body b.network)))
  unfolding try_refresh fetch
  try_refresh-cases b = ground arith

  -- What a request keeps, apart from the refresh: whatever holds of the session.
  module _ (T : Session → Type 0) where
    abbrev Kept : Browser → Type 0
    Kept b = T b.session

    api_result-Kept : (res : Response) → Preserves Kept (api_result platform res)
    api_result-Kept res b h =
        let same : (api_result platform res b).1 ≡ b = ground arith in rw same h

    module _ (path : String) (opts : Options) where
      send_request-Kept : Preserves Kept (send_request platform path opts)
      unfolding send_request fetch
      send_request-Kept b h = h

      api_again-Kept : Preserves Kept (api_again platform path opts)
      unfolding api_again
      api_again-Kept b h =
          bind-at {P = Kept} (send_request platform path opts) (api_result platform) b
            (send_request-Kept b h) api_result-Kept

      retried-Kept :
          (res : Response) (renewed : Bool)
          → Preserves Kept
              (if renewed then api_again platform path opts else api_result platform res)
      retried-Kept res renewed =
          Preserves-cond renewed (api_again platform path opts) (api_result platform res)
            api_again-Kept (api_result-Kept res)

  module _ (s : Session) where
    -- The session of the browser is one that steps without a login lead to.
    abbrev Follows : Browser → Type 0
    Follows b = Run false (tab s) (tab b.session)

    Follows-same : (b c : Browser) → c.session ≡ b.session → Follows b → Follows c
    Follows-same b c e h = subst (λ t. Run false (tab s) (tab t)) (sym e) h

    refreshed :
        (b : Browser) (j : Json)
        → truthy b.session.refresh ≢ none
        → Follows b
        → Run false (tab s) (tab (tokens_of j))
    refreshed b j held h = elim (Option-cases (truthy b.session.refresh)) [
      | inl e ↦ absurd (held e)
      | inr (token, e) ↦ then_step (then_step h (begin_refresh token e)) (
          end_refresh 0 (member_text platform (member "access_token" j))
            (member_text platform (member "refresh_token" j))
            (member_text platform (member "role" j)) refl)
    ]

    try_refresh-Follows : Preserves Follows (try_refresh platform)
    try_refresh-Follows b h = elim (try_refresh-cases b) [
      | inl same ↦ Follows-same b (try_refresh platform b).1 same h
      | inr (held, e) ↦
          subst (λ t. Run false (tab s) (tab t)) (sym e) (refreshed b (next_body b.network) held h)
    ]

    module _ (path : String) (opts : Options) where
      api_retry-Follows : (res : Response) → Preserves Follows (api_retry platform path opts res)
      unfolding api_retry
      api_retry-Follows res =
          Preserves-cond (res.status == 401)
            (try_refresh platform >>= λ renewed.
              if renewed then api_again platform path opts else api_result platform res)
            (api_result platform res)
            (λ b h.
              bind-at {P = Follows} (try_refresh platform)
                (λ renewed.
                  if renewed then api_again platform path opts else api_result platform res)
                b (try_refresh-Follows b h)
                (retried-Kept (λ t. Run false (tab s) (tab t)) path opts res))
            (api_result-Kept (λ t. Run false (tab s) (tab t)) res)

  -- Whatever the network answers, what `api` does to the stored session is a run of the steps of
  -- Client/Sessions without a login, which leaves no refresh that awaits its answer.
  pub api-Run :
      (path : String) (opts : Options) (b : Browser)
      → Run false (tab b.session) (tab (api platform path opts b).1.session)
  unfolding api
  api-Run path opts b =
      bind-at {P = Follows b.session} (send_request platform path opts)
        (api_retry platform path opts) b
        (send_request-Kept (λ t. Run false (tab b.session) (tab t)) path opts b done)
        (api_retry-Follows b.session path opts)

  -- The session after a body with new tokens came.
  abbrev pub renewed_by : Option Json → Session → Session
  renewed_by none s = s
  renewed_by (some null) s = s
  renewed_by (some j) s = record {
    access = some (member_text platform (member "access_token" j));
    refresh = some (member_text platform (member "refresh_token" j));
    role = some (member_text platform (member "role" j));
  }

  -- The session after a call, by the answers of the network to the request and to the refresh.
  abbrev pub renewal : List Reply → Session → Session
  renewal (response first ∷ response second ∷ rest) s =
      if first.status == 401
        && (is_present s.refresh && leb 200 second.status && leb second.status 299)
      then renewed_by second.body s
      else s
  renewal answers s = s

  -- What the refresh makes of it, by its answer.
  abbrev refresh_renewal : Response → Session → Session
  refresh_renewal res s =
      if is_present s.refresh && leb 200 res.status && leb res.status 299
      then renewed_by res.body s
      else s

  try_refresh-renewal :
      (s : Session) (res : Response) (rest : List Reply) (sent : List Request)
      → (try_refresh platform
          (record { session = s; network = response res ∷ rest; sent = sent })).1.session
        ≡ refresh_renewal res s
  unfolding try_refresh fetch
  try_refresh-renewal s res rest sent = ground arith

  api_retry-renewal :
      (path : String) (opts : Options) (first second : Response) (s : Session) (rest : List Reply)
      (sent : List Request)
      → (api_retry platform path opts first
          (record { session = s; network = response second ∷ rest; sent = sent })).1.session
        ≡ (if first.status == 401 then refresh_renewal second s else s)
  unfolding api_retry
  api_retry-renewal path opts first second s rest sent = elim (Bool-cases (first.status == 401)) [
    | inl h ↦ rw h (
        bind-at {P = λ c. c.session ≡ refresh_renewal second s} (try_refresh platform)
          (λ renewed. if renewed then api_again platform path opts else api_result platform first)
          (record { session = s; network = response second ∷ rest; sent = sent })
          (try_refresh-renewal s second rest sent)
          (retried-Kept (λ t. t ≡ refresh_renewal second s) path opts first))
    | inr h ↦ rw h (
        api_result-Kept (λ t. t ≡ s) first
          (record { session = s; network = response second ∷ rest; sent = sent }) refl)
  ]

  renewal-at :
      (path : String) (opts : Options) (s : Session) (answers : List Reply) (sent : List Request)
      → (api platform path opts (record { session = s; network = answers; sent = sent })).1.session
        ≡ renewal answers s
  unfolding api
  renewal-at path opts s [] sent = refl
  renewal-at path opts s (network_error ∷ rest) sent = refl
  renewal-at path opts s (response first ∷ []) sent = ground arith
  renewal-at path opts s (response first ∷ network_error ∷ rest) sent = ground arith
  renewal-at path opts s (response first ∷ response second ∷ rest) sent =
      api_retry-renewal path opts first second s rest _
      ∙ nested_tests (first.status == 401)
          (is_present s.refresh && leb 200 second.status && leb second.status 299)
          (renewed_by second.body s) s

  -- What a call of `api` makes of the stored session, whatever the network answers: if it answers the request
  -- with 401, a refresh token that is not blank is stored, and it answers the refresh with a status
  -- from 200 to 299 and a body that is JSON and not null, then the session has the access token, the
  -- refresh token and the role of that body; in every other case the session is unchanged.
  pub api-renewal :
      (path : String) (opts : Options) (b : Browser)
      → (api platform path opts b).1.session ≡ renewal b.network b.session
  api-renewal path opts b = renewal-at path opts b.session b.network b.sent

  -- So a call of `api` while nobody is signed in leaves it at that.
  pub api-signed_out :
      (path : String) (opts : Options) (b : Browser)
      → b.session ≡ clear_session
      → (api platform path opts b).1.session ≡ clear_session
  api-signed_out path opts b out =
      (Run-out (tab b.session) (tab (api platform path opts b).1.session) out refl
        (api-Run path opts b)).0
