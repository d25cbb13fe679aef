-- ===== src/Client/Tests.antt =====
-- The client at a session whose access token has expired.
use rafineai_self_hosted.Prelude.{false, ◌+◌, ◌≤◌, String, some, none, [], ◌∷◌, ◌≡◌, refl, length}
use rafineai_self_hosted.Exec.{ok}
use rafineai_self_hosted.Json.{Json, str, object, lookup}
use rafineai_self_hosted.Client.{no_body, response, Options, Browser, Platform, Request, api}
use rafineai_self_hosted.Client.Retry.{latest, value_of, api-sent_bound, api-authorized}
use rafineai_self_hosted.Client.{clear_session, set_session}
use rafineai_self_hosted.Client.Calls.{renewal, api-renewal}
use rafineai_self_hosted.Client.Sessions.{
  Tab, Step, Run, log_out, done, then_step, Run-out, revived,
}
use rafineai_self_hosted.Page.Samples.{signed_in}

abbrev words_of : Json → String
words_of (str s) = s
words_of j = "…"

abbrev platform : Platform
platform = record { to_string = words_of; stringify = words_of }

abbrev tokens : Json
tokens =
    object (("access_token", str "t2") ∷ ("refresh_token", str "r2") ∷ ("role", str "admin") ∷ [])

abbrev options : Options
options = record { method = "GET"; headers = []; body = no_body }

-- The request is refused, the refresh gives new tokens, and the second request succeeds.
abbrev expired : Browser
expired = record {
  session = signed_in;
  network =
      response (record { status = 401; status_text = "Unauthorized"; body = none })
      ∷ response (record { status = 200; status_text = "OK"; body = some tokens })
      ∷ response (record { status = 200; status_text = "OK"; body = some (str "fine") })
      ∷ [];
  sent = [];
}

expired_answer : (api platform "/api/teams" options expired).0 ≡ ok (some (str "fine"))
unfolding api
expired_answer = refl

expired_requests : length (api platform "/api/teams" options expired).1.sent ≡ 3
unfolding api
expired_requests = refl

api-sent_bound_example :
    length (api platform "/api/teams" options expired).1.sent ≤ length expired.sent + 3
api-sent_bound_example = api-sent_bound platform "/api/teams" options expired

api-authorized_example :
    (q : Request) × (latest "/api/teams" (api platform "/api/teams" options expired).1 ≡ some q)
    × (q.method ≡ "GET")
    × (q.body ≡ no_body)
    × (value_of "authorization" q.headers ≡ some "Bearer t2")
unfolding api lookup
api-authorized_example = api-authorized platform "/api/teams" options expired (λ e. cc)

abbrev signed_out : Tab
signed_out = record { session = clear_session; refreshing = 0 }

Run-out_example : (signed_out.session ≡ clear_session) × (signed_out.refreshing ≡ 0)
Run-out_example = Run-out signed_out signed_out refl refl (then_step done log_out)

revived_example :
    (u : Tab) × (t : Tab) × Step false (record { session = signed_in; refreshing = 1 }) u
    × (u.session ≡ clear_session)
    × Run false u t
    × (t.session ≡ set_session "t2" "r2" "admin")
revived_example = revived (record { session = signed_in; refreshing = 1 }) 0 "t2" "r2" "admin" refl

api-renewal_example :
    (api platform "/api/teams" options expired).1.session
    ≡ renewal platform expired.network signed_in
api-renewal_example = api-renewal platform "/api/teams" options expired
