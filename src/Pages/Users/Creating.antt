-- ===== src/Pages/Users/Creating.antt =====
-- Creating a user.
use rafineai_self_hosted.Prelude.{String, Bool, not, List, ◌≡◌, any, arith, ◌===◌}
use rafineai_self_hosted.Json.{Json}
use rafineai_self_hosted.Pages.Users.{Users, user_fields}

abbrev pub has_key : String → List (String × Json) → Bool
has_key k fs = any (λ (f : String × Json). f.0 === k) fs

-- The request carries a password, a rate limit or a quota exactly where the field is not blank.
pub user_fields-has_key :
    (parse_int : String → Json) (s : Users)
    → (has_key "password" (user_fields parse_int s) ≡ not (s.password === ""))
      × (has_key "rate_limit_rpm" (user_fields parse_int s) ≡ not (s.rpm === ""))
      × (has_key "daily_token_quota" (user_fields parse_int s) ≡ not (s.daily === ""))
unfolding user_fields
user_fields-has_key parse_int s = ground arith
