-- ===== src/Schemas/Bodies.antt =====
-- The bodies that the forms of the panel send, against the types that the API declares for them.
use rafineai_self_hosted.Prelude.{String, true, List, [], ◌∷◌, map, includes, arith, ◌≡◌, refl}
use rafineai_self_hosted.Json.{Json, str, array}
use rafineai_self_hosted.Pages.Policy.{RuleForm, rule_fields}
use rafineai_self_hosted.Pages.Policy.View.{kinds, actions, severities}
use rafineai_self_hosted.Pages.Providers.{Form, payload}
use rafineai_self_hosted.Pages.Providers.View.{types, modes}
use rafineai_self_hosted.Pages.Users.{Users, user_fields}
use rafineai_self_hosted.Pages.Users.View.{roles}
use rafineai_self_hosted.Pages.Teams.{Teams, team_fields}
use rafineai_self_hosted.Schemas.{
  count, texts, fits, user_create, provider_create, rule_create, team_create, conforms,
}
use rafineai_self_hosted.Schemas

abbrev values : List (String × String) → List String
values = map (λ (o : String × String). o.0)

-- A form of the policy page whose selects have one of their options sends what the API declares for a
-- new rule: only declared members, each of its type, and every required one.
pub rule_fields-conforms :
    (f : RuleForm)
    → includes f.kind (values kinds) ≡ true
    → includes f.action (values actions) ≡ true
    → includes f.severity (values severities) ≡ true
    → conforms rule_create (rule_fields f) ≡ true
unfolding conforms rule_create fits
rule_fields-conforms f kind action severity = ground arith

-- A number that a field gives is a natural number or null (NaN).
abbrev pub IsCount : Json → Type 0
IsCount v = fits (Schemas.optional count) v ≡ true

-- The form of the users page, where its select has one of its options and each of its two numbers reads as
-- a natural number or as NaN, sends a body that has the types that the API declares for a new user: no
-- other members, and all the required ones. (How long a password is and what a mail looks like is not
-- in these types.)
pub user_fields-conforms :
    (parse_int : String → Json) (s : Users)
    → includes s.role roles ≡ true
    → IsCount (parse_int s.rpm)
    → IsCount (parse_int s.daily)
    → conforms user_create (user_fields parse_int s) ≡ true
unfolding conforms user_create fits user_fields roles
user_fields-conforms parse_int s role rpm daily = ground arith

-- The form of the providers page, where its selects have one of their options and the threshold reads
-- as a natural number or as NaN, sends in either mode of authorization a body that has the types that
-- the API declares for a new provider: no other members, and all the required ones.
pub payload-conforms :
    (parse_int : String → Json) (f : Form)
    → includes f.type types ≡ true
    → includes f.auth_mode (values modes) ≡ true
    → IsCount (parse_int f.route_threshold_tokens)
    → conforms provider_create (payload parse_int f) ≡ true
unfolding conforms provider_create fits payload types modes
payload-conforms parse_int f type mode threshold = ground arith

texts-array : (xs : List String) → fits texts (array str xs) ≡ true
unfolding fits
texts-array [] = refl
texts-array (x ∷ xs) = texts-array xs

-- The form of the teams page, whose limits are free text, sends what the API declares for a new team if each
-- limit that is not blank reads as a natural number or as NaN, which JSON writes as null.
pub team_fields-conforms :
    (to_number : String → Json) (s : Teams)
    → IsCount (to_number s.rpm)
    → IsCount (to_number s.quota)
    → conforms team_create (team_fields to_number s) ≡ true
unfolding conforms team_create fits team_fields
team_fields-conforms to_number s rpm quota = ground (arith, texts-array s.provider_ids)
