-- ===== src/Schemas.antt =====
-- api/app/schemas.py: the declared types of the request bodies that the panel's forms send. The pattern
-- of a mail and the least length of a password are left out, and so are the schemas of the answers.
pub mod Bodies
pub mod Tests
use rafineai_self_hosted.Prelude.{
  String, Bool, true, false, not, ◌&&◌, ◌||◌, Option, none, some, List, [], ◌∷◌, any, includes,
  ◌===◌, if◌then◌else◌,
}
use rafineai_self_hosted.Json.{Json, null, bool, num, str, words, arr, Items, nil, cons}

-- str, str with a pattern of alternatives, int with ge=0, int, bool, list[str], and `| None`. The numbers of
-- this JSON are the natural ones, so that an int differs from one with ge=0 by its declaration only.
pub data Kind : Type 0 where
  text count integer flag texts : Kind
  one_of : List String → Kind
  optional : Kind → Kind

abbrev is_text : Json → Bool
is_text (str s) = true
is_text (words t) = true
is_text _ = false

abbrev are_texts : Items → Bool
are_texts nil = true
are_texts (cons v vs) = is_text v && are_texts vs

unfoldable pub fits : Kind → Json → Bool
fits text v = is_text v
fits count (num n) = true
fits count _ = false
fits integer (num n) = true
fits integer _ = false
fits flag (bool b) = true
fits flag _ = false
fits texts (arr vs) = are_texts vs
fits texts _ = false
fits (one_of xs) (str s) = includes s xs
fits (one_of xs) _ = false
fits (optional k) null = true
fits (optional k) v = fits k v

-- A field of a schema; one with a default is not required.
pub record Field : Type 0 where
  pub key : String
  pub kind : Kind
  pub required : Bool

abbrev required : String → Kind → Field
required key kind = record { key = key; kind = kind; required = true }

abbrev defaulted : String → Kind → Field
defaulted key kind = record { key = key; kind = kind; required = false }

abbrev count_or_none : Kind
count_or_none = optional count

abbrev text_or_none : Kind
text_or_none = optional text

unfoldable pub user_create : List Field
user_create =
    required "email" text
    ∷ defaulted "password" text_or_none
    ∷ defaulted "role" (one_of ("admin" ∷ "user" ∷ []))
    ∷ defaulted "rate_limit_rpm" count_or_none
    ∷ defaulted "daily_token_quota" count_or_none
    ∷ []

unfoldable pub provider_create : List Field
provider_create =
    required "name" text
    ∷ required "type" (one_of ("openai" ∷ "anthropic" ∷ "gemini" ∷ []))
    ∷ defaulted "auth_mode" (one_of ("api_key" ∷ "oauth2" ∷ []))
    ∷ defaulted "api_key" text_or_none
    ∷ defaulted "oauth_client_id" text_or_none
    ∷ defaulted "oauth_client_secret" text_or_none
    ∷ defaulted "oauth_auth_url" text_or_none
    ∷ defaulted "oauth_token_url" text_or_none
    ∷ defaulted "oauth_scopes" text_or_none
    ∷ defaulted "base_url" text_or_none
    ∷ required "default_model" text
    ∷ defaulted "is_active" flag
    ∷ defaulted "light_model" text_or_none
    ∷ defaulted "heavy_model" text_or_none
    ∷ defaulted "route_threshold_tokens" (optional integer)
    ∷ []

unfoldable pub rule_create : List Field
rule_create =
    required "name" text
    ∷ defaulted "category" text
    ∷ required "kind" (one_of ("regex" ∷ "keyword" ∷ []))
    ∷ required "pattern" text
    ∷ required "action" (one_of ("mask" ∷ "block" ∷ "flag" ∷ []))
    ∷ defaulted "severity" (one_of ("low" ∷ "medium" ∷ "high" ∷ []))
    ∷ defaulted "enabled" flag
    ∷ []

unfoldable pub team_create : List Field
team_create =
    required "name" text
    ∷ defaulted "description" text
    ∷ defaulted "rate_limit_rpm" count_or_none
    ∷ defaulted "daily_token_quota" count_or_none
    ∷ defaulted "provider_ids" texts
    ∷ []

-- Whether a member of a body is declared, with a value of its type.
abbrev fits_in : List Field → String × Json → Bool
unfolding fits
fits_in [] (k, v) = false
fits_in (f ∷ fs) (k, v) = if f.key === k then fits f.kind v else fits_in fs (k, v)

abbrev fit_in : List Field → List (String × Json) → Bool
fit_in schema [] = true
fit_in schema (m ∷ ms) = fits_in schema m && fit_in schema ms

abbrev has : String → List (String × Json) → Bool
has k ms = any (λ (m : String × Json). m.0 === k) ms

abbrev are_given : List Field → List (String × Json) → Bool
are_given [] ms = true
are_given (f ∷ fs) ms = (not f.required || has f.key ms) && are_given fs ms

-- A body that has only declared members, each of its type, and every required one.
unfoldable pub conforms : List Field → List (String × Json) → Bool
unfolding fits_in
conforms schema ms = fit_in schema ms && are_given schema ms
