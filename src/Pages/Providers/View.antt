-- ===== src/Pages/Providers/View.antt =====
-- What the providers page shows: the inputs of the form, and the rows of the providers.
use rafineai_self_hosted.Prelude.{
  String, Bool, true, false, not, ◌&&◌, Option, some, List, [], ◌∷◌, ◌++◌, map, ◌≡◌, refl, inl, inr,
  Bool-cases, ◌===◌, if◌then◌else◌,
}
use rafineai_self_hosted.Json.{Json}
use rafineai_self_hosted.Types.{Provider}
use rafineai_self_hosted.Client.{truthy}
use rafineai_self_hosted.Pages.Providers.{Form, ProvidersPage, credentials}

-- An input by the key that it sets, with its label and whether it hides what is typed or is required.
pub record Input : Type 0 where
  pub key : String
  pub label : String
  pub value : String
  pub hidden : Bool
  pub required : Bool

abbrev plain : String → String → String → Input
plain key label value = record {
  key = key;
  label = label;
  value = value;
  hidden = false;
  required = false;
}

-- The options of the two selects.
unfoldable pub types : List String
types = "openai" ∷ "anthropic" ∷ "gemini" ∷ []

unfoldable pub modes : List (String × String)
modes = ("api_key", "Shared API key") ∷ ("oauth2", "Per-user OAuth2") ∷ []

unfoldable pub credential_inputs : Form → List Input
credential_inputs f =
    if f.auth_mode === "api_key"
    then record {
      key = "api_key";
      label = "API key";
      value = f.api_key;
      hidden = true;
      required = true;
    }
      ∷ []
    else plain "oauth_client_id" "OAuth client ID" f.oauth_client_id
      ∷ record {
        key = "oauth_client_secret";
        label = "OAuth client secret";
        value = f.oauth_client_secret;
        hidden = true;
        required = false;
      }
      ∷ plain "oauth_auth_url" "Authorize URL" f.oauth_auth_url
      ∷ plain "oauth_token_url" "Token URL" f.oauth_token_url
      ∷ plain "oauth_scopes" "Scopes" f.oauth_scopes
      ∷ []

-- The inputs of the form, but its selects.
unfoldable pub inputs : Form → List Input
unfolding credential_inputs
inputs f =
    record { key = "name"; label = "Name"; value = f.name; hidden = false; required = true }
      ∷ record {
        key = "default_model";
        label = "Default model";
        value = f.default_model;
        hidden = false;
        required = true;
      }
      ∷ credential_inputs f
    ++ plain "base_url" "Base URL (optional)" f.base_url
      ∷ plain "light_model" "Light model" f.light_model
      ∷ plain "heavy_model" "Heavy model" f.heavy_model
      ∷ plain "route_threshold_tokens" "Threshold (tokens)" f.route_threshold_tokens
      ∷ []

-- A row: its badge, its state, and its button to connect.
pub record Row : Type 0 where
  pub name : String
  pub type : String
  pub default_model : String
  pub auth_mode : String
  pub smart_routing : Bool
  pub state : String
  pub disabled : Bool
  pub can_connect : Bool

abbrev both_set : Option String → Option String → Bool
both_set (some l) (some h) = true
both_set _ _ = false

unfoldable pub row_of : Provider → Row
row_of p = record {
  name = p.name;
  type = p.type;
  default_model = p.default_model;
  auth_mode = p.auth_mode;
  smart_routing = both_set (truthy p.light_model) (truthy p.heavy_model);
  state =
      if p.auth_mode === "api_key"
      then (if p.has_api_key then "API key configured" else "no API key")
      else (if p.connected then "connected" else "not connected");
  disabled = not p.is_active;
  can_connect = p.auth_mode === "oauth2" && not p.connected;
}

unfoldable pub rows : ProvidersPage → List Row
unfolding row_of
rows s = map row_of s.providers

-- The credentials of the request are those that the form asks for, in their order.
pub credentials-inputs :
    (parse_int : String → Json) (f : Form)
    → map (λ (c : String × Json). c.0) (credentials parse_int f)
      ≡ map (λ (i : Input). i.key) (credential_inputs f)
unfolding credential_inputs
credentials-inputs parse_int f = elim (Bool-cases (f.auth_mode === "api_key")) [
  | inl e ↦ rw e refl
  | inr e ↦ rw e refl
]
