-- ===== src/Pages/Providers.antt =====
-- panel/app/(dash)/providers/page.tsx. `parseInt(s, 10)` is the parameter `parse_int`, as the JSON
-- value that the request carries; `confirm` is the argument `confirmed`.
pub mod Editing
pub mod View
use rafineai_self_hosted.Prelude.{
  String, Bool, true, false, Option, none, some, List, [], ◌∷◌, ◌++◌, ◌===◌, if◌then◌else◌,
}
use rafineai_self_hosted.Exec.{
  Failure, message, Exec, Done, captured, try_catch, ◌>>=◌, ◌>>◌, detach, skip,
}
use rafineai_self_hosted.Json.{Json, str, object}
use rafineai_self_hosted.Types.{Provider}
use rafineai_self_hosted.Page.{
  list, provider, auth_url, get, post, delete, ◌/+◌, Machine, Env, await_api, set_ui, load, request,
  optional,
}

pub record Preset : Type 0 where
  pub name : String
  pub default_model : String
  pub light_model : String
  pub heavy_model : String

abbrev pub openai : Preset
openai = record {
  name = "OpenAI";
  default_model = "gpt-4o";
  light_model = "gpt-4o-mini";
  heavy_model = "gpt-4o";
}

abbrev pub anthropic : Preset
anthropic = record {
  name = "Anthropic";
  default_model = "claude-sonnet-4-6";
  light_model = "claude-haiku-4-5-20251001";
  heavy_model = "claude-opus-4-8";
}

abbrev pub gemini : Preset
gemini = record {
  name = "Gemini";
  default_model = "gemini-2.0-flash";
  light_model = "gemini-2.0-flash-lite";
  heavy_model = "gemini-2.5-pro";
}

-- PRESETS[type]
unfoldable pub preset? : String → Option Preset
preset? t =
    if t === "openai"
    then some openai
    else if t === "anthropic"
    then some anthropic
    else if t === "gemini"
    then some gemini
    else none

abbrev or_openai : Option Preset → Preset
or_openai none = openai
or_openai (some p) = p

pub record Form : Type 0 where
  pub name : String
  pub type : String
  pub auth_mode : String
  pub api_key : String
  pub oauth_client_id : String
  pub oauth_client_secret : String
  pub oauth_auth_url : String
  pub oauth_token_url : String
  pub oauth_scopes : String
  pub base_url : String
  pub default_model : String
  pub light_model : String
  pub heavy_model : String
  pub route_threshold_tokens : String

abbrev pub initial_form : Form
initial_form = record {
  name = openai.name;
  type = "openai";
  auth_mode = "api_key";
  api_key = "";
  oauth_client_id = "";
  oauth_client_secret = "";
  oauth_auth_url = "";
  oauth_token_url = "";
  oauth_scopes = "";
  base_url = "";
  default_model = openai.default_model;
  light_model = openai.light_model;
  heavy_model = openai.heavy_model;
  route_threshold_tokens = "";
}

-- A field that still has the old preset's value takes the new one's: `v === PRESETS[f.type]?.k`.
abbrev swap : Option Preset → (Preset → String) → String → Preset → String
swap none field v new = v
swap (some old) field v new = if v === field old then field new else v

-- set("type", v)
unfoldable pub set_type : String → Form → Form
set_type v f =
    let new = or_openai (preset? v) in
    let old = preset? f.type in
    record f {
      type = v;
      name = swap old Preset.name f.name new;
      default_model = swap old Preset.default_model f.default_model new;
      light_model = swap old Preset.light_model f.light_model new;
      heavy_model = swap old Preset.heavy_model f.heavy_model new;
    }

pub record ProvidersPage : Type 0 where
  pub providers : List Provider
  pub error : String
  pub form : Form
  pub location : Option String

abbrev pub fail_with : String → ProvidersPage → ProvidersPage
fail_with e s = record s { error = e }

abbrev pub report : {W : Type 0} → Failure → Exec (Machine ProvidersPage W) Done
report e = set_ui (fail_with (message e))

module _ (parse_int : String → Json) where
  abbrev pub credentials : Form → List (String × Json)
  credentials f =
      if f.auth_mode === "api_key"
      then ("api_key", str f.api_key) ∷ []
      else ("oauth_client_id", str f.oauth_client_id)
        ∷ ("oauth_client_secret", str f.oauth_client_secret)
        ∷ ("oauth_auth_url", str f.oauth_auth_url)
        ∷ ("oauth_token_url", str f.oauth_token_url)
        ∷ ("oauth_scopes", str f.oauth_scopes)
        ∷ []

  -- The payload of `create`.
  unfoldable pub payload : Form → List (String × Json)
  payload f =
      ("name", str f.name)
        ∷ ("type", str f.type)
        ∷ ("auth_mode", str f.auth_mode)
        ∷ ("default_model", str f.default_model)
        ∷ optional "base_url" f.base_url (str f.base_url)
      ++ optional "light_model" f.light_model (str f.light_model)
      ++ optional "heavy_model" f.heavy_model (str f.heavy_model)
      ++ optional "route_threshold_tokens" f.route_threshold_tokens
          (parse_int f.route_threshold_tokens)
      ++ credentials f

  -- The form after a provider was created.
  unfoldable pub cleared : Form → Form
  unfolding preset?
  cleared f =
      let preset = or_openai (preset? f.type) in
      record f {
        name = preset.name;
        api_key = "";
        default_model = preset.default_model;
        light_model = preset.light_model;
        heavy_model = preset.heavy_model;
        route_threshold_tokens = "";
      }

  module _ {W : Type 0} (env : Env ProvidersPage W) where
    unfoldable pub refresh : Exec (Machine ProvidersPage W) Done
    unfolding load
    refresh = load env (list provider) (get "/api/providers") (λ ps s. record s { providers = ps })

    -- The effect of the first render.
    unfoldable pub mount : Exec (Machine ProvidersPage W) Done
    unfolding refresh
    mount = try_catch refresh report

    unfoldable pub create_attempt : Form → Exec (Machine ProvidersPage W) Done
    unfolding request refresh
    create_attempt f = do
      request env (post "/api/providers" (object (payload f)))
      set_ui (λ s. record s { form = cleared f })
      detach refresh

    unfoldable pub create : Exec (Machine ProvidersPage W) Done
    unfolding create_attempt
    create = captured λ c. do set_ui (fail_with ""); try_catch (create_attempt c.ui.form) report

    unfoldable pub remove : Bool → Provider → Exec (Machine ProvidersPage W) Done
    unfolding request refresh
    remove confirmed p =
        if confirmed
        then (do request env (delete ("/api/providers/" /+ p.id)); detach refresh)
        else skip

    unfoldable pub connect : Provider → Exec (Machine ProvidersPage W) Done
    unfolding await_api
    connect p = do
      url ← await_api env auth_url (get ("/api/providers/" /+ p.id /+ "/oauth/start"))
      set_ui (λ s. record s { location = some url })
