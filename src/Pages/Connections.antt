-- ===== src/Pages/Connections.antt =====
-- panel/app/(dash)/connections/page.tsx. Of the constant BYOK_TYPES this file has what the handlers
-- read, type and name; Connections/View has the texts of the guide, and what the page shows.
pub mod Saving
pub mod View
use rafineai_self_hosted.Prelude.{
  ℕ, ◌+◌, String, Text, trim, Bool, true, false, ◌&&◌, ◌||◌, Option, none, some, List, [], ◌∷◌,
  find, filter, is_empty, ◌===◌, if◌then◌else◌,
}
use rafineai_self_hosted.Exec.{
  Failure, message, Exec, Done, captured, try_catch, finally, ◌>>=◌, ◌>>◌, skip,
}
use rafineai_self_hosted.Json.{str, words, object}
use rafineai_self_hosted.Types.{Provider, OwnKey}
use rafineai_self_hosted.Client.{truthy}
use rafineai_self_hosted.Page.{
  list, provider, own_key, auth_url, Call, get, put, delete, ◌/+◌, Machine, Env, await_api, both,
  on_ui, set_ui, request,
}

pub record ByokType : Type 0 where
  pub type : String
  pub name : String

abbrev pub byok_types : List ByokType
byok_types =
    record { type = "openai"; name = "OpenAI" }
    ∷ record { type = "anthropic"; name = "Anthropic (Claude)" }
    ∷ record { type = "gemini"; name = "Google Gemini" }
    ∷ []

pub data Step : Type 0 where
  guide key : Step

pub record Connections : Type 0 where
  pub providers : List Provider
  pub own_keys : List OwnKey
  pub error : String
  pub just_connected : Bool
  pub saved_notice : Option String
  pub edit_type : Option String
  pub step : Step
  pub key_input : Text
  pub saving : Bool
  pub save_error : String
  pub location : Option String
  pub notice_timers : ℕ

unfoldable pub open_connect : String → Connections → Connections
open_connect type s = record s {
  edit_type = some type;
  step = guide;
  key_input = [];
  save_error = "";
}

unfoldable pub close_connect : Connections → Connections
close_connect s = record s { edit_type = none; key_input = []; save_error = "" }

abbrev name_or : String → Option ByokType → String
name_or type none = type
name_or type (some b) = b.name

-- byok?.name ?? editType
unfoldable pub notice_name : String → String
notice_name type = name_or type (find (λ (b : ByokType). b.type === type) byok_types)

-- What the page derives from its state.
unfoldable pub oauth_providers : Connections → List Provider
oauth_providers s = filter (λ (p : Provider). p.auth_mode === "oauth2") s.providers

unfoldable pub shared_providers : Connections → List Provider
shared_providers s = filter (λ (p : Provider). p.auth_mode === "api_key" && p.is_active) s.providers

abbrev pub report : {W : Type 0} → Failure → Exec (Machine Connections W) Done
report e = set_ui (λ s. record s { error = message e })

abbrev pub report_save : {W : Type 0} → Failure → Exec (Machine Connections W) Done
report_save e = set_ui (λ s. record s { save_error = message e })

-- The type and the key that `saveKey` sends, if it sends.
abbrev pub key_to_save : Option String → Text → Option (String × Text)
key_to_save none k = none
key_to_save (some t) k = if is_empty k then none else some (t, k)

abbrev pub key_call : String → Text → Call
key_call type k =
    put ("/api/user/own-keys/" /+ type) (object (("api_key", words k) ∷ ("label", str "") ∷ []))

module _ {W : Type 0} (env : Env Connections W) where
  unfoldable pub refresh : Exec (Machine Connections W) Done
  unfolding both await_api
  refresh = do
    (ps, ks) ←
        both (await_api env (list provider) (get "/api/providers"))
          (await_api env (list own_key) (get "/api/user/own-keys"))
    set_ui (λ s. record s { providers = ps; own_keys = ks })

  -- The effect of the first render, with the page's `?connected=1`.
  unfoldable pub mount : Bool → Exec (Machine Connections W) Done
  unfolding refresh
  mount connected = do
    set_ui (λ s. record s { just_connected = connected })
    try_catch refresh report

  unfoldable pub put_key : String → Text → Exec (Machine Connections W) Done
  unfolding request
  put_key type k = request env (key_call type k)

  unfoldable pub save_attempt : String → Text → Exec (Machine Connections W) Done
  save_attempt type k = do
    put_key type k
    set_ui close_connect
    set_ui (λ s. record s {
      saved_notice = some (notice_name type);
      notice_timers = s.notice_timers + 1;
    })
    refresh

  abbrev save_of : Option (String × Text) → Exec (Machine Connections W) Done
  save_of none = skip
  save_of (some (type, k)) = do
    set_ui (λ s. record s { saving = true; save_error = "" })
    finally (try_catch (save_attempt type k) report_save) (on_ui (λ s. record s { saving = false }))

  -- saveKey()
  unfoldable pub save_key : Exec (Machine Connections W) Done
  save_key = captured λ c. save_of (key_to_save (truthy c.ui.edit_type) (trim c.ui.key_input))

  unfoldable pub delete_own_key : String → Exec (Machine Connections W) Done
  unfolding request refresh
  delete_own_key type =
      try_catch (do request env (delete ("/api/user/own-keys/" /+ type)); refresh) report

  unfoldable pub connect_oauth : Provider → Exec (Machine Connections W) Done
  unfolding await_api
  connect_oauth p =
      try_catch
        (do
          url ← await_api env auth_url (get ("/api/providers/" /+ p.id /+ "/oauth/start"))
          set_ui (λ s. record s { location = some url }))
        report
