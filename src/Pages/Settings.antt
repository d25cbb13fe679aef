-- ===== src/Pages/Settings.antt =====
-- panel/app/(dash)/settings/page.tsx. A timer is the event that it will cause, in `timers` until the
-- browser fires it; the delays only order them.
pub mod Saving
pub mod Timers
pub mod Notices
pub mod Pending
pub mod View
pub mod Tests
use rafineai_self_hosted.Prelude.{
  ℕ, String, Text, Bool, true, false, Option, none, some, List, [], ◌∷◌, ◌++◌, any, ◌===◌,
  if◌then◌else◌,
}
use rafineai_self_hosted.Exec.{Failure, Exec, Done, captured, try_catch, ◌>>=◌, ◌>>◌, skip}
use rafineai_self_hosted.Json.{Json, str, object}
use rafineai_self_hosted.Theme.{
  Key, app_logo_url, key_name, AppSettings, read, write, setting_defaults, value_of, over, merge,
  Display, show_theme, get_dark,
}
use rafineai_self_hosted.Page.{
  nothing, dictionary, auth_url, Call, get, put, send_file, Machine, Env, await_api, set_ui, load,
  request,
}

pub data Section : Type 0 where
  branding chat theme : Section

pub data Status : Type 0 where
  idle saving saved error : Status

pub data LogoStatus : Type 0 where
  logo_idle uploading done logo_error : LogoStatus

pub record Statuses : Type 0 where
  pub of_branding : Status
  pub of_chat : Status
  pub of_theme : Status

pub data Timer : Type 0 where
  clear_status : Section → ℕ → Timer
  clear_logo_status : ℕ → Timer

pub record Settings : Type 0 where
  pub form : AppSettings
  pub status : Statuses
  pub dark : Bool
  pub logo_status : LogoStatus
  pub display : Display
  pub timers : List Timer

-- status[section]
abbrev pub status_of : Section → Statuses → Status
status_of branding s = s.of_branding
status_of chat s = s.of_chat
status_of theme s = s.of_theme

abbrev pub set_status : Section → Status → Statuses → Statuses
set_status branding v s = record s { of_branding = v }
set_status chat v s = record s { of_chat = v }
set_status theme v s = record s { of_theme = v }

-- The words of SaveBar, none where it shows nothing.
abbrev pub save_bar : Status → Option String
save_bar idle = none
save_bar saving = some "Kaydediliyor…"
save_bar saved = some "✓ Kaydedildi"
save_bar error = some "✗ Hata"

-- A timer's callback
abbrev pub fire : Timer → Settings → Settings
fire (clear_status k n) s = record s { status = set_status k idle s.status }
fire (clear_logo_status n) s = record s { logo_status = logo_idle }

-- field(key).onChange
unfoldable pub change_field : Key → String → Settings → Settings
unfolding write
change_field k v s = record s { form = write k v s.form }

abbrev pub override_of : List (Key × String) → Key → Option String
override_of [] k = none
override_of ((j, v) ∷ os) k = if key_name j === key_name k then some v else override_of os k

-- The payload: each key with its override, or else the form's value.
unfoldable pub payload : List Key → List (Key × String) → AppSettings → List (String × String)
unfolding read
payload [] os f = []
payload (k ∷ ks) os f = (key_name k, over (override_of os k) (read k f)) ∷ payload ks os f

abbrev pub json_of : List (String × String) → List (String × Json)
json_of [] = []
json_of ((k, v) ∷ fs) = (k, str v) ∷ json_of fs

abbrev pub save_call : List (String × String) → Call
save_call fs = put "/api/settings" (object (json_of fs))

abbrev theme_of : List (String × String) → List (String × String) → Display → Display
unfolding show_theme value_of
theme_of fields updated d =
    if any (λ (f : String × String). f.0 === "chat_theme") fields
    then show_theme (over (value_of "chat_theme" updated) "default") d
    else d

unfoldable pub show_saved :
    Section → List (String × String) → List (String × String) → Settings → Settings
unfolding merge theme_of
show_saved k fields updated s = record s {
  form = merge updated s.form;
  display = theme_of fields updated s.display;
  status = set_status k saved s.status;
  timers = s.timers ++ clear_status k 2500 ∷ [];
}

abbrev pub show_error : {W : Type 0} → Section → Failure → Exec (Machine Settings W) Done
show_error k e = set_ui (λ s. record s { status = set_status k error s.status })

-- What the catch of `uploadLogo` makes of the page.
abbrev pub logo_rejected : Settings → Settings
logo_rejected s = record s {
  logo_status = logo_error;
  timers = s.timers ++ clear_logo_status 3000 ∷ [];
}

abbrev logo_failed : {W : Type 0} → Failure → Exec (Machine Settings W) Done
logo_failed e = set_ui logo_rejected

abbrev ignore : {W : Type 0} → Failure → Exec (Machine Settings W) Done
ignore e = skip

abbrev pub logo_done : String → Settings → Settings
unfolding write
logo_done url s = record s {
  form = write app_logo_url url s.form;
  logo_status = done;
  timers = s.timers ++ clear_logo_status 2500 ∷ [];
}

module _ {W : Type 0} (env : Env Settings W) where
  unfoldable pub mount : Exec (Machine Settings W) Done
  unfolding load merge get_dark
  mount = do
    set_ui (λ s. record s { dark = get_dark s.display })
    try_catch
        (load env dictionary (get "/api/settings")
          (λ r s. record s { form = merge r setting_defaults }))
        ignore

  unfoldable pub upload_attempt : Text → Exec (Machine Settings W) Done
  unfolding load logo_done
  upload_attempt name = load env auth_url (send_file "/api/uploads/logo" name) logo_done

  unfoldable pub upload_logo : Text → Exec (Machine Settings W) Done
  unfolding upload_attempt
  upload_logo name = do
    set_ui (λ s. record s { logo_status = uploading })
    try_catch (upload_attempt name) logo_failed

  unfoldable pub clear_logo : Exec (Machine Settings W) Done
  unfolding request write
  clear_logo =
      try_catch
        (do
          request env (put "/api/settings" (object (("app_logo_url", str "") ∷ [])))
          set_ui (λ s. record s { form = write app_logo_url "" s.form }))
        ignore

  unfoldable pub save_attempt : Section → List (String × String) → Exec (Machine Settings W) Done
  unfolding load
  save_attempt k fields = load env dictionary (save_call fields) (show_saved k fields)

  unfoldable pub save : Section → List Key → List (Key × String) → Exec (Machine Settings W) Done
  save k ks os = captured λ m. do
    set_ui (λ s. record s { status = set_status k saving s.status })
    try_catch (save_attempt k (payload ks os m.ui.form)) (show_error k)
