-- ===== src/Access.antt =====
-- Who gets in: panel/app/page.tsx, the gate of panel/app/(dash)/layout.tsx, and the pages
-- panel/app/login and panel/app/change-password. The router is the path it was last sent to.
pub mod Gate
pub mod Forms
pub mod Shell
pub mod Marking
pub mod Tests
use rafineai_self_hosted.Prelude.{
  String, Text, text, text_eq, starts_with, length, ltb, Bool, true, false, not, ◌&&◌, ◌||◌, Option,
  none, some, List, [], ◌∷◌, if◌then◌else◌,
}
use rafineai_self_hosted.Exec.{
  Failure, message, Exec, Done, captured, try_catch, finally, ◌>>=◌, ◌>>◌, skip,
}
use rafineai_self_hosted.Json.{words, object}
use rafineai_self_hosted.Types.{User}
use rafineai_self_hosted.Client.{Session, truthy, clear_session}
use rafineai_self_hosted.Page.{
  user, Call, get, post, Machine, Env, await_api, on_ui, set_ui, is_admin, request,
}

abbrev has : Option String → Bool
has none = false
has (some t) = true

-- `if (getToken())`: neither missing nor "".
unfoldable pub has_token : Session → Bool
has_token s = has (truthy s.access)

-- Home()
unfoldable pub home : Session → String
unfolding has_token
home s = if has_token s then "/chat" else "/login"

pub record Layout : Type 0 where
  pub session : Session
  pub path : Text
  pub location : String
  pub ready : Bool
  pub role : Option String
  pub email : String

unfoldable pub admit : User → Layout → Layout
admit me s =
    if me.must_change_password
    then record s { location = "/change-password" }
    else record s { email = me.email; role = s.session.role; ready = true }

-- The children alone: for users who are no admins, and on the chat's own screen.
unfoldable pub is_bare : Layout → Bool
is_bare s = not (is_admin s.role) || starts_with (text "/chat") s.path

unfoldable pub logout : Layout → Layout
logout s = record s { session = clear_session; location = "/login" }

module _ {W : Type 0} where
  abbrev to_login : Failure → Exec (Machine Layout W) Done
  to_login e = set_ui (λ s. record s { location = "/login" })

  module _ (env : Env Layout W) where
    unfoldable pub admit_attempt : Exec (Machine Layout W) Done
    unfolding await_api admit
    admit_attempt = do me ← await_api env user (get "/api/auth/me"); set_ui (admit me)

    -- The effect of DashLayout
    unfoldable pub gate : Exec (Machine Layout W) Done
    unfolding has_token
    gate = captured λ m.
        if has_token m.ui.session
        then try_catch admit_attempt to_login
        else set_ui (λ s. record s { location = "/login" })

pub record LoginPage : Type 0 where
  pub email : String
  pub password : String
  pub error : String
  pub loading : Bool
  pub location : Option String

-- onSubmit of LoginPage, over the client's `login`
module _ {W : Type 0} (login : String → String → Exec (Machine LoginPage W) Done) where
  unfoldable pub submit_attempt : LoginPage → Exec (Machine LoginPage W) Done
  submit_attempt c = do login c.email c.password; set_ui (λ s. record s { location = some "/chat" })

  abbrev pub refused : Failure → Exec (Machine LoginPage W) Done
  refused e = set_ui (λ s. record s { error = "Geçersiz e-posta veya şifre." })

  unfoldable pub on_submit : Exec (Machine LoginPage W) Done
  on_submit = captured λ m. do
    set_ui (λ s. record s { error = ""; loading = true })
    finally (try_catch (submit_attempt m.ui) refused) (on_ui (λ s. record s { loading = false }))

pub record ChangePassword : Type 0 where
  pub current : Text
  pub next : Text
  pub confirm : Text
  pub error : String
  pub saving : Bool
  pub location : Option String

abbrev pub password_call : ChangePassword → Call
password_call s =
    post "/api/auth/change-password"
      (object (("current_password", words s.current) ∷ ("new_password", words s.next) ∷ []))

unfoldable pub mount_password : Session → ChangePassword → ChangePassword
unfolding has_token
mount_password session s = if has_token session then s else record s { location = some "/login" }

module _ {W : Type 0} (env : Env ChangePassword W) where
  abbrev pub report : Failure → Exec (Machine ChangePassword W) Done
  report e = set_ui (λ s. record s { error = message e })

  unfoldable pub change_attempt : ChangePassword → Exec (Machine ChangePassword W) Done
  unfolding request
  change_attempt c = do
    request env (password_call c)
    set_ui (λ s. record s { location = some "/chat" })

  unfoldable pub submit : Exec (Machine ChangePassword W) Done
  unfolding text_eq
  submit = captured λ m.
      if ltb (length m.ui.next) 8
      then set_ui (λ s. record s { error = "New password must be at least 8 characters." })
      else if text_eq m.ui.next m.ui.confirm
      then (do
        set_ui (λ s. record s { error = ""; saving = true })
        finally (try_catch (change_attempt m.ui) report) (on_ui (λ s. record s { saving = false })))
      else set_ui (λ s. record s { error = "Passwords do not match." })
