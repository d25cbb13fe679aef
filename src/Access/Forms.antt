-- ===== src/Access/Forms.antt =====
-- What the login and the change of a password show: panel/app/login/page.tsx and
-- panel/app/change-password/page.tsx.
use rafineai_self_hosted.Prelude.{String, Bool, Option, none, some, ◌===◌, if◌then◌else◌}
use rafineai_self_hosted.Theme.{AppSettings, app_name, app_logo, app_logo_url, app_tagline, read}
use rafineai_self_hosted.Access.{LoginPage, ChangePassword}

-- The mark of the application: its image, or its letter.
pub data Mark : Type 0 where
  image : (src alt : String) → Mark
  letter : String → Mark

pub record Heading : Type 0 where
  pub mark : Mark
  pub name : String
  pub tagline : String

unfoldable pub heading : AppSettings → Heading
unfolding read
heading f = record {
  mark =
      if read app_logo_url f === ""
      then letter (read app_logo f)
      else image (read app_logo_url f) (read app_name f);
  name = read app_name f;
  tagline = read app_tagline f;
}

-- The line of the error, if there is one.
abbrev shown_error : String → Option String
shown_error e = if e === "" then none else some e

unfoldable pub login_error : LoginPage → Option String
login_error s = shown_error s.error

unfoldable pub password_error : ChangePassword → Option String
password_error s = shown_error s.error

-- The buttons: a label, and whether it is disabled.
unfoldable pub login_button : LoginPage → String × Bool
login_button s = (if s.loading then "Giriş yapılıyor…" else "Giriş Yap", s.loading)

unfoldable pub password_button : ChangePassword → String × Bool
password_button s = (if s.saving then "Saving…" else "Change password", s.saving)
