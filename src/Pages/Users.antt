-- ===== src/Pages/Users.antt =====
-- panel/app/(dash)/users/page.tsx. `parseInt(s, 10)` is the parameter `parse_int`, as the JSON value
-- that the request carries; `confirm` is the argument `confirmed`.
pub mod Creating
pub mod View
use rafineai_self_hosted.Prelude.{
  String, Bool, not, Option, none, some, List, [], ◌∷◌, ◌++◌, if◌then◌else◌,
}
use rafineai_self_hosted.Exec.{
  Failure, message, Exec, Done, captured, try_catch, ◌>>=◌, ◌>>◌, detach, skip,
}
use rafineai_self_hosted.Json.{Json, bool, str, object}
use rafineai_self_hosted.Types.{User, UserCreateResult}
use rafineai_self_hosted.Client.{truthy}
use rafineai_self_hosted.Page.{
  list, user, user_create_result, get, post, patch, delete, ◌/+◌, Machine, Env, await_api, set_ui,
  load, request, optional,
}

pub record Users : Type 0 where
  pub users : List User
  pub email : String
  pub password : String
  pub role : String
  pub rpm : String
  pub daily : String
  pub error : String
  pub created : Option UserCreateResult

abbrev pub report : {W : Type 0} → Failure → Exec (Machine Users W) Done
report e = set_ui (λ s. record s { error = message e })

-- if (res.generated_password) setCreated(res)
abbrev show_if : Option String → UserCreateResult → Users → Users
show_if none res s = s
show_if (some p) res s = record s { created = some res }

unfoldable pub show_created : UserCreateResult → Users → Users
show_created res s = show_if (truthy res.generated_password) res s

module _ (parse_int : String → Json) where
  unfoldable pub user_fields : Users → List (String × Json)
  user_fields s =
      ("email", str s.email)
        ∷ ("role", str s.role)
        ∷ optional "password" s.password (str s.password)
      ++ optional "rate_limit_rpm" s.rpm (parse_int s.rpm)
      ++ optional "daily_token_quota" s.daily (parse_int s.daily)

  module _ {W : Type 0} (env : Env Users W) where
    unfoldable pub refresh : Exec (Machine Users W) Done
    unfolding load
    refresh = load env (list user) (get "/api/users") (λ us s. record s { users = us })

    unfoldable pub mount : Exec (Machine Users W) Done
    unfolding refresh
    mount = try_catch refresh report

    unfoldable pub create_attempt : Users → Exec (Machine Users W) Done
    unfolding await_api refresh
    create_attempt s = do
      res ← await_api env user_create_result (post "/api/users" (object (user_fields s)))
      set_ui (show_created res)
      set_ui (λ s. record s { email = ""; password = ""; role = "user"; rpm = ""; daily = "" })
      refresh

    unfoldable pub create : Exec (Machine Users W) Done
    unfolding create_attempt
    create = captured λ c. do
      set_ui (λ s. record s { error = ""; created = none })
      try_catch (create_attempt c.ui) report

    unfoldable pub toggle_active : User → Exec (Machine Users W) Done
    unfolding request refresh
    toggle_active u = do
      request env
          (patch ("/api/users/" /+ u.id) (object (("is_active", bool (not u.is_active)) ∷ [])))
      detach refresh

    unfoldable pub remove : Bool → User → Exec (Machine Users W) Done
    unfolding request refresh
    remove confirmed u =
        if confirmed
        then try_catch (do request env (delete ("/api/users/" /+ u.id)); detach refresh) report
        else skip
