-- ===== src/Pages/Teams.antt =====
-- panel/app/(dash)/teams/page.tsx. `Number(s)` is the parameter `to_number`, as the JSON value that
-- the request carries; `confirm` is the argument `confirmed`.
pub mod Members
pub mod View
pub mod Crossed
use rafineai_self_hosted.Prelude.{
  String, Text, trim, Bool, true, false, Option, none, some, List, [], ◌∷◌, is_empty, toggle_id,
  ◌===◌, if◌then◌else◌,
}
use rafineai_self_hosted.Exec.{Failure, message, Exec, Done, captured, try_catch, ◌>>=◌, ◌>>◌, skip}
use rafineai_self_hosted.Json.{Json, null, str, words, object, array}
use rafineai_self_hosted.Types.{User, Provider, Team, TeamMember}
use rafineai_self_hosted.Page.{
  list, team, provider, user, team_member, get, post, delete, ◌/+◌, Machine, Env, await_api, both,
  set_ui, request,
}

pub record Teams : Type 0 where
  pub teams : List Team
  pub providers : List Provider
  pub users : List User
  pub error : String
  pub selected : Option Team
  pub members : List TeamMember
  pub show_create : Bool
  pub name : Text
  pub desc : Text
  pub rpm : String
  pub quota : String
  pub provider_ids : List String

-- toggleProvider(id)
unfoldable pub toggle_provider : String → Teams → Teams
toggle_provider id s = record s { provider_ids = toggle_id id s.provider_ids }

abbrev pub report : {W : Type 0} → Failure → Exec (Machine Teams W) Done
report e = set_ui (λ s. record s { error = message e })

abbrev is_selected : String → Option Team → Bool
is_selected id none = false
is_selected id (some t) = t.id === id

module _ (to_number : String → Json) where
  -- rpm ? Number(rpm) : null
  abbrev number_or_null : String → Json
  number_or_null v = if v === "" then null else to_number v

  unfoldable pub team_fields : Teams → List (String × Json)
  team_fields s =
      ("name", words (trim s.name))
      ∷ ("description", words (trim s.desc))
      ∷ ("rate_limit_rpm", number_or_null s.rpm)
      ∷ ("daily_token_quota", number_or_null s.quota)
      ∷ ("provider_ids", array str s.provider_ids)
      ∷ []

  module _ {W : Type 0} (env : Env Teams W) where
    unfoldable pub refresh : Exec (Machine Teams W) Done
    unfolding both await_api
    refresh = do
      (t, (p, u)) ← both (await_api env (list team) (get "/api/teams")) (
          both (await_api env (list provider) (get "/api/providers"))
            (await_api env (list user) (get "/api/users")))
      set_ui (λ s. record s { teams = t; providers = p; users = u })

    unfoldable pub mount : Exec (Machine Teams W) Done
    unfolding refresh
    mount = try_catch refresh report

    unfoldable pub open_team : Team → Exec (Machine Teams W) Done
    unfolding await_api
    open_team t = do
      set_ui (λ s. record s { selected = some t })
      ms ← await_api env (list team_member) (get ("/api/teams/" /+ t.id /+ "/members"))
      set_ui (λ s. record s { members = ms })

    unfoldable pub create_attempt : Teams → Exec (Machine Teams W) Done
    unfolding request refresh
    create_attempt s = do
      request env (post "/api/teams" (object (team_fields s)))
      set_ui (λ s. record s {
        show_create = false;
        name = [];
        desc = [];
        rpm = "";
        quota = "";
        provider_ids = [];
      })
      refresh

    unfoldable pub create_team : Exec (Machine Teams W) Done
    unfolding create_attempt
    create_team =
        captured
          λ c. if is_empty (trim c.ui.name) then skip else try_catch (create_attempt c.ui) report

    unfoldable pub del_team : Bool → Team → Exec (Machine Teams W) Done
    unfolding request refresh
    del_team confirmed t = captured λ c.
        if confirmed
        then (do
          request env (delete ("/api/teams/" /+ t.id))
          if is_selected t.id c.ui.selected
              then set_ui (λ s. record s { selected = none })
              else skip
          refresh)
        else skip

    -- The selected team, or the early return.
    abbrev with_selected :
        Option Team → (Team → Exec (Machine Teams W) Done) → Exec (Machine Teams W) Done
    with_selected none f = skip
    with_selected (some t) f = f t

    unfoldable pub add_member : String → Exec (Machine Teams W) Done
    unfolding request open_team refresh
    add_member user_id = captured λ c. with_selected c.ui.selected λ t. do
      request env (
          post ("/api/teams/" /+ t.id /+ "/members")
            (object (("user_id", str user_id) ∷ ("role_in_team", str "member") ∷ [])))
      open_team t
      refresh

    unfoldable pub remove_member : String → Exec (Machine Teams W) Done
    unfolding request open_team refresh
    remove_member user_id = captured λ c. with_selected c.ui.selected λ t. do
      request env (delete ("/api/teams/" /+ t.id /+ "/members/" /+ user_id))
      open_team t
      refresh
