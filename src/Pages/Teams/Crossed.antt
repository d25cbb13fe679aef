-- ===== src/Pages/Teams/Crossed.antt =====
-- Two teams that are clicked one after the other.
use rafineai_self_hosted.Prelude.{
  String, List, [], ◌∷◌, map, filter, not, includes, some, ◌≡◌, refl,
}
use rafineai_self_hosted.Exec.{Failure, ok, fail}
use rafineai_self_hosted.Json.{Json}
use rafineai_self_hosted.Types.{User, Team, TeamMember}
use rafineai_self_hosted.Page.{list, team_member, get, ◌/+◌, Machine, Env}
use rafineai_self_hosted.Page.Quiet.{IsQuiet}
use rafineai_self_hosted.Page.Loading.{Session, at_rest, opened, received, Step}
use rafineai_self_hosted.Pages.Loading.{team_loader}
use rafineai_self_hosted.Pages.Teams.{Teams, open_team}
use rafineai_self_hosted.Pages.Teams.View.{Panel, panel, non_members, member_ids}

-- The panel of a team with the members of a list, and the users who are not in it.
abbrev pub panel_of : Team → List TeamMember → List User → Panel
panel_of t ms us = record {
  heading = t.name;
  members = map (λ (m : TeamMember). (m.user_id, m.email)) ms;
  to_add =
      map (λ (u : User). (u.id, u.email))
        (filter (λ (u : User). not (includes u.id (map (λ (m : TeamMember). m.user_id) ms))) us);
}

abbrev Page : Type 0
Page = Session Teams Team (List TeamMember)

-- The four states after the page `s`: a team is clicked, another one is, the answer for the second comes,
-- and the answer for the first.
abbrev pub one_clicked : Teams → Team → List TeamMember → Page
one_clicked s first ms = opened team_loader first (ok ms) (at_rest s)

abbrev pub both_clicked : Teams → Team → Team → List TeamMember → List TeamMember → Page
both_clicked s first second ms ns = opened team_loader second (ok ns) (one_clicked s first ms)

abbrev pub second_answered : Teams → Team → Team → List TeamMember → List TeamMember → Page
second_answered s first second ms ns =
    received team_loader second (ok ns) ((first, ok ms) ∷ []) (both_clicked s first second ms ns)

abbrev pub first_answered : Teams → Team → Team → List TeamMember → List TeamMember → Page
first_answered s first second ms ns =
    received team_loader first (ok ms) [] (second_answered s first second ms ns)

-- From any state of the page, with nothing awaited, these are four steps: the first team is clicked, the second
-- is, the members `ns` of the second come, and then the members `ms` of the first. When only the
-- first answer is still awaited the panel shows the second team with its own members; after all four
-- the second team is still the one that is selected, and the panel has its name over the members of
-- the first, and offers the users who are not in the first.
pub crossed :
    (s : Teams) (first second : Team) (ms ns : List TeamMember)
    → Step team_loader (at_rest s) (one_clicked s first ms)
      × Step team_loader (one_clicked s first ms) (both_clicked s first second ms ns)
      × Step team_loader (both_clicked s first second ms ns) (second_answered s first second ms ns)
      × Step team_loader
          (second_answered s first second ms ns)
          (first_answered s first second ms ns)
      × ((both_clicked s first second ms ns).awaited ≡ (first, ok ms) ∷ (second, ok ns) ∷ [])
      × (panel (second_answered s first second ms ns).ui ≡ some (panel_of second ns s.users))
      × ((first_answered s first second ms ns).ui.selected ≡ some second)
      × (panel (first_answered s first second ms ns).ui ≡ some (panel_of second ms s.users))
unfolding panel non_members member_ids
crossed s first second ms ns = (
  Step.open_row first (ok ms),
  Step.open_row second (ok ns),
  Step.answer ((first, ok ms) ∷ []) second (ok ns) [] refl,
  Step.answer [] first (ok ms) [] refl,
  refl,
  refl,
  refl,
  refl,
)

open_team-opened :
    (to_number : String → Json) {W : Type 0} (env : Env Teams W) (t : Team) (ms : List TeamMember)
    (m : Machine Teams W)
    → IsQuiet env
    → (env.call (list team_member) (get ("/api/teams/" /+ t.id /+ "/members")) m.world).0 ≡ ok ms
    → (open_team to_number env t m).1.ui ≡ record m.ui { selected = some t; members = ms }
unfolding open_team
open_team-opened to_number env t ms m quiet came = rw (came, quiet) refl

open_team-failed :
    (to_number : String → Json) {W : Type 0} (env : Env Teams W) (t : Team) (e : Failure)
    (m : Machine Teams W)
    → IsQuiet env
    → (env.call (list team_member) (get ("/api/teams/" /+ t.id /+ "/members")) m.world).0 ≡ fail e
    → ((open_team to_number env t m).0 ≡ fail e)
      × ((open_team to_number env t m).1.ui ≡ record m.ui { selected = some t })
unfolding open_team
open_team-failed to_number env t e m quiet failed = rw (failed, quiet) (refl, refl)

-- While nothing else runs: if a team is opened and its members come, and then another team is opened whose
-- members cannot be read, the second openTeam throws that failure, the error of the page is what it
-- was, and the panel has the name of the second team over the members of the first.
pub open_team-stale :
    (to_number : String → Json) {W : Type 0} (env : Env Teams W) (first second : Team)
    (ms : List TeamMember) (e : Failure) (m : Machine Teams W)
    → IsQuiet env
    → (env.call (list team_member) (get ("/api/teams/" /+ first.id /+ "/members")) m.world).0
      ≡ ok ms
    → (env.call
        (list team_member)
        (get ("/api/teams/" /+ second.id /+ "/members"))
        (open_team to_number env first m).1.world).0
      ≡ fail e
    → let n = (open_team to_number env first m).1 in
      ((open_team to_number env second n).0 ≡ fail e)
      × ((open_team to_number env second n).1.ui.error ≡ m.ui.error)
      × (panel (open_team to_number env second n).1.ui ≡ some (panel_of second ms m.ui.users))
unfolding panel non_members member_ids
open_team-stale to_number env first second ms e m quiet came failed =
    let n = (open_team to_number env first m).1 in
    let (thrown, left) = open_team-failed to_number env second e n quiet failed in
    let seen = open_team-opened to_number env first ms m quiet came in
    (thrown, rw (left, seen) refl, rw (left, seen) refl)
