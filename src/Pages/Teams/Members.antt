-- ===== src/Pages/Teams/Members.antt =====
-- The members and the providers of a team.
use rafineai_self_hosted.Prelude.{
  String, ◌≡◌, not, includes, includes-toggle_id, any, filter, List, [], ◌∷◌, ◌&&◌, eq_iff, arith,
  refl, Bool, ◌===◌, if◌then◌else◌,
}
use rafineai_self_hosted.Pages.Teams.{Teams, toggle_provider}
use rafineai_self_hosted.Types.{User}
use rafineai_self_hosted.Pages.Teams.View.{member_ids, non_members}

-- A click on a provider's checkbox turns the membership of this provider, and of no other.
pub toggle_provider_lem :
    (id j : String) (s : Teams)
    → includes j (toggle_provider id s).provider_ids
      ≡ (if id === j then not (includes id s.provider_ids) else includes j s.provider_ids)
unfolding toggle_provider
toggle_provider_lem id j s = includes-toggle_id id j s.provider_ids

abbrev pub has_user : String → List User → Bool
has_user id = any (λ (u : User). u.id === id)

has_user-filter :
    (id : String) (ids : List String) (us : List User)
    → has_user id (filter (λ (u : User). not (includes u.id ids)) us)
      ≡ (has_user id us && not (includes id ids))
has_user-filter id ids [] = refl
has_user-filter id ids (u ∷ us) = ground (arith, has_user-filter id ids us, eq_iff u.id id)

-- A user can be added to the selected team exactly if the page knows this user and does not list it
-- among the members.
pub non_members_lem :
    (id : String) (s : Teams)
    → has_user id (non_members s) ≡ (has_user id s.users && not (includes id (member_ids s)))
unfolding non_members
non_members_lem id s = has_user-filter id (member_ids s) s.users
