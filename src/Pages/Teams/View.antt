-- ===== src/Pages/Teams/View.antt =====
-- What the teams page shows: the providers of the form, the teams, and the members of the one that is
-- selected beside the users that can join it.
use rafineai_self_hosted.Prelude.{
  ℕ, zero, suc, String, Bool, false, not, Option, none, some, List, map, filter, includes, length,
  ◌===◌, if◌then◌else◌,
}
use rafineai_self_hosted.Types.{User, Provider, Team, TeamMember}
use rafineai_self_hosted.Pages.Teams.{Teams}

unfoldable pub create_label : Teams → String
create_label s = if s.show_create then "İptal" else "+ Takım Oluştur"

-- The chips of the providers, with whether they are picked.
unfoldable pub chips : Teams → List (String × Bool)
chips s = map (λ (p : Provider). (p.name, includes p.id s.provider_ids)) s.providers

-- A limit: null is inherited, and 0 reads "∞".
pub data Limit : Type 0 where
  inherited unlimited : Limit
  limited : ℕ → Limit

abbrev pub limit : Option ℕ → Limit
limit none = inherited
limit (some zero) = unlimited
limit (some (suc n)) = limited (suc n)

pub record Row : Type 0 where
  pub name : String
  pub member_count : ℕ
  pub provider_count : ℕ
  pub rpm : Limit
  pub quota : Limit
  pub selected : Bool

abbrev is_id : String → Option Team → Bool
is_id id none = false
is_id id (some t) = t.id === id

unfoldable pub row_of : Option Team → Team → Row
row_of selected t = record {
  name = t.name;
  member_count = t.member_count;
  provider_count = length t.provider_ids;
  rpm = limit t.rate_limit_rpm;
  quota = limit t.daily_token_quota;
  selected = is_id t.id selected;
}

unfoldable pub rows : Teams → List Row
unfolding row_of
rows s = map (row_of s.selected) s.teams

-- new Set(members.map((m) => m.user_id))
unfoldable pub member_ids : Teams → List String
member_ids s = map (λ (m : TeamMember). m.user_id) s.members

unfoldable pub non_members : Teams → List User
unfolding member_ids
non_members s = filter (λ (u : User). not (includes u.id (member_ids s))) s.users

-- The panel of the selected team: its heading, the members to take out and the users to add.
pub record Panel : Type 0 where
  pub heading : String
  pub members : List (String × String)
  pub to_add : List (String × String)

unfoldable pub panel : Teams → Option Panel
unfolding non_members
panel s = elim s.selected [
  | none ↦ none
  | some t ↦ some (record {
    heading = t.name;
    members = map (λ (m : TeamMember). (m.user_id, m.email)) s.members;
    to_add = map (λ (u : User). (u.id, u.email)) (non_members s);
  })
]
