-- ===== src/Pages/Users/View.antt =====
-- What the users page shows: the password of a new user, and the rows with their buttons.
use rafineai_self_hosted.Prelude.{
  ℕ, String, Option, none, some, List, [], ◌∷◌, map, ◌===◌, if◌then◌else◌,
}
use rafineai_self_hosted.Types.{User}
use rafineai_self_hosted.Pages.Users.{Users}

unfoldable pub roles : List String
roles = "user" ∷ "admin" ∷ []

-- The mail and the password to hand on, null as nothing.
unfoldable pub handed_over : Users → Option (String × Option String)
handed_over s = elim s.created [ none ↦ none | some r ↦ some (r.user.email, r.generated_password) ]

-- v ?? "—"
pub data Cell : Type 0 where
  dash : Cell
  number : ℕ → Cell

abbrev pub cell : Option ℕ → Cell
cell none = dash
cell (some n) = number n

pub record Row : Type 0 where
  pub email : String
  pub role : String
  pub state : String
  pub requests : Cell
  pub tokens : Cell
  pub buttons : List String

unfoldable pub row_of : User → Row
row_of u = record {
  email = u.email;
  role = u.role;
  state = if u.is_active then "active" else "disabled";
  requests = cell u.rate_limit_rpm;
  tokens = cell u.daily_token_quota;
  buttons =
      if u.role === "owner"
      then []
      else (if u.is_active then "Disable" else "Enable") ∷ "Delete" ∷ [];
}

unfoldable pub rows : Users → List Row
unfolding row_of
rows s = map row_of s.users
