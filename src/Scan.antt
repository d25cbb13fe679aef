-- ===== src/Scan.antt =====
-- Regular expressions with the flag g, as the panel uses them: `find_first` is the leftmost match, and
-- `pieces` is a loop of `exec`, or the parts of a `replace`. A regular expression is a function that
-- matches at the head of a text and gives the groups with what follows the match.
pub mod Fuel
pub mod First
use rafineai_self_hosted.Prelude.{
  ℕ, zero, suc, Text, Bool, strip_prefix, Option, none, some, List, [], ◌∷◌, ◌++◌, length,
  if◌then◌else◌,
}

abbrev pub Matcher : Type 0 → Type 0
Matcher A = Text → Option (A × Text)

-- The text between two matches, and a match.
pub data Piece (A : Type 0) : Type 0 where
  plain : Text → Piece A
  hit : A → Piece A

-- The longest run of code units with a test, and what follows it: `[…]*` before a unit outside.
unfoldable pub span : (ℕ → Bool) → Text → Text × Text
span test [] = ([], [])
span test (c ∷ s) = let (run, rest) = span test s in if test c then (c ∷ run, rest) else ([], c ∷ s)

abbrev pub onto : ℕ → Option (Text × Text) → Option (Text × Text)
onto c none = none
onto c (some (u, t)) = some (c ∷ u, t)

-- What stands before and after the first occurrence of `p`: `[\s\S]*?` before a literal.
unfoldable pub cut_at : Text → Text → Option (Text × Text)
unfolding strip_prefix
cut_at p [] = none
cut_at p (c ∷ s) =
    let later = onto c (cut_at p s) in
    elim (strip_prefix p (c ∷ s)) [ none ↦ later | some t ↦ some ([], t) ]

module _ {A : Type 0} where
  abbrev pub shift : ℕ → Option (Text × A × Text) → Option (Text × A × Text)
  shift c none = none
  shift c (some (u, a, t)) = some (c ∷ u, a, t)

  abbrev pub first_or : Option (A × Text) → Option (Text × A × Text) → Option (Text × A × Text)
  first_or none later = later
  first_or (some (a, t)) later = some ([], a, t)

  -- The text before the leftmost match, its groups, and what follows.
  unfoldable pub find_first : Matcher A → Text → Option (Text × A × Text)
  find_first m [] = none
  find_first m (c ∷ s) = first_or (m (c ∷ s)) (shift c (find_first m s))

  abbrev pub plain_if : Text → List (Piece A) → List (Piece A)
  plain_if [] ps = ps
  plain_if (c ∷ s) ps = plain (c ∷ s) ∷ ps

  -- One round of the loop: `rest` is what the later rounds give.
  abbrev pub round : Text → (Text → List (Piece A)) → Option (Text × A × Text) → List (Piece A)
  round s later none = plain_if s []
  round s later (some (u, a, t)) = plain_if u (hit a ∷ later t)

  -- The rounds of the loop, at most as many as the fuel.
  unfoldable pub pieces_in : ℕ → Matcher A → Text → List (Piece A)
  unfolding find_first
  pieces_in zero m s = []
  pieces_in (suc fuel) m s = round s (pieces_in fuel m) (find_first m s)

  -- A match takes at least one code unit, so there are fewer than `suc (length s)` rounds.
  unfoldable pub pieces : Matcher A → Text → List (Piece A)
  unfolding pieces_in
  pieces m s = pieces_in (suc (length s)) m s
