-- ===== src/Prelude/Split.antt =====
-- s.split(c) and parts.join(c) for a separator of one code unit.
use Prim.Native.Nat.{ℕ}
use mathlib.Core.Path.{◌≡◌, refl, ap, ◌∙◌}
use mathlib.Core.Bool.{false}
use mathlib.Core.List.{List, [], ◌∷◌, ◌++◌}
use native.Mathlib.Omega.{arith}
use rafineai_self_hosted.Prelude.Tests.{◌==◌, if◌then◌else◌}
use rafineai_self_hosted.Prelude.Lists.{any, All}
use rafineai_self_hosted.Prelude.Texts.{Text}

abbrev push_first : ℕ → List Text → List Text
push_first x [] = (x ∷ []) ∷ []
push_first x (p ∷ ps) = (x ∷ p) ∷ ps

unfoldable pub split_on : ℕ → Text → List Text
split_on c [] = [] ∷ []
split_on c (x ∷ s) = let rest = split_on c s in if x == c then [] ∷ rest else push_first x rest

unfoldable pub join : ℕ → List Text → Text
join c [] = []
join c (p ∷ []) = p
join c (p ∷ q ∷ ps) = p ++ c ∷ join c (q ∷ ps)

-- The separator does not occur in a part.
abbrev pub IsFree : ℕ → Text → Type 0
IsFree c p = any (λ (x : ℕ). x == c) p ≡ false

split_on-free : (c : ℕ) (p : Text) → IsFree c p → split_on c p ≡ p ∷ []
unfolding split_on
split_on-free c [] h = refl
split_on-free c (x ∷ p) h = ground (arith, split_on-free c p)

split_on-append : (c : ℕ) (p t : Text) → IsFree c p → split_on c (p ++ c ∷ t) ≡ p ∷ split_on c t
unfolding split_on
split_on-append c [] t h = ground arith
split_on-append c (x ∷ p) t h = ground (arith, split_on-append c p t)

pub split_on-join :
    (c : ℕ) (p : Text) (ps : List Text)
    → All (IsFree c) (p ∷ ps)
    → split_on c (join c (p ∷ ps)) ≡ p ∷ ps
unfolding join
split_on-join c p [] h = split_on-free c p h.0
split_on-join c p (q ∷ ps) h =
    split_on-append c p (join c (q ∷ ps)) h.0 ∙ ap (λ r. p ∷ r) (split_on-join c q ps h.1)
