-- ===== src/Scan/First.antt =====
-- Where the leftmost match of a literal or of a regular expression stands.
use rafineai_self_hosted.Prelude.{
  ℕ, Text, strip_prefix, strip_prefix-append, strip_prefix-eq_some, Bool, true, false, Option, none,
  some, [], ◌∷◌, ◌++◌, ◌≡◌, refl, ap, ◌∙◌, ◌==◌, any, IsFree, if◌then◌else◌, arith,
}
use rafineai_self_hosted.Scan.{Matcher, onto, span, cut_at, shift, find_first}

cut_at-eq_some-case :
    (p : Text) (c : ℕ) (s u t : Text) (o : Option Text) (later : Option (Text × Text))
    → strip_prefix p (c ∷ s) ≡ o
    → ((v w : Text) → later ≡ some (v, w) → s ≡ v ++ (p ++ w))
    → elim o [ none ↦ onto c later | some r ↦ some ([], r) ] ≡ some (u, t)
    → c ∷ s ≡ u ++ (p ++ t)
cut_at-eq_some-case p c s u t (some r) later e ih h = strip_prefix-eq_some p (c ∷ s) e ∙ cc
cut_at-eq_some-case p c s u t none none e ih h = cc
cut_at-eq_some-case p c s u t none (some (v, w)) e ih h =
    ap (λ (l : Text). c ∷ l) (ih v w refl) ∙ cc

pub cut_at-eq_some : (p s u t : Text) → cut_at p s ≡ some (u, t) → s ≡ u ++ (p ++ t)
unfolding cut_at
cut_at-eq_some p [] u t h = cc
cut_at-eq_some p (c ∷ s) u t h =
    cut_at-eq_some-case p c s u t _ (cut_at p s) refl (λ v w. cut_at-eq_some p s v w) h

-- A run that ends before a code unit outside the class.
pub span-stop :
    (test : ℕ → Bool) (u : Text) (c : ℕ) (s : Text)
    → any (λ x. if test x then false else true) u ≡ false
    → test c ≡ false
    → span test (u ++ c ∷ s) ≡ (u, c ∷ s)
unfolding span
span-stop test [] c s h k = rw k refl
span-stop test (x ∷ u) c s h k = ground (arith, span-stop test u c s)

-- A literal that starts with `c0` is first found after a text without `c0`.
pub cut_at-free :
    (c0 : ℕ) (p u t : Text) → IsFree c0 u → cut_at (c0 ∷ p) (u ++ (c0 ∷ (p ++ t))) ≡ some (u, t)
unfolding cut_at strip_prefix
cut_at-free c0 p [] t h = ground (arith, strip_prefix-append p t)
cut_at-free c0 p (c ∷ u) t h = ground (arith, cut_at-free c0 p u t)

abbrev pub prepend : {A : Type 0} → Text → Option (Text × A × Text) → Option (Text × A × Text)
prepend u none = none
prepend u (some (v, a, t)) = some (u ++ v, a, t)

pub prepend-nil : {A : Type 0} → (o : Option (Text × A × Text)) → o ≡ prepend [] o
prepend-nil none = refl
prepend-nil (some (u, a, t)) = refl

pub prepend-cons :
    {A : Type 0}
    → (c : ℕ) (u : Text) (o : Option (Text × A × Text)) → shift c (prepend u o) ≡ prepend (c ∷ u) o
prepend-cons c u none = refl
prepend-cons c u (some (v, a, t)) = refl

pub IsFree-head : (c0 c : ℕ) (u : Text) → IsFree c0 (c ∷ u) → (c == c0) ≡ false
IsFree-head c0 c u h = ground arith

pub IsFree-tail : (c0 c : ℕ) (u : Text) → IsFree c0 (c ∷ u) → IsFree c0 u
IsFree-tail c0 c u h = ground arith

module _ {A : Type 0} (m : Matcher A) (c0 : ℕ)
    (starts : (c : ℕ) (s : Text) → (c == c0) ≡ false → m (c ∷ s) ≡ none) where
  -- A match that starts with `c0` is first found after a text without `c0`.
  pub find_first-free :
      (u s : Text) → IsFree c0 u → find_first m (u ++ s) ≡ prepend u (find_first m s)
  unfolding find_first
  find_first-free [] s h = prepend-nil _
  find_first-free (c ∷ u) s h =
      rw
        (
          starts c (u ++ s) (IsFree-head c0 c u h),
          find_first-free u s (IsFree-tail c0 c u h),
          prepend-cons c u,
        )
        refl
