-- ===== src/Access/Marking.antt =====
-- The link that the sidebar marks.
use rafineai_self_hosted.Prelude.{
  ℕ, suc, Text, text, starts_with, strip_prefix, Bool, true, false, not, ◌&&◌, ◌||◌, List, [], ◌∷◌,
  map, filter, length, ◌≤◌, ◌≡◌, refl, ap, sym, arith, if◌then◌else◌, inl, inr, Bool-cases,
}
use mathlib.Core.Path.{subst}
use rafineai_self_hosted.Access.Shell.{NavItem, admin_nav, Link, link_of, is_at}

-- Two prefixes of one text: one of them is a prefix of the other.
comparable :
    (a b s : Text)
    → starts_with a s ≡ true
    → starts_with b s ≡ true
    → (starts_with a b || starts_with b a) ≡ true
unfolding starts_with strip_prefix
comparable [] b s h k = refl
comparable (x ∷ a) [] s h k = refl
comparable (x ∷ a) (y ∷ b) [] h k = cc
comparable (x ∷ a) (y ∷ b) (c ∷ s) h k = ground (arith, comparable a b s)

-- No text of the list is a prefix of another.
abbrev no_prefix : Text → List Text → Bool
unfolding starts_with
no_prefix a [] = true
no_prefix a (b ∷ bs) = not (starts_with a b || starts_with b a) && no_prefix a bs

abbrev apart : List Text → Bool
unfolding no_prefix
apart [] = true
apart (a ∷ rest) = no_prefix a rest && apart rest

count : Text → List Text → ℕ
unfolding starts_with
count s [] = 0
count s (a ∷ rest) = let n = count s rest in if starts_with a s then suc n else n

no_prefix-head :
    (a b : Text) (bs : List Text)
    → no_prefix a (b ∷ bs) ≡ true
    → (starts_with a b || starts_with b a) ≡ false
unfolding no_prefix
no_prefix-head a b bs h = ground arith

no_prefix-tail : (a b : Text) (bs : List Text) → no_prefix a (b ∷ bs) ≡ true → no_prefix a bs ≡ true
unfolding no_prefix
no_prefix-tail a b bs h = ground arith

apart-head : (a : Text) (bs : List Text) → apart (a ∷ bs) ≡ true → no_prefix a bs ≡ true
unfolding apart
apart-head a bs h = ground arith

apart-tail : (a : Text) (bs : List Text) → apart (a ∷ bs) ≡ true → apart bs ≡ true
unfolding apart
apart-tail a bs h = ground arith

alone :
    (s a : Text) (bs : List Text) → starts_with a s ≡ true → no_prefix a bs ≡ true → count s bs ≡ 0
unfolding count no_prefix
alone s a [] h k = refl
alone s a (b ∷ bs) h k = elim (Bool-cases (starts_with b s)) [
  | inl e ↦ absurd (
      let one : (starts_with a b || starts_with b a) ≡ true = comparable a b s h e in
      let none_is : (starts_with a b || starts_with b a) ≡ false = no_prefix-head a b bs k in cc)
  | inr e ↦ rw e (alone s a bs h (no_prefix-tail a b bs k))
]

count-apart : (s : Text) (hrefs : List Text) → apart hrefs ≡ true → count s hrefs ≤ 1
unfolding count
count-apart s [] h = omega arith
count-apart s (a ∷ hrefs) h = elim (Bool-cases (starts_with a s)) [
  | inl e ↦ rw (e, alone s a hrefs e (apart-head a hrefs h)) (omega arith)
  | inr e ↦ rw e (count-apart s hrefs (apart-tail a hrefs h))
]

count-marked :
    (rail_open : Bool) (path : Text) (ns : List NavItem)
    → length (filter (λ (l : Link). l.marked) (map (link_of rail_open path) ns))
      ≡ count path (map (λ (n : NavItem). text n.href) ns)
unfolding link_of is_at count
count-marked rail_open path [] = refl
count-marked rail_open path (n ∷ ns) = elim (Bool-cases (starts_with (text n.href) path)) [
  | inl e ↦ rw e (ap suc (count-marked rail_open path ns))
  | inr e ↦ rw e (count-marked rail_open path ns)
]

-- On every path at most one link of the sidebar is marked: no href is a prefix of another.
pub admin_nav-marked :
    (rail_open : Bool) (path : Text)
    → length (filter (λ (l : Link). l.marked) (map (link_of rail_open path) admin_nav)) ≤ 1
unfolding admin_nav text apart
admin_nav-marked rail_open path =
    subst (λ n. n ≤ 1) (sym (count-marked rail_open path admin_nav))
      (count-apart path (map (λ (n : NavItem). text n.href) admin_nav) refl)
