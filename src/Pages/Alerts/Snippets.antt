-- ===== src/Pages/Alerts/Snippets.antt =====
-- The snippets of the alerts.
use rafineai_self_hosted.Prelude.{
  ℕ, zero, suc, ◌≤◌, String, Text, text, strip_prefix, strip_prefix-eq_some, Bool, true, false, ◌+◌,
  Option, none, some, List, [], ◌∷◌, ◌++◌, ◌≡◌, refl, ap, ◌∙◌, sym, not, ◌&&◌, eq_iff,
  length-append, includes, includes-toggle_id, length, take, drop, is_empty, arith, ◌===◌,
  if◌then◌else◌, inl, inr, Option-cases,
}
use rafineai_self_hosted.Types.{Alert}
use rafineai_self_hosted.Pages.Alerts.{
  Alerts, Piece, plain, masked, separator, split_masked, head_onto, pieces, snippet_text,
  toggle_expand, is_long, display_snippet,
}

-- A click on the button of an alert expands or collapses this alert, and no other.
pub toggle_expand_lem :
    (id j : String) (s : Alerts)
    → includes j (toggle_expand id s).expanded
      ≡ (if id === j then not (includes id s.expanded) else includes j s.expanded)
unfolding toggle_expand
toggle_expand_lem id j s = includes-toggle_id id j s.expanded

length-take-le : (n : ℕ) (t : Text) → length (take n t) ≤ n
length-take-le zero t = omega arith
length-take-le (suc n) [] = omega arith
length-take-le (suc n) (c ∷ t) = omega (arith, length-take-le n t)

-- What the pieces stand for in the snippet.
abbrev pub unmask : List Piece → Text
unmask [] = []
unmask (plain p ∷ ps) = p ++ unmask ps
unmask (masked ∷ ps) = separator ++ unmask ps

head_onto-filled : (c : ℕ) (ps : List Text) → is_empty (head_onto c ps) ≡ false
head_onto-filled c [] = refl
head_onto-filled c (p ∷ ps) = refl

split_masked-filled : (k : ℕ) (t : Text) → is_empty (split_masked k t) ≡ false
unfolding split_masked
split_masked-filled k [] = refl
split_masked-filled (suc k) (c ∷ t) = split_masked-filled k t
split_masked-filled zero (c ∷ t) = filled (strip_prefix separator (c ∷ t))
  where
    filled :
        (o : Option Text)
        → is_empty
            (elim o [ some r ↦ [] ∷ split_masked 7 t | none ↦ head_onto c (split_masked zero t) ])
          ≡ false
    filled (some r) = refl
    filled none = head_onto-filled c (split_masked zero t)

unmask-separator :
    (ps : List Text)
    → is_empty ps ≡ false
    → unmask (pieces ([] ∷ ps)) ≡ separator ++ unmask (pieces ps)
unfolding pieces
unmask-separator [] h = cc
unmask-separator (p ∷ ps) h = refl

unmask-head_onto :
    (c : ℕ) (ps : List Text)
    → is_empty ps ≡ false
    → unmask (pieces (head_onto c ps)) ≡ c ∷ unmask (pieces ps)
unfolding pieces
unmask-head_onto c [] h = cc
unmask-head_onto c (p ∷ []) h = refl
unmask-head_onto c (p ∷ q ∷ ps) h = refl

drop-separator : (c : ℕ) (t r : Text) → strip_prefix separator (c ∷ t) ≡ some r → drop 7 t ≡ r
unfolding text
drop-separator c t r h = ap (drop 8) (strip_prefix-eq_some separator (c ∷ t) h)

unmask-split_masked : (k : ℕ) (t : Text) → unmask (pieces (split_masked k t)) ≡ drop k t
unfolding split_masked
unmask-split_masked zero [] = unfold pieces in refl
unmask-split_masked (suc k) [] = unfold pieces in refl
unmask-split_masked (suc k) (c ∷ t) = unmask-split_masked k t
unmask-split_masked zero (c ∷ t) = elim (Option-cases (strip_prefix separator (c ∷ t))) [
  | inl h ↦
      rw (h, split_masked)
        (unmask-head_onto c (split_masked zero t) (split_masked-filled zero t)
          ∙ ap (λ (s : Text). c ∷ s) (unmask-split_masked zero t))
  | inr (r, h) ↦
      rw (h, split_masked)
        (unmask-separator (split_masked 7 t) (split_masked-filled 7 t)
          ∙ ap (λ (s : Text). separator ++ s) (unmask-split_masked 7 t ∙ drop-separator c t r h)
          ∙ sym (strip_prefix-eq_some separator (c ∷ t) h))
]

-- The marked text is the snippet: with "[MASKED]" put back for each mark, nothing is lost or added.
pub unmask-snippet_text : (t : Text) → unmask (snippet_text t) ≡ t
unfolding snippet_text
unmask-snippet_text t = unmask-split_masked zero t

-- The snippet of an alert `b` after a click on the button of an alert `a`: where they are one, it is
-- whole if it was collapsed or is short, and else its first 300 characters and "…"; where they have
-- different ids, it is shown as before.
pub toggle_expand-display_snippet :
    (a b : Alert) (s : Alerts)
    → display_snippet (toggle_expand a.id s).expanded b ≡ (
        if a.id === b.id
        then (if is_long b && includes b.id s.expanded
            then take 300 b.snippet ++ text "…"
            else b.snippet)
        else display_snippet s.expanded b)
unfolding display_snippet
toggle_expand-display_snippet a b s =
    ground (arith, toggle_expand_lem a.id b.id s, eq_iff a.id b.id)

cut-length : (n : ℕ) (t : Text) → length (take n t ++ text "…") ≤ n + 1
unfolding text
cut-length n t = omega (arith, length-append (take n t) (8230 ∷ []), length-take-le n t)

unless-length :
    (n : ℕ) (long : Bool) (cut t : Text)
    → (long ≡ false → length t ≤ n)
    → length cut ≤ n
    → length (if long then cut else t) ≤ n
unless-length n true cut t short h = h
unless-length n false cut t short h = short refl

is_long-false : (a : Alert) → (is_long a && true) ≡ false → length a.snippet ≤ 301
unfolding is_long
is_long-false a h = ground arith

-- What is shown of a snippet that is not expanded has 301 characters at most.
pub display_snippet-length :
    (expanded : List String) (a : Alert)
    → includes a.id expanded ≡ false
    → length (display_snippet expanded a) ≤ 301
unfolding display_snippet
display_snippet-length expanded a h = rw h (
    unless-length 301 (is_long a && true) (take 300 a.snippet ++ text "…") a.snippet
      (is_long-false a) (cut-length 300 a.snippet))
