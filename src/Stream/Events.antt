-- ===== src/Stream/Events.antt =====
-- Splitting a buffer at blank lines does not depend on where the buffer is cut.
use rafineai_self_hosted.Prelude.{
  ℕ, Text, true, false, List, [], ◌∷◌, ◌++◌, ◌≡◌, refl, sym, ap, ◌∙◌, inl, inr, Bool-cases,
}
use rafineai_self_hosted.Stream.{Split, close, push, push_char, blank_line, split_events}

-- The cut buffer: the events of the first part, then those of what it left over and the second.
abbrev pub resume : Split → Text → Split
resume s y =
    let t = split_events (s.rest ++ y) in record { events = s.events ++ t.events; rest = t.rest }

pub split_events-blank :
    (c d : ℕ) (t : Text) → blank_line c d ≡ true → split_events (c ∷ d ∷ t) ≡ close (split_events t)
unfolding split_events
split_events-blank c d t h = rw h

pub split_events-char :
    (c d : ℕ) (t : Text)
    → blank_line c d ≡ false
    → split_events (c ∷ d ∷ t) ≡ push c (split_events (d ∷ t))
unfolding split_events
split_events-char c d t h = rw h

abbrev RestIfNone : List Text → Text → Text → Type 0
RestIfNone [] r x = r ≡ x
RestIfNone (_ ∷ _) r x = Unit

push-RestIfNone :
    (c : ℕ) (es : List Text) (r x : Text)
    → RestIfNone es r x
    → RestIfNone (push_char c es r).events (push_char c es r).rest (c ∷ x)
push-RestIfNone c [] r x h = ap (λ (s : Text). c ∷ s) h
push-RestIfNone c (e ∷ es) r x h = tt

-- With no complete event the whole buffer is left over.
rest_of_no_event : (x : Text) → RestIfNone (split_events x).events (split_events x).rest x
unfolding split_events
rest_of_no_event [] = refl
rest_of_no_event (c ∷ []) = refl
rest_of_no_event (c ∷ d ∷ t) = elim (Bool-cases (blank_line c d)) [
  | inl h ↦ rw h tt
  | inr h ↦ rw h (
      push-RestIfNone c (split_events (d ∷ t)).events (split_events (d ∷ t)).rest (d ∷ t)
        (rest_of_no_event (d ∷ t)))
]

push-resume :
    (c d : ℕ) (t y : Text) (es : List Text) (r : Text)
    → blank_line c d ≡ false
    → RestIfNone es r (d ∷ t)
    → split_events (d ∷ (t ++ y)) ≡ resume (record { events = es; rest = r }) y
    → push c (split_events (d ∷ (t ++ y))) ≡ resume (push_char c es r) y
push-resume c d t y [] r h whole ih = rw whole (sym (split_events-char c d (t ++ y) h))
push-resume c d t y (e ∷ es) r h whole ih = ap (push c) ih

-- What a buffer splits into is what its first part splits into, resumed with the second.
pub split_events-append : (x y : Text) → split_events (x ++ y) ≡ resume (split_events x) y
unfolding split_events
split_events-append [] y = refl
split_events-append (c ∷ []) y = refl
split_events-append (c ∷ d ∷ t) y = elim (Bool-cases (blank_line c d)) [
  | inl h ↦
      split_events-blank c d (t ++ y) h
      ∙ ap close (split_events-append t y)
      ∙ ap (λ s. resume s y) (sym (split_events-blank c d t h))
  | inr h ↦
      split_events-char c d (t ++ y) h
      ∙ push-resume c d t y (split_events (d ∷ t)).events (split_events (d ∷ t)).rest h
          (rest_of_no_event (d ∷ t)) (split_events-append (d ∷ t) y)
      ∙ ap (λ s. resume s y) (sym (split_events-char c d t h))
]
