-- ===== src/Prelude/Trimming.antt =====
-- trim() forgets what is blank at the end.
use mathlib.Core.Path.{◌≡◌, ap}
use mathlib.Core.Logic.{inl, inr}
use mathlib.Core.List.{[], ◌∷◌, ◌++◌}
use rafineai_self_hosted.Prelude.Tests.{Bool-cases}
use rafineai_self_hosted.Prelude.Texts.{Text, is_space, trim, trim_start, trim_end, cons_end}

trim_end-append : (s w : Text) → trim_end w ≡ [] → trim_end (s ++ w) ≡ trim_end s
unfolding trim_end
trim_end-append [] w h = h
trim_end-append (c ∷ s) w h = ap (cons_end c) (trim_end-append s w h)

pub trim-append : (s w : Text) → trim_end w ≡ [] → trim w ≡ [] → trim (s ++ w) ≡ trim s
unfolding trim trim_start trim_end
trim-append [] w h k = k
trim-append (c ∷ s) w h k = elim (Bool-cases (is_space c)) [
  | inl e ↦ rw e (trim-append s w h k)
  | inr e ↦ rw e (trim_end-append (c ∷ s) w h)
]
