-- ===== src/Page/Loading/Order.antt =====
-- What a page of Page/Loading shows, by the order of the answers.
use rafineai_self_hosted.Prelude.{Option, none, some, List, [], ◌∷◌, ◌++◌, ◌≡◌, refl, sym, ap, ◌∙◌}
use mathlib.Core.Path.{subst}
use rafineai_self_hosted.Exec.{Outcome, ok, fail}
use rafineai_self_hosted.Page.Loading.{
  Loader, Session, at_rest, opened, received, Step, Reach, InOrder,
}

module _ {S K R : Type 0} (l : Loader S K R) where
  abbrev IsChosen : Option (K × Outcome R) → S → Type 0
  IsChosen none s = Unit
  IsChosen (some (k, o)) s = l.chosen s ≡ some k

  abbrev IsShown : Option (K × Outcome R) → S → Type 0
  IsShown none s = Unit
  IsShown (some (k, ok r)) s = l.shown s ≡ r
  IsShown (some (k, fail e)) s = Unit

  IsChosen-move :
      (x : Option (K × Outcome R)) (s t : S) → l.chosen t ≡ l.chosen s → IsChosen x s → IsChosen x t
  IsChosen-move none s t e h = tt
  IsChosen-move (some (k, o)) s t e h = e ∙ h

  IsShown-move :
      (x : Option (K × Outcome R)) (s t : S) → l.shown t ≡ l.shown s → IsShown x s → IsShown x t
  IsShown-move none s t e h = tt
  IsShown-move (some (k, ok r)) s t e h = e ∙ h
  IsShown-move (some (k, fail e')) s t e h = tt

  IsShown-finish : (k : K) (o : Outcome R) (s : S) → IsShown (some (k, o)) (l.finish k o s)
  IsShown-finish k (ok r) s = l.finish_shown k (ok r) s ∙ l.settle_ok r (l.shown s)
  IsShown-finish k (fail e) s = tt

  abbrev IsSound : Session S K R → Type 0
  IsSound s = IsChosen s.latest s.ui × IsShown s.answered s.ui

  sound : (s : Session S K R) → Reach l s → IsSound s
  sound _ (Reach.start s) = (tt, tt)
  sound _ (Reach.next {s} before (Step.open_row k o)) = (
    l.begin_chosen k s.ui,
    IsShown-move s.answered s.ui (l.begin k s.ui) (l.begin_shown k s.ui) (sound s before).1,
  )
  sound _ (Reach.next {s} before (Step.answer es k o fs e)) = (
    IsChosen-move s.latest s.ui (l.finish k o s.ui) (l.finish_chosen k o s.ui) (sound s before).0,
    IsShown-finish k o s.ui,
  )
  sound _ (Reach.next {s} before (Step.other f c d)) = (
    IsChosen-move s.latest s.ui (f s.ui) c (sound s before).0,
    IsShown-move s.answered s.ui (f s.ui) d (sound s before).1,
  )

  -- Whatever the order of clicks and answers: the row that was clicked last is the one that is chosen, and
  -- the contents that are shown are those of the answer that came last, where it was no failure.
  pub Reach-latest :
      (s : Session S K R) (k j : K) (o : Outcome R) (r : R)
      → Reach l s
      → s.latest ≡ some (k, o)
      → s.answered ≡ some (j, ok r)
      → (l.chosen s.ui ≡ some k) × (l.shown s.ui ≡ r)
  Reach-latest s k j o r run last came =
      let (chosen, shown) = sound s run in
      (subst (λ x. IsChosen x s.ui) last chosen, subst (λ x. IsShown x s.ui) came shown)

  abbrev last_of : Option (K × Outcome R) → List (K × Outcome R) → Option (K × Outcome R)
  last_of d [] = d
  last_of d (x ∷ xs) = last_of (some x) xs

  last_of-append :
      (d : Option (K × Outcome R)) (xs : List (K × Outcome R)) (x : K × Outcome R)
      → last_of d (xs ++ x ∷ []) ≡ some x
  last_of-append d [] x = refl
  last_of-append d (y ∷ xs) x = last_of-append (some y) xs x

  InOrder-Reach : (s : Session S K R) → InOrder l s → Reach l s
  InOrder-Reach _ (InOrder.start s) = Reach.start s
  InOrder-Reach _ (InOrder.open_row {s} before k o) =
      Reach.next (InOrder-Reach s before) (Step.open_row k o)
  InOrder-Reach _ (InOrder.answer {s} before k o fs e) =
      Reach.next (InOrder-Reach s before) (Step.answer [] k o fs e)
  InOrder-Reach _ (InOrder.other {s} before f c d) =
      Reach.next (InOrder-Reach s before) (Step.other f c d)

  InOrder-last : (s : Session S K R) → InOrder l s → last_of s.answered s.awaited ≡ s.latest
  InOrder-last _ (InOrder.start s) = refl
  InOrder-last _ (InOrder.open_row {s} before k o) = last_of-append s.answered s.awaited (k, o)
  InOrder-last _ (InOrder.answer {s} before k o fs e) =
      ap (last_of s.answered) (sym e) ∙ InOrder-last s before
  InOrder-last _ (InOrder.other {s} before f c d) = InOrder-last s before

  -- Where answers come in the order of the requests and none is awaited any more, and every other handler that
  -- ran has left the choice and the contents alone, the page shows the contents of the row that is chosen,
  -- where the server gave them.
  pub InOrder-shown :
      (s : Session S K R) (k : K) (r : R)
      → InOrder l s
      → s.awaited ≡ []
      → s.latest ≡ some (k, ok r)
      → (l.chosen s.ui ≡ some k) × (l.shown s.ui ≡ r)
  InOrder-shown s k r run none_awaited last =
      Reach-latest s k k (ok r) r (InOrder-Reach s run) last
        (sym (ap (last_of s.answered) none_awaited) ∙ InOrder-last s run ∙ last)

  -- Two rows are clicked while nothing is awaited, and the answer to the second comes first.
  abbrev pub swapped : S → K → K → R → R → Session S K R
  swapped s first second r q = received l first (ok r) [] (
      received l second (ok q) ((first, ok r) ∷ [])
        (opened l second (ok q) (opened l first (ok r) (at_rest s))))

  pub swapped-Reach : (s : S) (first second : K) (r q : R) → Reach l (swapped s first second r q)
  swapped-Reach s first second r q =
      Reach.next
        (Reach.next
          (Reach.next (Reach.next (Reach.start s) (Step.open_row first (ok r)))
            (Step.open_row second (ok q)))
          (Step.answer ((first, ok r) ∷ []) second (ok q) [] refl))
        (Step.answer [] first (ok r) [] refl)

  -- The order matters: whatever the page was, it then shows the contents of the first row while the second
  -- is chosen.
  pub overtaken :
      (s : S) (first second : K) (r q : R)
      → (l.chosen (swapped s first second r q).ui ≡ some second)
        × (l.shown (swapped s first second r q).ui ≡ r)
  overtaken s first second r q =
      Reach-latest (swapped s first second r q) second first (ok q) r
        (swapped-Reach s first second r q) refl refl
