-- ===== src/Exec/Rules.antt =====
-- Rules of reasoning about handlers: what the rest of a handler preserves still holds at its end, and
-- a handler whose `catch` does not throw does not throw.
use rafineai_self_hosted.Prelude.{◌≡◌, refl, Bool, true, false, if◌then◌else◌}
use rafineai_self_hosted.Exec.{Failure, Outcome, ok, fail, Exec, caught, try_catch, continue, ◌>>=◌}

-- From every state with `P` the handler ends in one with `P`, whatever its outcome.
abbrev pub Preserves : {Σ A : Type 0} → (Σ → Type 0) → Exec Σ A → Type 0
Preserves {Σ} P m = (s : Σ) → P s → P (m s).1

module _ {Σ A : Type 0} {P : Σ → Type 0} where
  pub Preserves-cond :
      (test : Bool) (m n : Exec Σ A)
      → Preserves P m
      → Preserves P n
      → Preserves P (if test then m else n)
  Preserves-cond true m n hm hn = hm
  Preserves-cond false m n hm hn = hn

module _ {Σ A B : Type 0} {P : Σ → Type 0} where
  after_outcome :
      (o : Outcome A) (rest : A → Exec Σ B) (t : Σ)
      → P t
      → ((a : A) → Preserves P (rest a))
      → P (continue o rest t).1
  after_outcome (ok a) rest t p k = k a t p
  after_outcome (fail e) rest t p k = p

  -- What holds after the first part and is preserved by the rest holds at the end.
  pub bind-at :
      (m : Exec Σ A) (rest : A → Exec Σ B) (s : Σ)
      → P (m s).1
      → ((a : A) → Preserves P (rest a))
      → P ((m >>= rest) s).1
  bind-at m rest s p k = after_outcome (m s).0 rest (m s).1 p k

module _ {Σ : Type 0} where
  caught-ok :
      (o : Outcome Unit) (h : Failure → Exec Σ Unit) (s : Σ)
      → ((e : Failure) → (h e s).0 ≡ ok tt)
      → (caught o h s).0 ≡ ok tt
  caught-ok (ok a) h s p = refl
  caught-ok (fail e) h s p = p e

  -- A handler whose `catch` does not throw does not throw.
  pub try_catch-ok :
      (m : Exec Σ Unit) (h : Failure → Exec Σ Unit) (s : Σ)
      → ((e : Failure) (t : Σ) → (h e t).0 ≡ ok tt)
      → (try_catch m h s).0 ≡ ok tt
  try_catch-ok m h s p = caught-ok (m s).0 h (m s).1 (λ e. p e (m s).1)
