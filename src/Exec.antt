-- ===== src/Exec.antt =====
-- Asynchronous code as state passing with failure. A handler is a function from the state to an
-- outcome and a new state; what it wrote before it threw stays written. `throw`, `try`/`catch` and
-- `finally` are those of the source, and a promise that is not awaited is `detach`.
pub mod Rules
use rafineai_self_hosted.Prelude.{ℕ, String}

-- What code throws: the `ApiError` of panel/lib/api.ts, or an error of the platform (a network
-- failure, a body that is no JSON). Both carry a message, so `e.message ?? fallback` is the message.
pub data Failure : Type 0 where
  api_error : (status : ℕ) (message : String) → Failure
  platform_error : (message : String) → Failure

abbrev pub message : Failure → String
message (api_error status m) = m
message (platform_error m) = m

pub data Outcome {ℓ} (A : Type ℓ) : Type ℓ where
  ok : A → Outcome A
  fail : Failure → Outcome A

abbrev pub Exec {ℓ} : Type ℓ → Type ℓ → Type ℓ
Exec Σ A = Σ → Outcome A × Σ

abbrev pub Done : Type 0
Done = Unit

module _ {ℓ} {Σ A : Type ℓ} where
  abbrev pub pure : A → Exec Σ A
  pure a s = (ok a, s)

  abbrev pub throw : Failure → Exec Σ A
  throw e s = (fail e, s)

  abbrev pub gets : (Σ → A) → Exec Σ A
  gets f s = (ok (f s), s)

  -- The handler's body with the state at the time of the call, which its closures keep.
  abbrev pub captured : (Σ → Exec Σ A) → Exec Σ A
  captured f s = f s s

  abbrev pub caught : Outcome A → (Failure → Exec Σ A) → Exec Σ A
  caught (ok a) h s = (ok a, s)
  caught (fail e) h s = h e s

  -- try { m } catch (e) { h(e) }
  abbrev pub try_catch : Exec Σ A → (Failure → Exec Σ A) → Exec Σ A
  try_catch m h s = caught (m s).0 h (m s).1

  -- try { m } finally { f }
  abbrev pub finally : Exec Σ A → (Σ → Σ) → Exec Σ A
  finally m f s = ((m s).0, f (m s).1)

module _ {ℓ} {Σ A B : Type ℓ} where
  abbrev pub continue : Outcome A → (A → Exec Σ B) → Exec Σ B
  continue (ok a) f s = f a s
  continue (fail e) f s = (fail e, s)

  infixl 10 ◌>>=◌ ◌>>◌
  abbrev pub ◌>>=◌ : Exec Σ A → (A → Exec Σ B) → Exec Σ B
  ◌>>=◌ m f s = continue (m s).0 f (m s).1

  abbrev pub ◌>>◌ : Exec Σ A → Exec Σ B → Exec Σ B
  m >> n = m >>= λ _. n

module _ {Σ A : Type 0} where
  -- Runs a promise that the code does not await; what it throws is not seen by the caller.
  abbrev pub detach : Exec Σ A → Exec Σ Done
  detach m s = (ok tt, (m s).1)

module _ {Σ : Type 0} where
  abbrev pub modify : (Σ → Σ) → Exec Σ Done
  modify f s = (ok tt, f s)

  abbrev pub skip : Exec Σ Done
  skip s = (ok tt, s)
