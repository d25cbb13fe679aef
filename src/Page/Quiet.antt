-- ===== src/Page/Quiet.antt =====
-- Requests of a page while no other handler runs.
use rafineai_self_hosted.Prelude.{◌≡◌, ◌⊎◌, inl, inr, refl}
use rafineai_self_hosted.Exec.{Failure, Outcome, ok, fail, continue}
use rafineai_self_hosted.Page.{nothing, Shape, Call, Machine, Env, await_api, request}

pub Outcome-cases {ℓ} :
    {A : Type ℓ} (o : Outcome A) → ((a : A) × (o ≡ ok a)) ⊎ ((e : Failure) × (o ≡ fail e))
Outcome-cases (ok a) = inl (a, refl)
Outcome-cases (fail e) = inr (e, refl)

-- Nothing runs while the page waits.
abbrev pub IsQuiet : {S W : Type 0} → Env S W → Type 0
IsQuiet {S} {W} env = (w : W) (s : S) → env.meanwhile w s ≡ s

module _ {S W : Type 0} (env : Env S W) (quiet : IsQuiet env) where
  pub await_api-quiet :
      (t : Shape) (q : Call) (m : Machine S W)
      → await_api env t q m
        ≡ ((env.call t q m.world).0, record { ui = m.ui; world = (env.call t q m.world).1 })
  unfolding await_api
  await_api-quiet t q m = rw quiet

  unit_outcome : (o : Outcome Unit) (m : Machine S W) → continue o (λ _ n. (ok tt, n)) m ≡ (o, m)
  unit_outcome (ok a) m = refl
  unit_outcome (fail e) m = refl

  pub request-quiet :
      (q : Call) (m : Machine S W)
      → request env q m ≡ (
        (env.call nothing q m.world).0,
        record { ui = m.ui; world = (env.call nothing q m.world).1 },
      )
  unfolding request
  request-quiet q m = rw quiet (unit_outcome (env.call nothing q m.world).0 _)
