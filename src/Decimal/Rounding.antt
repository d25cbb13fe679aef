-- ===== src/Decimal/Rounding.antt =====
-- toFixed rounds to the nearest.
use rafineai_self_hosted.Prelude.{ℕ, ◌+◌, ◌*◌, ◌≤◌, ◌<◌, arith}
use native.Mathlib.Nat.{div-mul-le_self, lt-div-mul-add}
use rafineai_self_hosted.Decimal.{Fraction, to_fixed}

-- What toFixed shows is off by at most half a unit of the last digit.
pub to_fixed-near :
    (scale : ℕ) (x : Fraction)
    → 0 < x.den
    → (2 * (to_fixed scale x * x.den) ≤ 2 * (scale * x.num) + x.den)
      × (2 * (scale * x.num) < 2 * (to_fixed scale x * x.den) + x.den)
unfolding to_fixed
to_fixed-near scale x h =
    let n = 2 * scale * x.num + x.den in
    (
      omega (arith, div-mul-le_self n (2 * x.den)),
      omega (arith, lt-div-mul-add {a = n} {b = 2 * x.den} (omega (arith, h))),
    )
