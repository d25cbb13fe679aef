-- ===== src/Decimal.antt =====
-- Numbers with a fraction, as the floating-point value exactly, and `toFixed`.
pub mod Rounding
use rafineai_self_hosted.Prelude.{ℕ, ◌+◌, ◌*◌, ◌/◌}

pub record Fraction : Type 0 where
  pub num : ℕ
  pub den : ℕ

-- x.toFixed(d), in units of the last digit, where `scale` is 10 ^ d: the nearest, and of two the larger.
unfoldable pub to_fixed : (scale : ℕ) → Fraction → ℕ
to_fixed scale x = (2 * scale * x.num + x.den) / (2 * x.den)
