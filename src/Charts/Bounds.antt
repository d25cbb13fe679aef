-- ===== src/Charts/Bounds.antt =====
-- The charts stay within their frames.
use rafineai_self_hosted.Prelude.{
  ℕ, suc, ◌+◌, ◌-◌, ◌*◌, ◌≤◌, ◌<◌, List, [], ◌∷◌, map, length, All, ◌≡◌, refl, arith, leb, String,
  Bool-cases, inl, inr,
}
use mathlib.Core.Path.{subst}
use native.Mathlib.Nat.{mul-le-mul_right, div-lt_iff_lt-mul}
use rafineai_self_hosted.Decimal.{Fraction}
use rafineai_self_hosted.Charts.{
  Point, pad, width, larger, max_of, x_at, y_at, points_from, pts, Datum, Bar, bars_from, bar_chart,
  Segment, sum, or_one, segments_from, donut, percent_of, legend,
}

-- A fraction with a positive denominator lies between two whole numbers.
abbrev pub Between : ℕ → ℕ → Fraction → Type 0
Between lo hi f = (0 < f.den) × (lo * f.den ≤ f.num) × (f.num ≤ hi * f.den)

max_of-positive : (vs : List ℕ) → 0 < max_of vs
unfolding max_of
max_of-positive [] = omega arith
max_of-positive (v ∷ vs) = ground (arith, max_of-positive vs)

All-≤ : (vs : List ℕ) {m n : ℕ} → All (λ v. v ≤ m) vs → m ≤ n → All (λ v. v ≤ n) vs
All-≤ [] h k = tt
All-≤ (v ∷ vs) {m = m} {n = n} h k = (omega (arith, h.0, k), All-≤ vs {m = m} {n = n} h.1 k)

max_of-bound : (vs : List ℕ) → All (λ v. v ≤ max_of vs) vs
unfolding max_of
max_of-bound [] = tt
max_of-bound (v ∷ vs) = (
  ground arith,
  All-≤ vs {m = max_of vs} {n = larger v (max_of vs)} (max_of-bound vs) (ground arith),
)

x_at-Between : (n i : ℕ) → i < n → Between pad (width - pad) (x_at n i)
unfolding x_at
x_at-Between n i h = elim (Bool-cases (leb 2 n)) [
  | inl e ↦ rw e (
      let two : 2 ≤ n = ground arith in
      (
        omega (arith, two),
        omega (arith, two),
        omega (arith, two, h, mul-le-mul_right 552 (pred_le n i h two)),
      ))
  | inr e ↦ rw e (omega arith, omega arith, omega arith)
]
  where
    pred_le : (n i : ℕ) → i < n → 2 ≤ n → i ≤ n - 1
    pred_le n i h k = omega arith

y_at-Between : (k max y : ℕ) → 0 < max → y ≤ max → Between pad (48 + k - pad) (y_at (48 + k) max y)
unfolding y_at
y_at-Between k max y h p =
    rw (less_pad k, less_frame k) (h, omega (arith, mul-le-mul_right k p), omega arith)
  where
    less_pad : (k : ℕ) → 48 + k - 24 ≡ 24 + k
    less_pad k = omega arith

    less_frame : (k : ℕ) → 48 + k - 48 ≡ k
    less_frame k = omega arith

abbrev pub InFrame : ℕ → Point → Type 0
InFrame height p = Between pad (width - pad) p.x × Between pad (height - pad) p.y

points_from-InFrame :
    (k max n i : ℕ) (vs : List ℕ)
    → 0 < max
    → All (λ v. v ≤ max) vs
    → i + length vs ≡ n
    → All (InFrame (48 + k)) (points_from (48 + k) max n i vs)
unfolding points_from
points_from-InFrame k max n i [] h p e = tt
points_from-InFrame k max n i (v ∷ vs) h p e = (
  (x_at-Between n i (omega (arith, e)), y_at-Between k max v h p.0),
  points_from-InFrame k max n (suc i) vs h p.1 (omega (arith, e)),
)

bars_from-Between :
    (max i : ℕ) (ds : List Datum)
    → 0 < max
    → All (λ v. v ≤ max) (map (λ (d : Datum). d.value) ds)
    → All (λ (b : Bar). Between 0 100 b.percent) (bars_from max i ds)
unfolding bars_from
bars_from-Between max i [] h p = tt
bars_from-Between max i (d ∷ ds) h p =
    ((h, omega arith, omega (arith, p.0)), bars_from-Between max (suc i) ds h p.1)

-- The points of a line chart and the bars of a bar chart stay in their frames, whatever the counts:
-- each point of a chart at least twice the padding high lies between the paddings, and each bar is at
-- most as wide as its frame. No coordinate divides by zero.
pub charts-InFrame :
    (k : ℕ) (vs : List ℕ) (ds : List Datum)
    → All (InFrame (48 + k)) (pts (48 + k) vs)
      × All (λ (b : Bar). Between 0 100 b.percent) (bar_chart ds)
unfolding pts bar_chart
charts-InFrame k vs ds = (
  points_from-InFrame k (max_of vs) (length vs) 0 vs (max_of-positive vs) (max_of-bound vs)
      (omega arith),
  (let values = map (λ (d : Datum). d.value) ds in
      bars_from-Between (max_of values) 0 ds (max_of-positive values) (max_of-bound values)),
)

-- The segments follow one another from one place of the circle to another.
abbrev pub Adjoining : ℕ → ℕ → ℕ → List Segment → Type 0
Adjoining total start stop [] = start ≡ stop
Adjoining total start stop (s ∷ ss) =
    (s.offset.num ≡ start)
    × (s.offset.den ≡ total)
    × (s.dash.den ≡ total)
    × Adjoining total (start + s.dash.num) stop ss

segments_from-Adjoining :
    (total start i : ℕ) (ds : List Datum)
    → Adjoining total start (start + sum ds) (segments_from total start i ds)
unfolding segments_from
segments_from-Adjoining total start i [] = omega arith
segments_from-Adjoining total start i (d ∷ ds) = (
  refl,
  refl,
  refl,
  subst
      (λ stop.
        Adjoining total (start + d.value) stop (segments_from total (start + d.value) (suc i) ds))
      (omega arith) (segments_from-Adjoining total (start + d.value) (suc i) ds),
)

at_most_100 : (total v : ℕ) → 0 < total → v ≤ total → percent_of total v ≤ 100
at_most_100 total v h p =
    let under : percent_of total v < 101 =
      (div-lt_iff_lt-mul {k = 2 * total} {x = 200 * v + total} {y = 101} (omega arith)).1
        (omega (arith, p)) in
    omega (arith, under)

percents :
    (total : ℕ) (ds : List Datum)
    → 0 < total
    → sum ds ≤ total
    → All
        (λ (l : String × ℕ). l.1 ≤ 100)
        (map (λ (d : Datum). (d.name, percent_of total d.value)) ds)
percents total [] h p = tt
percents total (d ∷ ds) h p =
    (at_most_100 total d.value h (omega (arith, p)), percents total ds h (omega (arith, p)))

-- The segments of a donut go around its circle exactly once: where some count is positive, each starts
-- where the one before it ends, the first at 0 and the last ending at the whole, and no line of the
-- legend says more than 100 percent.
pub donut-Adjoining :
    (ds : List Datum)
    → 0 < sum ds
    → Adjoining (sum ds) 0 (sum ds) (donut ds) × All (λ (l : String × ℕ). l.1 ≤ 100) (legend ds)
unfolding donut legend
donut-Adjoining ds h =
    let one : or_one (sum ds) ≡ sum ds = ground arith in
    rw one (
      subst (λ stop. Adjoining (sum ds) 0 stop (segments_from (sum ds) 0 0 ds)) (omega arith)
          (segments_from-Adjoining (sum ds) 0 0 ds),
      percents (sum ds) ds h (omega arith),
    )
