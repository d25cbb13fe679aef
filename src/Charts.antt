-- ===== src/Charts.antt =====
-- panel/components/charts.tsx. The values are counts. A coordinate or a width is an exact fraction:
-- floating point, and the rounding of `toFixed(1)`, are left out. Heights are at least twice the
-- padding (the panel's charts are 180 to 220 high), so no subtraction stops at 0. A length on the circle of the
-- donut is a fraction of its circumference. Classes and styles are left out.
pub mod Bounds
pub mod Tests
use rafineai_self_hosted.Decimal.{Fraction}
use rafineai_self_hosted.Prelude.{
  ℕ, zero, suc, ◌+◌, ◌-◌, ◌*◌, ◌/◌, ◌%◌, String, Text, text, Bool, ◌||◌, ◌&&◌, Option, none, some,
  List, [], ◌∷◌, ◌++◌, map, filter, length, is_empty, ◌==◌, leb, if◌then◌else◌,
}

abbrev pub pad : ℕ
pad = 24

abbrev pub width : ℕ
width = 600

abbrev pub larger : ℕ → ℕ → ℕ
larger m n = if leb m n then n else m

-- Math.max(1, ...values)
unfoldable pub max_of : List ℕ → ℕ
max_of [] = 1
max_of (v ∷ vs) = larger v (max_of vs)

-- LineChart: pad + i * stepX of n points
unfoldable pub x_at : ℕ → ℕ → Fraction
x_at n i =
    if leb 2 n
    then record { num = pad * (n - 1) + i * (width - pad * 2); den = n - 1 }
    else record { num = pad; den = 1 }

-- height - pad - (d.y / max) * (height - pad * 2)
unfoldable pub y_at : ℕ → ℕ → ℕ → Fraction
y_at height max y = record { num = (height - pad) * max - y * (height - pad * 2); den = max }

pub record Point : Type 0 where
  pub x : Fraction
  pub y : Fraction

-- The points from the i-th on.
unfoldable pub points_from : ℕ → ℕ → ℕ → ℕ → List ℕ → List Point
unfolding x_at y_at
points_from height max n i [] = []
points_from height max n i (v ∷ vs) =
    record { x = x_at n i; y = y_at height max v } ∷ points_from height max n (suc i) vs

unfoldable pub pts : ℕ → List ℕ → List Point
unfolding points_from max_of
pts height vs = points_from height (max_of vs) (length vs) 0 vs

-- The commands of a path: `M` at the first point, `L` at the others; and `Z`.
pub data Command : Type 0 where
  move_to line_to : Point → Command
  close : Command

unfoldable pub line : List Point → List Command
line [] = []
line (p ∷ ps) = move_to p ∷ map line_to ps

abbrev last_or : Point → List Point → Point
last_or p [] = p
last_or p (q ∷ ps) = last_or q ps

abbrev whole : ℕ → Fraction
whole n = record { num = n; den = 1 }

unfoldable pub area : ℕ → List Point → List Command
unfolding line
area height [] = []
area height (p ∷ ps) =
    line (p ∷ ps)
    ++ line_to (record { x = (last_or p ps).x; y = whole (height - pad) })
      ∷ line_to (record { x = whole pad; y = whole (height - pad) })
      ∷ close
      ∷ []

-- The grid: pad + f * (height - pad * 2) for a quarter, a half and three quarters.
abbrev grid_line : ℕ → ℕ → Fraction
grid_line height quarters = record { num = pad * 4 + quarters * (height - pad * 2); den = 4 }

unfoldable pub grid : ℕ → List Fraction
grid height = grid_line height 1 ∷ grid_line height 2 ∷ grid_line height 3 ∷ []

-- color.replace(/[^a-z0-9]/gi, "")
abbrev is_alnum : ℕ → Bool
is_alnum c = (leb 97 c && leb c 122) || (leb 65 c && leb c 90) || (leb 48 c && leb c 57)

unfoldable pub gradient_id : Text → Text
unfolding text
gradient_id color = text "grad-" ++ filter is_alnum color

pub record LineView : Type 0 where
  pub gradient : Text
  pub grid_lines : List Fraction
  pub fill : List Command
  pub stroke : List Command
  pub dot : Option Point

abbrev last_point : List Point → Option Point
last_point [] = none
last_point (p ∷ ps) = some (last_or p ps)

-- LineChart; without data it shows "veri yok" in place of the paths and the dot.
unfoldable pub line_chart : ℕ → Text → List ℕ → LineView
unfolding gradient_id grid area line pts
line_chart height color vs = record {
  gradient = gradient_id color;
  grid_lines = grid height;
  fill = area height (pts height vs);
  stroke = line (pts height vs);
  dot = last_point (pts height vs);
}

-- A bar: its name, its width in percent, the index of its colour, and its value.
pub record Datum : Type 0 where
  pub name : String
  pub value : ℕ

pub record Bar : Type 0 where
  pub name : String
  pub percent : Fraction
  pub color : ℕ
  pub value : ℕ

abbrev pub palette_size : ℕ
palette_size = 8

unfoldable pub bars_from : ℕ → ℕ → List Datum → List Bar
bars_from max i [] = []
bars_from max i (d ∷ ds) =
    record {
      name = d.name;
      percent = record { num = d.value * 100; den = max };
      color = i % palette_size;
      value = d.value;
    }
    ∷ bars_from max (suc i) ds

-- BarChart
unfoldable pub bar_chart : List Datum → List Bar
unfolding bars_from max_of
bar_chart ds = bars_from (max_of (map (λ (d : Datum). d.value) ds)) 0 ds

-- Donut: a segment of the circle, and its line of the legend.
pub record Segment : Type 0 where
  pub dash : Fraction
  pub offset : Fraction
  pub color : ℕ

abbrev pub sum : List Datum → ℕ
sum [] = 0
sum (d ∷ ds) = d.value + sum ds

-- data.reduce((s, d) => s + d.value, 0) || 1
abbrev pub or_one : ℕ → ℕ
or_one n = if n == 0 then 1 else n

-- data.map(…), which adds each dash to `offset`
unfoldable pub segments_from : ℕ → ℕ → ℕ → List Datum → List Segment
segments_from total offset i [] = []
segments_from total offset i (d ∷ ds) =
    record {
      dash = record { num = d.value; den = total };
      offset = record { num = offset; den = total };
      color = i % palette_size;
    }
    ∷ segments_from total (offset + d.value) (suc i) ds

-- Math.round((d.value / total) * 100)
abbrev pub percent_of : ℕ → ℕ → ℕ
percent_of total v = (200 * v + total) / (2 * total)

unfoldable pub donut : List Datum → List Segment
unfolding segments_from
donut ds = segments_from (or_one (sum ds)) 0 0 ds

unfoldable pub legend : List Datum → List (String × ℕ)
legend ds = map (λ (d : Datum). (d.name, percent_of (or_one (sum ds)) d.value)) ds
