-- ===== src/Pages/Dashboard/View.antt =====
-- What the dashboard shows: the figures, the feed of the policy and the charts. `number` prints a
-- count in Turkish style or plainly, and `time` is getTime() of a date.
use rafineai_self_hosted.Prelude.{
  ℕ, ◌*◌, String, text, Option, none, some, List, [], ◌∷◌, map, take,
}
use rafineai_self_hosted.Decimal.{Fraction, to_fixed}
use rafineai_self_hosted.Types.{Alert}
use rafineai_self_hosted.ToolTypes.{Summary, TsPoint, ModelRow, UserRow}
use rafineai_self_hosted.Charts.{
  LineView, line_chart, Datum, Bar, bar_chart, Segment, donut, legend,
}
use rafineai_self_hosted.Pages.Dashboard.{Dashboard, Age, age, pill}

-- A figure: a count, a price in cents, a latency, or a share in tenths of a percent with the errors.
pub data Figure : Type 0 where
  count price latency : ℕ → Figure
  share : (tenths errors : ℕ) → Figure

abbrev percent : Fraction → Fraction
percent x = record { num = x.num * 100; den = x.den }

abbrev figures_of : Option Summary → List (String × Figure)
unfolding to_fixed
figures_of none =
    ("İstek", count 0)
    ∷ ("Token", count 0)
    ∷ ("Tahmini Maliyet", price 0)
    ∷ ("Ort. Gecikme", latency 0)
    ∷ ("p95 Gecikme", latency 0)
    ∷ ("Hata Oranı", share 0 0)
    ∷ []
figures_of (some s) =
    ("İstek", count s.requests)
    ∷ ("Token", count s.tokens)
    ∷ ("Tahmini Maliyet", price (to_fixed 100 s.estimated_cost_usd))
    ∷ ("Ort. Gecikme", latency s.avg_latency_ms)
    ∷ ("p95 Gecikme", latency s.p95_latency_ms)
    ∷ ("Hata Oranı", share (to_fixed 10 (percent s.error_rate)) s.errors)
    ∷ []

unfoldable pub figures : Dashboard → List (String × Figure)
unfolding figures_of
figures s = figures_of s.summary

-- A line of the feed.
pub record Entry : Type 0 where
  pub pill : String
  pub label : String
  pub rule_name : String
  pub when : Age

-- PILL[a.action] ?? ["pill-warn", a.action]
abbrev pill_or : String → Option (String × String) → String × String
pill_or action none = ("pill-warn", action)
pill_or action (some p) = p

unfoldable pub entry_of : (String → ℕ) → ℕ → Alert → Entry
unfolding pill age
entry_of time now a =
    let (class, label) = pill_or a.action (pill a.action) in
    record {
      pill = class;
      label = label;
      rule_name = a.rule_name;
      when = age now (time a.created_at);
    }

-- alerts.slice(0, 6)
unfoldable pub feed : (String → ℕ) → ℕ → Dashboard → List Entry
unfolding entry_of
feed time now s = map (entry_of time now) (take 6 s.alerts)

-- The charts.
unfoldable pub request_volume : Dashboard → LineView
unfolding line_chart text
request_volume s = line_chart 200 (text "#7c5cfc") (map (λ (p : TsPoint). p.requests) s.ts)

unfoldable pub daily_tokens : Dashboard → LineView
unfolding line_chart text
daily_tokens s = line_chart 200 (text "#22d3d3") (map (λ (p : TsPoint). p.tokens) s.ts)

unfoldable pub model_data : Dashboard → List Datum
model_data s = map (λ (m : ModelRow). record { name = m.model; value = m.requests }) s.models

unfoldable pub model_share : Dashboard → List Segment × List (String × ℕ)
unfolding model_data donut legend
model_share s = (donut (model_data s), legend (model_data s))

unfoldable pub top_users : Dashboard → List Bar
unfolding bar_chart
top_users s =
    bar_chart (map (λ (u : UserRow). record { name = u.email; value = u.tokens }) s.users_top)
