-- ===== src/Charts/Tests.antt =====
-- The charts of small data.
use rafineai_self_hosted.Prelude.{ℕ, ◌≤◌, String, List, [], ◌∷◌, All, ◌≡◌, refl, arith}
use rafineai_self_hosted.Charts.{Datum, Bar, pts, bar_chart, donut, legend}
use rafineai_self_hosted.Charts.Bounds.{
  Between, InFrame, charts-InFrame, Adjoining, donut-Adjoining,
}

abbrev use_of_models : List Datum
use_of_models = record { name = "gpt-4o"; value = 3 } ∷ record { name = "claude"; value = 1 } ∷ []

legend_test : legend use_of_models ≡ ("gpt-4o", 75) ∷ ("claude", 25) ∷ []
unfolding legend
legend_test = refl

charts-InFrame_example :
    All (InFrame 200) (pts 200 (5 ∷ 0 ∷ 12 ∷ []))
    × All (λ (b : Bar). Between 0 100 b.percent) (bar_chart use_of_models)
charts-InFrame_example = charts-InFrame 152 (5 ∷ 0 ∷ 12 ∷ []) use_of_models

donut-Adjoining_example :
    Adjoining 4 0 4 (donut use_of_models)
    × All (λ (l : String × ℕ). l.1 ≤ 100) (legend use_of_models)
donut-Adjoining_example = donut-Adjoining use_of_models (omega arith)
