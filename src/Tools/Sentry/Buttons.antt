-- ===== src/Tools/Sentry/Buttons.antt =====
-- The button of the box for a link, after an analysis.
use rafineai_self_hosted.Prelude.{
  Text, trim, is_empty, text_eq, false, ◌||◌, [], ◌∷◌, arith, ◌≡◌, refl, ◌∙◌, ap, if◌then◌else◌,
}
use rafineai_self_hosted.Exec.{Outcome, ok, fail}
use rafineai_self_hosted.ToolTypes.{Explanation}
use rafineai_self_hosted.Page.{explanation, Machine, Env}
use rafineai_self_hosted.Page.Quiet.{IsQuiet}
use rafineai_self_hosted.Tools.Sentry.{Sentry, explain_call, explain}
use rafineai_self_hosted.Tools.Sentry.Explaining.{explained, explain-explained}
use rafineai_self_hosted.Tools.Sentry.View.{Button, link_button}

-- The button while nothing is analysed.
abbrev pub rested : Text → Button
rested link = record {
  label = if is_empty link then "Analiz ediliyor…" else "Analiz et";
  disabled = is_empty (trim link);
}

over :
    (link : Text)
    → (text_eq [] link ≡ is_empty link)
      × ((is_empty (trim link) || text_eq [] link) ≡ is_empty (trim link))
unfolding text_eq trim
over [] = (refl, refl)
over (c ∷ t) = (refl, ground arith)

link_button-rested : (s : Sentry) → s.analyzing ≡ [] → link_button s ≡ rested s.link_input
unfolding link_button
link_button-rested s h = rw h (λ i. record {
  label = if (over s.link_input).0 i then "Analiz ediliyor…" else "Analiz et";
  disabled = (over s.link_input).1 i;
})

explained-analyzing : (o : Outcome Explanation) (s : Sentry) → (explained o s).analyzing ≡ []
explained-analyzing (ok r) s = refl
explained-analyzing (fail e) s = refl

explained-link_input :
    (o : Outcome Explanation) (s : Sentry) → (explained o s).link_input ≡ s.link_input
explained-link_input (ok r) s = refl
explained-link_input (fail e) s = refl

-- Once an analysis of an issue that is not blank has ended, well or not, while nothing else ran, the button of the box can be
-- pressed exactly if the box is not blank; but over an empty box it reads "Analiz ediliyor…", as though
-- the analysis were still running.
pub explain-link_button :
    {W : Type 0} (env : Env Sentry W) (i : Text) (m : Machine Sentry W)
    → IsQuiet env
    → is_empty (trim i) ≡ false
    → link_button (explain env i m).1.ui ≡ rested m.ui.link_input
explain-link_button env i m quiet given =
    let o : Outcome Explanation = (env.call explanation (explain_call i) m.world).0 in
    ap link_button (explain-explained env i m quiet given).1
    ∙ link_button-rested (explained o m.ui) (explained-analyzing o m.ui)
    ∙ ap rested (explained-link_input o m.ui)
