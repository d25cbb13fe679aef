-- ===== src/Tools/Sentry/Explaining.antt =====
-- Explaining an issue.
use rafineai_self_hosted.Prelude.{Text, trim, is_empty, false, some, none, [], ◌≡◌, refl, inl, inr}
use rafineai_self_hosted.Exec.{message, Outcome, ok, fail}
use rafineai_self_hosted.ToolTypes.{Explanation}
use rafineai_self_hosted.Page.{explanation, Machine, Env}
use rafineai_self_hosted.Page.Quiet.{IsQuiet, Outcome-cases}
use rafineai_self_hosted.Tools.Sentry.{Sentry, explain_call, explain_attempt, explain}

abbrev pub explained : Outcome Explanation → Sentry → Sentry
explained (ok r) s = record s { analyzing = []; result = some r; analysis_error = "" }
explained (fail e) s = record s { analyzing = []; result = none; analysis_error = message e }

-- Where nothing else runs meanwhile and the issue is not blank, `explain` never throws, and shows
-- either the explanation of this issue or why there is none, with no analysis left running.
pub explain-explained :
    {W : Type 0} (env : Env Sentry W) (i : Text) (m : Machine Sentry W)
    → IsQuiet env
    → is_empty (trim i) ≡ false
    → ((explain env i m).0 ≡ ok tt)
      × ((explain env i m).1.ui ≡ explained (env.call explanation (explain_call i) m.world).0 m.ui)
unfolding explain explain_attempt
explain-explained env i m quiet given =
    rw given (elim (Outcome-cases (env.call explanation (explain_call i) m.world).0) [
      | inl (a, h) ↦ rw (h, quiet) (refl, refl)
      | inr (e, h) ↦ rw (h, quiet) (refl, refl)
    ])
