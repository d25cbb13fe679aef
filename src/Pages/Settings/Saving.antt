-- ===== src/Pages/Settings/Saving.antt =====
-- Saving a section of the settings.
use rafineai_self_hosted.Prelude.{String, List, ◌≡◌, refl, inl, inr}
use rafineai_self_hosted.Exec.{Outcome, ok, fail}
use rafineai_self_hosted.Theme.{Key}
use rafineai_self_hosted.Page.{dictionary, Machine, Env}
use rafineai_self_hosted.Page.Quiet.{IsQuiet, Outcome-cases}
use rafineai_self_hosted.Pages.Settings.{
  Section, branding, chat, theme, Status, Settings, Statuses, error, set_status, payload, save_call,
  show_saved, save_attempt, save,
}

set_status-set_status :
    (k : Section) (v w : Status) (s : Statuses)
    → set_status k v (set_status k w s) ≡ set_status k v s
set_status-set_status branding v w s = refl
set_status-set_status chat v w s = refl
set_status-set_status theme v w s = refl

-- What a save leaves: the server's values merged into the form, the section saved and the timer set
-- that clears it, or all as it was but for the section's error.
abbrev pub after_save :
    Section → List (String × String) → Outcome (List (String × String)) → Settings → Settings
after_save k fields (ok updated) s = show_saved k fields updated s
after_save k fields (fail e) s = record s { status = set_status k error s.status }

-- Where nothing else runs meanwhile, a save never throws, and leaves the section saved with the
-- server's values or in error with the form as it was: never saving, and no other section changed.
pub save-after_save :
    {W : Type 0} (env : Env Settings W) (k : Section) (ks : List Key) (os : List (Key × String))
    (m : Machine Settings W)
    → IsQuiet env
    → ((save env k ks os m).0 ≡ ok tt)
      × ((save env k ks os m).1.ui
          ≡ after_save k
              (payload ks os m.ui.form)
              (env.call dictionary (save_call (payload ks os m.ui.form)) m.world).0
              m.ui)
unfolding save save_attempt show_saved
save-after_save env k ks os m quiet =
    elim (Outcome-cases (env.call dictionary (save_call (payload ks os m.ui.form)) m.world).0) [
      | inl (a, h) ↦ rw (h, quiet, set_status-set_status) (refl, refl)
      | inr (e, h) ↦ rw (h, quiet, set_status-set_status) (refl, refl)
    ]
