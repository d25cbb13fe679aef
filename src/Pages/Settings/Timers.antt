-- ===== src/Pages/Settings/Timers.antt =====
-- The settings page as steps: what its handlers do between two awaits, in any order, and the timers as
-- the browser fires them. `save` and `upload_logo` are the steps begin_… and then end_… or fail_….
use rafineai_self_hosted.Prelude.{ℕ, zero, suc, String, Bool, Option, none, some, List, [], ◌∷◌}
use rafineai_self_hosted.Theme.{Key, AppSettings, Display}
use rafineai_self_hosted.Pages.Settings.{
  Section, idle, saving, error, logo_idle, uploading, Timer, Settings, set_status, fire,
  change_field, show_saved, logo_done, logo_rejected,
}

-- The i-th timer fires: it is no longer pending, and its callback runs.
abbrev pub without : ℕ → List Timer → List Timer
without i [] = []
without zero (t ∷ ts) = ts
without (suc i) (t ∷ ts) = t ∷ without i ts

abbrev pub pick : ℕ → List Timer → Option Timer
pick i [] = none
pick zero (t ∷ ts) = some t
pick (suc i) (t ∷ ts) = pick i ts

abbrev pub fire_if : Option Timer → Settings → Settings
fire_if none s = s
fire_if (some t) s = fire t s

abbrev pub fire_at : ℕ → Settings → Settings
fire_at i s = fire_if (pick i s.timers) (record s { timers = without i s.timers })

pub data Event : Type 0 where
  edit : Key → String → Event
  load_form : AppSettings → Event
  toggle : Bool → Display → Event
  begin_save fail_save : Section → Event
  end_save : Section → (fields updated : List (String × String)) → Event
  begin_upload fail_upload : Event
  end_upload : String → Event
  timer : ℕ → Event

unfoldable pub step : Event → Settings → Settings
unfolding change_field show_saved logo_done
step (edit k v) s = change_field k v s
step (load_form f) s = record s { form = f }
step (toggle dark d) s = record s { dark = dark; display = d }
step (begin_save k) s = record s { status = set_status k saving s.status }
step (fail_save k) s = record s { status = set_status k error s.status }
step (end_save k fields updated) s = show_saved k fields updated s
step begin_upload s = record s { logo_status = uploading }
step fail_upload s = logo_rejected s
step (end_upload url) s = logo_done url s
step (timer i) s = fire_at i s

unfoldable pub steps : List Event → Settings → Settings
unfolding step
steps [] s = s
steps (e ∷ es) s = steps es (step e s)

-- The state of the first render.
abbrev pub fresh : AppSettings → Bool → Display → Settings
fresh f dark d = record {
  form = f;
  status = record { of_branding = idle; of_chat = idle; of_theme = idle };
  dark = dark;
  logo_status = logo_idle;
  display = d;
  timers = [];
}

-- The pending timers fire, the first one first.
abbrev pub firings : List Timer → List Event
firings [] = []
firings (t ∷ ts) = timer 0 ∷ firings ts
