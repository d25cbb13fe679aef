-- ===== src/Pages/Settings/Notices.antt =====
-- The notices of the settings page, saved, done and failed, do not stay.
use rafineai_self_hosted.Prelude.{
  ℕ, Bool, Option, none, some, List, [], ◌∷◌, ◌++◌, ◌≡◌, ◌≢◌, refl, sym,
}
use rafineai_self_hosted.Theme.{AppSettings, Display}
use mathlib.Core.Path.{subst}
use rafineai_self_hosted.Pages.Settings.{
  Section, branding, chat, theme, Status, idle, saving, saved, error, LogoStatus, logo_idle,
  uploading, done, logo_error, Timer, clear_status, clear_logo_status, Settings, status_of,
  set_status, fire,
}
use rafineai_self_hosted.Pages.Settings.Timers.{
  without, pick, fire_if, fire_at, Event, edit, load_form, toggle, begin_save, fail_save, end_save,
  begin_upload, fail_upload, end_upload, timer, step, steps, fresh, firings,
}
use rafineai_self_hosted.Pages.Settings.Pending.{
  Clears, ClearsLogo, StatusTimed, LogoTimed, IsTimed, Clears-last, ClearsLogo-last,
  StatusTimed-append, LogoTimed-append, StatusTimed-without, LogoTimed-without,
}

id_⊥ : ⊥ → ⊥
id_⊥ h = h

fire-IsTimed :
    (i : ℕ) (s : Settings) (o : Option Timer)
    → pick i s.timers ≡ o
    → IsTimed s
    → IsTimed (fire_if o (record s { timers = without i s.timers }))
fire-IsTimed i s none e (b, c, t, l) = (
  StatusTimed-without branding _ i s.timers none e id_⊥ b,
  StatusTimed-without chat _ i s.timers none e id_⊥ c,
  StatusTimed-without theme _ i s.timers none e id_⊥ t,
  LogoTimed-without _ i s.timers none e id_⊥ l,
)
fire-IsTimed i s (some (clear_status branding n)) e (b, c, t, l) = (
  tt,
  StatusTimed-without chat _ i s.timers _ e (λ q. cc) c,
  StatusTimed-without theme _ i s.timers _ e (λ q. cc) t,
  LogoTimed-without _ i s.timers _ e id_⊥ l,
)
fire-IsTimed i s (some (clear_status chat n)) e (b, c, t, l) = (
  StatusTimed-without branding _ i s.timers _ e (λ q. cc) b,
  tt,
  StatusTimed-without theme _ i s.timers _ e (λ q. cc) t,
  LogoTimed-without _ i s.timers _ e id_⊥ l,
)
fire-IsTimed i s (some (clear_status theme n)) e (b, c, t, l) = (
  StatusTimed-without branding _ i s.timers _ e (λ q. cc) b,
  StatusTimed-without chat _ i s.timers _ e (λ q. cc) c,
  tt,
  LogoTimed-without _ i s.timers _ e id_⊥ l,
)
fire-IsTimed i s (some (clear_logo_status n)) e (b, c, t, l) = (
  StatusTimed-without branding _ i s.timers _ e id_⊥ b,
  StatusTimed-without chat _ i s.timers _ e id_⊥ c,
  StatusTimed-without theme _ i s.timers _ e id_⊥ t,
  tt,
)

-- A timer more takes nothing away.
appended :
    (s : Settings) (us : List Timer) → IsTimed s → IsTimed (record s { timers = s.timers ++ us })
appended s us (b, c, t, l) = (
  StatusTimed-append branding _ s.timers us b,
  StatusTimed-append chat _ s.timers us c,
  StatusTimed-append theme _ s.timers us t,
  LogoTimed-append _ s.timers us l,
)

set_status-IsTimed :
    (k : Section) (v : Status) (s : Settings)
    → StatusTimed k v s.timers
    → IsTimed s
    → IsTimed (record s { status = set_status k v s.status })
set_status-IsTimed branding v s h (b, c, t, l) = (h, c, t, l)
set_status-IsTimed chat v s h (b, c, t, l) = (b, h, t, l)
set_status-IsTimed theme v s h (b, c, t, l) = (b, c, h, l)

step-IsTimed : (e : Event) (s : Settings) → IsTimed s → IsTimed (step e s)
unfolding step
step-IsTimed (edit k v) s h = h
step-IsTimed (load_form f) s h = h
step-IsTimed (toggle dark d) s h = h
step-IsTimed (begin_save k) s h = set_status-IsTimed k saving s tt h
step-IsTimed (fail_save k) s h = set_status-IsTimed k error s tt h
step-IsTimed (end_save k fields updated) s h =
    set_status-IsTimed k saved (record s { timers = s.timers ++ clear_status k 2500 ∷ [] })
      (Clears-last k 2500 s.timers) (appended s (clear_status k 2500 ∷ []) h)
step-IsTimed begin_upload s (b, c, t, l) = (b, c, t, tt)
step-IsTimed fail_upload s h =
    let (b, c, t, l) = appended s (clear_logo_status 3000 ∷ []) h in
    (b, c, t, ClearsLogo-last 3000 s.timers)
step-IsTimed (end_upload url) s h =
    let (b, c, t, l) = appended s (clear_logo_status 2500 ∷ []) h in
    (b, c, t, ClearsLogo-last 2500 s.timers)
step-IsTimed (timer i) s h = fire-IsTimed i s (pick i s.timers) refl h

steps-keeps : (es : List Event) (s : Settings) → IsTimed s → IsTimed (steps es s)
unfolding steps
steps-keeps [] s h = h
steps-keeps (e ∷ es) s h = steps-keeps es (step e s) (step-IsTimed e s h)

-- However edits, saves, uploads and timers interleave, from the first render on: while a section says
-- that it is saved, or the logo that it is done or has failed, a timer that takes the notice away is
-- pending.
pub steps-IsTimed :
    (es : List Event) (f : AppSettings) (dark : Bool) (d : Display)
    → IsTimed (steps es (fresh f dark d))
steps-IsTimed es f dark d = steps-keeps es (fresh f dark d) (tt, tt, tt, tt)

fire-timers : (t : Timer) (s : Settings) → (fire t s).timers ≡ s.timers
fire-timers (clear_status k n) s = refl
fire-timers (clear_logo_status n) s = refl

firings-timers :
    (ts : List Timer) (s : Settings) → s.timers ≡ ts → (steps (firings ts) s).timers ≡ []
unfolding steps step
firings-timers [] s e = e
firings-timers (t ∷ ts) s e = firings-timers ts (fire_at 0 s) (
    subst (λ us. (fire_if (pick 0 us) (record s { timers = without 0 us })).timers ≡ ts) (sym e)
      (fire-timers t (record s { timers = ts })))

untimed : (k : Section) (v : Status) {ts : List Timer} → StatusTimed k v ts → ts ≡ [] → v ≢ saved
untimed k idle h e q = cc
untimed k saving h e q = cc
untimed k saved h e q = subst (Clears k) e h
untimed k error h e q = cc

untimed_logo :
    (v : LogoStatus) {ts : List Timer} → LogoTimed v ts → ts ≡ [] → (v ≢ done) × (v ≢ logo_error)
untimed_logo logo_idle h e = (λ q. cc, λ q. cc)
untimed_logo uploading h e = (λ q. cc, λ q. cc)
untimed_logo done h e = absurd (subst ClearsLogo e h)
untimed_logo logo_error h e = absurd (subst ClearsLogo e h)

settled : (k : Section) (s : Settings) → IsTimed s → s.timers ≡ [] → status_of k s.status ≢ saved
settled branding s h e = untimed branding s.status.of_branding {ts = s.timers} h.0 e
settled chat s h e = untimed chat s.status.of_chat {ts = s.timers} h.1 e
settled theme s h e = untimed theme s.status.of_theme {ts = s.timers} h.2 e

-- The notices go away: after any steps from the first render, once the timers that are then pending
-- have fired, no section says that it is saved, and the logo neither that it is done nor that it
-- failed.
pub steps-settled :
    (es : List Event) (f : AppSettings) (dark : Bool) (d : Display) (k : Section)
    → (status_of k
          (steps (firings (steps es (fresh f dark d)).timers) (steps es (fresh f dark d))).status
        ≢ saved)
      × ((steps
            (firings (steps es (fresh f dark d)).timers)
            (steps es (fresh f dark d))).logo_status
          ≢ done)
      × ((steps
            (firings (steps es (fresh f dark d)).timers)
            (steps es (fresh f dark d))).logo_status
          ≢ logo_error)
steps-settled es f dark d k =
    let s = steps es (fresh f dark d) in
    let last = steps (firings s.timers) s in
    let timed = steps-keeps (firings s.timers) s (steps-IsTimed es f dark d) in
    let none_left = firings-timers s.timers s refl in
    let logo = untimed_logo last.logo_status {ts = last.timers} timed.3 none_left in
    (settled k last timed none_left, logo.0, logo.1)
