-- ===== src/Pages/Settings/Tests.antt =====
-- The notices of the settings page in a session of saves, uploads and timers.
use rafineai_self_hosted.Prelude.{List, [], ◌∷◌, ◌≡◌, ◌≢◌, refl, false, none}
use rafineai_self_hosted.Theme.{setting_defaults, Display}
use rafineai_self_hosted.Pages.Settings.{branding, chat, theme, saved, done, logo_error, status_of}
use rafineai_self_hosted.Pages.Settings.Timers.{
  Event, begin_save, fail_save, end_save, begin_upload, end_upload, timer, steps, fresh, firings,
}
use rafineai_self_hosted.Pages.Settings.Notices.{steps-IsTimed, steps-settled}
use rafineai_self_hosted.Pages.Settings.Pending.{IsTimed}

abbrev plain : Display
plain = record { dark = false; data_theme = "default"; rafine_dark = none; rafine_theme = none }

-- Two sections are saved, one of them twice, a logo is uploaded, and one timer has fired.
abbrev busy_day : List Event
busy_day =
    begin_save chat
    ∷ begin_upload
    ∷ end_save chat [] []
    ∷ begin_save branding
    ∷ timer 0
    ∷ end_upload "/logo.png"
    ∷ end_save branding [] []
    ∷ end_save chat [] []
    ∷ begin_save theme
    ∷ fail_save theme
    ∷ []

saved_test : status_of chat (steps busy_day (fresh setting_defaults false plain)).status ≡ saved
unfolding steps
saved_test = refl

steps-IsTimed_example : IsTimed (steps busy_day (fresh setting_defaults false plain))
steps-IsTimed_example = steps-IsTimed busy_day setting_defaults false plain

steps-settled_example :
    (status_of chat
        (steps
          (firings (steps busy_day (fresh setting_defaults false plain)).timers)
          (steps busy_day (fresh setting_defaults false plain))).status
      ≢ saved)
    × ((steps
          (firings (steps busy_day (fresh setting_defaults false plain)).timers)
          (steps busy_day (fresh setting_defaults false plain))).logo_status
        ≢ done)
    × ((steps
          (firings (steps busy_day (fresh setting_defaults false plain)).timers)
          (steps busy_day (fresh setting_defaults false plain))).logo_status
        ≢ logo_error)
steps-settled_example = steps-settled busy_day setting_defaults false plain chat
