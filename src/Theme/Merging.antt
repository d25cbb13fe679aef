-- ===== src/Theme/Merging.antt =====
-- The settings over their defaults, and the theme after a reload.
use rafineai_self_hosted.Prelude.{
  String, Bool, true, false, not, none, some, List, Option, ◌≡◌, refl, if◌then◌else◌,
}
use rafineai_self_hosted.Theme.{
  Key, chat_theme, app_name, app_logo, app_logo_url, app_tagline, chat_welcome_title,
  chat_welcome_subtitle, chat_placeholder, chat_send_label, AppSettings, key_name, read, write,
  value_of, over, merge, Display, apply_dark, show_theme, provide, bootstrap, toggle_dark, is_one,
}

-- Each setting of the merge is the server's, where it sends one, and else what it was before.
pub read-merge :
    (k : Key) (s : List (String × String)) (f : AppSettings)
    → read k (merge s f) ≡ over (value_of (key_name k) s) (read k f)
unfolding read merge write
read-merge chat_theme s f = refl
read-merge app_name s f = refl
read-merge app_logo s f = refl
read-merge app_logo_url s f = refl
read-merge app_tagline s f = refl
read-merge chat_welcome_title s f = refl
read-merge chat_welcome_subtitle s f = refl
read-merge chat_placeholder s f = refl
read-merge chat_send_label s f = refl

-- The page as the browser draws it again: the storage stays, the document starts over.
abbrev pub reload : Display → Display
reload d = record d { dark = false; data_theme = "" }

stored : (b : Bool) → is_one (some (if b then "0" else "1")) ≡ not b
stored true = refl
stored false = refl

-- The dark mode that `toggle_dark` sets and returns is what a reload shows again, through either
-- component and whatever the server answers.
pub toggle_dark-restored :
    (d : Display) (s t : Option (List (String × String))) (f : AppSettings)
    → ((provide s (f, reload (toggle_dark d).1)).1.dark ≡ (toggle_dark d).0)
      × ((bootstrap t (reload (toggle_dark d).1)).dark ≡ (toggle_dark d).0)
unfolding toggle_dark provide bootstrap apply_dark show_theme
toggle_dark-restored d none none f = (stored d.dark, stored d.dark)
toggle_dark-restored d none (some t) f = (stored d.dark, stored d.dark)
toggle_dark-restored d (some s) none f = (stored d.dark, stored d.dark)
toggle_dark-restored d (some s) (some t) f = (stored d.dark, stored d.dark)

-- The theme that the server gave is the one that a reload shows when the server does not answer.
pub provide-offline :
    (s : List (String × String)) (f g : AppSettings) (d : Display)
    → (provide none (g, reload (provide (some s) (f, d)).1)).1.data_theme
      ≡ over (value_of "chat_theme" s) "default"
unfolding provide show_theme apply_dark merge
provide-offline s f g d = refl
