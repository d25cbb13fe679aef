-- ===== src/Theme.antt =====
-- panel/lib/settings-context.tsx and panel/lib/theme-bootstrap.tsx: the settings with their defaults, and
-- the theme that the document shows and `localStorage` keeps. React's context is left out.
pub mod Merging
use rafineai_self_hosted.Prelude.{
  String, Bool, true, false, not, Option, none, some, List, [], ◌∷◌, ◌===◌, if◌then◌else◌,
}

-- keyof AppSettings
pub data Key : Type 0 where
  chat_theme app_name app_logo app_logo_url app_tagline chat_welcome_title : Key
  chat_welcome_subtitle chat_placeholder chat_send_label : Key

pub record AppSettings : Type 0 where
  pub theme : String
  pub name : String
  pub logo : String
  pub logo_url : String
  pub tagline : String
  pub welcome_title : String
  pub welcome_subtitle : String
  pub placeholder : String
  pub send_label : String

abbrev pub key_name : Key → String
key_name chat_theme = "chat_theme"
key_name app_name = "app_name"
key_name app_logo = "app_logo"
key_name app_logo_url = "app_logo_url"
key_name app_tagline = "app_tagline"
key_name chat_welcome_title = "chat_welcome_title"
key_name chat_welcome_subtitle = "chat_welcome_subtitle"
key_name chat_placeholder = "chat_placeholder"
key_name chat_send_label = "chat_send_label"

-- form[key]
unfoldable pub read : Key → AppSettings → String
read chat_theme f = f.theme
read app_name f = f.name
read app_logo f = f.logo
read app_logo_url f = f.logo_url
read app_tagline f = f.tagline
read chat_welcome_title f = f.welcome_title
read chat_welcome_subtitle f = f.welcome_subtitle
read chat_placeholder f = f.placeholder
read chat_send_label f = f.send_label

-- { ...f, [key]: v }
unfoldable pub write : Key → String → AppSettings → AppSettings
write chat_theme v f = record f { theme = v }
write app_name v f = record f { name = v }
write app_logo v f = record f { logo = v }
write app_logo_url v f = record f { logo_url = v }
write app_tagline v f = record f { tagline = v }
write chat_welcome_title v f = record f { welcome_title = v }
write chat_welcome_subtitle v f = record f { welcome_subtitle = v }
write chat_placeholder v f = record f { placeholder = v }
write chat_send_label v f = record f { send_label = v }

abbrev pub setting_defaults : AppSettings
setting_defaults = record {
  theme = "default";
  name = "RafineAI";
  logo = "R";
  logo_url = "";
  tagline = "AI Gateway";
  welcome_title = "Yeni bir sohbet başlat";
  welcome_subtitle = "Yukarıdan modeli seç, mesajını yaz.";
  placeholder = "Mesajını yaz…  (Enter ile gönder, Shift+Enter yeni satır)";
  send_label = "Gönder";
}

abbrev pub keys : List Key
keys =
    chat_theme ∷ app_name ∷ app_logo ∷ app_logo_url ∷ app_tagline ∷ chat_welcome_title
    ∷ chat_welcome_subtitle ∷ chat_placeholder ∷ chat_send_label ∷ []

-- The value of a name in a Record<string, string>, whose later members win.
unfoldable pub value_of : String → List (String × String) → Option String
value_of k [] = none
value_of k ((j, v) ∷ s) = elim (value_of k s) [
  | none ↦ if j === k then some v else none
  | some w ↦ some w
]

abbrev pub over : Option String → String → String
over none v = v
over (some w) v = w

abbrev write_over : List (String × String) → Key → AppSettings → AppSettings
unfolding write value_of read
write_over s k f = write k (over (value_of (key_name k) s) (read k f)) f

abbrev merge_keys : List Key → List (String × String) → AppSettings → AppSettings
unfolding write_over
merge_keys [] s f = f
merge_keys (k ∷ ks) s f = merge_keys ks s (write_over s k f)

-- { ...f, ...s }
unfoldable pub merge : List (String × String) → AppSettings → AppSettings
unfolding merge_keys
merge s f = merge_keys keys s f

-- The document's theme, and the browser's storage.
pub record Display : Type 0 where
  -- The class "dark" of the document.
  pub dark : Bool
  pub data_theme : String
  -- "rafine_dark" and "rafine_theme" of `localStorage`
  pub rafine_dark : Option String
  pub rafine_theme : Option String

abbrev pub is_one : Option String → Bool
is_one none = false
is_one (some v) = v === "1"

unfoldable pub apply_dark : Display → Display
apply_dark d = record d { dark = is_one d.rafine_dark }

unfoldable pub show_theme : String → Display → Display
show_theme t d = record d { data_theme = t; rafine_theme = some t }

-- The effect of the provider, with the parsed settings or none where the request failed.
unfoldable pub provide :
    Option (List (String × String)) → AppSettings × Display → AppSettings × Display
unfolding apply_dark show_theme merge
provide (some s) (f, d) =
    (merge s setting_defaults, show_theme (merge s setting_defaults).theme (apply_dark d))
provide none (f, d) = (f, record (apply_dark d) { data_theme = over d.rafine_theme "default" })

-- ThemeBootstrap()
unfoldable pub bootstrap : Option (List (String × String)) → Display → Display
unfolding apply_dark show_theme value_of
bootstrap (some s) d = show_theme (over (value_of "chat_theme" s) "default") (apply_dark d)
bootstrap none d = apply_dark d

-- toggleDark(), with what it returns
unfoldable pub toggle_dark : Display → Bool × Display
toggle_dark d =
    (not d.dark, record d { dark = not d.dark; rafine_dark = some (if d.dark then "0" else "1") })

-- getDark(), in the browser
unfoldable pub get_dark : Display → Bool
get_dark d = d.dark
