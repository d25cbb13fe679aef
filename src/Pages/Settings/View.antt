-- ===== src/Pages/Settings/View.antt =====
-- What the settings page shows of its state, and what its buttons do.
use rafineai_self_hosted.Prelude.{
  String, Text, Bool, true, false, Option, none, some, List, [], ◌∷◌, ◌===◌, if◌then◌else◌,
}
use rafineai_self_hosted.Exec.{Exec, Done, ◌>>◌, skip}
use rafineai_self_hosted.Theme.{
  chat_theme, app_name, app_logo, app_logo_url, app_tagline, chat_welcome_title,
  chat_welcome_subtitle, chat_placeholder, chat_send_label, read, write, toggle_dark,
}
use rafineai_self_hosted.Page.{Machine, Env, set_ui}
use rafineai_self_hosted.Pages.Settings.{
  branding, chat, theme, LogoStatus, logo_idle, uploading, done, logo_error, Settings, save,
  upload_logo,
}

-- THEMES
pub record Tile : Type 0 where
  pub id : String
  pub name : String
  pub desc : String
  pub swatch : String
  pub chosen : Bool

abbrev tile : String → String → String → String → String → Tile
tile current id name desc swatch = record {
  id = id;
  name = name;
  desc = desc;
  swatch = swatch;
  chosen = current === id;
}

unfoldable pub tiles : String → List Tile
tiles current =
    tile current "default" "Varsayılan" "Indigo/mor" "#4f46e5"
    ∷ tile current "ocean" "Okyanus" "Cyan/mavi" "#0891b2"
    ∷ tile current "forest" "Orman" "Yeşil" "#16a34a"
    ∷ tile current "sunset" "Gün Batımı" "Turuncu" "#f97316"
    ∷ tile current "rose" "Gül" "Kırmızı/pembe" "#e11d48"
    ∷ []

abbrev or_word : String → String → String
or_word v w = if v === "" then w else v

-- An image, or the letter in its place.
pub data Mark : Type 0 where
  image : String → Mark
  letter : String → Mark

abbrev mark : String → String → Mark
mark url l = if url === "" then letter (or_word l "?") else image url

unfoldable pub logo_button : LogoStatus → String
logo_button logo_idle = "Görsel Seç"
logo_button uploading = "Yükleniyor…"
logo_button done = "✓ Yüklendi"
logo_button logo_error = "✗ Hata"

unfoldable pub logo_disabled : LogoStatus → Bool
logo_disabled uploading = true
logo_disabled s = false

-- The image of the logo, beside which is the button that removes it.
unfoldable pub logo_image : Settings → Option String
unfolding read
logo_image s = let url = read app_logo_url s.form in if url === "" then none else some url

-- The preview of the login screen.
pub record LoginPreview : Type 0 where
  pub mark : Mark
  pub name : String
  pub tagline : String

unfoldable pub login_preview : Settings → LoginPreview
unfolding read
login_preview s = record {
  mark = mark (read app_logo_url s.form) (read app_logo s.form);
  name = read app_name s.form;
  tagline = read app_tagline s.form;
}

-- The preview of the empty chat, and the label of its button.
unfoldable pub chat_preview : Settings → String × String × String
unfolding read
chat_preview s = (
  read chat_welcome_title s.form,
  read chat_welcome_subtitle s.form,
  or_word (read chat_send_label s.form) "Gönder",
)

unfoldable pub theme_tiles : Settings → List Tile
unfolding tiles read
theme_tiles s = tiles (read chat_theme s.form)

unfoldable pub toggle : Settings → Settings
unfolding toggle_dark
toggle s = let (dark, d) = toggle_dark s.display in record s { dark = dark; display = d }

module _ {W : Type 0} (env : Env Settings W) where
  unfoldable pub save_branding : Exec (Machine Settings W) Done
  unfolding save
  save_branding = save env branding (app_name ∷ app_logo ∷ app_tagline ∷ []) []

  unfoldable pub save_chat : Exec (Machine Settings W) Done
  unfolding save
  save_chat =
      save env chat
        (chat_welcome_title ∷ chat_welcome_subtitle ∷ chat_placeholder ∷ chat_send_label ∷ []) []

  -- A click of a tile
  unfoldable pub choose_theme : String → Exec (Machine Settings W) Done
  unfolding save write
  choose_theme id = do
    set_ui (λ s. record s { form = write chat_theme id s.form })
    save env theme (chat_theme ∷ []) ((chat_theme, id) ∷ [])

  -- The choice of a logo's file, of this name
  unfoldable pub choose_logo : Option Text → Exec (Machine Settings W) Done
  unfolding upload_logo
  choose_logo none = skip
  choose_logo (some name) = upload_logo env name
