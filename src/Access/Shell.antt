-- ===== src/Access/Shell.antt =====
-- The shell that panel/app/(dash)/layout.tsx puts around a page: the links, with the one that is
-- marked, and the footer. Icons and classes are left out but for which link is marked.
use rafineai_self_hosted.Prelude.{
  String, Text, text, starts_with, Bool, not, Option, none, some, List, [], ◌∷◌, map, if◌then◌else◌,
  ◌===◌,
}
use rafineai_self_hosted.Theme.{
  AppSettings, read, app_logo_url, app_logo, app_name, Display, toggle_dark, get_dark,
}
use rafineai_self_hosted.Access.{Layout, is_bare}

pub record NavItem : Type 0 where
  pub href : String
  pub label : String
  pub icon : String

abbrev item : String → String → String → NavItem
item href label icon = record { href = href; label = label; icon = icon }

-- ADMIN_NAV
unfoldable pub admin_nav : List NavItem
admin_nav =
    item "/dashboard" "Kontrol Merkezi" "dashboard"
    ∷ item "/providers" "LLM Providers" "providers"
    ∷ item "/teams" "Teams" "teams"
    ∷ item "/users" "Users" "users"
    ∷ item "/policy" "Policy Rules" "policy"
    ∷ item "/alerts" "Alerts" "alerts"
    ∷ item "/documents" "Belgelerim" "documents"
    ∷ item "/knowledge" "Bilgi Tabanı" "knowledge"
    ∷ item "/marketplace" "Marketplace" "marketplace"
    ∷ item "/conversations" "Chat Geçmişi" "conversations"
    ∷ item "/audit" "Audit Logs" "audit"
    ∷ item "/settings" "Ayarlar" "settings"
    ∷ []

-- A link: its label where the rail is open, and else its title.
pub record Link : Type 0 where
  pub href : String
  pub label : Option String
  pub title : Option String
  pub marked : Bool

-- pathname.startsWith(href)
unfoldable pub is_at : Text → String → Bool
unfolding starts_with text
is_at path href = starts_with (text href) path

unfoldable pub link_of : Bool → Text → NavItem → Link
unfolding is_at
link_of rail_open path n = record {
  href = n.href;
  label = if rail_open then some n.label else none;
  title = if rail_open then none else some n.label;
  marked = is_at path n.href;
}

-- The image of the logo or its letter, and the name where the rail is open.
pub record Brand : Type 0 where
  pub image : Option String
  pub letter : Option String
  pub name : Option String

unfoldable pub brand : Bool → AppSettings → Brand
unfolding read
brand rail_open f = record {
  image = if read app_logo_url f === "" then none else some (read app_logo_url f);
  letter = if read app_logo_url f === "" then some (read app_logo f) else none;
  name = if rail_open then some (read app_name f) else none;
}

pub data Shell : Type 0 where
  nothing : Shell
  children : Shell
  sidebar :
      (brand : Brand) (chat : Link) (links : List Link) (footer : Option (String × Option String))
      → Shell

-- DashLayout
unfoldable pub shell : Bool → AppSettings → Layout → Shell
unfolding is_bare link_of admin_nav brand
shell rail_open f s =
    if not s.ready
    then nothing
    else if is_bare s
    then children
    else sidebar (brand rail_open f) (link_of rail_open s.path (item "/chat" "Chat" "chat"))
        (map (link_of rail_open s.path) admin_nav)
        (if rail_open then some (s.email, s.role) else none)

-- setOpen((v) => !v)
unfoldable pub toggle_rail : Bool → Bool
toggle_rail rail_open = not rail_open

-- DarkToggle: its effect, its click, and its icon and title.
unfoldable pub read_dark : Display → Bool
unfolding get_dark
read_dark d = get_dark d

unfoldable pub click_dark : Display → Bool × Display
unfolding toggle_dark
click_dark d = toggle_dark d

unfoldable pub dark_button : Bool → String × String
dark_button dark = if dark then ("sun", "Açık tema") else ("moon", "Koyu tema")
