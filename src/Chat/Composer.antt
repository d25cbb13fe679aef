-- ===== src/Chat/Composer.antt =====
-- The composer of the chat page: the chips, the input of a context, the buttons, the keys and the
-- paste; and the handlers of the page that only set a cell. The files of a clipboard are their names'
-- extensions and types, and Date.now() is a parameter.
use rafineai_self_hosted.Prelude.{
  String, Text, text, trim, Bool, false, not, ◌&&◌, ◌||◌, Option, none, some, List, ◌∷◌, ◌++◌, map,
  find, is_empty, starts_with, text_eq, split_on, ◌===◌, if◌then◌else◌,
}
use rafineai_self_hosted.Exec.{Exec, Done, captured, skip}
use rafineai_self_hosted.Types.{Attachment, ToolContext, Source}
use rafineai_self_hosted.Client.{Session, clear_session}
use rafineai_self_hosted.Theme.{Display, toggle_dark}
use rafineai_self_hosted.Page.{Machine, Env, is_admin}
use rafineai_self_hosted.Stream.{Delivery}
use rafineai_self_hosted.Exec.{Outcome}
use rafineai_self_hosted.Chat.{Chat}
use rafineai_self_hosted.Chat.Actions.{add_context, attach_file}
use rafineai_self_hosted.Chat.Send.{nothing_to_send, send}

-- The cells that a change of an input or a click sets.
unfoldable pub type_search : Text → Chat → Chat
type_search t s = record s { search = t }

unfoldable pub type_input : Text → Chat → Chat
type_input t s = record s { input = t }

unfoldable pub type_ref : Text → Chat → Chat
type_ref t s = record s { ctx_ref = t }

unfoldable pub toggle_models : Chat → Chat
toggle_models s = record s { model_open = not s.model_open }

unfoldable pub toggle_sources : Chat → Chat
toggle_sources s = record s { ctx_menu_open = not s.ctx_menu_open }

-- A mousedown outside the menu of models, or outside the menu of sources.
unfoldable pub click_outside_models : Chat → Chat
click_outside_models s = record s { model_open = false }

unfoldable pub click_outside_sources : Chat → Chat
click_outside_sources s = record s { ctx_menu_open = false }

-- logout()
unfoldable pub logout : Session × Chat → Session × Chat
logout (session, s) = (clear_session, record s { location = some "/login" })

-- The chips.
pub data ChipIcon : Type 0 where
  picture paper clip : ChipIcon

pub record Chip : Type 0 where
  pub icon : ChipIcon
  pub label : Text
  pub is_readable : Bool

abbrev has_text : Option Text → Bool
has_text none = false
has_text (some t) = not (is_empty t)

unfoldable pub attachment_chip : Attachment → Chip
unfolding text
attachment_chip a = record {
  icon =
      if starts_with (text "image/") a.content_type
      then picture
      else if text_eq a.content_type (text "application/pdf")
      then paper
      else clip;
  label = a.filename;
  is_readable = has_text a.text_content;
}

unfoldable pub attachment_chips : Chat → List Chip
unfolding attachment_chip
attachment_chips s = map attachment_chip s.pending_attachments

unfoldable pub context_chips : Chat → List Text
context_chips s = map (λ (c : ToolContext). c.label) s.pending_contexts

-- CONTEXT_SOURCES
unfoldable pub source_hint : String → Option String
source_hint slug =
    if slug === "web"
    then some "Sayfa adresi (https://…)"
    else if slug === "sentry"
    then some "Sentry issue linki veya id"
    else if slug === "github"
    then some "GitHub dosya linki veya owner/repo/yol"
    else if slug === "slack"
    then some "Slack kanal id (Cxxx) veya #kanal"
    else none

-- The input of a context, shown after a source is picked.
pub record ContextInput : Type 0 where
  pub source : Option Source
  pub hint : Option String
  pub value : Text
  pub add_disabled : Bool
  pub add_label : String

unfoldable pub context_input : Chat → Option ContextInput
unfolding source_hint
context_input s =
    if s.ctx_source === ""
    then none
    else some (record {
      source = find (λ (t : Source). t.slug === s.ctx_source) s.ctx_sources;
      hint = source_hint s.ctx_source;
      value = s.ctx_ref;
      add_disabled = s.ctx_loading || is_empty (trim s.ctx_ref);
      add_label = if s.ctx_loading then "…" else "Ekle";
    })

-- The buttons.
unfoldable pub send_disabled : Chat → Bool
unfolding nothing_to_send
send_disabled s = s.sending || nothing_to_send s

unfoldable pub send_label : String → Chat → String
send_label label s = if s.sending then "…" else label

unfoldable pub upload_disabled : Chat → Bool
upload_disabled s = s.uploading_file || s.sending

unfoldable pub sources_shown : Chat → Bool
sources_shown s = not (is_empty s.ctx_sources)

unfoldable pub sources_disabled : Chat → Bool
sources_disabled s = s.sending

-- A key pressed.
pub record Key : Type 0 where
  pub name : String
  pub shift : Bool

-- An item of the clipboard: its kind and type, and the type of the file that it gives, if it gives one.
pub record Item : Type 0 where
  pub kind : String
  pub type : Text
  pub file : Option Text

abbrev is_image : Item → Bool
unfolding text
is_image it = it.kind === "file" && starts_with (text "image/") it.type

abbrev item_file : Option Item → Option Text
item_file none = none
item_file (some it) = it.file

-- The type of the file that a paste attaches.
unfoldable pub pasted_file : List Item → Option Text
unfolding text
pasted_file items = item_file (find is_image items)

abbrev second_or : List Text → Text
unfolding text
second_or (_ ∷ ext ∷ _) = ext
second_or _ = text "png"

-- `screenshot-${Date.now()}.${ext}`
unfoldable pub screenshot_name : Text → Text → Text
unfolding text split_on
screenshot_name now type = text "screenshot-" ++ now ++ 46 ∷ second_or (split_on 47 type)

module _ {W : Type 0} (env : Env Chat W) where
  -- onKeyDown of the input of a context
  unfoldable pub context_key : Key → Exec (Machine Chat W) Done
  unfolding add_context
  context_key k = if k.name === "Enter" then add_context env else skip

  -- onChange of the file input
  unfoldable pub choose_file : Option Text → Exec (Machine Chat W) Done
  unfolding attach_file
  choose_file none = skip
  choose_file (some name) = attach_file env name

  abbrev attach_pasted : Text → Option Text → Exec (Machine Chat W) Done
  unfolding attach_file screenshot_name
  attach_pasted now none = skip
  attach_pasted now (some type) = attach_file env (screenshot_name now type)

  -- onPaste: what it does, and whether the text area keeps its own paste
  unfoldable pub paste : Text → List Item → Exec (Machine Chat W) Done
  unfolding attach_pasted pasted_file
  paste now items = attach_pasted now (pasted_file items)

module _ {W : Type 0} (env : Env Chat W)
    (stream : String → Text → W → List Delivery × Outcome Done × W)
    (stringify : List Attachment → Text) where
  -- onKeyDown of the text area, and whether it prevents the newline
  unfoldable pub input_key : Key → Exec (Machine Chat W) Done
  unfolding send
  input_key k = captured λ c.
      if k.name === "Enter" && not k.shift
      then (if not c.ui.sending then send env stream stringify else skip)
      else skip

unfoldable pub prevents_newline : Key → Bool
prevents_newline k = k.name === "Enter" && not k.shift

-- The dark toggle, the link of the header, and whether the footer links to the connections.
unfoldable pub toggle_theme : Display × Chat → Display × Chat
unfolding toggle_dark
toggle_theme (d, s) = let (dark, e) = toggle_dark d in (e, record s { dark = dark })

unfoldable pub home_link : Option String → String
home_link role = if is_admin role then "/dashboard" else "/chat"

unfoldable pub links_connections : Option String → Bool
links_connections role = not (is_admin role)
