-- ===== src/Chat/View.antt =====
-- What the chat page shows of its state: the list of conversations, the choice of a model, and the
-- bubbles. `lower` is toLowerCase and `parse` is JSON.parse of the attachments. Classes, icons and
-- fixed labels that do not depend on the state are left out.
use rafineai_self_hosted.Prelude.{
  String, Text, text, Bool, true, false, ◌&&◌, ◌||◌, Option, none, some, List, [], ◌∷◌, map, filter,
  find, is_empty, starts_with, contains, ◌===◌, if◌then◌else◌,
}
use rafineai_self_hosted.Types.{Provider, Conversation, Message, Attachment}
use rafineai_self_hosted.Markup.{Rendered, message_content}
use rafineai_self_hosted.Chat.{Chat, usable_providers}
use rafineai_self_hosted.Chat.Content.{Parsed, parse_message_content}

-- A row of the list, and the sentence in place of the rows.
pub record Row : Type 0 where
  pub id : String
  pub title : Text
  pub model : String
  pub highlighted : Bool

abbrev is_active : Option String → String → Bool
is_active none id = false
is_active (some active) id = active === id

abbrev row_of : Option String → Conversation → Row
row_of active c = record {
  id = c.id;
  title = c.title;
  model = c.model;
  highlighted = is_active active c.id;
}

module _ (lower : Text → Text) where
  -- !search || c.title.toLowerCase().includes(search.toLowerCase())
  unfoldable pub is_found : Text → Conversation → Bool
  is_found search c = is_empty search || contains (lower search) (lower c.title)

  unfoldable pub filtered_convos : Chat → List Conversation
  unfolding is_found
  filtered_convos s = filter (is_found s.search) s.conversations

  unfoldable pub rows : Chat → List Row
  unfolding filtered_convos
  rows s = map (row_of s.active_id) (filtered_convos s)

  unfoldable pub no_rows : Chat → Option String
  unfolding filtered_convos
  no_rows s =
      if is_empty (filtered_convos s)
      then some (if is_empty s.search then "Henüz sohbet yok." else "Bulunamadı.")
      else none

-- An entry of the open menu of models.
pub record Entry : Type 0 where
  pub id : String
  pub name : String
  pub default_model : String
  pub checked : Bool

pub data ModelMenu : Type 0 where
  connect_account : ModelMenu
  model_button : (name : String) (model : Option String) (entries : Option (List Entry)) → ModelMenu

abbrev pub entry_of : String → Provider → Entry
entry_of selected p = record {
  id = p.id;
  name = p.name;
  default_model = p.default_model;
  checked = selected === p.id;
}

abbrev current_name : Option Provider → String
current_name none = "Model seç"
current_name (some p) = p.name

abbrev current_model : Option Provider → Option String
current_model none = none
current_model (some p) = some p.default_model

-- providers.find((p) => p.id === selectedProvider)
unfoldable pub current_provider : Chat → Option Provider
current_provider s = find (λ (p : Provider). p.id === s.selected_provider) s.providers

unfoldable pub entries : Chat → List Entry
entries s = map (entry_of s.selected_provider) (usable_providers s.providers)

unfoldable pub model_menu : Chat → ModelMenu
unfolding current_provider entries
model_menu s =
    if is_empty (usable_providers s.providers)
    then connect_account
    else model_button (current_name (current_provider s)) (current_model (current_provider s))
        (if s.model_open then some (entries s) else none)

-- A bubble: the text as typed or as markup, the files, and the caret.
pub data Body : Type 0 where
  empty : Body
  typed : Text → Body
  marked_up : List Rendered → Body

pub data File : Type 0 where
  image : (src : String) (alt : Text) → File
  download : (href : String) (name : Text) → File

pub data Caret : Type 0 where
  no_caret caret_in_place caret_after : Caret

pub record Bubble : Type 0 where
  pub mine : Bool
  pub body : Body
  pub files : List File
  pub caret : Caret

unfoldable pub file_of : Attachment → File
unfolding text
file_of a =
    if starts_with (text "image/") a.content_type
    then image a.url a.filename
    else download a.url a.filename

unfoldable pub body_of : Bool → Text → Body
unfolding message_content
body_of mine [] = empty
body_of mine (c ∷ t) = if mine then typed (c ∷ t) else marked_up (message_content (c ∷ t))

abbrev caret_of : Bool → Text → Caret
caret_of streaming t =
    if streaming then (if is_empty t then caret_in_place else caret_after) else no_caret

module _ (parse : Text → Option (List Attachment)) where
  abbrev bubble_with : Bool → Bool → Text → Parsed → Bubble
  unfolding body_of file_of
  bubble_with mine streaming content p = record {
    mine = mine;
    body = body_of mine p.text;
    files = map file_of p.attachments;
    caret = caret_of streaming content;
  }

  -- The bubble of a message; `last` says that no message follows.
  unfoldable pub bubble : Bool → Bool → Message → Bubble
  unfolding bubble_with parse_message_content
  bubble sending last m =
      bubble_with (m.role === "user") (sending && last && m.role === "assistant") m.content
        (parse_message_content parse m.content)

  unfoldable pub bubbles_of : Bool → List Message → List Bubble
  unfolding bubble
  bubbles_of sending [] = []
  bubbles_of sending (m ∷ ms) = bubble sending (is_empty ms) m ∷ bubbles_of sending ms

  -- The thread; `none` is the welcome.
  unfoldable pub thread : Chat → Option (List Bubble)
  unfolding bubbles_of
  thread s =
      if is_empty s.messages && no_conversation s.active_id
      then none
      else some (bubbles_of s.sending s.messages)
    where
      no_conversation : Option String → Bool
      no_conversation none = true
      no_conversation (some id) = id === ""
