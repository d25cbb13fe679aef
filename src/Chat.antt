-- ===== src/Chat.antt =====
-- panel/app/(dash)/chat/page.tsx: the state of the chat page, the choice of a provider, and the
-- handlers that make no request. The handlers with requests are in Chat/Actions and Chat/Send, the
-- text of a message in Chat/Content.
pub mod Content
pub mod Actions
pub mod Send
pub mod View
pub mod Composer
pub mod Menus
pub mod Selection
pub mod Busy
pub mod Elsewhere
pub mod Sending
pub mod Streaming
pub mod Showing
pub mod Tests
use rafineai_self_hosted.Prelude.{
  ℕ, String, Text, Bool, true, false, not, ◌&&◌, ◌||◌, Option, none, some, List, [], ◌∷◌, ◌++◌,
  is_empty, any, filter, head?, ◌===◌, if◌then◌else◌, zero, suc,
}
use rafineai_self_hosted.Types.{Provider, Conversation, Message, Attachment, ToolContext, Source}

-- The `useState` cells, the page that the router was sent to, and the pending timers of the toast.
pub record Chat : Type 0 where
  pub providers : List Provider
  pub conversations : List Conversation
  pub active_id : Option String
  pub messages : List Message
  pub selected_provider : String
  pub input : Text
  pub sending : Bool
  pub error : String
  pub toast : Option Text
  pub dark : Bool
  pub search : Text
  pub model_open : Bool
  pub pending_attachments : List Attachment
  pub uploading_file : Bool
  pub ctx_sources : List Source
  pub ctx_menu_open : Bool
  pub ctx_source : String
  pub ctx_ref : Text
  pub ctx_loading : Bool
  pub pending_contexts : List ToolContext
  pub location : Option String
  pub toast_timers : ℕ

-- The state of the first render.
abbrev pub initial : Chat
initial = record {
  providers = [];
  conversations = [];
  active_id = none;
  messages = [];
  selected_provider = "";
  input = [];
  sending = false;
  error = "";
  toast = none;
  dark = false;
  search = [];
  model_open = false;
  pending_attachments = [];
  uploading_file = false;
  ctx_sources = [];
  ctx_menu_open = false;
  ctx_source = "";
  ctx_ref = [];
  ctx_loading = false;
  pending_contexts = [];
  location = none;
  toast_timers = 0;
}

-- The filter of `loadProviders` and of `usableProviders`.
unfoldable pub is_usable : Provider → Bool
is_usable p =
    p.own_key
    || (p.is_active
        && ((p.auth_mode === "api_key" && p.has_api_key)
            || (p.auth_mode === "oauth2" && p.connected)))

abbrev pub usable_providers : List Provider → List Provider
usable_providers = filter is_usable

abbrev id_or_empty : Option Provider → String
id_or_empty none = ""
id_or_empty (some p) = p.id

-- The updater of `setSelectedProvider` in `loadProviders`.
unfoldable pub choose_provider : List Provider → String → String
choose_provider ps cur =
    let usable = usable_providers ps in
    if not (cur === "") && any (λ (p : Provider). p.id === cur) usable
    then cur
    else id_or_empty (head? usable)

abbrev pub receive_providers : List Provider → Chat → Chat
receive_providers ps s = record s {
  providers = ps;
  selected_provider = choose_provider ps s.selected_provider;
}

-- newChat()
unfoldable pub new_chat : Chat → Chat
new_chat s = record s {
  active_id = none;
  messages = [];
  error = "";
  pending_attachments = [];
  pending_contexts = [];
  ctx_source = "";
  ctx_ref = [];
}

-- The buttons of the context menu, "İptal", and the chips' ×.
unfoldable pub pick_source : Source → Chat → Chat
pick_source t s = record s { ctx_source = t.slug; ctx_ref = []; ctx_menu_open = false }

unfoldable pub cancel_source : Chat → Chat
cancel_source s = record s { ctx_source = ""; ctx_ref = [] }

-- p.filter((_, j) => j !== i)
unfoldable pub remove_at {ℓ} : {A : Type ℓ} → ℕ → List A → List A
remove_at i [] = []
remove_at zero (x ∷ xs) = xs
remove_at (suc i) (x ∷ xs) = x ∷ remove_at i xs

unfoldable pub remove_attachment : ℕ → Chat → Chat
unfolding remove_at
remove_attachment i s = record s { pending_attachments = remove_at i s.pending_attachments }

unfoldable pub remove_context : ℕ → Chat → Chat
unfolding remove_at
remove_context i s = record s { pending_contexts = remove_at i s.pending_contexts }

-- `setTimeout(() => setToast(null), 6000)` when it fires.
unfoldable pub hide_toast : Chat → Chat
hide_toast s = record s { toast = none }

-- The sources of the context menu: the web, then what is installed, enabled and known.
abbrev pub web_source : Source
web_source = record { slug = "web"; name = "Web sayfası"; icon = "🌐" }

unfoldable pub is_context_source : String → Bool
is_context_source slug =
    slug === "web" || slug === "sentry" || slug === "github" || slug === "slack"
