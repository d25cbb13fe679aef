-- ===== src/Chat/Actions.antt =====
-- The handlers of the chat page that make requests, but `send`.
use rafineai_self_hosted.Prelude.{
  String, Text, trim, Bool, true, false, ◌&&◌, ◌||◌, Option, none, some, List, [], ◌∷◌, ◌++◌,
  is_empty, filter, find, map, take, ◌===◌, if◌then◌else◌,
}
use rafineai_self_hosted.Exec.{
  Failure, message, Exec, Done, pure, captured, try_catch, finally, ◌>>=◌, ◌>>◌, detach, skip,
}
use rafineai_self_hosted.Json.{str, words, object}
use rafineai_self_hosted.Types.{Conversation, MarketplaceApp, Source}
use rafineai_self_hosted.Client.{truthy}
use rafineai_self_hosted.Page.{
  nothing, list, provider, conversation, attachment, message as message_shape, marketplace_app,
  tool_context, get, post, patch, send_file, ◌/+◌, Machine, Env, await_api, on_ui, set_ui,
}
use rafineai_self_hosted.Chat.{Chat, receive_providers, is_context_source, web_source}

abbrev pub set_error : String → Chat → Chat
set_error e s = record s { error = e }

abbrev source_of : MarketplaceApp → Source
source_of a = record { slug = a.slug; name = a.name; icon = a.icon }

-- The list that `/api/marketplace` is turned into.
unfoldable pub attachable : List MarketplaceApp → List Source
attachable apps =
    web_source
    ∷ map source_of
        (filter (λ (a : MarketplaceApp). a.installed && a.enabled && is_context_source a.slug) apps)

-- slice(0, 40)
unfoldable pub title_of : Text → Text
title_of t = take 40 t

abbrev pub select : Option String → Chat → Chat
select none s = s
select (some p) s = record s { selected_provider = p }

-- if (convo?.provider_id) setSelectedProvider(convo.provider_id)
abbrev pub sync_provider : Option Conversation → Chat → Chat
sync_provider none s = s
sync_provider (some convo) s = select (truthy convo.provider_id) s

-- catch (e) { setError(e.message) }
abbrev pub report : {W : Type 0} → Failure → Exec (Machine Chat W) Done
report e = set_ui (set_error (message e))

module _ {W : Type 0} (env : Env Chat W) where
  abbrev pub Handler : Type 0 → Type 0
  Handler A = Exec (Machine Chat W) A

  unfoldable pub load_providers : Handler Done
  load_providers =
      try_catch
        (do
          ps ← await_api env (list provider) (get "/api/providers")
          set_ui (receive_providers ps))
        (λ _. skip)

  unfoldable pub refresh_conversations : Handler Done
  refresh_conversations = do
    cs ← await_api env (list conversation) (get "/api/conversations")
    set_ui (λ s. record s { conversations = cs })

  load_sources : Handler Done
  load_sources =
      try_catch
        (do
          apps ← await_api env (list marketplace_app) (get "/api/marketplace")
          set_ui (λ s. record s { ctx_sources = attachable apps }))
        (λ _. set_ui (λ s. record s { ctx_sources = web_source ∷ [] }))

  -- The effect of the first render; its promises are not awaited.
  unfoldable pub mount : Bool → Handler Done
  unfolding load_providers refresh_conversations load_sources
  mount dark = do
    set_ui (λ s. record s { dark = dark })
    load_providers
    detach refresh_conversations
    load_sources

  unfoldable pub context_attempt : Chat → Handler Done
  context_attempt s = do
    res ← await_api env tool_context (
        post "/api/tools/context"
          (object (("source", str s.ctx_source) ∷ ("ref", words (trim s.ctx_ref)) ∷ [])))
    set_ui (λ s. record s {
      pending_contexts = s.pending_contexts ++ res ∷ [];
      ctx_source = "";
      ctx_ref = [];
    })

  -- addContext()
  unfoldable pub add_context : Handler Done
  add_context = captured λ c.
      if c.ui.ctx_source === "" || is_empty (trim c.ui.ctx_ref) then skip else (do
        set_ui (λ s. record s { ctx_loading = true; error = "" })
        finally (try_catch (context_attempt c.ui) report)
            (on_ui (λ s. record s { ctx_loading = false })))

  -- openConversation(id); `conversations` is the closure's.
  unfoldable pub open_conversation : String → Handler Done
  open_conversation id = captured λ c. do
    set_ui (λ s. record s { active_id = some id; error = "" })
    msgs ← await_api env (list message_shape) (get ("/api/conversations/" /+ id /+ "/messages"))
    set_ui (λ s. record s { messages = msgs })
    set_ui (sync_provider (find (λ (k : Conversation). k.id === id) c.ui.conversations))

  -- The POST that `attachFile` and `send` open a conversation with, and the refresh after it.
  unfoldable pub create_conversation : String → Text → Handler String
  unfolding refresh_conversations
  create_conversation provider_id title = do
    convo ← await_api env conversation (
        post "/api/conversations"
          (object (("provider_id", str provider_id) ∷ ("title", words title) ∷ [])))
    set_ui (λ s. record s { active_id = some convo.id })
    refresh_conversations
    pure convo.id

  abbrev conversation_for_file : Chat → Text → Handler String
  conversation_for_file s name = elim (truthy s.active_id) [
    | some id ↦ pure id
    | none ↦ create_conversation s.selected_provider (title_of name)
  ]

  unfoldable pub attach_attempt : Chat → Text → Handler Done
  unfolding create_conversation
  attach_attempt s name = do
    conv_id ← conversation_for_file s name
    att ← await_api env attachment (send_file ("/api/conversations/" /+ conv_id /+ "/upload") name)
    set_ui (λ s. record s { pending_attachments = s.pending_attachments ++ att ∷ [] })

  -- attachFile(file), of a file with this name
  unfoldable pub attach_file : Text → Handler Done
  attach_file name = captured λ c.
      if c.ui.selected_provider === "" then set_ui (set_error "Önce bir model seçin.") else (do
        set_ui (λ s. record s { uploading_file = true })
        finally (try_catch (attach_attempt c.ui name) report)
            (on_ui (λ s. record s { uploading_file = false })))

  abbrev patch_provider : String → Option String → Handler Done
  patch_provider provider_id none = skip
  patch_provider provider_id (some id) =
      try_catch
        (do
          await_api env nothing
              (patch ("/api/conversations/" /+ id) (object (("provider_id", str provider_id) ∷ [])))
          refresh_conversations
          cs ← await_api env (list conversation) (get "/api/conversations")
          set_ui (λ s. record s { conversations = cs }))
        report

  -- switchProvider(providerId)
  unfoldable pub switch_provider : String → Handler Done
  unfolding refresh_conversations
  switch_provider provider_id = captured λ c. do
    set_ui (λ s. record s { model_open = false; selected_provider = provider_id })
    patch_provider provider_id (truthy c.ui.active_id)
