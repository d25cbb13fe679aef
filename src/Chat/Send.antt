-- ===== src/Chat/Send.antt =====
-- `send` of the chat page. `stream` is `streamChat` at a conversation and a content: what it delivers
-- and how it ends (Stream says which deliveries a response gives).
use rafineai_self_hosted.Prelude.{
  String, Text, text, trim, Bool, true, false, not, ◌&&◌, ◌||◌, Option, none, some, List, [], ◌∷◌,
  ◌++◌, ◌+◌, is_empty, any, filter, ◌===◌, if◌then◌else◌,
}
use rafineai_self_hosted.Exec.{
  Outcome, ok, fail, Exec, Done, pure, captured, try_catch, finally, ◌>>=◌, ◌>>◌, detach, skip,
}
use rafineai_self_hosted.Types.{Message, Attachment}
use rafineai_self_hosted.Client.{truthy}
use rafineai_self_hosted.Page.{
  list, message as message_shape, get, ◌/+◌, Machine, Env, await_api, on_ui, set_ui,
}
use rafineai_self_hosted.Stream.{Delivery, delta, error}
use rafineai_self_hosted.Chat.{Chat}
use rafineai_self_hosted.Chat.Content.{compose}
use rafineai_self_hosted.Chat.Actions.{report, title_of, refresh_conversations, create_conversation}

-- The guard of `send`, and the `disabled` of its button.
unfoldable pub nothing_to_send : Chat → Bool
nothing_to_send s =
    is_empty (trim s.input) && is_empty s.pending_attachments && is_empty s.pending_contexts

unfoldable pub send_blocked : Chat → Bool
unfolding nothing_to_send
send_blocked s = nothing_to_send s || s.sending

-- The onDelta callback: the last message, if it is the assistant's, grows.
unfoldable pub append_delta : Text → List Message → List Message
append_delta d [] = []
append_delta d (m ∷ []) =
    if m.role === "assistant" then record m { content = m.content ++ d } ∷ [] else m ∷ []
append_delta d (m ∷ n ∷ ms) = m ∷ append_delta d (n ∷ ms)

abbrev pub not_draft : Message → Bool
not_draft m = not (m.id === "tmp-a")

-- The two callbacks of `streamChat`, by the delivery that calls them.
unfoldable pub receive : Delivery → Chat → Chat
unfolding append_delta
receive (delta d) s = record s { messages = append_delta d s.messages }
receive (error e) s = record s {
  toast = some e;
  messages = filter not_draft s.messages;
  toast_timers = s.toast_timers + 1;
}

abbrev pub is_error : Delivery → Bool
is_error (delta d) = false
is_error (error e) = true

abbrev stream_result : List Delivery → Outcome Done → Outcome Bool
stream_result ds (ok _) = ok (any is_error ds)
stream_result ds (fail e) = fail e

-- atts[0]?.filename
abbrev first_filename : List Attachment → Text
first_filename [] = []
first_filename (a ∷ _) = a.filename

abbrev or_text : Text → Text → Text
or_text [] t = t
or_text (c ∷ s) t = c ∷ s

-- The two messages that `send` shows at once.
abbrev pub drafts : Text → List Message
drafts content =
    record { id = "tmp-u"; role = "user"; content = content; tokens = 0; attachments = [] }
    ∷ record { id = "tmp-a"; role = "assistant"; content = []; tokens = 0; attachments = [] }
    ∷ []

abbrev pub clear_composer : Chat → Chat
clear_composer s = record s {
  input = [];
  pending_attachments = [];
  pending_contexts = [];
  sending = true;
  error = "";
}

module _ {W : Type 0} (env : Env Chat W) where
  -- The callbacks run one after another, and other handlers between them.
  abbrev pub receive_all : W → List Delivery → Chat → Chat
  receive_all w [] s = s
  receive_all w (d ∷ ds) s = receive_all w ds (receive d (env.meanwhile w s))

module _ {W : Type 0} (env : Env Chat W)
    (stream : String → Text → W → List Delivery × Outcome Done × W)
    (stringify : List Attachment → Text) where
  -- await streamChat(…); the result is `hadStreamError`.
  unfoldable pub await_stream : String → Text → Exec (Machine Chat W) Bool
  unfolding receive
  await_stream conv_id content m =
      let (ds, o, w) = stream conv_id content m.world in
      (stream_result ds o, record { ui = receive_all env w ds m.ui; world = w })

  -- The conversation to write to; `none` is the return for want of a provider.
  abbrev conversation_to_write : Chat → Exec (Machine Chat W) (Option String)
  conversation_to_write s = elim (truthy s.active_id) [
    | some id ↦ pure (some id)
    | none ↦
        if s.selected_provider === ""
        then (do
          set_ui (λ s. record s { error = "Önce bir model seçin."; sending = false })
          pure none)
        else (do
          id ← create_conversation env s.selected_provider (
              title_of (
                or_text (trim s.input)
                  (or_text (first_filename s.pending_attachments) (text "Yeni sohbet"))))
          pure (some id))
  ]

  -- The messages, the stream, the reload and the refresh.
  unfoldable pub exchange : Text → String → Exec (Machine Chat W) Done
  unfolding await_stream refresh_conversations
  exchange content conv_id = do
    set_ui (λ s. record s { messages = s.messages ++ drafts content })
    had_stream_error ← await_stream conv_id content
    if had_stream_error then skip else (do
      msgs ←
          await_api env (list message_shape) (get ("/api/conversations/" /+ conv_id /+ "/messages"))
      set_ui (λ s. record s { messages = msgs }))
    detach (refresh_conversations env)

  exchange_with : Text → Option String → Exec (Machine Chat W) Done
  exchange_with content none = skip
  exchange_with content (some conv_id) = exchange content conv_id

  unfoldable pub content_of : Chat → Text
  content_of s = compose stringify (trim s.input) s.pending_attachments s.pending_contexts

  unfoldable pub send_attempt : Chat → Exec (Machine Chat W) Done
  unfolding exchange_with exchange create_conversation
  send_attempt s = do conv_id ← conversation_to_write s; exchange_with (content_of s) conv_id

  unfoldable pub send_body : Chat → Exec (Machine Chat W) Done
  unfolding send_attempt
  send_body s = try_catch (send_attempt s) report

  -- send()
  unfoldable pub send : Exec (Machine Chat W) Done
  send = captured λ c. if send_blocked c.ui then skip else (do
    set_ui clear_composer
    finally (send_body c.ui) (on_ui (λ s. record s { sending = false })))
