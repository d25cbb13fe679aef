-- ===== src/Chat/Tests.antt =====
-- The chat page at small conversations.
use rafineai_self_hosted.Prelude.{
  ℕ, String, Text, text, trim, some, List, [], ◌∷◌, ◌++◌, ◌≡◌, refl, map, inr, ◌&&◌,
}
use rafineai_self_hosted.Exec.{Outcome, ok, Done}
use rafineai_self_hosted.Types.{Message, Attachment}
use rafineai_self_hosted.Page.Samples.{server, at_rest}
use rafineai_self_hosted.Stream.{Delivery, delta, error}
use rafineai_self_hosted.Stream.Chunks.{concat}
use rafineai_self_hosted.Chat.{Chat, initial}
use rafineai_self_hosted.Chat.Send.{send_blocked, receive_all, await_stream, send}
use rafineai_self_hosted.Chat.Streaming.{shown, HasNoDraft, receive_all-deltas, receive_all-error}
use rafineai_self_hosted.Chat.Elsewhere.{opened, await_stream-elsewhere}
use rafineai_self_hosted.Page.{Env}
use rafineai_self_hosted.Chat.Sending.{send-sending, send-unsaved}

-- A stream that delivers two pieces and ends.
abbrev stream : String → Text → ℕ → List Delivery × Outcome Done × ℕ
stream id content w = (delta (text "Mer") ∷ delta (text "haba") ∷ [], ok tt, w)

abbrev stringify : List Attachment → Text
stringify list = text "[]"

abbrev typed : Chat
typed = record initial { input = text "Merhaba"; active_id = some "c1" }

send-sending_example :
    ((send server stream stringify (at_rest typed)).0 ≡ ok tt)
    × ((send server stream stringify (at_rest typed)).1.ui.sending
        ≡ (send_blocked typed && typed.sending))
send-sending_example = send-sending server stream stringify (at_rest typed)

abbrev unsaved : Chat
unsaved = record initial { input = text "Merhaba" }

send-unsaved_example :
    ((send server stream stringify (at_rest unsaved)).1.world ≡ 0)
    × ((send server stream stringify (at_rest unsaved)).1.ui.error ≡ "Önce bir model seçin.")
    × ((send server stream stringify (at_rest unsaved)).1.ui.input ≡ [])
    × ((send server stream stringify (at_rest unsaved)).1.ui.pending_attachments ≡ [])
    × ((send server stream stringify (at_rest unsaved)).1.ui.pending_contexts ≡ [])
    × ((send server stream stringify (at_rest unsaved)).1.ui.messages ≡ [])
unfolding send_blocked text trim
send-unsaved_example = send-unsaved server stream stringify (at_rest unsaved) refl refl refl

abbrev chatting : Chat
chatting = record initial { messages = shown (text "Selam") [] }

receive_all-deltas_example :
    (receive_all server 0 (map delta (text "Mer" ∷ text "haba" ∷ [])) chatting).messages
    ≡ [] ++ shown (text "Selam") ([] ++ concat (text "Mer" ∷ text "haba" ∷ []))
receive_all-deltas_example =
    receive_all-deltas server 0 (λ s. refl) (text "Mer" ∷ text "haba" ∷ []) chatting []
      (text "Selam") [] refl

receive_all-error_example :
    HasNoDraft
      (receive_all server 0 (error (text "blocked") ∷ delta (text "x") ∷ []) chatting).messages
receive_all-error_example =
    receive_all-error server 0 (λ s. refl) (error (text "blocked") ∷ delta (text "x") ∷ []) chatting
      (inr refl)

abbrev theirs : Message
unfolding text
theirs = record {
  id = "m9";
  role = "assistant";
  content = text "Tamam.";
  tokens = 2;
  attachments = [];
}

-- While the page waits, the user has opened the conversation c2.
abbrev elsewhere : Env Chat ℕ
elsewhere = record {
  call = (server {S = Chat}).call;
  meanwhile = λ w s. opened "c2" ([] ++ theirs ∷ []) s;
}

await_stream-elsewhere_example :
    ((await_stream elsewhere stream stringify "c1" [] (at_rest chatting)).1.ui.active_id
      ≡ some "c2")
    × ((await_stream elsewhere stream stringify "c1" [] (at_rest chatting)).1.ui.messages
        ≡ [] ++ record theirs { content = theirs.content ++ text "haba" } ∷ [])
unfolding theirs
await_stream-elsewhere_example =
    await_stream-elsewhere elsewhere stream stringify "c1" [] (at_rest chatting)
      (delta (text "Mer") ∷ []) (text "haba") 0 "c2" [] theirs refl (λ s. refl) refl
