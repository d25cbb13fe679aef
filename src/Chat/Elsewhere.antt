-- ===== src/Chat/Elsewhere.antt =====
-- A reply that streams in while another conversation is shown.
use rafineai_self_hosted.Prelude.{
  String, Text, true, some, List, [], ◌∷◌, ◌++◌, ◌≡◌, refl, ap, ◌===◌,
}
use rafineai_self_hosted.Exec.{Outcome, ok, Done}
use rafineai_self_hosted.Types.{Message, Attachment}
use rafineai_self_hosted.Page.{Machine, Env}
use rafineai_self_hosted.Stream.{Delivery, delta}
use rafineai_self_hosted.Chat.{Chat}
use rafineai_self_hosted.Chat.Send.{append_delta, receive, receive_all, await_stream}

-- What `openConversation` leaves: the other conversation, with its messages.
abbrev pub opened : String → List Message → Chat → Chat
opened other theirs s = record s { active_id = some other; messages = theirs }

append_delta-last :
    (d : Text) (ms : List Message) (m : Message)
    → (m.role === "assistant") ≡ true
    → append_delta d (ms ++ m ∷ []) ≡ ms ++ record m { content = m.content ++ d } ∷ []
unfolding append_delta
append_delta-last d [] m h = rw h refl
append_delta-last d (k ∷ []) m h = rw h refl
append_delta-last d (k ∷ l ∷ ms) m h =
    ap (λ (r : List Message). k ∷ r) (append_delta-last d (l ∷ ms) m h)

module _ {W : Type 0} (env : Env Chat W) where
  receive_all-append :
      (w : W) (ds : List Delivery) (d : Delivery) (s : Chat)
      → receive_all env w (ds ++ d ∷ []) s ≡ receive d (env.meanwhile w (receive_all env w ds s))
  receive_all-append w [] d s = refl
  receive_all-append w (e ∷ ds) d s = receive_all-append w ds d (receive e (env.meanwhile w s))

  -- If another conversation has been opened before the last piece of a reply comes, the piece is
  -- appended to the last message of that conversation, where it is an assistant's: the page does not
  -- look at which conversation a stream belongs to.
  pub await_stream-elsewhere :
      (stream : String → Text → W → List Delivery × Outcome Done × W)
      (stringify : List Attachment → Text) (conv_id : String) (content : Text) (m : Machine Chat W)
      (ds : List Delivery) (d : Text) (w : W) (other : String) (theirs : List Message)
      (last : Message)
      → stream conv_id content m.world ≡ (ds ++ delta d ∷ [], ok tt, w)
      → ((s : Chat) → env.meanwhile w s ≡ opened other (theirs ++ last ∷ []) s)
      → (last.role === "assistant") ≡ true
      → ((await_stream env stream stringify conv_id content m).1.ui.active_id ≡ some other)
        × ((await_stream env stream stringify conv_id content m).1.ui.messages
            ≡ theirs ++ record last { content = last.content ++ d } ∷ [])
  unfolding await_stream receive
  await_stream-elsewhere stream stringify conv_id content m ds d w other theirs last streamed
        switched h =
      rw (streamed, receive_all-append w ds (delta d) m.ui, switched)
        (refl, append_delta-last d theirs last h)
