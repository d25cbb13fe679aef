-- ===== src/Chat/Streaming.antt =====
-- The message list while a reply streams in.
use rafineai_self_hosted.Prelude.{
  Text, true, List, [], ◌∷◌, ◌++◌, ◌≡◌, ◌⊎◌, inl, inr, refl, ap, map, ◌∙◌, any, All, All-filter,
  ◌===◌, false, arith, append_assoc, append-nil,
}
use rafineai_self_hosted.Types.{Message}
use rafineai_self_hosted.Page.{Env}
use rafineai_self_hosted.Stream.{Delivery, delta, error}
use rafineai_self_hosted.Stream.Chunks.{concat}
use rafineai_self_hosted.Chat.{Chat}
use rafineai_self_hosted.Chat.Send.{append_delta, not_draft, receive, is_error, receive_all}

-- What the page shows of an exchange: the user's text and the part of the reply that has come.
abbrev pub shown : Text → Text → List Message
shown content reply =
    record { id = "tmp-u"; role = "user"; content = content; tokens = 0; attachments = [] }
    ∷ record { id = "tmp-a"; role = "assistant"; content = reply; tokens = 0; attachments = [] }
    ∷ []

append_delta-shown :
    (ms : List Message) (content reply d : Text)
    → append_delta d (ms ++ shown content reply) ≡ ms ++ shown content (reply ++ d)
unfolding append_delta
append_delta-shown [] content reply d = refl
append_delta-shown (m ∷ []) content reply d = refl
append_delta-shown (m ∷ n ∷ ms) content reply d =
    ap (λ (l : List Message). m ∷ l) (append_delta-shown (n ∷ ms) content reply d)

abbrev pub HasNoDraft : List Message → Type 0
HasNoDraft = All (λ m. (m.id === "tmp-a") ≡ false)

All-not_draft : (ms : List Message) → All (λ m. not_draft m ≡ true) ms → HasNoDraft ms
All-not_draft [] h = tt
All-not_draft (m ∷ ms) (h, hs) = (ground arith, All-not_draft ms hs)

append_delta-HasNoDraft :
    (d : Text) (ms : List Message) → HasNoDraft ms → HasNoDraft (append_delta d ms)
unfolding append_delta
append_delta-HasNoDraft d [] h = tt
append_delta-HasNoDraft d (m ∷ []) h = ground arith
append_delta-HasNoDraft d (m ∷ n ∷ ms) (h, hs) = (h, append_delta-HasNoDraft d (n ∷ ms) hs)

module _ {W : Type 0} (env : Env Chat W) (w : W)
    (meanwhile-messages : (s : Chat) → (env.meanwhile w s).messages ≡ s.messages) where
  -- While handlers that leave the messages alone run in between, the pieces of a reply are shown in
  -- order, joined, in the assistant's bubble, and the messages before the exchange stay.
  pub receive_all-deltas :
      (ds : List Text) (s : Chat) (ms : List Message) (content reply : Text)
      → s.messages ≡ ms ++ shown content reply
      → (receive_all env w (map delta ds) s).messages ≡ ms ++ shown content (reply ++ concat ds)
  unfolding receive
  receive_all-deltas [] s ms content reply h = rw (append-nil reply) h
  receive_all-deltas (d ∷ ds) s ms content reply h = rw (← append_assoc reply d (concat ds)) (
      receive_all-deltas ds _ ms content (reply ++ d)
        (ap (append_delta d) (meanwhile-messages s ∙ h) ∙ append_delta-shown ms content reply d))

  receive-HasNoDraft :
      (d : Delivery) (s : Chat)
      → HasNoDraft s.messages ⊎ (is_error d ≡ true)
      → HasNoDraft (receive d (env.meanwhile w s)).messages
  unfolding receive
  receive-HasNoDraft (delta d) s (inl h) =
      rw (meanwhile-messages s) (append_delta-HasNoDraft d s.messages h)
  receive-HasNoDraft (delta d) s (inr e) = cc
  receive-HasNoDraft (error e) s h =
      All-not_draft _ (All-filter not_draft (env.meanwhile w s).messages)

  -- While handlers that leave the messages alone run in between: once the stream has reported an error, no
  -- message has the id "tmp-a" of the assistant's bubble any more, and no later piece brings one back.
  pub receive_all-error :
      (ds : List Delivery) (s : Chat)
      → HasNoDraft s.messages ⊎ (any is_error ds ≡ true)
      → HasNoDraft (receive_all env w ds s).messages
  receive_all-error [] s (inl h) = h
  receive_all-error [] s (inr e) = cc
  receive_all-error (d ∷ ds) s (inl h) =
      receive_all-error ds _ (inl (receive-HasNoDraft d s (inl h)))
  receive_all-error (delta d ∷ ds) s (inr e) = receive_all-error ds _ (inr e)
  receive_all-error (error t ∷ ds) s (inr e) =
      receive_all-error ds _ (inl (receive-HasNoDraft (error t) s (inr refl)))
