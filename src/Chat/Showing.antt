-- ===== src/Chat/Showing.antt =====
-- What the page shows is what its handlers do: the menu of models, the message just sent, and the keys.
pub mod Tests
use rafineai_self_hosted.Prelude.{
  ℕ, String, Text, trim, Bool, true, false, not, ◌&&◌, ◌||◌, Option, none, some, List, [], ◌∷◌,
  ◌++◌, ◌≡◌, refl, ap, sym, ◌∙◌, map, any, is_empty, All, IsFree, arith, eq_iff, ◌===◌,
  if◌then◌else◌, Bool-cases, inl, inr,
}
use rafineai_self_hosted.Exec.{Outcome, ok, Done, skip}
use rafineai_self_hosted.Types.{Provider, Attachment, ToolContext}
use rafineai_self_hosted.Page.{Machine, Env}
use rafineai_self_hosted.Stream.{Delivery}
use rafineai_self_hosted.Chat.{Chat, usable_providers, choose_provider, receive_providers}
use rafineai_self_hosted.Chat.Content.{compose, parse_message_content}
use rafineai_self_hosted.Chat.Content.Stripping.{IsPlain, documents}
use rafineai_self_hosted.Chat.Content.Reading.{parse_message_content-compose}
use rafineai_self_hosted.Chat.Selection.{is_offered, choose_provider-offered}
use rafineai_self_hosted.Chat.Send.{drafts, nothing_to_send, send_blocked, send}
use rafineai_self_hosted.Chat.View.{
  Entry, entry_of, entries, Bubble, empty, body_of, file_of, no_caret, caret_in_place, bubble,
  bubbles_of,
}
use rafineai_self_hosted.Chat.Composer.{Key, send_disabled, input_key, prevents_newline}

any-checked :
    (us : List Provider) (id : String)
    → any (λ (e : Entry). e.checked) (map (entry_of id) us) ≡ any (λ (p : Provider). p.id === id) us
any-checked [] id = refl
any-checked (p ∷ us) id = ground (arith, any-checked us id, eq_iff p.id id, eq_iff id p.id)

-- After the providers are loaded, where one of them is usable, the menu of models has a ticked entry,
-- whatever was selected before.
pub receive_providers-entries :
    (ps : List Provider) (s : Chat)
    → is_empty (usable_providers ps) ≡ false
    → any (λ (e : Entry). e.checked) (entries (receive_providers ps s)) ≡ true
unfolding entries
receive_providers-entries ps s h =
    any-checked (usable_providers ps) (choose_provider ps s.selected_provider)
    ∙ choose_provider-offered ps s.selected_provider h

module _ (stringify : List Attachment → Text) (parse : Text → Option (List Attachment)) where
  -- Right after `send`, the page shows a bubble of one's own with what was typed, trimmed, and the
  -- attachments, and an empty bubble of the assistant with the caret: where the text has no "<", the
  -- names of the files and contexts neither a quote nor "<", and their texts no "<", and JSON.stringify
  -- of the attachments is an array that JSON.parse reads back.
  pub bubbles_of-drafts :
      (input : Text) (atts : List Attachment) (ctxs : List ToolContext) (inner : Text)
      → IsFree 60 input
      → All IsPlain (documents atts ctxs)
      → stringify atts ≡ 91 ∷ inner ++ 93 ∷ []
      → parse (stringify atts) ≡ some atts
      → bubbles_of parse true (drafts (compose stringify input atts ctxs))
        ≡ record {
          mine = true;
          body = body_of true (trim input);
          files = map file_of atts;
          caret = no_caret;
        }
          ∷ record { mine = false; body = empty; files = []; caret = caret_in_place }
          ∷ []
  unfolding bubbles_of bubble body_of
  bubbles_of-drafts input atts ctxs inner h k array back =
      rw (parse_message_content-compose stringify parse input atts ctxs inner h k array back) refl

send_blocked-disabled : (s : Chat) → send_blocked s ≡ send_disabled s
unfolding send_blocked send_disabled
send_blocked-disabled s = ground arith

sending-disabled : (s : Chat) → s.sending ≡ true → send_disabled s ≡ true
unfolding send_disabled
sending-disabled s h = rw h refl

module _ {W : Type 0} (env : Env Chat W)
    (stream : String → Text → W → List Delivery × Outcome Done × W)
    (stringify : List Attachment → Text) where
  send-blocked :
      (m : Machine Chat W) → send_blocked m.ui ≡ true → send env stream stringify m ≡ (ok tt, m)
  unfolding send
  send-blocked m h = rw h refl

  send-disabled :
      (m : Machine Chat W) (b : Bool)
      → send_disabled m.ui ≡ b
      → send env stream stringify m ≡ (if b then (ok tt, m) else send env stream stringify m)
  send-disabled m true h = send-blocked m (send_blocked-disabled m.ui ∙ h)
  send-disabled m false h = refl

  enter :
      (m : Machine Chat W) (b : Bool)
      → m.ui.sending ≡ b
      → (if not b then send env stream stringify else skip) m ≡ send env stream stringify m
  enter m true h = sym (send-blocked m (send_blocked-disabled m.ui ∙ sending-disabled m.ui h))
  enter m false h = refl

  -- Enter without Shift does what a click of the send button does; where the button is disabled, that
  -- is nothing. The button is disabled exactly where the guard of `send` stops it.
  pub input_key-send :
      (k : Key) (m : Machine Chat W)
      → prevents_newline k ≡ true
      → (input_key env stream stringify k m ≡ send env stream stringify m)
        × (send env stream stringify m
            ≡ (if send_disabled m.ui then (ok tt, m) else send env stream stringify m))
        × (send_blocked m.ui ≡ send_disabled m.ui)
  unfolding input_key prevents_newline
  input_key-send k m h = (
    rw h (enter m m.ui.sending refl),
    send-disabled m (send_disabled m.ui) refl,
    send_blocked-disabled m.ui,
  )
