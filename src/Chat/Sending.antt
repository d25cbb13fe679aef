-- ===== src/Chat/Sending.antt =====
-- What `send` does to the page, whatever the server answers and whatever runs while it waits.
use rafineai_self_hosted.Prelude.{
  String, Text, false, none, List, [], ◌≡◌, refl, ◌&&◌, inl, inr, Bool-cases,
}
use rafineai_self_hosted.Exec.{Outcome, ok, Done}
use rafineai_self_hosted.Exec.Rules.{try_catch-ok}
use rafineai_self_hosted.Types.{Attachment}
use rafineai_self_hosted.Page.{Machine, Env}
use rafineai_self_hosted.Stream.{Delivery}
use rafineai_self_hosted.Chat.{Chat}
use rafineai_self_hosted.Chat.Actions.{report}
use rafineai_self_hosted.Chat.Send.{send_blocked, send_attempt, send_body, send}

module _ {W : Type 0} (env : Env Chat W)
    (stream : String → Text → W → List Delivery × Outcome Done × W)
    (stringify : List Attachment → Text) where
  send_body-ok : (s : Chat) (m : Machine Chat W) → (send_body env stream stringify s m).0 ≡ ok tt
  unfolding send_body
  send_body-ok s m = try_catch-ok (send_attempt env stream stringify s) report m (λ e t. refl)

  -- `send` never throws, and it ends with `sending` reset, whatever the server answers, wherever it
  -- fails and whatever runs meanwhile; a blocked one leaves `sending` as it was.
  pub send-sending :
      (m : Machine Chat W)
      → ((send env stream stringify m).0 ≡ ok tt)
        × ((send env stream stringify m).1.ui.sending ≡ (send_blocked m.ui && m.ui.sending))
  unfolding send
  send-sending m = elim (Bool-cases (send_blocked m.ui)) [
    | inl h ↦ rw h (refl, refl)
    | inr h ↦ rw h (send_body-ok m.ui _, refl)
  ]

  -- With no conversation open and no provider selected, `send` makes no request and says so; the text,
  -- the attachments and the contexts that were to be sent are gone.
  pub send-unsaved :
      (m : Machine Chat W)
      → send_blocked m.ui ≡ false
      → m.ui.active_id ≡ none
      → m.ui.selected_provider ≡ ""
      → ((send env stream stringify m).1.world ≡ m.world)
        × ((send env stream stringify m).1.ui.error ≡ "Önce bir model seçin.")
        × ((send env stream stringify m).1.ui.input ≡ [])
        × ((send env stream stringify m).1.ui.pending_attachments ≡ [])
        × ((send env stream stringify m).1.ui.pending_contexts ≡ [])
        × ((send env stream stringify m).1.ui.messages ≡ m.ui.messages)
  unfolding send send_body
  send-unsaved m h no_conversation no_provider =
      rw (h, no_conversation, no_provider) (refl, refl, refl, refl, refl, refl)
