-- ===== src/Chat/Busy.antt =====
-- The busy flags and the errors of the chat page's other handlers.
use rafineai_self_hosted.Prelude.{
  Text, trim, ◌≡◌, refl, is_empty, ◌||◌, ◌&&◌, ◌===◌, inl, inr, Bool-cases,
}
use rafineai_self_hosted.Exec.{ok}
use rafineai_self_hosted.Exec.Rules.{try_catch-ok}
use rafineai_self_hosted.Page.{message as message_shape, Machine, Env}
use rafineai_self_hosted.Chat.{Chat}
use rafineai_self_hosted.Chat.Actions.{
  report, attach_attempt, attach_file, context_attempt, add_context,
}

module _ {W : Type 0} (env : Env Chat W) where
  -- `attachFile` never throws, and with a provider selected it ends with the upload flag reset,
  -- however the requests end; with none it leaves the flag as it was.
  pub attach_file-uploading :
      (name : Text) (m : Machine Chat W)
      → ((attach_file env name m).0 ≡ ok tt)
        × ((attach_file env name m).1.ui.uploading_file
            ≡ (m.ui.selected_provider === "" && m.ui.uploading_file))
  unfolding attach_file
  attach_file-uploading name m = elim (Bool-cases (m.ui.selected_provider === "")) [
    | inl h ↦ rw h (refl, refl)
    | inr h ↦ rw h (try_catch-ok (attach_attempt env m.ui name) report _ (λ e t. refl), refl)
  ]

  -- `addContext` never throws, and with a source and a reference it ends with the loading flag reset,
  -- however the request ends; without, it leaves the flag as it was.
  pub add_context-loading :
      (m : Machine Chat W)
      → ((add_context env m).0 ≡ ok tt)
        × ((add_context env m).1.ui.ctx_loading
            ≡ ((m.ui.ctx_source === "" || is_empty (trim m.ui.ctx_ref)) && m.ui.ctx_loading))
  unfolding add_context
  add_context-loading m =
      elim (Bool-cases (m.ui.ctx_source === "" || is_empty (trim m.ui.ctx_ref))) [
        | inl h ↦ rw h (refl, refl)
        | inr h ↦ rw h (try_catch-ok (context_attempt env m.ui) report _ (λ e t. refl), refl)
      ]
