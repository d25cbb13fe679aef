-- ===== src/Pages/Connections/Saving.antt =====
-- Saving a key on the connections page.
use rafineai_self_hosted.Prelude.{String, Text, trim, false, some, ◌≡◌, refl}
use rafineai_self_hosted.Exec.{Failure, message, ok, fail}
use rafineai_self_hosted.Exec.Rules.{try_catch-ok}
use rafineai_self_hosted.Client.{truthy}
use rafineai_self_hosted.Page.{nothing, Machine, Env}
use rafineai_self_hosted.Pages.Connections.{
  Connections, report_save, key_to_save, key_call, put_key, save_attempt, save_key,
}

module _ {W : Type 0} (env : Env Connections W) where
  -- With a type and a key `saveKey` never throws, and it ends with the saving flag reset, however its
  -- requests end and whatever runs meanwhile.
  pub save_key-saving :
      (m : Machine Connections W) (type : String) (k : Text)
      → key_to_save (truthy m.ui.edit_type) (trim m.ui.key_input) ≡ some (type, k)
      → ((save_key env m).0 ≡ ok tt) × ((save_key env m).1.ui.saving ≡ false)
  unfolding save_key
  save_key-saving m type k h =
      rw h (try_catch-ok (save_attempt env type k) report_save _ (λ e t. refl), refl)

  -- If the request for the key fails, the dialog stays open with the key that was typed, and shows why.
  pub save_key-failed :
      (m : Machine Connections W) (type : String) (k : Text) (e : Failure)
      → ((w : W) (s : Connections) → env.meanwhile w s ≡ s)
      → (env.call nothing (key_call type k) m.world).0 ≡ fail e
      → key_to_save (truthy m.ui.edit_type) (trim m.ui.key_input) ≡ some (type, k)
      → ((save_key env m).1.ui.edit_type ≡ m.ui.edit_type)
        × ((save_key env m).1.ui.key_input ≡ m.ui.key_input)
        × ((save_key env m).1.ui.save_error ≡ message e)
  unfolding save_key save_attempt put_key
  save_key-failed m type k e quiet failed h = rw (h, failed, quiet) (refl, refl, refl)
