-- ===== src/Pages/Policy/Masking.antt =====
-- The switch for masking the model's answers.
use rafineai_self_hosted.Prelude.{Bool}
use rafineai_self_hosted.Exec.{message, Outcome, ok, fail}
use rafineai_self_hosted.Page.{nothing, Payload, Env}
use rafineai_self_hosted.Pages.Policy.{Policy}

module _ {W : Type 0} (env : Env Policy W) where
  -- What the answer to a switch from the value `old` makes of the page.
  abbrev pub answered : Bool → Outcome (Payload nothing) → Policy → Policy
  answered old (ok _) s = s
  answered old (fail e) s = record s { mask_responses = old; error = message e }
