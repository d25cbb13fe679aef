-- ===== src/Pages/Knowledge/Keys.antt =====
-- The Enter key of the question.
use rafineai_self_hosted.Prelude.{true, false, arith, ◌≡◌, if◌then◌else◌}
use rafineai_self_hosted.Exec.{skip}
use rafineai_self_hosted.Page.{Machine, Env}
use rafineai_self_hosted.Pages.Knowledge.{Knowledge, ask}
use rafineai_self_hosted.Pages.Knowledge.View.{asks, ask_disabled, question_key}

-- Enter without Shift does what a click on the button does: nothing where the button is disabled, and
-- else it asks.
pub question_key-ask :
    {W : Type 0} (env : Env Knowledge W) (m : Machine Knowledge W)
    → question_key env true false m ≡ (if ask_disabled m.ui then skip m else ask env m)
unfolding question_key asks ask_disabled ask
question_key-ask env m = ground arith
