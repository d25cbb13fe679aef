-- ===== src/Access/Tests.antt =====
-- The gate with a session, and a change of the password.
use rafineai_self_hosted.Prelude.{text, text_eq, false, none, ◌≡◌, if◌then◌else◌}
use rafineai_self_hosted.Exec.{ok}
use rafineai_self_hosted.Page.{user, nothing}
use rafineai_self_hosted.Page.Samples.{reply, server, server-IsQuiet, at_rest, signed_in}
use rafineai_self_hosted.Access.{Layout, gate, ChangePassword, submit}
use rafineai_self_hosted.Access.Gate.{holds, gated, gate-gated, submitted, submit-submitted}

abbrev arriving : Layout
arriving = record {
  session = signed_in;
  path = text "/dashboard";
  location = "";
  ready = false;
  role = none;
  email = "";
}

gate-gated_example :
    ((gate server (at_rest arriving)).0 ≡ ok tt)
    × ((gate server (at_rest arriving)).1.ui ≡ (
        if holds signed_in.access
        then gated (reply user) arriving
        else record arriving { location = "/login" }))
gate-gated_example = gate-gated server (at_rest arriving) server-IsQuiet

abbrev renewing : ChangePassword
renewing = record {
  current = text "old-password";
  next = text "new-password";
  confirm = text "new-password";
  error = "old";
  saving = false;
  location = none;
}

submit-submitted_example :
    ((submit server (at_rest renewing)).0 ≡ ok tt)
    × ((submit server (at_rest renewing)).1.ui ≡ submitted (reply nothing) renewing)
    × ((submit server (at_rest renewing)).1.world ≡ 1)
unfolding text text_eq
submit-submitted_example = submit-submitted server (at_rest renewing) server-IsQuiet
