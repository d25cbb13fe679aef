-- ===== src/Tools/Slack/Channels.antt =====
-- Opening a channel.
use rafineai_self_hosted.Prelude.{some, List, [], ◌≡◌, refl, inl, inr}
use rafineai_self_hosted.Exec.{message, Outcome, ok, fail}
use rafineai_self_hosted.ToolTypes.{Channel, Msg}
use rafineai_self_hosted.Page.{list, msg, get, Machine, Env}
use rafineai_self_hosted.Page.Quiet.{IsQuiet, Outcome-cases}
use rafineai_self_hosted.Tools.Slack.{Slack, read_channel, open_channel}
use Prim.Native.String

-- The page with a channel's messages, or with none and the reason.
abbrev pub opened : Channel → Outcome (List Msg) → Slack → Slack
opened c (ok ms) s = record s { active = some c; error = ""; msgs = ms }
opened c (fail e) s = record s { active = some c; error = message e; msgs = [] }

-- Where nothing else runs meanwhile, opening a channel never throws, and the page then shows that
-- channel with its own messages, or with none and the error: never another channel's messages.
pub open_channel-opened :
    {W : Type 0} (env : Env Slack W) (c : Channel) (m : Machine Slack W)
    → IsQuiet env
    → ((open_channel env c m).0 ≡ ok tt)
      × ((open_channel env c m).1.ui
          ≡ opened c
              (env.call
                (list msg)
                (get (String.◌++◌ "/api/tools/slack/messages?channel=" c.id))
                m.world).0
              m.ui)
unfolding open_channel read_channel
open_channel-opened env c m quiet =
    elim (Outcome-cases
      (env.call (list msg) (get (String.◌++◌ "/api/tools/slack/messages?channel=" c.id))
        m.world).0) [
          | inl (a, h) ↦ rw (h, quiet) (refl, refl)
          | inr (e, h) ↦ rw (h, quiet) (refl, refl)
        ]
