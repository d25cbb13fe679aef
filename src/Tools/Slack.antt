-- ===== src/Tools/Slack.antt =====
-- panel/app/(dash)/tools/slack/page.tsx. The scrolling to the last message is left out.
pub mod Channels
pub mod View
use rafineai_self_hosted.Prelude.{
  String, Text, trim, Bool, Option, none, some, List, [], ◌∷◌, is_empty, ◌===◌, ◌||◌, if◌then◌else◌,
}
use rafineai_self_hosted.Exec.{Failure, message, Exec, Done, captured, try_catch, ◌>>=◌, ◌>>◌, skip}
use rafineai_self_hosted.Json.{str, words, object}
use rafineai_self_hosted.ToolTypes.{Channel, Msg}
use rafineai_self_hosted.Page.{
  list, channel, msg, get, post, delete, ◌/+◌, Machine, Env, set_ui, load, request,
}
use Prim.Native.String

pub record Slack : Type 0 where
  pub channels : List Channel
  pub followed : List Channel
  pub active : Option Channel
  pub msgs : List Msg
  pub input : Text
  pub error : String
  pub show_all : Bool

abbrev pub report : {W : Type 0} → Failure → Exec (Machine Slack W) Done
report e = set_ui (λ s. record s { error = message e })

abbrev pub no_messages : {W : Type 0} → Failure → Exec (Machine Slack W) Done
no_messages e = set_ui (λ s. record s { error = message e; msgs = [] })

-- active?.id === id
unfoldable pub is_open : String → Option Channel → Bool
is_open id none = Bool.false
is_open id (some c) = c.id === id

-- if (active?.id === c.id) setActive(null), of the active channel the handler started with
unfoldable pub close_if : String → Slack → Slack → Slack
unfolding is_open
close_if id before s = if is_open id before.active then record s { active = none } else s

abbrev no_channel : Option Channel → Bool
no_channel none = Bool.true
no_channel (some c) = Bool.false

module _ {W : Type 0} (env : Env Slack W) where
  unfoldable pub refresh_followed : Exec (Machine Slack W) Done
  unfolding load
  refresh_followed =
      load env (list channel) (get "/api/tools/slack/followed") (λ cs s. record s { followed = cs })

  unfoldable pub mount : Exec (Machine Slack W) Done
  unfolding refresh_followed
  mount = try_catch refresh_followed report

  unfoldable pub load_all : Exec (Machine Slack W) Done
  unfolding load
  load_all = do
    set_ui (λ s. record s { show_all = Bool.true })
    try_catch
        (load env (list channel) (get "/api/tools/slack/channels")
          (λ cs s. record s { channels = cs }))
        report

  unfoldable pub read_channel : Channel → Exec (Machine Slack W) Done
  unfolding load
  read_channel c =
      load env (list msg) (get (String.◌++◌ "/api/tools/slack/messages?channel=" c.id))
        (λ ms s. record s { msgs = ms })

  unfoldable pub open_channel : Channel → Exec (Machine Slack W) Done
  open_channel c = do
    set_ui (λ s. record s { active = some c; error = "" })
    try_catch (read_channel c) no_messages

  unfoldable pub follow : Channel → Exec (Machine Slack W) Done
  unfolding request refresh_followed load_all
  follow c = do
    request env
        (post "/api/tools/slack/follow" (object (("id", str c.id) ∷ ("name", str c.name) ∷ [])))
    refresh_followed
    load_all

  unfoldable pub unfollow : Channel → Exec (Machine Slack W) Done
  unfolding request refresh_followed load_all close_if
  unfollow c = captured λ m. do
    request env (delete ("/api/tools/slack/follow/" /+ c.id))
    refresh_followed
    if m.ui.show_all then load_all else skip
    set_ui (close_if c.id m.ui)

  unfoldable pub send_attempt : Channel → Text → Exec (Machine Slack W) Done
  unfolding request open_channel
  send_attempt c t = do
    request env
        (post "/api/tools/slack/send" (object (("channel", str c.id) ∷ ("text", words t) ∷ [])))
    open_channel c

  abbrev send_to : Option Channel → Text → Exec (Machine Slack W) Done
  send_to none t = skip
  send_to (some c) t = do set_ui (λ s. record s { input = [] }); try_catch (send_attempt c t) report

  unfoldable pub send : Exec (Machine Slack W) Done
  send = captured λ m.
      if no_channel m.ui.active || is_empty (trim m.ui.input)
      then skip
      else send_to m.ui.active (trim m.ui.input)
