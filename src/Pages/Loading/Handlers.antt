-- ===== src/Pages/Loading/Handlers.antt =====
-- The handlers of Pages/Loading: each is its two halves around its request, whatever runs meanwhile.
use rafineai_self_hosted.Prelude.{String, Text, Bool, List, ◌≡◌, arith}
use rafineai_self_hosted.Exec.{Exec}
use rafineai_self_hosted.Json.{Json}
use rafineai_self_hosted.Types.{Team}
use rafineai_self_hosted.ToolTypes.{Channel, Repo}
use rafineai_self_hosted.Page.{
  list, msg, issue, team_member, entry, alert, message as message_shape, get, ◌/+◌, Machine, Env,
  await_api,
}
use rafineai_self_hosted.Chat.{Chat}
use rafineai_self_hosted.Chat.Actions.{open_conversation}
use rafineai_self_hosted.Pages.Alerts.{Alerts, alerts_path, refresh, mount, set_only_open}
use rafineai_self_hosted.Tools.Slack.{Slack, read_channel, open_channel}
use rafineai_self_hosted.Tools.Sentry.{Sentry, open_project}
use rafineai_self_hosted.Tools.Github.{Github, repo_call, read_folder, open_repo}
use rafineai_self_hosted.Pages.Teams.{Teams, open_team}
use rafineai_self_hosted.Pages.Conversations.{ConvoRow, MsgRow, Conversations, open_row}
use rafineai_self_hosted.Pages.Loading.{
  channel_loader, project_loader, folder_loader, team_loader, conversation_loader, chat_loader,
  alert_loader, loaded,
}
use Prim.Native.String

-- Whatever other handlers do while it awaits the messages, and whether they come or the request fails,
-- openChannel leaves the page that the two halves of `channel_loader` make: the first before the
-- request, the second with its answer, on what the others have made of the page by then.
pub open_channel-loaded :
    {W : Type 0} (env : Env Slack W) (c : Channel) (m : Machine Slack W)
    → (open_channel env c m).1.ui
      ≡ loaded
          (list msg)
          channel_loader
          env
          (get (String.◌++◌ "/api/tools/slack/messages?channel=" c.id))
          c
          m
unfolding open_channel read_channel
open_channel-loaded env c m = ground arith

pub open_project-loaded :
    {W : Type 0} (env : Env Sentry W) (p : String) (m : Machine Sentry W)
    → (open_project env p m).1.ui
      ≡ loaded
          (list issue)
          project_loader
          env
          (get (String.◌++◌ "/api/tools/sentry/issues?project=" p))
          p
          m
unfolding open_project
open_project-loaded env p m = ground arith

pub open_repo-loaded :
    (encode part : Text → String) {W : Type 0} (env : Env Github W) (r : Repo) (p : Text)
    (m : Machine Github W)
    → (open_repo encode part env r p m).1.ui
      ≡ loaded (list entry) folder_loader env (repo_call encode part r "tree" p) (r, p) m
unfolding open_repo read_folder
open_repo-loaded encode part env r p m = ground arith

pub open_team-loaded :
    (to_number : String → Json) {W : Type 0} (env : Env Teams W) (t : Team) (m : Machine Teams W)
    → (open_team to_number env t m).1.ui
      ≡ loaded (list team_member) team_loader env (get ("/api/teams/" /+ t.id /+ "/members")) t m
unfolding open_team
open_team-loaded to_number env t m = ground arith

pub open_row-loaded :
    {W : Type 0} (get_messages : String → Exec (Machine Conversations W) (List MsgRow))
    (get_rows : String → Exec (Machine Conversations W) (List ConvoRow)) (id : String)
    (m : Machine Conversations W)
    → (open_row get_messages get_rows id m).1.ui ≡ (
        let (o, n) =
          get_messages
            ("/api/admin/conversations/" /+ id /+ "/messages")
            (record m { ui = conversation_loader.begin id m.ui }) in
        conversation_loader.finish id o n.ui)
unfolding open_row
open_row-loaded get_messages get_rows id m = ground arith

pub set_only_open-loaded :
    {W : Type 0} (env : Env Alerts W) (b : Bool) (m : Machine Alerts W)
    → (set_only_open env b m).1.ui ≡ loaded (list alert) alert_loader env (get (alerts_path b)) b m
unfolding set_only_open mount refresh
set_only_open-loaded env b m = ground arith

pub open_conversation-loaded :
    {W : Type 0} (env : Env Chat W) (id : String) (m : Machine Chat W)
    → (open_conversation env id m).1.ui
      ≡ loaded
          (list message_shape)
          (chat_loader m.ui.conversations)
          env
          (get ("/api/conversations/" /+ id /+ "/messages"))
          id
          m
unfolding open_conversation await_api
open_conversation-loaded env id m = ground arith
