-- ===== src/Pages/Loading.antt =====
-- The pages of Page/Loading: openChannel of panel/app/(dash)/tools/slack/page.tsx, openProject of
-- tools/sentry, openRepo of tools/github, openTeam of teams, open of conversations, openConversation of
-- chat and the filter of alerts, each as the setters before its request and those after it.
pub mod Handlers
pub mod Tests
use rafineai_self_hosted.Prelude.{
  find, ◌===◌, String, Text, Bool, true, false, Option, none, some, List, [], ◌≡◌, refl, arith,
}
use rafineai_self_hosted.Page.Quiet.{IsQuiet}
use rafineai_self_hosted.Exec.{Failure, message, Outcome, ok, fail, Exec}
use rafineai_self_hosted.Json.{Json}
use rafineai_self_hosted.Types.{Team, TeamMember, Conversation, Message, Alert}
use rafineai_self_hosted.ToolTypes.{Channel, Msg, Issue, Repo, Entry}
use rafineai_self_hosted.Page.{
  list, msg, issue, team_member, entry, Shape, Payload, Call, get, ◌/+◌, Machine, Env,
}
use rafineai_self_hosted.Page.Loading.{Loader}
use rafineai_self_hosted.Client.{truthy}
use rafineai_self_hosted.Chat.{Chat}
use rafineai_self_hosted.Chat.Actions.{select, sync_provider}
use rafineai_self_hosted.Pages.Alerts.{Alerts}
use rafineai_self_hosted.Tools.Slack.{Slack, read_channel, open_channel}
use rafineai_self_hosted.Tools.Sentry.{Sentry, open_project}
use rafineai_self_hosted.Tools.Github.{Github, repo_call, read_folder, open_repo}
use rafineai_self_hosted.Pages.Teams.{Teams, open_team}
use rafineai_self_hosted.Pages.Conversations.{ConvoRow, MsgRow, Conversations, open_row}
use Prim.Native.String

-- Contents after an answer: a failure clears them, or leaves them.
abbrev pub or_empty : {A : Type 0} → Outcome (List A) → List A → List A
or_empty (ok xs) old = xs
or_empty (fail e) old = []

abbrev pub or_old : {A : Type 0} → Outcome A → A → A
or_old (ok x) old = x
or_old (fail e) old = old

abbrev error_or : {A : Type 0} → Outcome A → String → String
error_or (ok x) old = old
error_or (fail e) old = message e

abbrev pub channel_loader : Loader Slack Channel (List Msg)
channel_loader = record {
  begin = λ c s. record s { active = some c; error = "" };
  finish = λ k o s. record s { msgs = or_empty o s.msgs; error = error_or o s.error };
  chosen = λ s. s.active;
  shown = λ s. s.msgs;
  settle = or_empty;
  begin_chosen = λ c s. refl;
  begin_shown = λ c s. refl;
  finish_chosen = λ k o s. refl;
  finish_shown = λ k o s. refl;
  settle_ok = λ r old. refl;
}

abbrev pub project_loader : Loader Sentry String (List Issue)
project_loader = record {
  begin = λ p s. record s { active = p; error = "" };
  finish = λ k o s. record s { issues = or_empty o s.issues; error = error_or o s.error };
  chosen = λ s. some s.active;
  shown = λ s. s.issues;
  settle = or_empty;
  begin_chosen = λ c s. refl;
  begin_shown = λ c s. refl;
  finish_chosen = λ k o s. refl;
  finish_shown = λ k o s. refl;
  settle_ok = λ r old. refl;
}

abbrev folder : Text → Option Repo → Option (Repo × Text)
folder p none = none
folder p (some r) = some (r, p)

abbrev pub folder_loader : Loader Github (Repo × Text) (List Entry)
folder_loader = record {
  begin =
      λ k s. record s { repo = some (k.0); path = k.1; file = none; error = ""; loading = true };
  finish = λ k o s. record s {
    entries = or_old o s.entries;
    error = error_or o s.error;
    loading = false;
  };
  chosen = λ s. folder s.path s.repo;
  shown = λ s. s.entries;
  settle = or_old;
  begin_chosen = λ k s. refl;
  begin_shown = λ k s. refl;
  finish_chosen = λ k o s. refl;
  finish_shown = λ k o s. refl;
  settle_ok = λ r old. refl;
}

-- openTeam catches nothing: a failure is thrown, and nothing is written.
abbrev pub team_loader : Loader Teams Team (List TeamMember)
team_loader = record {
  begin = λ t s. record s { selected = some t };
  finish = λ k o s. record s { members = or_old o s.members };
  chosen = λ s. s.selected;
  shown = λ s. s.members;
  settle = or_old;
  begin_chosen = λ t s. refl;
  begin_shown = λ t s. refl;
  finish_chosen = λ k o s. refl;
  finish_shown = λ k o s. refl;
  settle_ok = λ r old. refl;
}

abbrev pub conversation_loader : Loader Conversations String (List MsgRow)
conversation_loader = record {
  begin = λ id s. record s { active_id = some id; error = "" };
  finish = λ k o s. record s { messages = or_old o s.messages; error = error_or o s.error };
  chosen = λ s. s.active_id;
  shown = λ s. s.messages;
  settle = or_old;
  begin_chosen = λ id s. refl;
  begin_shown = λ id s. refl;
  finish_chosen = λ k o s. refl;
  finish_shown = λ k o s. refl;
  settle_ok = λ r old. refl;
}

-- setMessages(msgs) and the provider of the conversation; openConversation catches nothing.
abbrev pub synced : Outcome (List Message) → Option Conversation → Chat → Chat
synced (ok ms) c s = sync_provider c (record s { messages = ms })
synced (fail e) c s = s

select-chat :
    (p : Option String) (s : Chat)
    → ((select p s).active_id ≡ s.active_id) × ((select p s).messages ≡ s.messages)
select-chat none s = (refl, refl)
select-chat (some p) s = (refl, refl)

pub synced-active_id :
    (o : Outcome (List Message)) (c : Option Conversation) (s : Chat)
    → (synced o c s).active_id ≡ s.active_id
synced-active_id (ok ms) none s = refl
synced-active_id (ok ms) (some c) s =
    (select-chat (truthy c.provider_id) (record s { messages = ms })).0
synced-active_id (fail e) c s = refl

pub synced-messages :
    (o : Outcome (List Message)) (c : Option Conversation) (s : Chat)
    → (synced o c s).messages ≡ or_old o s.messages
synced-messages (ok ms) none s = refl
synced-messages (ok ms) (some c) s =
    (select-chat (truthy c.provider_id) (record s { messages = ms })).1
synced-messages (fail e) c s = refl

-- The list of conversations, `known`, is that of the handler's closure.
abbrev pub chat_loader : (known : List Conversation) → Loader Chat String (List Message)
chat_loader known = record {
  begin = λ id s. record s { active_id = some id; error = "" };
  finish = λ id o s. synced o (find (λ (c : Conversation). c.id === id) known) s;
  chosen = λ s. s.active_id;
  shown = λ s. s.messages;
  settle = or_old;
  begin_chosen = λ id s. refl;
  begin_shown = λ id s. refl;
  finish_chosen = λ id o s. synced-active_id o (find (λ (c : Conversation). c.id === id) known) s;
  finish_shown = λ id o s. synced-messages o (find (λ (c : Conversation). c.id === id) known) s;
  settle_ok = λ r old. refl;
}

-- The box "Yalnızca açık uyarılar" and the effect that it sets off.
abbrev pub alert_loader : Loader Alerts Bool (List Alert)
alert_loader = record {
  begin = λ b s. record s { only_open = b };
  finish = λ b o s. record s { alerts = or_old o s.alerts; error = error_or o s.error };
  chosen = λ s. some s.only_open;
  shown = λ s. s.alerts;
  settle = or_old;
  begin_chosen = λ b s. refl;
  begin_shown = λ b s. refl;
  finish_chosen = λ b o s. refl;
  finish_shown = λ b o s. refl;
  settle_ok = λ r old. refl;
}

-- A handler that begins, awaits the answer to `q` while others run, and finishes.
abbrev pub loaded :
    {S K W : Type 0} (t : Shape) → Loader S K (Payload t) → Env S W → Call → K → Machine S W → S
loaded t l env q k m =
    let (o, w) = env.call t q m.world in l.finish k o (env.meanwhile w (l.begin k m.ui))
