-- ===== src/Pages/Loading/Tests.antt =====
-- A channel of the Slack page, two teams clicked one after the other, and a team whose members are not given.
use rafineai_self_hosted.Prelude.{ℕ, zero, suc, Bool, none, some, List, [], ◌∷◌, ◌≡◌, refl}
use rafineai_self_hosted.Exec.{api_error, Outcome, ok, fail}
use rafineai_self_hosted.Json.{str}
use rafineai_self_hosted.Types.{Team}
use rafineai_self_hosted.ToolTypes.{Channel, Msg}
use rafineai_self_hosted.Page.{list, msg, team_member, get, Shape, Payload, Env}
use rafineai_self_hosted.Page.Samples.{server, at_rest as machine}
use rafineai_self_hosted.Page.Loading.{at_rest, Step}
use rafineai_self_hosted.Tools.Slack.{Slack, open_channel}
use rafineai_self_hosted.Pages.Teams.{Teams, open_team}
use rafineai_self_hosted.Pages.Teams.View.{panel}
use rafineai_self_hosted.Pages.Teams.Crossed.{
  panel_of, one_clicked, both_clicked, second_answered, first_answered, crossed, open_team-stale,
}
use rafineai_self_hosted.Pages.Loading.{team_loader, channel_loader, loaded}
use rafineai_self_hosted.Pages.Loading.Handlers.{open_channel-loaded}

abbrev general : Channel
general = record { id = "C1"; name = "general"; followed = none }

abbrev random : Channel
random = record { id = "C2"; name = "random"; followed = none }

abbrev hello : List Msg
hello = record { ts = "1"; user = "ada"; text = "hello" } ∷ []

abbrev bye : List Msg
bye = record { ts = "2"; user = "bob"; text = "bye" } ∷ []

abbrev page : Slack
page = record {
  channels = [];
  followed = general ∷ random ∷ [];
  active = none;
  msgs = [];
  input = [];
  error = "";
  show_all = Bool.false;
}

open_channel-loaded_example :
    (open_channel server general (machine page)).1.ui
    ≡ loaded
        (list msg)
        channel_loader
        server
        (get "/api/tools/slack/messages?channel=C1")
        general
        (machine page)
open_channel-loaded_example = open_channel-loaded server general (machine page)

abbrev platform : Team
platform = record {
  id = "t1";
  name = "Platform";
  description = "";
  rate_limit_rpm = none;
  daily_token_quota = none;
  member_count = 2;
  provider_ids = [];
  created_at = "";
}

abbrev teams : Teams
teams = record {
  teams = platform ∷ [];
  providers = [];
  users = [];
  error = "";
  selected = none;
  members = record { user_id = "u9"; email = "old@example.com"; role_in_team = "member" } ∷ [];
  show_create = Bool.false;
  name = [];
  desc = [];
  rpm = "";
  quota = "";
  provider_ids = [];
}

abbrev sales : Team
sales = record {
  id = "t2";
  name = "Sales";
  description = "";
  rate_limit_rpm = none;
  daily_token_quota = none;
  member_count = 0;
  provider_ids = [];
  created_at = "";
}

crossed_example :
    Step team_loader (at_rest teams) (one_clicked teams platform teams.members)
    × Step team_loader
        (one_clicked teams platform teams.members)
        (both_clicked teams platform sales teams.members [])
    × Step team_loader
        (both_clicked teams platform sales teams.members [])
        (second_answered teams platform sales teams.members [])
    × Step team_loader
        (second_answered teams platform sales teams.members [])
        (first_answered teams platform sales teams.members [])
    × ((both_clicked teams platform sales teams.members []).awaited
        ≡ (platform, ok teams.members) ∷ (sales, ok []) ∷ [])
    × (panel (second_answered teams platform sales teams.members []).ui
        ≡ some (panel_of sales [] []))
    × ((first_answered teams platform sales teams.members []).ui.selected ≡ some sales)
    × (panel (first_answered teams platform sales teams.members []).ui
        ≡ some (panel_of sales teams.members []))
crossed_example = crossed teams platform sales teams.members []

-- The server gives the members at its first answer, and is out of order then.
abbrev members_once : (t : Shape) → ℕ → Outcome (Payload t)
members_once (list team_member) zero = ok teams.members
members_once t w = fail (api_error 503 "down")

abbrev failing : Env Teams ℕ
failing = record { call = λ t q w. (members_once t w, suc w); meanwhile = λ w s. s }

open_team-stale_example :
    let n = (open_team str failing platform (machine teams)).1 in
    ((open_team str failing sales n).0 ≡ fail (api_error 503 "down"))
    × ((open_team str failing sales n).1.ui.error ≡ "")
    × (panel (open_team str failing sales n).1.ui ≡ some (panel_of sales teams.members []))
unfolding open_team
open_team-stale_example =
    open_team-stale str failing platform sales teams.members (api_error 503 "down") (machine teams)
      (λ w s. refl) refl refl
