-- ===== src/Pages/Alerts/View.antt =====
-- What the alerts page shows: a card for each alert. `date` prints a date.
use rafineai_self_hosted.Prelude.{
  ℕ, String, Text, text, Bool, not, ◌&&◌, Option, none, some, List, map, includes, is_empty, length,
  take, ◌===◌, if◌then◌else◌,
}
use rafineai_self_hosted.Types.{Alert}
use rafineai_self_hosted.Client.{truthy}
use rafineai_self_hosted.Pages.Alerts.{Alerts, Piece, snippet_text, is_long, display_snippet}
use Prim.Native.String

-- ACTION_TR[a.action] ?? a.action
unfoldable pub action_label : String → String
action_label a =
    if a === "mask"
    then "Maskelendi"
    else if a === "block"
    then "Bloklandı"
    else if a === "flag"
    then "İşaretlendi"
    else a

-- SEV[a.severity]; a key that is missing prints "undefined".
unfoldable pub severity_class : String → String
severity_class v =
    if v === "high"
    then "bg-red-100 text-red-700 dark:bg-red-900/40 dark:text-red-300"
    else if v === "medium"
    then "bg-amber-100 text-amber-700 dark:bg-amber-900/40 dark:text-amber-300"
    else if v === "low"
    then "bg-slate-100 text-slate-600 dark:bg-slate-700 dark:text-slate-300"
    else "undefined"

-- The button below a long snippet: fewer, or all of the given number of characters.
pub data More : Type 0 where
  less : More
  all : ℕ → More

pub record Card : Type 0 where
  pub severity : String
  pub class : String
  pub category : String
  pub rule_name : String
  pub action : String
  pub is_resolved : Bool
  pub snippet : List Piece
  pub more : Option More
  pub date : String
  pub user : Option Text
  pub link : Option String
  pub can_resolve : Bool

-- a.user_id && ` · kullanıcı ${a.user_id.slice(0, 8)}`
abbrev user_of : Option String → Option Text
unfolding text
user_of none = none
user_of (some u) = some (take 8 (text u))

-- href={`/conversations?convId=${a.conversation_id}`}
abbrev link_of : Option String → Option String
link_of none = none
link_of (some c) = some (String.◌++◌ "/conversations?convId=" c)

module _ (date : String → String) where
  unfoldable pub card_of : List String → Alert → Card
  unfolding action_label severity_class snippet_text display_snippet is_long user_of
  card_of expanded a = record {
    severity = a.severity;
    class = severity_class a.severity;
    category = a.category;
    rule_name = a.rule_name;
    action = action_label a.action;
    is_resolved = a.resolved;
    snippet = snippet_text (display_snippet expanded a);
    more =
        if is_long a
        then some (if includes a.id expanded then less else all (length a.snippet))
        else none;
    date = date a.created_at;
    user = user_of (truthy a.user_id);
    link = link_of (truthy a.conversation_id);
    can_resolve = not a.resolved;
  }

  unfoldable pub cards : Alerts → List Card
  unfolding card_of
  cards s = map (card_of s.expanded) s.alerts

-- The card "Açık uyarı yok."
unfoldable pub is_clear : Alerts → Bool
is_clear s = is_empty s.alerts && s.error === ""
