-- ===== src/Tools/Slack/View.antt =====
-- What the Slack page shows: the channels, and the messages with the box for a new one.
use rafineai_self_hosted.Prelude.{
  String, Text, trim, Bool, true, false, not, ◌&&◌, Option, none, some, List, map, filter, is_empty,
  if◌then◌else◌,
}
use rafineai_self_hosted.ToolTypes.{Channel, Msg}
use rafineai_self_hosted.Tools.Slack.{Slack, is_open}
use Prim.Native.String

pub record Row : Type 0 where
  pub name : String
  pub is_active : Bool
  pub can_unfollow : Bool

unfoldable pub rows : (is_admin : Bool) → Slack → List Row
unfolding is_open
rows is_admin s =
    map
      (λ (c : Channel). record {
        name = c.name;
        is_active = is_open c.id s.active;
        can_unfollow = is_admin;
      })
      s.followed

abbrev is_followed : Option Bool → Bool
is_followed none = false
is_followed (some b) = b

-- channels.filter((c) => !c.followed)
unfoldable pub to_follow : Slack → List Channel
to_follow s = filter (λ (c : Channel). not (is_followed c.followed)) s.channels

-- What an admin sees below the followed channels: the button, or the channels to follow.
pub data Adding : Type 0 where
  hidden button : Adding
  channels : List Channel → Adding

unfoldable pub adding : Bool → Slack → Adding
unfolding to_follow
adding is_admin s =
    if is_admin then (if s.show_all then channels (to_follow s) else button) else hidden

abbrev header_of : Option Channel → String
header_of none = "Bir kanal seçin"
header_of (some c) = String.◌++◌ "# " c.name

unfoldable pub header : Slack → String
header s = header_of s.active

unfoldable pub lines : Slack → List (String × String)
lines s = map (λ (m : Msg). (m.user, m.text)) s.msgs

abbrev is_some : Option Channel → Bool
is_some none = false
is_some (some c) = true

-- The line "Mesaj yok."
unfoldable pub has_no_messages : Slack → Bool
has_no_messages s = is_some s.active && is_empty s.msgs

-- The box: its placeholder, and whether the button is disabled.
abbrev box_of : Text → Option Channel → Option (String × Bool)
box_of input none = none
box_of input (some c) =
    some (String.◌++◌ "# " (String.◌++◌ c.name " kanalına yaz…"), is_empty (trim input))

unfoldable pub box : Slack → Option (String × Bool)
box s = box_of s.input s.active
