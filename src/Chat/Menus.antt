-- ===== src/Chat/Menus.antt =====
-- The menu of the sources, the lines of the errors, and the focus of the tab.
use rafineai_self_hosted.Prelude.{
  String, Text, Option, none, some, List, map, is_empty, ◌===◌, if◌then◌else◌,
}
use rafineai_self_hosted.Exec.{Exec, Done, detach}
use rafineai_self_hosted.Types.{Source}
use rafineai_self_hosted.Page.{Machine, Env}
use rafineai_self_hosted.Chat.{Chat}
use rafineai_self_hosted.Chat.Actions.{load_providers}

-- The icons and the names of the sources, while the menu is open.
unfoldable pub source_menu : Chat → Option (List (String × String))
source_menu s =
    if is_empty s.ctx_sources
    then none
    else if s.ctx_menu_open
    then some (map (λ (t : Source). (t.icon, t.name)) s.ctx_sources)
    else none

unfoldable pub error_line : Chat → Option String
error_line s = if s.error === "" then none else some s.error

-- An empty text of the toast is not shown.
abbrev unless_empty : Option Text → Option Text
unless_empty none = none
unless_empty (some t) = if is_empty t then none else some t

unfoldable pub toast_line : Chat → Option Text
toast_line s = unless_empty s.toast

-- setToast(null)
unfoldable pub close_toast : Chat → Chat
close_toast s = record s { toast = none }

-- onFocus: the user may have added a key on another page.
unfoldable pub on_focus : {W : Type 0} → Env Chat W → Exec (Machine Chat W) Done
unfolding load_providers
on_focus env = detach (load_providers env)
