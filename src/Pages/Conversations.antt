-- ===== src/Pages/Conversations.antt =====
-- panel/app/(dash)/conversations/page.tsx. `toLowerCase` is the parameter `lower`.
pub mod View
use rafineai_self_hosted.Prelude.{
  ℕ, String, Text, contains, Bool, ◌||◌, Option, none, some, List, any, filter, find, is_empty,
  ◌===◌, if◌then◌else◌,
}
use rafineai_self_hosted.Exec.{Failure, message, Exec, Done, try_catch, ◌>>=◌, ◌>>◌, detach, skip}
use rafineai_self_hosted.Client.{truthy}
use rafineai_self_hosted.Page.{Machine, set_ui, ◌/+◌}

pub record ConvoRow : Type 0 where
  pub id : String
  pub user_id : String
  pub user_email : Text
  pub model : String
  pub title : Text
  pub updated_at : String

pub record MsgRow : Type 0 where
  pub id : String
  pub role : String
  pub content : Text
  pub tokens : ℕ
  pub created_at : String

pub record Conversations : Type 0 where
  pub convos : List ConvoRow
  pub active_id : Option String
  pub messages : List MsgRow
  pub search : Text
  pub error : String

abbrev pub report : {W : Type 0} → Failure → Exec (Machine Conversations W) Done
report e = set_ui (λ s. record s { error = message e })

-- The sidebar: every row for an empty search, else those whose title or mail has the text.
unfoldable pub filtered : (Text → Text) → Conversations → List ConvoRow
filtered lower s =
    filter
      (λ (c : ConvoRow).
        is_empty s.search
        || contains (lower s.search) (lower c.title)
        || contains (lower s.search) (lower c.user_email))
      s.convos

abbrev is_id : Option String → ConvoRow → Bool
is_id none c = Bool.false
is_id (some id) c = c.id === id

unfoldable pub active : Conversations → Option ConvoRow
active s = find (is_id s.active_id) s.convos

-- The two requests of the page: the messages of a conversation, and the rows.
module _ {W : Type 0} (get_messages : String → Exec (Machine Conversations W) (List MsgRow))
    (get_rows : String → Exec (Machine Conversations W) (List ConvoRow)) where
  -- open(id)
  unfoldable pub open_row : String → Exec (Machine Conversations W) Done
  open_row id = do
    set_ui (λ s. record s { active_id = some id; error = "" })
    try_catch
        (do
          ms ← get_messages ("/api/admin/conversations/" /+ id /+ "/messages")
          set_ui (λ s. record s { messages = ms }))
        report

  abbrev open_if : Option String → List ConvoRow → Exec (Machine Conversations W) Done
  open_if none rows = skip
  open_if (some id) rows =
      if any (λ (r : ConvoRow). r.id === id) rows then detach (open_row id) else skip

  -- The effect of the first render, with the page's `?convId=…`.
  unfoldable pub mount : Option String → Exec (Machine Conversations W) Done
  unfolding open_row
  mount conv_id =
      try_catch
        (do
          rows ← get_rows "/api/admin/conversations"
          set_ui (λ s. record s { convos = rows })
          open_if (truthy conv_id) rows)
        report
