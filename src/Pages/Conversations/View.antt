-- ===== src/Pages/Conversations/View.antt =====
-- What the history page shows: the rows that match the search, the header, the messages. `lower` is
-- `toLowerCase`, and `date` prints a date.
use rafineai_self_hosted.Prelude.{
  ℕ, zero, suc, String, Text, text, Bool, true, false, ◌&&◌, Option, none, some, List, map,
  is_empty, ◌===◌, if◌then◌else◌,
}
use rafineai_self_hosted.Pages.Conversations.{ConvoRow, MsgRow, Conversations, filtered, active}

-- c.title || "—"
unfoldable pub title_of : ConvoRow → Text
unfolding text
title_of c = if is_empty c.title then text "—" else c.title

pub record Item : Type 0 where
  pub title : Text
  pub email : Text
  pub model : String
  pub date : String
  pub is_active : Bool

abbrev is_id : String → Option String → Bool
is_id id none = false
is_id id (some a) = a === id

module _ (lower : Text → Text) (date : String → String) where
  unfoldable pub item_of : Option String → ConvoRow → Item
  unfolding title_of
  item_of active_id c = record {
    title = title_of c;
    email = c.user_email;
    model = c.model;
    date = date c.updated_at;
    is_active = is_id c.id active_id;
  }

  unfoldable pub items : Conversations → List Item
  unfolding item_of filtered
  items s = map (item_of s.active_id) (filtered lower s)

  -- The line "Konuşma bulunamadı."
  unfoldable pub is_bare : Conversations → Bool
  unfolding filtered
  is_bare s = is_empty (filtered lower s)

-- The title, the mail and the model, or the hint to choose.
unfoldable pub header : Conversations → Option (Text × Text × String)
unfolding active title_of
header s = elim (active s) [ none ↦ none | some c ↦ some (title_of c, c.user_email, c.model) ]

unfoldable pub has_hint : Conversations → Bool
unfolding active
has_hint s = (elim (active s) [ none ↦ true | some c ↦ false ]) && s.error === ""

pub record Bubble : Type 0 where
  pub on_right : Bool
  pub content : Text
  pub tokens : Option ℕ

abbrev tokens_of : ℕ → Option ℕ
tokens_of zero = none
tokens_of (suc n) = some (suc n)

unfoldable pub bubble_of : MsgRow → Bubble
bubble_of m = record {
  on_right = m.role === "user";
  content = m.content;
  tokens = tokens_of m.tokens;
}

unfoldable pub bubbles : Conversations → List Bubble
unfolding bubble_of
bubbles s = map bubble_of s.messages
