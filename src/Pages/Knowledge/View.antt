-- ===== src/Pages/Knowledge/View.antt =====
-- What the knowledge page shows: the documents with their boxes, the count, the answer, and the keys of
-- the question.
use rafineai_self_hosted.Prelude.{
  ℕ, String, Text, trim, Bool, false, not, ◌&&◌, ◌||◌, Option, none, some, List, map, includes,
  is_empty, length, ◌===◌, if◌then◌else◌,
}
use rafineai_self_hosted.Exec.{Exec, Done, skip}
use rafineai_self_hosted.Types.{Document}
use rafineai_self_hosted.Page.{Machine, Env}
use rafineai_self_hosted.Pages.Knowledge.{Knowledge, indexed, ask}

-- The button that indexes a document, unless it is indexed.
pub record Button : Type 0 where
  pub label : String
  pub disabled : Bool

pub record Row : Type 0 where
  pub filename : Text
  pub title : String
  pub checked : Bool
  pub disabled : Bool
  pub button : Option Button

abbrev is_id : String → Option String → Bool
is_id id none = false
is_id id (some i) = i === id

abbrev button_of : Bool → Button
button_of busy = record { label = if busy then "…" else "İndeksle"; disabled = busy }

unfoldable pub row_of : Knowledge → Document → Row
row_of s d = record {
  filename = d.filename;
  title = if d.indexed then "Soruya dahil et" else "Önce indeksleyin";
  checked = includes d.id s.selected;
  disabled = not d.indexed;
  button = if d.indexed then none else some (button_of (is_id d.id s.indexing));
}

unfoldable pub rows : Knowledge → List Row
unfolding row_of
rows s = map (row_of s) s.docs

-- The line below the list.
pub data Count : Type 0 where
  selected : ℕ → Count
  all : (indexed : ℕ) → Count

unfoldable pub count : Knowledge → Count
unfolding indexed
count s = if is_empty s.selected then all (length (indexed s)) else selected (length s.selected)

-- The part on the right: the invitation, the wait, and the answer with its sources.
unfoldable pub has_invitation : Knowledge → Bool
has_invitation s = s.answer === "" && not s.asking

unfoldable pub shown_answer : Knowledge → Option (String × List String)
shown_answer s = if s.answer === "" then none else some (s.answer, s.sources)

unfoldable pub ask_disabled : Knowledge → Bool
ask_disabled s = s.asking || is_empty (trim s.question)

-- onKeyDown: Enter without Shift asks, unless an answer is being awaited.
unfoldable pub asks : (enter shift : Bool) → Knowledge → Bool
asks enter shift s = enter && not shift && not s.asking

unfoldable pub question_key :
    {W : Type 0} → Env Knowledge W → (enter shift : Bool) → Exec (Machine Knowledge W) Done
unfolding asks ask
question_key env enter shift m = if asks enter shift m.ui then ask env m else skip m
