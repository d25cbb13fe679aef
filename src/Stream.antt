-- ===== src/Stream.antt =====
-- `streamChat` of panel/lib/api.ts: the loop that reads server-sent events. The TextDecoder is the
-- platform's, so a chunk is the text that it has decoded; `JSON.parse` and the look into
-- `choices[0].delta.content` of the parsed value are the parameter `parse_chunk`, `none` where
-- `JSON.parse` throws. The request that opens the stream is in Client.
pub mod Events
pub mod Chunks
pub mod Frames
pub mod Tests
use rafineai_self_hosted.Prelude.{
  ℕ, Text, text, text_eq, trim, strip_prefix, Bool, true, false, Option, none, some, List, [], ◌∷◌,
  ◌++◌, is_empty, ◌&&◌, ◌==◌, if◌then◌else◌,
}

-- The events of a buffer that "\n\n" ends, and what follows the last one (`events.pop()`).
pub record Split : Type 0 where
  pub events : List Text
  pub rest : Text

abbrev pub close : Split → Split
close s = record { events = [] ∷ s.events; rest = s.rest }

abbrev pub push_char : ℕ → List Text → Text → Split
push_char c [] r = record { events = []; rest = c ∷ r }
push_char c (e ∷ es) r = record { events = (c ∷ e) ∷ es; rest = r }

abbrev pub push : ℕ → Split → Split
push c s = push_char c s.events s.rest

abbrev pub blank_line : ℕ → ℕ → Bool
blank_line c d = c == 10 && d == 10

-- buffer.split("\n\n")
unfoldable pub split_events : Text → Split
split_events [] = record { events = []; rest = [] }
split_events (c ∷ []) = record { events = []; rest = c ∷ [] }
split_events (c ∷ d ∷ t) =
    let ended = close (split_events t) in
    let longer = push c (split_events (d ∷ t)) in if blank_line c d then ended else longer

abbrev pub push_line : ℕ → List Text → List Text
push_line c [] = (c ∷ []) ∷ []
push_line c (l ∷ ls) = (c ∷ l) ∷ ls

-- evt.split("\n")
unfoldable pub split_lines : Text → List Text
split_lines [] = [] ∷ []
split_lines (c ∷ t) = let ls = split_lines t in if c == 10 then [] ∷ ls else push_line c ls

-- `find` of the first line that starts with "data:", and its `slice`.
unfoldable pub data_line : List Text → Option Text
data_line [] = none
data_line (l ∷ ls) = elim (strip_prefix (text "data:") l) [ none ↦ data_line ls | some p ↦ some p ]

-- What `JSON.parse(payload)` gives the code: the piece of text, empty if it is missing, and whether
-- the chunk has an `error`.
pub record Chunk : Type 0 where
  pub piece : Text
  pub has_error : Bool

-- A call of `onDelta` or `onError`.
pub data Delivery : Type 0 where
  delta error : Text → Delivery

-- What one event does: nothing, a delivery, or the `return` at the end mark.
pub data Action : Type 0 where
  skip finish : Action
  deliver : Delivery → Action

pub record Reader : Type 0 where
  pub buffer : Text
  pub finished : Bool
  pub out : List Delivery

abbrev pub start : Reader
start = record { buffer = []; finished = false; out = [] }

module _ (parse_chunk : Text → Option Chunk) (has_on_error : Bool) where
  -- `onError ? onError(piece) : onDelta(piece)`, and only where there is a piece.
  abbrev pub chunk_action : Option Chunk → Action
  chunk_action none = skip
  chunk_action (some c) =
      if is_empty c.piece
      then skip
      else if c.has_error && has_on_error
      then deliver (error c.piece)
      else deliver (delta c.piece)

  abbrev pub payload_action : Text → Action
  payload_action p = if text_eq p (text "[DONE]") then finish else chunk_action (parse_chunk p)

  abbrev pub line_action : Option Text → Action
  line_action none = skip
  line_action (some l) = payload_action (trim l)

  unfoldable pub event_action : Text → Action
  event_action evt = line_action (data_line (split_lines evt))

  -- The inner loop; the result says whether it returned.
  unfoldable pub run_events : List Text → List Delivery × Bool
  run_events [] = ([], false)
  run_events (e ∷ es) =
      let (ds, stop) = run_events es in
      elim (event_action e) [ skip ↦ (ds, stop) | finish ↦ ([], true) | deliver d ↦ (d ∷ ds, stop) ]

  -- One round of the outer loop: a chunk that `reader.read()` gave.
  unfoldable pub pump : Reader → Text → Reader
  pump r chunk =
      if r.finished
      then r
      else (let s = split_events (r.buffer ++ chunk) in
          let (ds, stop) = run_events s.events in
          record { buffer = s.rest; finished = stop; out = r.out ++ ds })

  -- The loop over all the chunks of a response.
  unfoldable pub read_all : Reader → List Text → Reader
  read_all r [] = r
  read_all r (c ∷ cs) = read_all (pump r c) cs
