-- ===== src/Stream/Tests.antt =====
-- The reader at concrete streams.
use rafineai_self_hosted.Prelude.{
  Text, text, text_eq, trim, strip_prefix, true, false, Option, some, List, [], ◌∷◌, ◌++◌, ◌≡◌,
  refl, arith,
}
use rafineai_self_hosted.Stream.{
  Chunk, delta, split_events, split_lines, data_line, start, run_events, event_action, pump,
  read_all,
}
use rafineai_self_hosted.Stream.Chunks.{concat, deliveries, read_all_lem}
use rafineai_self_hosted.Stream.Frames.{body, read_all-body}

-- Every payload is JSON for its own text; one that starts with "!" carries an error.
abbrev parse_any : Text → Option Chunk
parse_any [] = some (record { piece = []; has_error = false })
parse_any p = some (record { piece = p; has_error = false })

stream : Unit {0}
unfolding text trim text_eq strip_prefix split_events split_lines data_line event_action run_events
    pump read_all
stream = tt

abbrev cut_stream : List Text
cut_stream =
    text "data: Mer"
    ∷ (text "haba" ++ 10 ∷ [])
    ∷ (10 ∷ text ": keep-alive")
    ∷ (10 ∷ 10 ∷ [])
    ∷ (text "data: [DONE]" ++ 10 ∷ 10 ∷ [])
    ∷ []

cut_stream_out : (read_all parse_any true start cut_stream).out ≡ delta (text "Merhaba") ∷ []
unfolding stream
cut_stream_out = refl

read_all_lem_example :
    ((read_all parse_any true start cut_stream).out
      ≡ (deliveries parse_any true (concat cut_stream)).0)
    × ((read_all parse_any true start cut_stream).finished
        ≡ (deliveries parse_any true (concat cut_stream)).1)
read_all_lem_example = read_all_lem parse_any true cut_stream

abbrev hello : List (Text × Chunk)
hello = (text "Merhaba", record { piece = text "Merhaba"; has_error = false }) ∷ []

abbrev hello_chunks : List Text
hello_chunks =
    text "data: Mer" ∷ (text "haba" ++ 10 ∷ 10 ∷ text "data: [DONE]") ∷ (10 ∷ 10 ∷ []) ∷ []

read_all-body_example :
    ((read_all parse_any true start hello_chunks).out ≡ delta (text "Merhaba") ∷ [])
    × ((read_all parse_any true start hello_chunks).finished ≡ true)
unfolding stream body
read_all-body_example =
    read_all-body parse_any true hello hello_chunks
      (record { line = omega arith; trimmed = refl; not_done = refl; parsed = refl }, tt) refl
