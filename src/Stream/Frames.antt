-- ===== src/Stream/Frames.antt =====
-- The reader on the stream that the server writes: one "data: " frame for each payload, then
-- the frame of the end mark (as api/app/routers/conversations.py and the gateway send it).
use rafineai_self_hosted.Prelude.{
  ℕ, Text, text, text_eq, trim, strip_prefix, Bool, true, false, Option, some, List, [], ◌∷◌, ◌++◌,
  ◌≡◌, ◌≢◌, refl, ap, ◌∙◌, map, All, arith, inl, inr, Bool-cases,
}
use rafineai_self_hosted.Stream.{
  Split, push, blank_line, split_events, split_lines, data_line, Chunk, Delivery, delta, error,
  chunk_action, Action, finish, deliver, event_action, run_events, start, read_all,
}
use rafineai_self_hosted.Stream.Events.{split_events-blank, split_events-char}
use rafineai_self_hosted.Stream.Chunks.{concat, deliveries, read_all_lem}

-- A text within one line.
abbrev pub IsLine : Text → Type 0
IsLine = All (λ c. c ≢ 10)

not-blank_line : (c d : ℕ) → c ≢ 10 → blank_line c d ≡ false
not-blank_line c d h = ground arith

-- A line that a blank line ends is the next event.
pub split_events-line :
    (l t : Text)
    → IsLine l
    → split_events (l ++ 10 ∷ 10 ∷ t)
      ≡ record { events = l ∷ (split_events t).events; rest = (split_events t).rest }
split_events-line [] t h = split_events-blank 10 10 t refl
split_events-line (c ∷ []) t (h, _) =
    split_events-char c 10 (10 ∷ t) (not-blank_line c 10 h)
    ∙ ap (push c) (split_events-line [] t tt)
split_events-line (c ∷ d ∷ l) t (h, hs) =
    split_events-char c d (l ++ 10 ∷ 10 ∷ t) (not-blank_line c d h)
    ∙ ap (push c) (split_events-line (d ∷ l) t hs)

pub split_lines-line : (l : Text) → IsLine l → split_lines l ≡ l ∷ []
unfolding split_lines
split_lines-line [] h = refl
split_lines-line (c ∷ l) (h, hs) = ground (arith, split_lines-line l hs)

abbrev pub data_frame : Text → Text
data_frame p = text "data: " ++ p

-- The body for a list of payloads.
unfoldable pub body : List Text → Text
body [] = data_frame (text "[DONE]") ++ 10 ∷ 10 ∷ []
body (p ∷ ps) = data_frame p ++ 10 ∷ 10 ∷ body ps

data_line-frame : (p : Text) → data_line (data_frame p ∷ []) ≡ some (32 ∷ p)
unfolding data_line text strip_prefix
data_line-frame p = refl

trim-space : (p : Text) → trim (32 ∷ p) ≡ trim p
unfolding trim
trim-space p = refl

IsLine-frame : (p : Text) → IsLine p → IsLine (data_frame p)
unfolding text
IsLine-frame p h =
    (omega arith, (omega arith, (omega arith, (omega arith, (omega arith, (omega arith, h))))))

IsLine-done : IsLine (text "[DONE]")
unfolding text
IsLine-done = omega arith

module _ (parse_chunk : Text → Option Chunk) (has_on_error : Bool) where
  -- A payload as the server writes it: one line, no space at its ends, and JSON for the chunk `c`.
  pub record IsPayload (p : Text) (c : Chunk) : Type 0 where
    pub line : IsLine p
    pub trimmed : trim p ≡ p
    pub not_done : text_eq p (text "[DONE]") ≡ false
    pub parsed : parse_chunk p ≡ some c

  event_action-frame :
      (p : Text) (c : Chunk)
      → IsPayload p c
      → event_action parse_chunk has_on_error (data_frame p)
        ≡ chunk_action parse_chunk has_on_error (some c)
  unfolding event_action
  event_action-frame p c h = rw (
    split_lines-line (data_frame p) (IsLine-frame p h.line),
    data_line-frame p,
    trim-space p,
    h.trimmed,
    h.not_done,
    h.parsed,
  )

  event_action-done : event_action parse_chunk has_on_error (data_frame (text "[DONE]")) ≡ finish
  unfolding event_action data_line text strip_prefix trim split_lines text_eq
  event_action-done = refl

  -- The deliveries for the chunks that the payloads hold.
  abbrev pub deliver_action : Action → List Delivery → List Delivery
  deliver_action (deliver d) ds = d ∷ ds
  deliver_action _ ds = ds

  -- The callback that a piece is given to: none if it is empty, `onError` for an error if the caller
  -- has one, and else `onDelta`.
  abbrev pub callback : (piece : Text) (has_error on_error : Bool) → List Delivery
  callback [] e o = []
  callback (x ∷ p) true true = error (x ∷ p) ∷ []
  callback (x ∷ p) true false = delta (x ∷ p) ∷ []
  callback (x ∷ p) false o = delta (x ∷ p) ∷ []

  abbrev pub expected : List (Text × Chunk) → List Delivery
  expected [] = []
  expected ((p, c) ∷ ps) = callback c.piece c.has_error has_on_error ++ expected ps

  deliver-callback :
      (p : Text) (e : Bool) (ds : List Delivery)
      → deliver_action
          (chunk_action parse_chunk has_on_error (some (record { piece = p; has_error = e })))
          ds
        ≡ callback p e has_on_error ++ ds
  deliver-callback [] e ds = refl
  deliver-callback (x ∷ p) false ds = refl
  deliver-callback (x ∷ p) true ds = elim (Bool-cases has_on_error) [
    | inl h ↦ rw h refl
    | inr h ↦ rw h refl
  ]

  deliveries-frame :
      (p t : Text)
      → IsLine p
      → deliveries parse_chunk has_on_error (data_frame p ++ 10 ∷ 10 ∷ t)
        ≡ run_events parse_chunk has_on_error (data_frame p ∷ (split_events t).events)
  unfolding deliveries
  deliveries-frame p t h =
      ap (λ s. run_events parse_chunk has_on_error (Split.events s))
        (split_events-line (data_frame p) t (IsLine-frame p h))

  run_events-chunk :
      (e : Text) (es : List Text) (c : Chunk)
      → event_action parse_chunk has_on_error e ≡ chunk_action parse_chunk has_on_error (some c)
      → run_events parse_chunk has_on_error (e ∷ es) ≡ (
        deliver_action
            (chunk_action parse_chunk has_on_error (some c))
            (run_events parse_chunk has_on_error es).0,
        (run_events parse_chunk has_on_error es).1,
      )
  unfolding run_events
  run_events-chunk e es c h = ground arith

  run_events-finish :
      (e : Text) (es : List Text)
      → event_action parse_chunk has_on_error e ≡ finish
      → run_events parse_chunk has_on_error (e ∷ es) ≡ ([], true)
  unfolding run_events
  run_events-finish e es h = ground arith

  deliveries-body :
      (ps : List (Text × Chunk))
      → All (λ q. IsPayload q.0 q.1) ps
      → deliveries parse_chunk has_on_error (body (map (λ q. q.0) ps)) ≡ (expected ps, true)
  unfolding body deliveries
  deliveries-body [] h =
      deliveries-frame (text "[DONE]") [] IsLine-done
      ∙ run_events-finish (data_frame (text "[DONE]")) _ event_action-done
  deliveries-body ((p, c) ∷ ps) (h, hs) =
      deliveries-frame p (body (map (λ q. q.0) ps)) h.line
      ∙ run_events-chunk (data_frame p) _ c (event_action-frame p c h)
      ∙ ap
          (λ (d : List Delivery × Bool).
            (deliver_action (chunk_action parse_chunk has_on_error (some c)) d.0, d.1))
          (deliveries-body ps hs)
      ∙ ap (λ (ds : List Delivery). (ds, true)) (deliver-callback c.piece c.has_error (expected ps))

  -- On the stream of any list of well-formed payloads, however the network cuts it, the reader makes
  -- exactly one call for each chunk with a piece, in order: `onError` for a chunk with an error if
  -- the caller has one, `onDelta` otherwise. Then it returns at the end mark.
  pub read_all-body :
      (ps : List (Text × Chunk)) (cs : List Text)
      → All (λ q. IsPayload q.0 q.1) ps
      → concat cs ≡ body (map (λ q. q.0) ps)
      → ((read_all parse_chunk has_on_error start cs).out ≡ expected ps)
        × ((read_all parse_chunk has_on_error start cs).finished ≡ true)
  read_all-body ps cs h e =
      let (outs, stops) = read_all_lem parse_chunk has_on_error cs in
      let whole = ap (deliveries parse_chunk has_on_error) e ∙ deliveries-body ps h in
      (
        outs ∙ ap (λ (d : List Delivery × Bool). d.0) whole,
        stops ∙ ap (λ (d : List Delivery × Bool). d.1) whole,
      )
