-- ===== src/Stream/Chunks.antt =====
-- What the reader delivers does not depend on how the response is cut into chunks.
use mathlib.Core.Path.{subst₂}
use mathlib.Core.List.{append_cancel_left}
use rafineai_self_hosted.Prelude.{
  Text, Bool, true, false, Option, List, [], ◌∷◌, ◌++◌, ◌≡◌, refl, sym, ap, ◌∙◌, arith, append-nil,
  append_assoc,
}
use rafineai_self_hosted.Stream.{
  Split, split_events, Delivery, Chunk, run_events, Reader, start, pump, read_all,
}
use rafineai_self_hosted.Stream.Events.{resume, split_events-append}

abbrev pub concat : List Text → Text
concat [] = []
concat (c ∷ cs) = c ++ concat cs

-- Running two lists of events, the second only if the first does not return.
abbrev andthen : List Delivery × Bool → List Delivery × Bool → List Delivery × Bool
andthen (ds, true) b = (ds, true)
andthen (ds, false) (es, stop) = (ds ++ es, stop)

-- What is left over holds no complete event.
rest-events : (x : Text) → (split_events (split_events x).rest).events ≡ []
rest-events x =
    let s = split_events x in
    let t = split_events s.rest in
    let whole : s ≡ resume s [] = ap split_events (sym (append-nil x)) ∙ split_events-append x [] in
    let here : s.events ++ t.events ≡ s.events ++ [] =
      ap (λ u. s.events ++ (split_events u).events) (sym (append-nil s.rest))
      ∙ ap Split.events (sym whole)
      ∙ sym (append-nil s.events) in
    append_cancel_left _ _ _ here

module _ (parse_chunk : Text → Option Chunk) (has_on_error : Bool) where
  -- The specification: the whole body, cut at its blank lines, its events run in order.
  unfoldable pub deliveries : Text → List Delivery × Bool
  deliveries body = run_events parse_chunk has_on_error (split_events body).events

  run_events-append :
      (es fs : List Text)
      → run_events parse_chunk has_on_error (es ++ fs)
        ≡ andthen (run_events parse_chunk has_on_error es) (run_events parse_chunk has_on_error fs)
  unfolding run_events
  run_events-append [] fs = ground arith
  run_events-append (e ∷ es) fs = ground (arith, run_events-append es fs)

  pub deliveries-append :
      (x y : Text)
      → deliveries (x ++ y) ≡ andthen (deliveries x) (deliveries ((split_events x).rest ++ y))
  unfolding deliveries
  deliveries-append x y =
      ap (λ s. run_events parse_chunk has_on_error (Split.events s)) (split_events-append x y)
      ∙ run_events-append (split_events x).events _

  abbrev Agrees : Reader → List Delivery → List Delivery × Bool → Type 0
  Agrees r before d = (r.out ≡ before ++ d.0) × (r.finished ≡ d.1)

  abbrev after : Reader → Text → List Delivery → Bool → Reader
  after r rest ds stop = record { buffer = rest; finished = stop; out = r.out ++ ds }

  pump-finished :
      (r : Reader) (c : Text) → r.finished ≡ true → pump parse_chunk has_on_error r c ≡ r
  unfolding pump
  pump-finished r c h = simp h

  pump-live :
      (r : Reader) (c : Text)
      → r.finished ≡ false
      → pump parse_chunk has_on_error r c
        ≡ after r
            (split_events (r.buffer ++ c)).rest
            (deliveries (r.buffer ++ c)).0
            (deliveries (r.buffer ++ c)).1
  unfolding pump deliveries
  pump-live r c h = simp h

  read_all-finished :
      (r : Reader) (cs : List Text) → r.finished ≡ true → read_all parse_chunk has_on_error r cs ≡ r
  unfolding read_all
  read_all-finished r [] h = refl
  read_all-finished r (c ∷ cs) h = rw (pump-finished r c h) (read_all-finished r cs h)

  read_all-after :
      (r : Reader) (cs : List Text) (rest : Text) (d : List Delivery × Bool)
      → (d.1 ≡ false
          → Agrees
              (read_all parse_chunk has_on_error (after r rest d.0 d.1) cs)
              (r.out ++ d.0)
              (deliveries (rest ++ concat cs)))
      → Agrees
          (read_all parse_chunk has_on_error (after r rest d.0 d.1) cs)
          r.out
          (andthen d (deliveries (rest ++ concat cs)))
  read_all-after r cs rest (ds, true) ih =
      rw (read_all-finished (after r rest ds true) cs refl) (refl, refl)
  read_all-after r cs rest (ds, false) ih =
      let (outs, stops) = ih refl in (outs ∙ append_assoc r.out ds _, stops)

  -- From any point of the loop: what comes is what the specification says of the buffer and the rest.
  pub read_all-Agrees :
      (r : Reader) (cs : List Text)
      → r.finished ≡ false
      → (split_events r.buffer).events ≡ []
      → Agrees (read_all parse_chunk has_on_error r cs) r.out (deliveries (r.buffer ++ concat cs))
  unfolding read_all
  read_all-Agrees r [] live h =
      rw (append-nil r.buffer) (unfold deliveries run_events in rw h (sym (append-nil r.out), live))
  read_all-Agrees r (c ∷ cs) live h =
      let b = r.buffer ++ c in
      let whole : deliveries (r.buffer ++ (c ++ concat cs))
          ≡ andthen (deliveries b) (deliveries ((split_events b).rest ++ concat cs)) =
        ap deliveries (sym (append_assoc r.buffer c (concat cs)))
        ∙ deliveries-append b (concat cs) in
      subst₂ (λ q d. Agrees (read_all parse_chunk has_on_error q cs) r.out d)
        (sym (pump-live r c live)) (sym whole)
        (read_all-after r cs (split_events b).rest (deliveries b) (λ more.
          read_all-Agrees (after r (split_events b).rest (deliveries b).0 (deliveries b).1) cs more
            (rest-events b)))

  -- However the response is cut into chunks, the reader has delivered what the specification says of
  -- the whole body, in order, and has returned early exactly where it says so.
  pub read_all_lem :
      (cs : List Text)
      → ((read_all parse_chunk has_on_error start cs).out ≡ (deliveries (concat cs)).0)
        × ((read_all parse_chunk has_on_error start cs).finished ≡ (deliveries (concat cs)).1)
  read_all_lem cs = read_all-Agrees start cs refl (unfold split_events in refl)
