-- ===== src/Page/Loading.antt =====
-- Pages that show the contents of the row that was clicked: a click writes the choice and asks the
-- server, and the answer, whenever it comes, writes the contents. These are the two halves of
-- openChannel of panel/app/(dash)/tools/slack, openProject of tools/sentry, openRepo of tools/github,
-- openTeam of teams, open of conversations, openConversation of chat and the filter of alerts, all in
-- panel/app/(dash); Pages/Loading has them.
pub mod Order
use rafineai_self_hosted.Prelude.{Option, none, some, List, [], ◌∷◌, ◌++◌, ◌≡◌}
use rafineai_self_hosted.Exec.{Outcome, ok}

-- The setters of a handler before its request and after it, the row that is chosen, and the contents
-- that are shown.
pub record Loader (S K R : Type 0) : Type 0 where
  pub begin : K → S → S
  pub finish : K → Outcome R → S → S
  pub chosen : S → Option K
  pub shown : S → R
  pub settle : Outcome R → R → R
  pub begin_chosen : (k : K) (s : S) → chosen (begin k s) ≡ some k
  pub begin_shown : (k : K) (s : S) → shown (begin k s) ≡ shown s
  pub finish_chosen : (k : K) (o : Outcome R) (s : S) → chosen (finish k o s) ≡ chosen s
  pub finish_shown : (k : K) (o : Outcome R) (s : S) → shown (finish k o s) ≡ settle o (shown s)
  pub settle_ok : (r old : R) → settle (ok r) old ≡ r

-- A page with the requests that it awaits, each with the answer that it will get, the oldest first;
-- the request made last, and the one answered last.
pub record Session (S K R : Type 0) : Type 0 where
  pub ui : S
  pub awaited : List (K × Outcome R)
  pub latest : Option (K × Outcome R)
  pub answered : Option (K × Outcome R)

module _ {S K R : Type 0} where
  abbrev pub at_rest : S → Session S K R
  at_rest s = record { ui = s; awaited = []; latest = none; answered = none }

  module _ (l : Loader S K R) where
    abbrev pub opened : K → Outcome R → Session S K R → Session S K R
    opened k o s = record {
      ui = l.begin k s.ui;
      awaited = s.awaited ++ (k, o) ∷ [];
      latest = some (k, o);
      answered = s.answered;
    }

    -- The answer to a request; the requests `rest` are awaited still.
    abbrev pub received : K → Outcome R → List (K × Outcome R) → Session S K R → Session S K R
    received k o rest s = record {
      ui = l.finish k o s.ui;
      awaited = rest;
      latest = s.latest;
      answered = some (k, o);
    }

    pub data Step : Session S K R → Session S K R → Type 0 where
      open_row : {s : Session S K R} → (k : K) (o : Outcome R) → Step s (opened k o s)
      answer :
          {s : Session S K R}
          → (es : List (K × Outcome R)) (k : K) (o : Outcome R) (fs : List (K × Outcome R))
          → s.awaited ≡ es ++ (k, o) ∷ fs
          → Step s (received k o (es ++ fs) s)
      -- another handler, which leaves the choice and the contents alone
      other :
          {s : Session S K R}
          → (f : S → S) → l.chosen (f s.ui) ≡ l.chosen s.ui
          → l.shown (f s.ui) ≡ l.shown s.ui
          → Step s (record s { ui = f s.ui })

    pub data Reach : Session S K R → Type 0 where
      start : (s : S) → Reach (at_rest s)
      next : {s t : Session S K R} → Reach s → Step s t → Reach t

    -- Runs whose answers come in the order of the requests.
    pub data InOrder : Session S K R → Type 0 where
      start : (s : S) → InOrder (at_rest s)
      open_row : {s : Session S K R} → InOrder s → (k : K) (o : Outcome R) → InOrder (opened k o s)
      answer :
          {s : Session S K R}
          → InOrder s
          → (k : K) (o : Outcome R) (fs : List (K × Outcome R)) → s.awaited ≡ (k, o) ∷ fs
          → InOrder (received k o fs s)
      other :
          {s : Session S K R}
          → InOrder s
          → (f : S → S) → l.chosen (f s.ui) ≡ l.chosen s.ui
          → l.shown (f s.ui) ≡ l.shown s.ui
          → InOrder (record s { ui = f s.ui })
