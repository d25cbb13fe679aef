-- ===== src/Scan/Fuel.antt =====
-- The loop ends before its fuel does.
use rafineai_self_hosted.Prelude.{
  ℕ, zero, suc, ◌<◌, Text, Option, none, some, List, [], ◌∷◌, ◌++◌, ◌≡◌, refl, append-nil, ap,
  length, arith, sym, ◌∙◌,
}
use rafineai_self_hosted.Scan.{
  Matcher, Piece, plain, hit, first_or, find_first, plain_if, round, pieces_in, pieces, shift,
}

module _ {A : Type 0} where
  -- Every match takes something.
  abbrev pub Consumes : Matcher A → Type 0
  Consumes m = (s : Text) (a : A) (t : Text) → m s ≡ some (a, t) → length t < length s

  -- A matcher's answer leaves less than the bound.
  abbrev pub LeavesUnder : ℕ → Option (A × Text) → Type 0
  LeavesUnder n none = Unit
  LeavesUnder n (some (a, t)) = length t < n

  -- What is left after the first match is shorter.
  abbrev pub IsShorter : Text → Option (Text × A × Text) → Type 0
  IsShorter s none = Unit
  IsShorter s (some (u, a, t)) = length t < length s

  first_or-IsShorter :
      (c : ℕ) (s : Text) (o : Option (A × Text)) (later : Option (Text × A × Text))
      → ((a : A) (t : Text) → o ≡ some (a, t) → length t < length (c ∷ s))
      → IsShorter (c ∷ s) later
      → IsShorter (c ∷ s) (first_or o later)
  first_or-IsShorter c s none later h k = k
  first_or-IsShorter c s (some (a, t)) later h k = h a t refl

  shift-IsShorter :
      (c : ℕ) (s : Text) (o : Option (Text × A × Text))
      → IsShorter s o
      → IsShorter (c ∷ s) (shift c o)
  shift-IsShorter c s none h = tt
  shift-IsShorter c s (some (u, a, t)) h = omega (arith, h)

  find_first-IsShorter : (m : Matcher A) → Consumes m → (s : Text) → IsShorter s (find_first m s)
  unfolding find_first
  find_first-IsShorter m eats [] = tt
  find_first-IsShorter m eats (c ∷ s) =
      first_or-IsShorter c s (m (c ∷ s)) _ (eats (c ∷ s))
        (shift-IsShorter c s (find_first m s) (find_first-IsShorter m eats s))

  round-later :
      (s : Text) (f g : Text → List (Piece A)) (o : Option (Text × A × Text))
      → IsShorter s o
      → ((t : Text) → length t < length s → f t ≡ g t)
      → round s f o ≡ round s g o
  round-later s f g none short same = refl
  round-later s f g (some (u, a, t)) short same =
      ap (λ (ps : List (Piece A)). plain_if u (hit a ∷ ps)) (same t short)

  -- With more fuel than code units the pieces do not depend on the fuel: the loop has ended by itself.
  pub pieces_in-fuel :
      (m : Matcher A)
      → Consumes m
      → (f g : ℕ) (s : Text) → length s < f
      → length s < g
      → pieces_in f m s ≡ pieces_in g m s
  unfolding pieces_in
  pieces_in-fuel m eats zero g s p q = absurd (omega arith)
  pieces_in-fuel m eats (suc f) zero s p q = absurd (omega arith)
  pieces_in-fuel m eats (suc f) (suc g) s p q =
      round-later s (pieces_in f m) (pieces_in g m) (find_first m s) (find_first-IsShorter m eats s)
        (λ t short. pieces_in-fuel m eats f g t (omega arith) (omega arith))

  -- The loop as a recursion without fuel.
  pub pieces_lem :
      (m : Matcher A) → Consumes m → (s : Text) → pieces m s ≡ round s (pieces m) (find_first m s)
  unfolding pieces pieces_in
  pieces_lem m eats s =
      round-later s (pieces_in (length s) m) (pieces m) (find_first m s)
        (find_first-IsShorter m eats s)
        (λ t short. pieces_in-fuel m eats (length s) (suc (length t)) t short (omega arith))

  -- Where the groups tell what was matched, the pieces put together are the text.
  module _ (m : Matcher A) (raw : A → Text) where
    abbrev pub source : List (Piece A) → Text
    source [] = []
    source (plain u ∷ ps) = u ++ source ps
    source (hit a ∷ ps) = raw a ++ source ps

    abbrev IsSplit : Text → Option (Text × A × Text) → Type 0
    IsSplit s none = Unit
    IsSplit s (some (u, a, t)) = s ≡ u ++ (raw a ++ t)

    source-plain_if : (u : Text) (ps : List (Piece A)) → source (plain_if u ps) ≡ u ++ source ps
    source-plain_if [] ps = refl
    source-plain_if (c ∷ u) ps = refl

    module _ (reads : (s : Text) (a : A) (t : Text) → m s ≡ some (a, t) → s ≡ raw a ++ t) where
      first_or-IsSplit :
          (c : ℕ) (s : Text) (o : Option (A × Text)) (later : Option (Text × A × Text))
          → ((a : A) (t : Text) → o ≡ some (a, t) → c ∷ s ≡ raw a ++ t)
          → IsSplit s later
          → IsSplit (c ∷ s) (first_or o (shift c later))
      first_or-IsSplit c s none none h k = tt
      first_or-IsSplit c s none (some (u, a, t)) h k = ap (λ (l : Text). c ∷ l) k
      first_or-IsSplit c s (some (a, t)) later h k = h a t refl

      find_first-IsSplit : (s : Text) → IsSplit s (find_first m s)
      unfolding find_first
      find_first-IsSplit [] = tt
      find_first-IsSplit (c ∷ s) =
          first_or-IsSplit c s (m (c ∷ s)) (find_first m s) (reads (c ∷ s)) (find_first-IsSplit s)

      source-round :
          (s : Text) (later : Text → List (Piece A)) (o : Option (Text × A × Text))
          → IsSplit s o
          → IsShorter s o
          → ((t : Text) → length t < length s → source (later t) ≡ t)
          → source (round s later o) ≡ s
      source-round s later none split short ih = source-plain_if s [] ∙ append-nil s
      source-round s later (some (u, a, t)) split short ih =
          source-plain_if u (hit a ∷ later t)
          ∙ ap (λ (l : Text). u ++ (raw a ++ l)) (ih t short)
          ∙ sym split

      source-pieces_in :
          (fuel : ℕ) (s : Text) → Consumes m → length s < fuel → source (pieces_in fuel m s) ≡ s
      unfolding pieces_in
      source-pieces_in zero s eats p = absurd (omega arith)
      source-pieces_in (suc fuel) s eats p =
          source-round s (pieces_in fuel m) (find_first m s) (find_first-IsSplit s)
            (find_first-IsShorter m eats s) (λ t short. source-pieces_in fuel t eats (omega arith))

      -- Nothing of the text is lost, and nothing is added.
      pub source-pieces : (s : Text) → Consumes m → source (pieces m s) ≡ s
      unfolding pieces
      source-pieces s eats = source-pieces_in (suc (length s)) s eats (omega arith)
