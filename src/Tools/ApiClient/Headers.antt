-- ===== src/Tools/ApiClient/Headers.antt =====
-- The headers of a saved request, shown as text and read back.
use rafineai_self_hosted.Prelude.{
  ℕ, Text, trim, false, some, List, [], ◌∷◌, ◌++◌, map, ◌≡◌, refl, ap, ◌∙◌, any, is_empty, All,
  arith, text_eq, split_on, IsFree, split_on-join, append_assoc, append-nil, sym,
}
use rafineai_self_hosted.ToolTypes.{Saved}
use rafineai_self_hosted.Tools.ApiClient.{
  ApiClient, cut, assign, add_line, add_lines, parse_headers, line_of, headers_text_of, load_saved,
}

abbrev pub IsHeader : Text × Text → Type 0
IsHeader (k, v) =
    (is_empty k ≡ false)
    × IsFree 58 k
    × (trim k ≡ k)
    × (trim (32 ∷ v) ≡ v)
    × IsFree 10 (line_of (k, v))

-- No name of the second list occurs earlier, in it or in the first.
abbrev IsFresh : Text → List (Text × Text) → Type 0
IsFresh k h = any (λ (e : Text × Text). text_eq e.0 k) h ≡ false

abbrev pub AreFresh : List (Text × Text) → List (Text × Text) → Type 0
AreFresh h [] = Unit
AreFresh h ((k, v) ∷ t) = IsFresh k h × AreFresh (h ++ (k, v) ∷ []) t

cut-append : (c : ℕ) (k r : Text) → IsFree c k → cut c (k ++ c ∷ r) ≡ some (k, r)
unfolding cut
cut-append c [] r h = ground arith
cut-append c (x ∷ k) r h = ground (arith, cut-append c k r)

assign-fresh : (k v : Text) (h : List (Text × Text)) → IsFresh k h → assign k v h ≡ h ++ (k, v) ∷ []
unfolding assign
assign-fresh k v [] fresh = refl
assign-fresh k v ((j, u) ∷ h) fresh = ground (arith, assign-fresh k v h)

add_line-fresh :
    (k v : Text) (h : List (Text × Text))
    → IsHeader (k, v)
    → IsFresh k h
    → add_line (line_of (k, v)) h ≡ h ++ (k, v) ∷ []
unfolding add_line
add_line-fresh k v h ok fresh =
    rw (cut-append 58 k (32 ∷ v) ok.1, ok.0, ok.2, ok.3) (assign-fresh k v h fresh)

add_lines-fresh :
    (h t : List (Text × Text))
    → All IsHeader t
    → AreFresh h t
    → add_lines (map line_of t) h ≡ h ++ t
unfolding add_lines
add_lines-fresh h [] ok fresh = sym (append-nil h)
add_lines-fresh h ((k, v) ∷ t) ok fresh =
    ap (add_lines (map line_of t)) (add_line-fresh k v h ok.0 fresh.0)
    ∙ (add_lines-fresh (h ++ (k, v) ∷ []) t ok.1 fresh.1 ∙ append_assoc h ((k, v) ∷ []) t)

lines-IsFree : (h : List (Text × Text)) → All IsHeader h → All (IsFree 10) (map line_of h)
lines-IsFree [] ok = tt
lines-IsFree ((k, v) ∷ h) ok = (ok.0.4, lines-IsFree h ok.1)

split-headers :
    (e : Text × Text) (h : List (Text × Text))
    → All IsHeader (e ∷ h)
    → split_on 10 (headers_text_of (e ∷ h)) ≡ map line_of (e ∷ h)
unfolding headers_text_of
split-headers e h ok = split_on-join 10 (line_of e) (map line_of h) (lines-IsFree (e ∷ h) ok)

parsed :
    (h : List (Text × Text))
    → All IsHeader h
    → AreFresh [] h
    → parse_headers (headers_text_of h) ≡ h
unfolding parse_headers headers_text_of
parsed [] p q = refl
parsed (e ∷ h) p q =
    ap (λ ls. add_lines ls []) (split-headers e h p) ∙ add_lines-fresh [] (e ∷ h) p q

-- Loading a saved request and parsing its text of headers gives the saved headers again, where each
-- name is not empty, has no colon and no surrounding space, each value has no surrounding space,
-- neither has a line break, and no name occurs twice.
pub load_saved-parse_headers :
    (r : Saved) (s : ApiClient)
    → All IsHeader r.headers
    → AreFresh [] r.headers
    → parse_headers (load_saved r s).headers_text ≡ r.headers
unfolding load_saved
load_saved-parse_headers r s ok fresh = parsed r.headers ok fresh
