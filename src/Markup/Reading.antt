-- ===== src/Markup/Reading.antt =====
-- The marks of a line, and the loops of both regular expressions.
use rafineai_self_hosted.Prelude.{
  ℕ, ◌+◌, ◌<◌, Text, text, strip_prefix, strip_prefix-eq_some, Bool, Option, none, some, List, [],
  ◌∷◌, ◌++◌, map, length, length-append, ◌≡◌, refl, ap, sym, ◌∙◌, append_assoc, arith, Option-cases,
  inl, inr,
}
use mathlib.Core.Path.{subst}
use rafineai_self_hosted.Scan.{Piece, plain, hit, span, pieces}
use rafineai_self_hosted.Scan.Fuel.{Consumes, source, source-pieces}
use rafineai_self_hosted.Markup.{
  Inline, words, inline_code, strong, link, closed, run_after, code_at, strong_at, in_href,
  href_after, href_at, link_label, link_after, either, link_at, mark_at, node_of, render_inline,
}

pub span-append : (test : ℕ → Bool) (s : Text) → (span test s).0 ++ (span test s).1 ≡ s
unfolding span
span-append test [] = refl
span-append test (c ∷ s) = ground (arith, span-append test s)

-- The marks of a node, put back.
abbrev pub written : Inline → Text
written (words t) = t
written (inline_code t) = 96 ∷ t ++ 96 ∷ []
written (strong t) = 42 ∷ 42 ∷ t ++ 42 ∷ 42 ∷ []
written (link label href) = 91 ∷ label ++ 93 ∷ 40 ∷ href ++ 41 ∷ []

abbrev pub written_all : List Inline → Text
written_all [] = []
written_all (n ∷ ns) = written n ++ written_all ns

-- What a matcher's answer says of the text.
abbrev Read : Text → Option (Inline × Text) → Type 0
Read s none = Unit
Read s (some (n, t)) = (s ≡ written n ++ t) × (1 < length (written n))

closed-Read :
    (opening close : Text) (node : Text → Inline) (r : Text × Text)
    → ((run : Text) → written (node run) ≡ opening ++ (run ++ close))
    → 1 < length opening + length close
    → Read (opening ++ (r.0 ++ r.1)) (closed close node r)
unfolding closed
closed-Read opening close node ([], rest) h p = tt
closed-Read opening close node (c ∷ run, rest) h p = elim (Option-cases (strip_prefix close rest)) [
  | inl e ↦ rw (e, Read) tt
  | inr (t, e) ↦
      rw (e, Read)
        (let tail : rest ≡ close ++ t = strip_prefix-eq_some close rest e in
          (
            rw (h (c ∷ run), tail) (simp append_assoc),
            rw (h (c ∷ run)) (
                omega (
                  arith,
                  length-append {0} opening (c ∷ run ++ close),
                  length-append {0} (c ∷ run) close,
                )),
          ))
]

run_after-Read :
    (test : ℕ → Bool) (opening close : Text) (node : Text → Inline) (s : Text)
    → ((run : Text) → written (node run) ≡ opening ++ (run ++ close))
    → 1 < length opening + length close
    → Read s (run_after test close node (strip_prefix opening s))
unfolding run_after
run_after-Read test opening close node s h p = elim (Option-cases (strip_prefix opening s)) [
  | inl e ↦ rw (e, Read) tt
  | inr (t, e) ↦ rw e (
      subst (λ (u : Text). Read u (closed close node (span test t)))
        (ap (λ (v : Text). opening ++ v) (span-append test t)
          ∙ sym (strip_prefix-eq_some opening s e))
        (closed-Read opening close node (span test t) h p))
]

code_at-Read : (s : Text) → Read s (code_at s)
unfolding code_at
code_at-Read s = run_after-Read _ (96 ∷ []) (96 ∷ []) inline_code s (λ run. refl) (omega arith)

strong_at-Read : (s : Text) → Read s (strong_at s)
unfolding strong_at
strong_at-Read s =
    run_after-Read _ (42 ∷ 42 ∷ []) (42 ∷ 42 ∷ []) strong s (λ run. refl) (omega arith)

-- The text of a link up to its href.
abbrev label_part : Text → Text
label_part label = 91 ∷ label ++ 93 ∷ 40 ∷ []

written-link :
    (label scheme run : Text)
    → written (link label (scheme ++ run)) ≡ (label_part label ++ scheme) ++ (run ++ 41 ∷ [])
written-link label scheme run = simp append_assoc

href_after-Read : (scheme label t : Text) → Read (label_part label ++ t) (href_after scheme label t)
unfolding href_after
href_after-Read scheme label t = elim (Option-cases (strip_prefix scheme t)) [
  | inl e ↦ rw (e, Read) tt
  | inr (u, e) ↦ rw e (
      subst
        (λ (v : Text).
          Read v (closed (41 ∷ []) (λ run. link label (scheme ++ run)) (span in_href u)))
        (ap (λ (v : Text). (label_part label ++ scheme) ++ v) (span-append in_href u)
          ∙ append_assoc (label_part label) scheme u
          ∙ ap (λ (v : Text). label_part label ++ v) (sym (strip_prefix-eq_some scheme t e)))
        (closed-Read (label_part label ++ scheme) (41 ∷ []) (λ run. link label (scheme ++ run))
          (span in_href u) (written-link label scheme)
          (omega (arith, length-append {0} (label_part label) scheme))))
]

either-Read : (s : Text) (o p : Option (Inline × Text)) → Read s o → Read s p → Read s (either o p)
either-Read s none p h k = k
either-Read s (some r) p h k = h

href_at-Read :
    (label : Text) (rest : Text) (o : Option Text)
    → strip_prefix (93 ∷ 40 ∷ []) rest ≡ o
    → Read (91 ∷ label ++ rest) (href_at label o)
unfolding href_at
href_at-Read label rest none e = tt
href_at-Read label rest (some t) e =
    subst (λ (v : Text). Read v (href_at label (some t)))
      (append_assoc (91 ∷ label) (93 ∷ 40 ∷ []) t
        ∙ ap (λ (v : Text). 91 ∷ label ++ v) (sym (strip_prefix-eq_some (93 ∷ 40 ∷ []) rest e)))
      (either-Read _ _ _ (href_after-Read (text "https://") label t)
        (href_after-Read (text "http://") label t))

link_label-Read : (r : Text × Text) → Read (91 ∷ r.0 ++ r.1) (link_label r)
unfolding link_label
link_label-Read ([], rest) = tt
link_label-Read (c ∷ label, rest) = href_at-Read (c ∷ label) rest _ refl

link_after-Read :
    (s : Text) (o : Option Text) → strip_prefix (91 ∷ []) s ≡ o → Read s (link_after o)
unfolding link_after
link_after-Read s none e = tt
link_after-Read s (some t) e =
    subst (λ (v : Text). Read v (link_after (some t)))
      (ap (λ (v : Text). 91 ∷ v) (span-append _ t) ∙ sym (strip_prefix-eq_some (91 ∷ []) s e))
      (link_label-Read (span _ t))

mark_at-Read : (s : Text) → Read s (mark_at s)
unfolding mark_at link_at
mark_at-Read s =
    either-Read s (code_at s) _ (code_at-Read s)
      (either-Read s (strong_at s) (link_at s) (strong_at-Read s) (link_after-Read s _ refl))

mark_at-reads :
    (s : Text) (n : Inline) (t : Text)
    → mark_at s ≡ some (n, t)
    → (s ≡ written n ++ t) × (1 < length (written n))
mark_at-reads s n t e = subst (Read s) e (mark_at-Read s)

pub mark_at-Consumes : Consumes mark_at
mark_at-Consumes s n t e =
    let r = mark_at-reads s n t e in
    omega (arith, ap length r.0, r.1, length-append {0} (written n) t)

written-pieces :
    (ps : List (Piece Inline)) → written_all (map node_of ps) ≡ source mark_at written ps
written-pieces [] = refl
written-pieces (plain u ∷ ps) = ap (λ (v : Text). u ++ v) (written-pieces ps)
written-pieces (hit n ∷ ps) = ap (λ (v : Text). written n ++ v) (written-pieces ps)

-- Marking up a line loses nothing: its nodes, with their marks put back, are the line.
pub written_all-render_inline : (t : Text) → written_all (render_inline t) ≡ t
unfolding render_inline
written_all-render_inline t =
    written-pieces (pieces mark_at t)
    ∙ source-pieces mark_at written (λ s n u e. (mark_at-reads s n u e).0) t mark_at-Consumes
