-- ===== src/Chat/Content/Metadata.antt =====
-- The metadata of the attachments is found where `send` puts it: at the end.
use rafineai_self_hosted.Prelude.{
  ℕ, Text, text, strip_prefix-append, text_eq, text_eq_refl, text_eq_sound, length, length-append,
  Bool-cases, inl, inr, Bool, true, false, not, ◌&&◌, Option, none, some, List, [], ◌∷◌, ◌++◌,
  IsFree, All, ◌==◌, ◌≡◌, refl, ap, sym, ◌∙◌, append-nil, arith,
}
use rafineai_self_hosted.Scan.{find_first, first_or, shift}
use rafineai_self_hosted.Scan.First.{prepend, prepend-nil, prepend-cons}
use rafineai_self_hosted.Chat.Content.{
  document_block, meta_open, meta_close, before_end, meta_group, meta_after, meta_at,
}
use rafineai_self_hosted.Chat.Content.Stripping.{
  blocks, IsPlain, document_block-append, IsFree-newlines,
}

-- `<!`, with which a comment starts, is not in the text.
abbrev heads : ℕ → Text → Bool
heads d [] = false
heads d (c ∷ s) = c == d

unfoldable pub no_comment : Text → Bool
no_comment [] = true
no_comment (c ∷ s) = not (c == 60 && heads 33 s) && no_comment s

-- The metadata, or nothing.
abbrev End : Option Text → Text
unfolding text
End none = []
End (some t) = meta_open ++ t

meta_at-quiet :
    (c : ℕ) (u : Text) (o : Option Text)
    → no_comment (c ∷ u) ≡ true
    → meta_at (c ∷ (u ++ End o)) ≡ none
unfolding meta_at no_comment End text
meta_at-quiet c [] none h = ground arith
meta_at-quiet c [] (some t) h = ground arith
meta_at-quiet c (d ∷ []) none h = ground arith
meta_at-quiet c (d ∷ []) (some t) h = ground arith
meta_at-quiet c (d ∷ e ∷ []) none h = ground arith
meta_at-quiet c (d ∷ e ∷ []) (some t) h = ground arith
meta_at-quiet c (d ∷ e ∷ f ∷ u) o h = ground arith

no_comment-tail : (c : ℕ) (u : Text) → no_comment (c ∷ u) ≡ true → no_comment u ≡ true
unfolding no_comment
no_comment-tail c u h = ground arith

find_meta :
    (u : Text) (o : Option Text)
    → no_comment u ≡ true
    → find_first meta_at (u ++ End o) ≡ prepend u (find_first meta_at (End o))
unfolding find_first
find_meta [] o h = prepend-nil _
find_meta (c ∷ u) o h =
    rw (meta_at-quiet c u o h, find_meta u o (no_comment-tail c u h), prepend-cons c u) refl

longer : (p v : Text) (c : ℕ) → text_eq p (c ∷ (v ++ p)) ≡ false
longer p v c = elim (Bool-cases (text_eq p (c ∷ (v ++ p)))) [
  | inl e ↦
      absurd (omega (arith, ap length (text_eq_sound p (c ∷ (v ++ p)) e), length-append {0} v p))
  | inr e ↦ e
]

before_end-append : (u p : Text) → before_end p (u ++ p) ≡ some u
unfolding before_end
before_end-append [] [] = refl
before_end-append [] (c ∷ p) = rw (text_eq_refl (c ∷ p)) refl
before_end-append (c ∷ u) p = rw (longer p u c, before_end-append u p) refl

meta_at-open :
    (inner : Text)
    → meta_at (meta_open ++ (91 ∷ (inner ++ (93 ∷ meta_close)))) ≡ some (91 ∷ inner ++ 93 ∷ [], [])
unfolding meta_at meta_after text
meta_at-open inner =
    ap meta_after (strip_prefix-append (meta_open ++ 91 ∷ []) (inner ++ (93 ∷ meta_close)))
    ∙ ap meta_group (before_end-append inner (93 ∷ meta_close))

-- After a text without a comment the group is what stands in the metadata.
pub find_meta-some :
    (u inner : Text)
    → no_comment u ≡ true
    → find_first meta_at (u ++ (meta_open ++ (91 ∷ (inner ++ (93 ∷ meta_close)))))
      ≡ some (u, 91 ∷ inner ++ 93 ∷ [], [])
unfolding find_first End text
find_meta-some u inner h =
    find_meta u (some (91 ∷ (inner ++ (93 ∷ meta_close)))) h
    ∙ ap
        (λ o. prepend u (
          first_or o (
            shift 10 (
              find_first meta_at
                (10 ∷ text "<!--rafine-attachments:" ++ (91 ∷ (inner ++ (93 ∷ meta_close))))))))
        (meta_at-open inner)
    ∙ ap (λ v. some (v, 91 ∷ inner ++ 93 ∷ [], [])) (append-nil u)

pub find_meta-none : (u : Text) → no_comment u ≡ true → find_first meta_at u ≡ none
unfolding find_first End
find_meta-none u h = ap (find_first meta_at) (sym (append-nil u)) ∙ find_meta u none h

-- The text and the blocks hold no comment.
no_comment-append : (u v : Text) → IsFree 60 u → no_comment v ≡ true → no_comment (u ++ v) ≡ true
unfolding no_comment
no_comment-append [] v h k = k
no_comment-append (c ∷ u) v h k = ground (arith, no_comment-append u v)

no_comment-block :
    (name body after : Text)
    → IsFree 60 name
    → IsFree 60 body
    → no_comment after ≡ true
    → no_comment (document_block name body ++ after) ≡ true
unfolding no_comment text
no_comment-block name body after h k l =
    ap no_comment (document_block-append name body after)
    ∙ no_comment-append name _ h (
        no_comment-append (10 ∷ body ++ 10 ∷ []) (text "</document>" ++ after)
          (IsFree-newlines body k) l)

no_comment-blocks : (ds : List (Text × Text)) → All IsPlain ds → no_comment (blocks ds) ≡ true
unfolding no_comment
no_comment-blocks [] h = refl
no_comment-blocks ((name, body) ∷ ds) h =
    no_comment-block name body (blocks ds) (h.0.2) (h.0.1) (no_comment-blocks ds h.1)

pub no_comment-message :
    (input : Text) (ds : List (Text × Text))
    → IsFree 60 input
    → All IsPlain ds
    → no_comment (input ++ blocks ds) ≡ true
no_comment-message input ds h k = no_comment-append input (blocks ds) h (no_comment-blocks ds k)
