-- ===== src/Chat/Content/Stripping.antt =====
-- The blocks that `send` adds for the model are what `parseMessageContent` strips.
use rafineai_self_hosted.Prelude.{
  ℕ, ◌<◌, Text, text, trim, trim_start, trim_end, strip_prefix, strip_prefix-eq_some,
  strip_prefix-append, true, false, not, Option, none, some, List, [], ◌∷◌, ◌++◌, any, All, IsFree,
  length, length-append, ◌==◌, ◌≡◌, refl, ap, ◌∙◌, append_assoc, append-nil, arith, if◌then◌else◌,
  is_empty, trim-append,
}
use mathlib.Core.Path.{subst}
use rafineai_self_hosted.Scan.{
  Piece, hit, span, cut_at, pieces, find_first, first_or, shift, round, plain_if,
}
use rafineai_self_hosted.Scan.First.{
  cut_at-eq_some, cut_at-free, span-stop, find_first-free, prepend,
}
use rafineai_self_hosted.Scan.Fuel.{Consumes, LeavesUnder, pieces_lem}
use rafineai_self_hosted.Markup.Reading.{span-append}
use rafineai_self_hosted.Types.{Attachment, ToolContext}
use rafineai_self_hosted.Chat.Content.{
  document_block, attachment_block, doc_blocks, ctx_blocks, document_end, document_body,
  document_name, document_at, without_hits, strip_documents,
}

document_end-LeavesUnder :
    (t : Text) (n : ℕ) (o : Option (Text × Text))
    → cut_at (text "</document>") t ≡ o
    → length t < n
    → LeavesUnder n (document_end o)
unfolding text
document_end-LeavesUnder t n none e h = tt
document_end-LeavesUnder t n (some (u, r)) e h = omega (
  arith,
  h,
  ap length (cut_at-eq_some (text "</document>") t u r e),
  length-append {0} u (text "</document>" ++ r),
  length-append {0} (text "</document>") r,
)

document_body-LeavesUnder :
    (rest : Text) (n : ℕ) (o : Option Text)
    → strip_prefix (34 ∷ 62 ∷ []) rest ≡ o
    → length rest < n
    → LeavesUnder n (document_body o)
unfolding document_body
document_body-LeavesUnder rest n none e h = tt
document_body-LeavesUnder rest n (some t) e h =
    document_end-LeavesUnder t n _ refl
      (omega (arith, h, ap length (strip_prefix-eq_some (34 ∷ 62 ∷ []) rest e)))

document_name-LeavesUnder :
    (s : Text) (o : Option Text)
    → strip_prefix (text "<document filename=\"") s ≡ o
    → LeavesUnder (length s) (document_name o)
unfolding document_name text
document_name-LeavesUnder s none e = tt
document_name-LeavesUnder s (some t) e =
    let r = span (λ c. not (c == 34)) t in
    document_body-LeavesUnder r.1 (length s) _ refl (
      omega (
        arith,
        ap length (strip_prefix-eq_some (text "<document filename=\"") s e),
        ap length (span-append (λ c. not (c == 34)) t),
        length-append {0} r.0 r.1,
      ))

document_at-LeavesUnder : (s : Text) → LeavesUnder (length s) (document_at s)
unfolding document_at
document_at-LeavesUnder s = document_name-LeavesUnder s _ refl

document_at-Consumes : Consumes document_at
document_at-Consumes s f t e = subst (LeavesUnder (length s)) e (document_at-LeavesUnder s)

no_document : (c : ℕ) (s : Text) → (c == 60) ≡ false → document_at (c ∷ s) ≡ none
unfolding document_at text
no_document c s h = ground arith

-- A block as it stands in a message: its name, and its body.
abbrev pub blocks : List (Text × Text) → Text
blocks [] = []
blocks ((name, body) ∷ ds) = document_block name body ++ blocks ds

-- What is left of them.
abbrev pub newlines : List (Text × Text) → Text
newlines [] = []
newlines (d ∷ ds) = 10 ∷ 10 ∷ newlines ds

abbrev pub IsPlain : Text × Text → Type 0
IsPlain (name, body) = IsFree 34 name × IsFree 60 body × IsFree 60 name

is_name :
    (name : Text)
    → IsFree 34 name
    → any (λ (c : ℕ). if not (c == 34) then false else true) name ≡ false
is_name [] h = refl
is_name (c ∷ s) h = ground (arith, is_name s)

pub IsFree-newlines : (s : Text) → IsFree 60 s → IsFree 60 (10 ∷ s ++ 10 ∷ [])
IsFree-newlines [] h = refl
IsFree-newlines (c ∷ s) h = ground (arith, IsFree-newlines s)

-- What follows the quote that opens a name.
abbrev pub named : Text → Text → Text → Text
unfolding text
named name body after =
    name ++ (34 ∷ (62 ∷ ((10 ∷ body ++ 10 ∷ []) ++ (text "</document>" ++ after))))

document_name-block :
    (name body after : Text)
    → IsFree 34 name
    → IsFree 60 body
    → document_name (some (named name body after)) ≡ some (tt, after)
unfolding document_name named text
document_name-block name body after h k =
    rw
      (
        span-stop (λ c. not (c == 34)) name 34
            (62 ∷ ((10 ∷ body ++ 10 ∷ []) ++ (text "</document>" ++ after))) (is_name name h) refl,
        cut_at-free 60 (47 ∷ text "document>") (10 ∷ body ++ 10 ∷ []) after
            (IsFree-newlines body k),
      )
      refl

document_at-block :
    (name body after : Text)
    → IsFree 34 name
    → IsFree 60 body
    → document_at (text "<document filename=\"" ++ named name body after) ≡ some (tt, after)
unfolding document_at named
document_at-block name body after h k =
    ap document_name (strip_prefix-append (text "<document filename=\"") (named name body after))
    ∙ document_name-block name body after h k

pub document_block-append :
    (name body after : Text)
    → document_block name body ++ after
      ≡ 10 ∷ 10 ∷ text "<document filename=\"" ++ named name body after
unfolding document_block named text
document_block-append name body after = simp append_assoc

find_document :
    (name body after : Text)
    → IsFree 34 name
    → IsFree 60 body
    → find_first document_at (document_block name body ++ after) ≡ some (10 ∷ 10 ∷ [], tt, after)
unfolding find_first named text document_at
find_document name body after h k =
    ap (find_first document_at) (document_block-append name body after)
    ∙ ap
        (λ o. first_or none (
          shift 10 (
            first_or none (
              shift 10 (
                first_or o (
                  shift 60 (
                    find_first document_at
                      (text "document filename=\"" ++ named name body after))))))))
        (document_at-block name body after h k)

without_hits-plain_if :
    (u : Text) (ps : List (Piece (Unit {0}))) → without_hits (plain_if u ps) ≡ u ++ without_hits ps
without_hits-plain_if [] ps = refl
without_hits-plain_if (c ∷ u) ps = refl

strip_documents-lem :
    (s : Text)
    → strip_documents s ≡ without_hits (round s (pieces document_at) (find_first document_at s))
unfolding strip_documents
strip_documents-lem s = ap without_hits (pieces_lem document_at document_at-Consumes s)

strip_documents-blocks :
    (u : Text) (ds : List (Text × Text))
    → IsFree 60 u
    → All IsPlain ds
    → strip_documents (u ++ blocks ds) ≡ u ++ newlines ds
unfolding strip_documents
strip_documents-blocks u [] h k =
    strip_documents-lem (u ++ [])
    ∙ ap (λ o. without_hits (round (u ++ []) (pieces document_at) o))
        (find_first-free document_at 60 no_document u [] h)
    ∙ without_hits-plain_if (u ++ []) []
    ∙ append-nil (u ++ [])
strip_documents-blocks u ((name, body) ∷ ds) h k =
    let s = u ++ (document_block name body ++ blocks ds) in
    strip_documents-lem s
    ∙ ap (λ o. without_hits (round s (pieces document_at) o))
        (find_first-free document_at 60 no_document u (document_block name body ++ blocks ds) h
          ∙ ap (prepend u) (find_document name body (blocks ds) (k.0.0) (k.0.1)))
    ∙ without_hits-plain_if (u ++ 10 ∷ 10 ∷ []) (hit tt ∷ pieces document_at (blocks ds))
    ∙ ap (λ v. (u ++ 10 ∷ 10 ∷ []) ++ v) (strip_documents-blocks [] ds refl k.1)
    ∙ append_assoc u (10 ∷ 10 ∷ []) (newlines ds)

newlines-blank :
    (ds : List (Text × Text)) → (trim_end (newlines ds) ≡ []) × (trim (newlines ds) ≡ [])
unfolding trim trim_start trim_end
newlines-blank [] = (refl, refl)
newlines-blank (d ∷ ds) = let (h, k) = newlines-blank ds in (rw h refl, k)

-- The bubble shows the text alone.
pub trim-strip_documents :
    (u : Text) (ds : List (Text × Text))
    → IsFree 60 u
    → All IsPlain ds
    → trim (strip_documents (u ++ blocks ds)) ≡ trim u
trim-strip_documents u ds h k =
    ap trim (strip_documents-blocks u ds h k)
    ∙ trim-append u (newlines ds) (newlines-blank ds).0 (newlines-blank ds).1

-- The blocks of the attachments and of the contexts.
abbrev pub attachment_document : Attachment → Option Text → List (Text × Text)
attachment_document a none = []
attachment_document a (some t) = if is_empty t then [] else (a.filename, t) ∷ []

abbrev pub documents : List Attachment → List ToolContext → List (Text × Text)
documents [] [] = []
documents [] (c ∷ cs) = (c.label, c.text) ∷ documents [] cs
documents (a ∷ atts) cs = attachment_document a a.text_content ++ documents atts cs

attachment_block-documents :
    (a : Attachment) (o : Option Text) (ds : List (Text × Text))
    → attachment_block a o ++ blocks ds ≡ blocks (attachment_document a o ++ ds)
attachment_block-documents a none ds = refl
attachment_block-documents a (some []) ds = refl
attachment_block-documents a (some (c ∷ t)) ds = refl

pub doc_blocks-documents :
    (atts : List Attachment) (cs : List ToolContext)
    → doc_blocks atts ++ ctx_blocks cs ≡ blocks (documents atts cs)
unfolding doc_blocks ctx_blocks
doc_blocks-documents [] [] = refl
doc_blocks-documents [] (c ∷ cs) =
    ap (λ v. document_block c.label c.text ++ v) (doc_blocks-documents [] cs)
doc_blocks-documents (a ∷ atts) cs =
    append_assoc (attachment_block a a.text_content) (doc_blocks atts) (ctx_blocks cs)
    ∙ ap (λ v. attachment_block a a.text_content ++ v) (doc_blocks-documents atts cs)
    ∙ attachment_block-documents a a.text_content (documents atts cs)
