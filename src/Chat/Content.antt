-- ===== src/Chat/Content.antt =====
-- panel/app/(dash)/chat/page.tsx: the text of a message as `send` composes it. `JSON.stringify` of the
-- attachments is the parameter `stringify`, and as `parseMessageContent` reads it back for the bubble,
-- with `JSON.parse` as the parameter `parse`.
pub mod Stripping
pub mod Metadata
pub mod Reading
use rafineai_self_hosted.Prelude.{
  Text, text, Option, none, some, List, [], ◌∷◌, ◌++◌, is_empty, if◌then◌else◌, trim, strip_prefix,
  text_eq, ℕ, not, ◌==◌,
}
use rafineai_self_hosted.Scan.{Matcher, Piece, plain, hit, span, cut_at, find_first, pieces}
use rafineai_self_hosted.Types.{Attachment, ToolContext}

-- `\n\n<document filename="${name}">\n${text}\n</document>`
unfoldable pub document_block : Text → Text → Text
document_block name body =
    10 ∷ 10 ∷ text "<document filename=\""
    ++ name
    ++ text "\">"
    ++ 10 ∷ body
    ++ 10 ∷ text "</document>"

abbrev attachment_block : Attachment → Option Text → Text
attachment_block a none = []
attachment_block a (some t) = if is_empty t then [] else document_block a.filename t

-- atts.filter((a) => a.text_content).map(…).join("")
unfoldable pub doc_blocks : List Attachment → Text
doc_blocks [] = []
doc_blocks (a ∷ atts) = attachment_block a a.text_content ++ doc_blocks atts

unfoldable pub ctx_blocks : List ToolContext → Text
ctx_blocks [] = []
ctx_blocks (c ∷ cs) = document_block c.label c.text ++ ctx_blocks cs

abbrev pub meta_open : Text
meta_open = 10 ∷ 10 ∷ text "<!--rafine-attachments:"

abbrev pub meta_close : Text
meta_close = text "-->"

module _ (stringify : List Attachment → Text) where
  abbrev pub att_meta : List Attachment → Text
  att_meta [] = []
  att_meta (a ∷ atts) = meta_open ++ stringify (a ∷ atts) ++ meta_close

  -- text + docBlocks + ctxBlocks + attMeta
  unfoldable pub compose : Text → List Attachment → List ToolContext → Text
  compose input atts ctxs = input ++ doc_blocks atts ++ ctx_blocks ctxs ++ att_meta atts

-- What stands before a given end of the text.
abbrev pub onto_text : ℕ → Option Text → Option Text
onto_text c none = none
onto_text c (some u) = some (c ∷ u)

unfoldable pub before_end : Text → Text → Option Text
unfolding text_eq
before_end p [] = if text_eq p [] then some [] else none
before_end p (c ∷ s) =
    let later = onto_text c (before_end p s) in if text_eq p (c ∷ s) then some [] else later

-- (\[[\s\S]*?\])-->$ after its bracket: the group, to the end of the content.
abbrev pub meta_group : Option Text → Option (Text × Text)
meta_group none = none
meta_group (some u) = some (91 ∷ u ++ 93 ∷ [], [])

abbrev pub meta_after : Option Text → Option (Text × Text)
unfolding before_end text
meta_after none = none
meta_after (some t) = meta_group (before_end (93 ∷ meta_close) t)

-- content.match(…), at one place of the content
unfoldable pub meta_at : Matcher Text
unfolding meta_after strip_prefix text
meta_at s = meta_after (strip_prefix (meta_open ++ 91 ∷ []) s)

-- /<document filename="[^"]*">[\s\S]*?<\/document>/, at one place of the text
abbrev pub document_end : Option (Text × Text) → Option (Unit {0} × Text)
document_end none = none
document_end (some (body, rest)) = some (tt, rest)

abbrev pub document_body : Option Text → Option (Unit {0} × Text)
unfolding cut_at text
document_body none = none
document_body (some t) = document_end (cut_at (text "</document>") t)

abbrev pub document_name : Option Text → Option (Unit {0} × Text)
unfolding span document_body strip_prefix
document_name none = none
document_name (some t) = document_body (strip_prefix (34 ∷ 62 ∷ []) (span (λ c. not (c == 34)) t).1)

unfoldable pub document_at : Matcher (Unit {0})
unfolding document_name strip_prefix text
document_at s = document_name (strip_prefix (text "<document filename=\"") s)

-- text.replace(…, "")
abbrev pub without_hits : List (Piece (Unit {0})) → Text
without_hits [] = []
without_hits (plain u ∷ ps) = u ++ without_hits ps
without_hits (hit a ∷ ps) = without_hits ps

unfoldable pub strip_documents : Text → Text
unfolding pieces document_at
strip_documents t = without_hits (pieces document_at t)

-- The text and the attachments of a bubble.
pub record Parsed : Type 0 where
  pub text : Text
  pub attachments : List Attachment

abbrev list_or_nil : Option (List Attachment) → List Attachment
list_or_nil none = []
list_or_nil (some xs) = xs

module _ (parse : Text → Option (List Attachment)) where
  abbrev pub parsed : Text → Option (Text × Text × Text) → Parsed
  unfolding strip_documents trim
  parsed content none = record { text = trim (strip_documents content); attachments = [] }
  parsed content (some (u, group, t)) = record {
    text = trim (strip_documents u);
    attachments = list_or_nil (parse group);
  }

  unfoldable pub parse_message_content : Text → Parsed
  unfolding parsed find_first meta_at
  parse_message_content content = parsed content (find_first meta_at content)
