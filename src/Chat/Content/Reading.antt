-- ===== src/Chat/Content/Reading.antt =====
-- What `send` composes, `parseMessageContent` reads back.
use rafineai_self_hosted.Prelude.{
  Text, trim, true, Option, some, List, [], ◌∷◌, ◌++◌, All, IsFree, ◌≡◌, refl, ap, sym, ◌∙◌,
  append_assoc, append-nil,
}
use rafineai_self_hosted.Scan.{find_first}
use rafineai_self_hosted.Types.{Attachment, ToolContext}
use rafineai_self_hosted.Chat.Content.{
  doc_blocks, ctx_blocks, meta_open, meta_close, meta_at, att_meta, compose, strip_documents,
  parsed, parse_message_content,
}
use rafineai_self_hosted.Chat.Content.Stripping.{
  blocks, IsPlain, documents, doc_blocks-documents, trim-strip_documents,
}
use rafineai_self_hosted.Chat.Content.Metadata.{
  no_comment, no_comment-message, find_meta-some, find_meta-none,
}

regroup :
    (inner : Text)
    → meta_open ++ (91 ∷ inner ++ 93 ∷ []) ++ meta_close
      ≡ meta_open ++ (91 ∷ (inner ++ (93 ∷ meta_close)))
regroup inner =
    append_assoc meta_open (91 ∷ inner ++ 93 ∷ []) meta_close
    ∙ ap (λ v. meta_open ++ (91 ∷ v)) (append_assoc inner (93 ∷ []) meta_close)

find_composed :
    (u group inner : Text)
    → no_comment u ≡ true
    → group ≡ 91 ∷ inner ++ 93 ∷ []
    → find_first meta_at (u ++ (meta_open ++ group ++ meta_close)) ≡ some (u, group, [])
find_composed u group inner h array =
    ap (λ g. find_first meta_at (u ++ (meta_open ++ g ++ meta_close))) array
    ∙ ap (λ v. find_first meta_at (u ++ v)) (regroup inner)
    ∙ find_meta-some u inner h
    ∙ ap (λ g. some (u, g, [])) (sym array)

module _ (stringify : List Attachment → Text) (parse : Text → Option (List Attachment)) where
  compose-blocks :
      (input : Text) (atts : List Attachment) (ctxs : List ToolContext)
      → compose stringify input atts ctxs
        ≡ (input ++ blocks (documents atts ctxs)) ++ att_meta stringify atts
  unfolding compose
  compose-blocks input atts ctxs =
      ap (λ v. v ++ att_meta stringify atts)
        (append_assoc input (doc_blocks atts) (ctx_blocks ctxs)
          ∙ ap (λ v. input ++ v) (doc_blocks-documents atts ctxs))

  parsed-some :
      (content u group : Text) (atts : List Attachment) (input : Text)
      (o : Option (Text × Text × Text))
      → o ≡ some (u, group, [])
      → parse group ≡ some atts
      → trim (strip_documents u) ≡ trim input
      → parsed parse content o ≡ record { text = trim input; attachments = atts }
  unfolding parsed
  parsed-some content u group atts input o e h k = rw (e, h, k) refl

  -- The bubble of a message shows what was typed, trimmed, and lists the attachments that were sent with
  -- it: where the text has no "<", the names of the files and contexts neither a quote nor "<", and
  -- their texts no "<", and JSON.stringify of the attachments is an array that JSON.parse reads back,
  -- parseMessageContent takes apart what `send` composes.
  pub parse_message_content-compose :
      (input : Text) (atts : List Attachment) (ctxs : List ToolContext) (inner : Text)
      → IsFree 60 input
      → All IsPlain (documents atts ctxs)
      → stringify atts ≡ 91 ∷ inner ++ 93 ∷ []
      → parse (stringify atts) ≡ some atts
      → parse_message_content parse (compose stringify input atts ctxs)
        ≡ record { text = trim input; attachments = atts }
  unfolding parse_message_content
  parse_message_content-compose input [] ctxs inner h k array back =
      let u = input ++ blocks (documents [] ctxs) in
      ap (parse_message_content parse) (compose-blocks input [] ctxs ∙ append-nil u)
      ∙ rw (find_meta-none u (no_comment-message input _ h k), trim-strip_documents input _ h k)
          refl
  parse_message_content-compose input (a ∷ atts) ctxs inner h k array back =
      let u = input ++ blocks (documents (a ∷ atts) ctxs) in
      ap (parse_message_content parse) (compose-blocks input (a ∷ atts) ctxs)
      ∙ parsed-some (u ++ att_meta stringify (a ∷ atts)) u (stringify (a ∷ atts)) (a ∷ atts) input _
          (find_composed u (stringify (a ∷ atts)) inner (no_comment-message input _ h k) array) back
          (trim-strip_documents input _ h k)
