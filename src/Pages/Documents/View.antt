-- ===== src/Pages/Documents/View.antt =====
-- What the documents page shows: a row of each document, and the panel of the preview.
use rafineai_self_hosted.Prelude.{
  String, Text, text, text_eq, starts_with, Bool, true, false, not, ◌||◌, Option, none, some, List,
  [], ◌∷◌, ◌++◌, map, take, ◌==◌, if◌then◌else◌,
}
use rafineai_self_hosted.Types.{Document}
use rafineai_self_hosted.Pages.Documents.{Documents, Preview, Size, human_size, FileIcon, icon_for}

-- s.replace("T", " "): the first of them
unfoldable pub replace_t : Text → Text
replace_t [] = []
replace_t (c ∷ s) = if c == 84 then 32 ∷ s else c ∷ replace_t s

-- d.created_at.slice(0, 16).replace("T", " ")
unfoldable pub created : String → Text
unfolding replace_t text
created at = replace_t (take 16 (text at))

pub record Row : Type 0 where
  pub icon : FileIcon
  pub filename : Text
  pub mime_type : Text
  pub size : Size
  pub created : Text
  pub indexed : Bool

unfoldable pub row_of : Document → Row
unfolding icon_for human_size created
row_of d = record {
  icon = icon_for d.mime_type;
  filename = d.filename;
  mime_type = d.mime_type;
  size = human_size d.size_bytes;
  created = created d.created_at;
  indexed = d.indexed;
}

unfoldable pub rows : Documents → List Row
unfolding row_of
rows s = map row_of s.docs

-- The parts of the panel.
pub data Part : Type 0 where
  picture : (src : String) (alt : Text) → Part
  frame : (src : String) (title : Text) → Part
  plain : Text → Part
  download : (href : String) (name : Text) → Part

abbrev is_picture : Text → Bool
unfolding text
is_picture mime = starts_with (text "image/") mime

abbrev is_pdf : Text → Bool
unfolding text
is_pdf mime = text_eq mime (text "application/pdf")

abbrev part_if : Bool → Part → List Part
part_if b p = if b then p ∷ [] else []

abbrev text_part : Option Text → List Part
text_part none = []
text_part (some t) = plain t ∷ []

abbrev has_none : Option Text → Bool
has_none none = true
has_none (some t) = false

unfoldable pub parts : Preview → List Part
unfolding is_picture is_pdf
parts p =
    part_if (is_picture p.doc.mime_type) (picture p.url p.doc.filename)
    ++ part_if (is_pdf p.doc.mime_type) (frame p.url p.doc.filename)
    ++ text_part p.text
    ++ part_if (not (is_picture p.doc.mime_type || is_pdf p.doc.mime_type || not (has_none p.text)))
        (download p.url p.doc.filename)

unfoldable pub upload_label : Documents → String
upload_label s = if s.uploading then "Yükleniyor…" else "+ Dosya Yükle"
