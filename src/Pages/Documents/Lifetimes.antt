-- ===== src/Pages/Documents/Lifetimes.antt =====
-- The documents page as steps that interleave: previews that are being opened, closed and shown, and
-- deletions, which close the preview that was shown when they were asked for.
pub mod Alive
use rafineai_self_hosted.Prelude.{
  String, Text, Bool, true, false, Option, none, some, List, [], ◌∷◌, ◌++◌, All, includes, without,
  arith, eq_iff, ◌≡◌, refl, ◌∙◌, ◌===◌,
}
use mathlib.Core.Path.{subst}
use rafineai_self_hosted.Types.{Document}
use rafineai_self_hosted.Pages.Documents.{Preview, Documents, shows, close_shown, close_preview}
use rafineai_self_hosted.Pages.Documents.Previews.{includes-without-and}

-- The page, the documents and URLs of `openPreview` calls that still await the text, and the previews
-- that deletions under way have captured.
pub record Session : Type 0 where
  pub page : Documents
  pub opening : List (Document × String)
  pub asked : List (Option Preview)

abbrev pub Apart : String → String → Type 0
Apart u v = (u === v) ≡ false

abbrev pub NotShown : String → Option Preview → Type 0
NotShown u none = Unit
NotShown u (some p) = Apart p.url u

-- A URL that the page has not met: URL.createObjectURL gives no URL twice.
abbrev pub IsNew : String → Session → Type 0
IsNew u s =
    NotShown u s.page.preview
    × All (λ (e : Document × String). Apart u e.1) s.opening
    × All (NotShown u) s.asked

pub data Step : Session → Session → Type 0 where
  -- authedBlobUrl returns
  create :
      {s : Session}
      → (d : Document) (u : String) → IsNew u s
      → Step s (record s {
        page = record (s.page) { live_urls = u ∷ s.page.live_urls };
        opening = (d, u) ∷ s.opening;
      })
  -- setPreview({ doc, url, text })
  show :
      {s : Session}
      → (es fs : List (Document × String)) (d : Document) (u : String) (t : Option Text)
      → s.opening ≡ es ++ (d, u) ∷ fs
      → Step s (record s {
        page = record (s.page) { preview = some (record { doc = d; url = u; text = t }) };
        opening = es ++ fs;
      })
  -- the text cannot be read
  give_up :
      {s : Session}
      → (es fs : List (Document × String)) (d : Document) (u : String)
      → s.opening ≡ es ++ (d, u) ∷ fs
      → Step s (record s { opening = es ++ fs })
  close : {s : Session} → Step s (record s { page = close_preview s.page })
  -- del(doc), up to its request
  ask : {s : Session} → Step s (record s { asked = s.page.preview ∷ s.asked })
  -- the deletion of the document that was shown when it was asked for
  deleted :
      {s : Session}
      → (d : Document) (os ps : List (Option Preview)) (p : Option Preview) → s.asked ≡ os ++ p ∷ ps
      → shows d.id p ≡ true
      → Step s (record s { page = close_shown p s.page; asked = os ++ ps })
  -- what leaves the preview and the URLs alone
  other :
      {s : Session}
      → (docs : List Document) (error : String) (uploading : Bool)
      → Step s (record s {
        page = record (s.page) { docs = docs; error = error; uploading = uploading };
      })

pub data Reachable : Session → Type 0 where
  start : {s : Session} → s.page.preview ≡ none → s.opening ≡ [] → s.asked ≡ [] → Reachable s
  next : {s t : Session} → Reachable s → Step s t → Reachable t
