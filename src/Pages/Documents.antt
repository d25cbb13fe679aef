-- ===== src/Pages/Documents.antt =====
-- panel/app/(dash)/documents/page.tsx. `live_urls` are the object URLs that exist in the browser:
-- `authedBlobUrl` creates one, `URL.revokeObjectURL` ends one. `confirm` is the
-- argument `confirmed`.
pub mod Previews
pub mod View
pub mod Lifetimes
use rafineai_self_hosted.Prelude.{
  ℕ, ◌*◌, String, Text, text, text_eq, starts_with, contains, Bool, true, false, ◌||◌, Option, none,
  some, List, [], ◌∷◌, without, ltb, ◌===◌, if◌then◌else◌,
}
use rafineai_self_hosted.Decimal.{Fraction, to_fixed}
use rafineai_self_hosted.Exec.{
  Failure, message, Exec, Done, pure, captured, try_catch, finally, ◌>>=◌, ◌>>◌, skip,
}
use rafineai_self_hosted.Types.{Document}
use rafineai_self_hosted.Page.{
  list, document, object_url, plain_text, get, delete, send_file, ◌/+◌, Machine, Env, await_api,
  on_ui, set_ui, load, request,
}

-- humanSize(n): bytes, or tenths of a kilobyte or of a megabyte. Dividing by 1024 is exact.
pub data Size : Type 0 where
  bytes kilobytes megabytes : ℕ → Size

unfoldable pub human_size : ℕ → Size
unfolding to_fixed
human_size n =
    if ltb n 1024
    then bytes n
    else if ltb n (1024 * 1024)
    then kilobytes (to_fixed 10 (record { num = n; den = 1024 }))
    else megabytes (to_fixed 10 (record { num = n; den = 1024 * 1024 }))

-- The emoji of iconFor: a picture, a page, a memo, a clamp and a paper clip.
pub data FileIcon : Type 0 where
  picture page memo clamp clip : FileIcon

-- iconFor(mime)
unfoldable pub icon_for : Text → FileIcon
icon_for mime =
    if starts_with (text "image/") mime
    then picture
    else if text_eq mime (text "application/pdf")
    then page
    else if starts_with (text "text/") mime
        || contains (text "json") mime
        || contains (text "xml") mime
    then memo
    else if contains (text "zip") mime || contains (text "tar") mime
    then clamp
    else clip

pub record Preview : Type 0 where
  pub doc : Document
  pub url : String
  pub text : Option Text

pub record Documents : Type 0 where
  pub docs : List Document
  pub error : String
  pub uploading : Bool
  pub preview : Option Preview
  pub live_urls : List String

abbrev pub report : {W : Type 0} → Failure → Exec (Machine Documents W) Done
report e = set_ui (λ s. record s { error = message e })

unfoldable pub has_text : Document → Bool
has_text d =
    starts_with (text "text/") d.mime_type
    || contains (text "json") d.mime_type
    || contains (text "xml") d.mime_type
    || contains (text "javascript") d.mime_type

-- if (preview) URL.revokeObjectURL(preview.url); setPreview(null)
abbrev pub close_shown : Option Preview → Documents → Documents
close_shown none s = record s { preview = none }
close_shown (some p) s = record s { preview = none; live_urls = without p.url s.live_urls }

unfoldable pub close_preview : Documents → Documents
close_preview s = close_shown s.preview s

abbrev pub shows : String → Option Preview → Bool
shows id none = false
shows id (some p) = p.doc.id === id

module _ {W : Type 0} (env : Env Documents W) where
  unfoldable pub refresh : Exec (Machine Documents W) Done
  unfolding load
  refresh = load env (list document) (get "/api/documents") (λ ds s. record s { docs = ds })

  unfoldable pub mount : Exec (Machine Documents W) Done
  unfolding refresh
  mount = try_catch refresh report

  -- The loop over the files, by their names: the first failure ends it.
  unfoldable pub upload_all : List Text → Exec (Machine Documents W) Done
  unfolding request
  upload_all [] = skip
  upload_all (f ∷ fs) = do request env (send_file "/api/documents" f); upload_all fs

  unfoldable pub upload_attempt : List Text → Exec (Machine Documents W) Done
  unfolding upload_all refresh
  upload_attempt files = do upload_all files; refresh

  -- onUpload(files)
  unfoldable pub on_upload : List Text → Exec (Machine Documents W) Done
  on_upload [] = skip
  on_upload (f ∷ fs) = do
    set_ui (λ s. record s { uploading = true; error = "" })
    finally (try_catch (upload_attempt (f ∷ fs)) report)
        (on_ui (λ s. record s { uploading = false }))

  -- await (await fetch(url)).text(), where the type has a text
  unfoldable pub read_text : Document → String → Exec (Machine Documents W) (Option Text)
  unfolding await_api
  read_text d url =
      if has_text d then (do t ← await_api env plain_text (get url); pure (some t)) else pure none

  unfoldable pub preview_attempt : Document → Exec (Machine Documents W) Done
  unfolding await_api read_text
  preview_attempt d = do
    url ← await_api env object_url (get ("/api/documents/" /+ d.id /+ "/content"))
    set_ui (λ s. record s { live_urls = url ∷ s.live_urls })
    t ← read_text d url
    set_ui (λ s. record s { preview = some (record { doc = d; url = url; text = t }) })

  -- openPreview(doc)
  unfoldable pub open_preview : Document → Exec (Machine Documents W) Done
  unfolding preview_attempt
  open_preview d = do set_ui (λ s. record s { error = "" }); try_catch (preview_attempt d) report

  unfoldable pub delete_attempt : Option Preview → Document → Exec (Machine Documents W) Done
  unfolding request refresh
  delete_attempt shown d = do
    request env (delete ("/api/documents/" /+ d.id))
    if shows d.id shown then set_ui (close_shown shown) else skip
    refresh

  -- del(doc); `preview` is the closure's.
  unfoldable pub del : Bool → Document → Exec (Machine Documents W) Done
  unfolding delete_attempt
  del confirmed d =
      captured λ c. if confirmed then try_catch (delete_attempt c.ui.preview d) report else skip
