-- ===== src/Pages/Documents/Previews.antt =====
-- The object URLs of the previews.
use rafineai_self_hosted.Prelude.{
  String, Text, false, some, List, [], ◌∷◌, ◌≡◌, refl, not, ◌&&◌, includes, without, length, ◌++◌,
  ap, sym, ◌∙◌, append_assoc, length-append, inl, inr, Bool-cases, arith, eq_iff, ◌===◌,
}
use rafineai_self_hosted.Exec.{ok}
use rafineai_self_hosted.Exec.Rules.{try_catch-ok}
use rafineai_self_hosted.Types.{Document}
use rafineai_self_hosted.Page.{object_url, plain_text, get, ◌/+◌, Machine, Env}
use rafineai_self_hosted.Page.Quiet.{Outcome-cases}
use rafineai_self_hosted.Pages.Documents.{
  Preview, Documents, close_preview, has_text, report, open_preview, upload_attempt, on_upload,
}

pub includes-without-and :
    (i j : String) (xs : List String) → includes j (without i xs) ≡ (not (i === j) && includes j xs)
includes-without-and i j [] = ground arith
includes-without-and i j (x ∷ xs) =
    ground (arith, includes-without-and i j xs, eq_iff x i, eq_iff x j, eq_iff i j)

-- Closing the preview revokes its URL, and no other URL.
pub close_preview-live_urls :
    (s : Documents) (p : Preview) (url : String)
    → s.preview ≡ some p
    → includes url (close_preview s).live_urls ≡ (not (p.url === url) && includes url s.live_urls)
unfolding close_preview
close_preview-live_urls s p url shown = rw shown (includes-without-and p.url url s.live_urls)

module _ {W : Type 0} (env : Env Documents W) where
  -- An upload never throws, and it ends with the flag reset, whichever file the server refuses.
  pub on_upload-uploading :
      (f : Text) (fs : List Text) (m : Machine Documents W)
      → ((on_upload env (f ∷ fs) m).0 ≡ ok tt) × ((on_upload env (f ∷ fs) m).1.ui.uploading ≡ false)
  unfolding on_upload
  on_upload-uploading f fs m =
      (try_catch-ok (upload_attempt env (f ∷ fs)) report _ (λ e t. refl), refl)

  -- Every document of a list is opened, one after the other.
  abbrev pub open_all : List Document → Machine Documents W → Machine Documents W
  open_all [] m = m
  open_all (d ∷ ds) m = open_all ds (open_preview env d m).1

  -- What opening a document does to the URLs: its download's is added, and no other one is revoked.
  open_preview-live_urls :
      (d : Document) (url : String) (m : Machine Documents W)
      → ((w : W) (s : Documents) → (env.meanwhile w s).live_urls ≡ s.live_urls)
      → (env.call object_url (get ("/api/documents/" /+ d.id /+ "/content")) m.world).0 ≡ ok url
      → (open_preview env d m).1.ui.live_urls ≡ url ∷ m.ui.live_urls
  unfolding open_preview
  open_preview-live_urls d url m meanwhile created =
      let (o, w) = env.call object_url (get ("/api/documents/" /+ d.id /+ "/content")) m.world in
      elim (Bool-cases (has_text d)) [
        | inl text ↦ elim (Outcome-cases (env.call plain_text (get url) w).0) [
          | inl (t, e) ↦
              rw (created, text, e)
                (meanwhile _ _ ∙ ap (λ (us : List String). url ∷ us) (meanwhile _ _))
          | inr (t, e) ↦
              rw (created, text, e)
                (meanwhile _ _ ∙ ap (λ (us : List String). url ∷ us) (meanwhile _ _))
        ]
        | inr no_text ↦ rw (created, no_text) (ap (λ (us : List String). url ∷ us) (meanwhile _ _))
      ]

  -- While the handlers that run meanwhile neither create nor revoke object URLs, and the server gives
  -- every content that it is asked for: of the documents that are opened one after the other,
  -- texts or not, and whether or not a text can be read, each adds one URL, and none of these or of
  -- those from before is revoked.
  pub open_all-leak :
      (ds : List Document) (m : Machine Documents W)
      → ((w : W) (s : Documents) → (env.meanwhile w s).live_urls ≡ s.live_urls)
      → ((d : Document) (w : W)
          → (url : String) × ((env.call object_url
                (get ("/api/documents/" /+ d.id /+ "/content"))
                w).0
              ≡ ok url))
      → (urls : List String) × (length urls ≡ length ds)
        × ((open_all ds m).ui.live_urls ≡ urls ++ m.ui.live_urls)
  open_all-leak [] m meanwhile gives = ([], refl, refl)
  open_all-leak (d ∷ ds) m meanwhile gives =
      let (url, created) = gives d m.world in
      let (urls, many, alive) = open_all-leak ds (open_preview env d m).1 meanwhile gives in
      (
        urls ++ url ∷ [],
        length-append urls (url ∷ []) ∙ ground (arith, many),
        alive
            ∙ ap (λ us. urls ++ us) (open_preview-live_urls d url m meanwhile created)
            ∙ sym (append_assoc urls (url ∷ []) m.ui.live_urls),
      )
