-- ===== src/Pages/Documents/Lifetimes/Alive.antt =====
-- The preview that the documents page shows exists, however its steps interleave.
use rafineai_self_hosted.Prelude.{
  String, true, Option, none, some, List, [], ◌∷◌, ◌++◌, All, includes, without, arith, eq_iff, ◌≡◌,
  refl, ◌∙◌,
}
use mathlib.Core.Path.{subst}
use rafineai_self_hosted.Types.{Document}
use rafineai_self_hosted.Pages.Documents.{Preview, Documents, close_shown, close_preview}
use rafineai_self_hosted.Pages.Documents.Previews.{includes-without-and}
use rafineai_self_hosted.Prelude.{All-imp, All-both, All-split}
use rafineai_self_hosted.Pages.Documents.Lifetimes.{
  Apart, NotShown, IsNew, Session, Step, create, show, give_up, close, ask, deleted, other,
  Reachable, start, next,
}

abbrev FromShown : Option Preview → List (Document × String) → Type 0
FromShown none es = Unit
FromShown (some p) es = All (λ (e : Document × String). Apart p.url e.1) es

abbrev Distinct : List (Document × String) → Type 0
Distinct [] = Unit
Distinct (e ∷ es) = All (λ (f : Document × String). Apart e.1 f.1) es × Distinct es

-- The URL of a preview exists.
abbrev pub IsAlive : Option Preview → List String → Type 0
IsAlive none urls = Unit
IsAlive (some p) urls = includes p.url urls ≡ true

abbrev Lives : List String → List (Document × String) → Type 0
Lives urls = All (λ (e : Document × String). includes e.1 urls ≡ true)

abbrev IsSound : Session → Type 0
IsSound s =
    IsAlive s.page.preview s.page.live_urls
    × Lives s.page.live_urls s.opening
    × FromShown s.page.preview s.opening
    × All (λ o. FromShown o s.opening) s.asked
    × Distinct s.opening

Apart-sym : (u v : String) → Apart u v → Apart v u
Apart-sym u v h = ground (arith, eq_iff u v, eq_iff v u)

FromShown-split :
    (o : Option Preview) (es : List (Document × String)) (e : Document × String)
    (fs : List (Document × String))
    → FromShown o (es ++ e ∷ fs)
    → FromShown o (es ++ fs)
FromShown-split none es e fs h = tt
FromShown-split (some p) es e fs h =
    (All-split (λ (f : Document × String). Apart p.url f.1) es e fs h).1

FromShown-cons :
    (o : Option Preview) (d : Document) (u : String) (es : List (Document × String))
    → NotShown u o
    → FromShown o es
    → FromShown o ((d, u) ∷ es)
FromShown-cons none d u es n h = tt
FromShown-cons (some p) d u es n h = (n, h)

Distinct-split :
    (es : List (Document × String)) (e : Document × String) (fs : List (Document × String))
    → Distinct (es ++ e ∷ fs)
    → All (λ (f : Document × String). Apart e.1 f.1) (es ++ fs) × Distinct (es ++ fs)
Distinct-split [] e fs h = h
Distinct-split (x ∷ es) e fs h =
    let r = Distinct-split es e fs h.1 in
    let a = All-split (λ (f : Document × String). Apart x.1 f.1) es e fs h.0 in
    ((Apart-sym x.1 e.1 a.0, r.0), (a.1, r.1))

includes-cons :
    (u v : String) (urls : List String) → includes v urls ≡ true → includes v (u ∷ urls) ≡ true
includes-cons u v urls h = ground arith

IsAlive-cons :
    (o : Option Preview) (u : String) (urls : List String) → IsAlive o urls → IsAlive o (u ∷ urls)
IsAlive-cons none u urls h = tt
IsAlive-cons (some p) u urls h = includes-cons u p.url urls h

Lives-close :
    (o : Option Preview) (s : Documents) (es : List (Document × String))
    → FromShown o es
    → Lives s.live_urls es
    → Lives (close_shown o s).live_urls es
Lives-close none s es a h = h
Lives-close (some p) s es a h =
    All-both (λ (e : Document × String). Apart p.url e.1)
      (λ (e : Document × String). includes e.1 s.live_urls ≡ true)
      (λ (e : Document × String). includes e.1 (without p.url s.live_urls) ≡ true) es
      (λ e apart lives. includes-without-and p.url e.1 s.live_urls ∙ rw (apart, lives) refl) a h

closed-none : (o : Option Preview) (s : Documents) → (close_shown o s).preview ≡ none
closed-none none s = refl
closed-none (some p) s = refl

-- Closing any preview that no opening one shares its URL with leaves a sound session.
close-IsSound :
    (o : Option Preview) (s : Session)
    → FromShown o s.opening
    → IsSound s
    → IsSound (record s { page = close_shown o s.page })
close-IsSound none s a (alive, lives, shown, asked, distinct) = (tt, lives, tt, asked, distinct)
close-IsSound (some p) s a (alive, lives, shown, asked, distinct) =
    (tt, Lives-close (some p) s.page s.opening a lives, tt, asked, distinct)

-- A preview that is no longer opening, shown or given up.
dropped :
    (s : Session) (es : List (Document × String)) (e : Document × String)
    (fs : List (Document × String))
    → s.opening ≡ es ++ e ∷ fs
    → IsSound s
    → (includes e.1 s.page.live_urls ≡ true)
      × All (λ (f : Document × String). Apart e.1 f.1) (es ++ fs)
      × IsSound (record s { opening = es ++ fs })
dropped s es e fs eq (alive, lives, shown, asked, distinct) =
    let l =
      All-split (λ (f : Document × String). includes f.1 s.page.live_urls ≡ true) es e fs
        (subst (Lives s.page.live_urls) eq lives) in
    let d = Distinct-split es e fs (subst Distinct eq distinct) in
    (
      l.0,
      d.0,
      (
        alive,
        l.1,
        FromShown-split s.page.preview es e fs (subst (FromShown s.page.preview) eq shown),
        All-imp (λ o. FromShown o s.opening) (λ o. FromShown o (es ++ fs)) s.asked
            (λ o h. FromShown-split o es e fs (subst (FromShown o) eq h)) asked,
        d.1,
      ),
    )

created-IsSound :
    (s : Session) (d : Document) (u : String)
    → IsNew u s
    → IsSound s
    → IsSound (record s {
      page = record (s.page) { live_urls = u ∷ s.page.live_urls };
      opening = (d, u) ∷ s.opening;
    })
created-IsSound s d u new (alive, lives, shown, asked, distinct) = (
  IsAlive-cons s.page.preview u s.page.live_urls alive,
  (
    ground (arith, eq_iff u u),
    All-imp (λ (e : Document × String). includes e.1 s.page.live_urls ≡ true)
        (λ (e : Document × String). includes e.1 (u ∷ s.page.live_urls) ≡ true) s.opening
        (λ e h. includes-cons u e.1 s.page.live_urls h) lives,
  ),
  FromShown-cons s.page.preview d u s.opening new.0 shown,
  All-both (NotShown u) (λ o. FromShown o s.opening) (λ o. FromShown o ((d, u) ∷ s.opening)) s.asked
      (λ o n h. FromShown-cons o d u s.opening n h) new.2 asked,
  (new.1, distinct),
)

step-IsSound : (s t : Session) → Step s t → IsSound s → IsSound t
unfolding close_preview
step-IsSound s _ (create d u new) h = created-IsSound s d u new h
step-IsSound s _ (show es fs d u t e) h =
    let (live, apart, (alive, lives, shown, asked, distinct)) = dropped s es (d, u) fs e h in
    (live, lives, apart, asked, distinct)
step-IsSound s _ (give_up es fs d u e) h = (dropped s es (d, u) fs e h).2
step-IsSound s _ close h = close-IsSound s.page.preview s h.2 h
step-IsSound s _ ask (alive, lives, shown, asked, distinct) =
    (alive, lives, shown, (shown, asked), distinct)
step-IsSound s _ (deleted d os ps p e shown_then) h =
    let r =
      All-split (λ o. FromShown o s.opening) os p ps
        (subst (All (λ o. FromShown o s.opening)) e h.3) in
    let (alive, lives, shown, asked, distinct) = close-IsSound p s r.0 h in
    (alive, lives, shown, r.1, distinct)
step-IsSound s _ (other docs error uploading) h = h

sound : (s : Session) → Reachable s → IsSound s
sound s (start none_shown none_opening none_asked) =
    rw (none_shown, none_opening, none_asked, IsAlive, Lives, FromShown, Distinct, All)
      (tt, tt, tt, tt, tt)
sound s (next {s = r} before step) = step-IsSound r s step (sound r before)

-- However openings, closings and deletions interleave, the preview that is shown is never broken: its
-- URL has not been revoked.
pub Reachable-IsAlive : (s : Session) → Reachable s → IsAlive s.page.preview s.page.live_urls
Reachable-IsAlive s h = (sound s h).0
