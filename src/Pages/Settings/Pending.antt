-- ===== src/Pages/Settings/Pending.antt =====
-- The timers of the settings page that are pending, and the notices that they take away.
use rafineai_self_hosted.Prelude.{
  ◌⊎◌, inl, inr, ℕ, zero, suc, Option, none, some, List, [], ◌∷◌, ◌++◌, ◌≡◌, refl, sym,
}
use mathlib.Core.Path.{subst}
use rafineai_self_hosted.Pages.Settings.{
  Section, branding, chat, theme, Status, idle, saving, saved, error, LogoStatus, logo_idle,
  uploading, done, logo_error, Timer, clear_status, clear_logo_status, Settings,
}
use rafineai_self_hosted.Pages.Settings.Timers.{without, pick}

-- A timer that clears the section, or the logo, is pending.
abbrev pub Clears : Section → List Timer → Type 0
Clears k [] = ⊥
Clears k (clear_status j n ∷ ts) = (j ≡ k) ⊎ Clears k ts
Clears k (clear_logo_status n ∷ ts) = Clears k ts

abbrev pub ClearsLogo : List Timer → Type 0
ClearsLogo [] = ⊥
ClearsLogo (clear_status j n ∷ ts) = ClearsLogo ts
ClearsLogo (clear_logo_status n ∷ ts) = Unit

-- Where a section is saved, or the logo done or failed, the timer that takes the notice away is set.
abbrev pub StatusTimed : Section → Status → List Timer → Type 0
StatusTimed k idle ts = Unit
StatusTimed k saving ts = Unit
StatusTimed k saved ts = Clears k ts
StatusTimed k error ts = Unit

abbrev pub LogoTimed : LogoStatus → List Timer → Type 0
LogoTimed logo_idle ts = Unit
LogoTimed uploading ts = Unit
LogoTimed done ts = ClearsLogo ts
LogoTimed logo_error ts = ClearsLogo ts

abbrev pub IsTimed : Settings → Type 0
IsTimed s =
    StatusTimed branding s.status.of_branding s.timers
    × StatusTimed chat s.status.of_chat s.timers
    × StatusTimed theme s.status.of_theme s.timers
    × LogoTimed s.logo_status s.timers

Clears-append : (k : Section) (ts us : List Timer) → Clears k ts → Clears k (ts ++ us)
Clears-append k [] us h = absurd h
Clears-append k (clear_status j n ∷ ts) us (inl e) = inl e
Clears-append k (clear_status j n ∷ ts) us (inr h) = inr (Clears-append k ts us h)
Clears-append k (clear_logo_status n ∷ ts) us h = Clears-append k ts us h

pub Clears-last : (k : Section) (n : ℕ) (ts : List Timer) → Clears k (ts ++ clear_status k n ∷ [])
Clears-last k n [] = inl refl
Clears-last k n (clear_status j m ∷ ts) = inr (Clears-last k n ts)
Clears-last k n (clear_logo_status m ∷ ts) = Clears-last k n ts

ClearsLogo-append : (ts us : List Timer) → ClearsLogo ts → ClearsLogo (ts ++ us)
ClearsLogo-append [] us h = absurd h
ClearsLogo-append (clear_status j n ∷ ts) us h = ClearsLogo-append ts us h
ClearsLogo-append (clear_logo_status n ∷ ts) us h = tt

pub ClearsLogo-last : (n : ℕ) (ts : List Timer) → ClearsLogo (ts ++ clear_logo_status n ∷ [])
ClearsLogo-last n [] = tt
ClearsLogo-last n (clear_status j m ∷ ts) = ClearsLogo-last n ts
ClearsLogo-last n (clear_logo_status m ∷ ts) = tt

pub StatusTimed-append :
    (k : Section) (v : Status) (ts us : List Timer)
    → StatusTimed k v ts
    → StatusTimed k v (ts ++ us)
StatusTimed-append k idle ts us h = tt
StatusTimed-append k saving ts us h = tt
StatusTimed-append k saved ts us h = Clears-append k ts us h
StatusTimed-append k error ts us h = tt

pub LogoTimed-append :
    (v : LogoStatus) (ts us : List Timer) → LogoTimed v ts → LogoTimed v (ts ++ us)
LogoTimed-append logo_idle ts us h = tt
LogoTimed-append uploading ts us h = tt
LogoTimed-append done ts us h = ClearsLogo-append ts us h
LogoTimed-append logo_error ts us h = ClearsLogo-append ts us h

-- What a timer clears.
abbrev pub Hits : Section → Option Timer → Type 0
Hits k none = ⊥
Hits k (some (clear_status j n)) = j ≡ k
Hits k (some (clear_logo_status n)) = ⊥

abbrev pub HitsLogo : Option Timer → Type 0
HitsLogo none = ⊥
HitsLogo (some (clear_status j n)) = ⊥
HitsLogo (some (clear_logo_status n)) = Unit

Clears-without :
    (k : Section) (i : ℕ) (ts : List Timer)
    → Clears k ts
    → Hits k (pick i ts) ⊎ Clears k (without i ts)
Clears-without k i [] h = absurd h
Clears-without k zero (clear_status j n ∷ ts) (inl e) = inl e
Clears-without k zero (clear_status j n ∷ ts) (inr h) = inr h
Clears-without k zero (clear_logo_status n ∷ ts) h = inr h
Clears-without k (suc i) (clear_status j n ∷ ts) (inl e) = inr (inl e)
Clears-without k (suc i) (clear_status j n ∷ ts) (inr h) = elim (Clears-without k i ts h) [
  | inl e ↦ inl e
  | inr g ↦ inr (inr g)
]
Clears-without k (suc i) (clear_logo_status n ∷ ts) h = Clears-without k i ts h

ClearsLogo-without :
    (i : ℕ) (ts : List Timer) → ClearsLogo ts → HitsLogo (pick i ts) ⊎ ClearsLogo (without i ts)
ClearsLogo-without i [] h = absurd h
ClearsLogo-without zero (clear_status j n ∷ ts) h = inr h
ClearsLogo-without zero (clear_logo_status n ∷ ts) h = inl tt
ClearsLogo-without (suc i) (clear_status j n ∷ ts) h = ClearsLogo-without i ts h
ClearsLogo-without (suc i) (clear_logo_status n ∷ ts) h = inr tt

missed : {A B : Type 0} → (A → ⊥) → A ⊎ B → B
missed f (inl a) = absurd (f a)
missed f (inr b) = b

-- A timer that does not clear the section leaves its own timer.
pub StatusTimed-without :
    (k : Section) (v : Status) (i : ℕ) (ts : List Timer) (o : Option Timer)
    → pick i ts ≡ o
    → (Hits k o → ⊥)
    → StatusTimed k v ts
    → StatusTimed k v (without i ts)
StatusTimed-without k idle i ts o e miss h = tt
StatusTimed-without k saving i ts o e miss h = tt
StatusTimed-without k saved i ts o e miss h =
    missed (subst (λ p. Hits k p → ⊥) (sym e) miss) (Clears-without k i ts h)
StatusTimed-without k error i ts o e miss h = tt

pub LogoTimed-without :
    (v : LogoStatus) (i : ℕ) (ts : List Timer) (o : Option Timer)
    → pick i ts ≡ o
    → (HitsLogo o → ⊥)
    → LogoTimed v ts
    → LogoTimed v (without i ts)
LogoTimed-without logo_idle i ts o e miss h = tt
LogoTimed-without uploading i ts o e miss h = tt
LogoTimed-without done i ts o e miss h =
    missed (subst (λ p. HitsLogo p → ⊥) (sym e) miss) (ClearsLogo-without i ts h)
LogoTimed-without logo_error i ts o e miss h =
    missed (subst (λ p. HitsLogo p → ⊥) (sym e) miss) (ClearsLogo-without i ts h)
