-- ===== src/Client/Sessions.antt =====
-- The session in localStorage while refreshes, a logout and a login interleave: panel/lib/api.ts
-- (tryRefresh with its fetch in between, setSession, clearSession), with the logout of the layout.
use rafineai_self_hosted.Prelude.{ℕ, suc, String, Bool, true, false, some, ◌≡◌, refl, ap, arith}
use rafineai_self_hosted.Client.{Session, set_session, clear_session, truthy}

-- What is stored, and how many refresh requests await their answers.
pub record Tab : Type 0 where
  pub session : Session
  pub refreshing : ℕ

-- Steps; those that log in only if `logins`.
pub data Step (logins : Bool) : Tab → Tab → Type 0 where
  -- tryRefresh up to its fetch: `if (!refresh) return false` has not returned
  begin_refresh :
      {s : Tab}
      → (token : String) → truthy s.session.refresh ≡ some token
      → Step logins s (record s { refreshing = suc s.refreshing })
  -- the answer is good: setSession(data.access_token, data.refresh_token, data.role)
  end_refresh :
      {s : Tab}
      → (n : ℕ) (access refresh role : String) → s.refreshing ≡ suc n
      → Step logins s (record { session = set_session access refresh role; refreshing = n })
  -- it is not, or there is none
  fail_refresh :
      {s : Tab} → (n : ℕ) → s.refreshing ≡ suc n → Step logins s (record s { refreshing = n })
  log_out : {s : Tab} → Step logins s (record s { session = clear_session })
  log_in :
      {s : Tab}
      → logins ≡ true
      → (access refresh role : String)
      → Step logins s (record s { session = set_session access refresh role })

pub data Run (logins : Bool) : Tab → Tab → Type 0 where
  done : {s : Tab} → Run logins s s
  then_step : {s t u : Tab} → Run logins s t → Step logins t u → Run logins s u

abbrev IsOut : Tab → Type 0
IsOut s = (s.session ≡ clear_session) × (s.refreshing ≡ 0)

step-IsOut : (s t : Tab) → Step false s t → IsOut s → IsOut t
step-IsOut s _ (begin_refresh token held) (out, idle) =
    ground (arith, held, ap (λ (t : Session). truthy t.refresh) out)
step-IsOut s _ (end_refresh n access refresh role busy) (out, idle) = ground (arith, busy, idle)
step-IsOut s _ (fail_refresh n busy) (out, idle) = ground (arith, busy, idle)
step-IsOut s _ log_out (out, idle) = (refl, idle)
step-IsOut s _ (log_in logins access refresh role) h = cc

-- A logout is final while no refresh awaits its answer: whatever calls follow, nothing is stored again
-- until a login.
pub Run-out :
    (s t : Tab)
    → s.session ≡ clear_session
    → s.refreshing ≡ 0
    → Run false s t
    → (t.session ≡ clear_session) × (t.refreshing ≡ 0)
Run-out s _ out idle done = (out, idle)
Run-out s _ out idle (then_step {t} {u} before step) =
    step-IsOut t u step (Run-out s t out idle before)

-- It is not final while one does: from any session, where a refresh awaits its answer, the user may log
-- out, and then the answer, with whatever tokens it carries, signs the user in again without a login.
pub revived :
    (s : Tab) (n : ℕ) (access refresh role : String)
    → s.refreshing ≡ suc n
    → (u : Tab) × (t : Tab) × Step false s u
      × (u.session ≡ clear_session)
      × Run false u t
      × (t.session ≡ set_session access refresh role)
revived s n access refresh role busy =
    let u : Tab = record s { session = clear_session } in
    let t : Tab = record { session = set_session access refresh role; refreshing = n } in
    (u, t, log_out, refl, then_step done (end_refresh n access refresh role busy), refl)
