-- ===== src/Access/Gate.antt =====
-- The gate and the change of a password.
use rafineai_self_hosted.Prelude.{
  text_eq, length, ltb, Bool, true, false, not, ◌&&◌, some, ◌≡◌, refl, inl, inr, Bool-cases, arith,
  if◌then◌else◌, String, Option, none, [], ◌∷◌, ◌===◌, Option-cases,
}
use rafineai_self_hosted.Exec.{message, Done, Outcome, ok, fail}
use rafineai_self_hosted.Types.{User}
use rafineai_self_hosted.Client.{Session}
use rafineai_self_hosted.Json.{words, object}
use rafineai_self_hosted.Page.{post, Call, user, nothing, get, Machine, Env, request}
use rafineai_self_hosted.Page.Quiet.{IsQuiet, Outcome-cases}
use rafineai_self_hosted.Access.{
  Layout, has_token, admit, admit_attempt, gate, ChangePassword, change_attempt, submit,
}

-- What the answer to "who am I" makes of the layout.
abbrev pub gated : Outcome User → Layout → Layout
gated (ok me) s =
    if me.must_change_password
    then record s { location = "/change-password" }
    else record s { ready = true; role = s.session.role; email = me.email }
gated (fail e) s = record s { location = "/login" }

-- A token that is neither missing nor blank.
abbrev pub holds : Option String → Bool
holds none = false
holds (some t) = not (t === "")

has_token-holds : (s : Session) → has_token s ≡ holds s.access
unfolding has_token
has_token-holds s = elim (Option-cases s.access) [
  | inl e ↦ rw e refl
  | inr (t, e) ↦ rw e (ground arith)
]

-- While nothing else runs: the gate does not throw; where no token is stored, or a blank one, it sends to
-- the login; with a token the server's answer decides: a user who must change the password is sent
-- to do so, another is let in with the mail of the answer and the role of the session, and a
-- failure sends to the login; nothing else of the layout changes.
pub gate-gated :
    {W : Type 0} (env : Env Layout W) (m : Machine Layout W)
    → IsQuiet env
    → ((gate env m).0 ≡ ok tt)
      × ((gate env m).1.ui ≡ (
          if holds m.ui.session.access
          then gated (env.call user (get "/api/auth/me") m.world).0 m.ui
          else record m.ui { location = "/login" }))
unfolding gate admit_attempt admit
gate-gated env m quiet =
    rw (← has_token-holds m.ui.session) (elim (Bool-cases (has_token m.ui.session)) [
      | inl h ↦ elim (Outcome-cases (env.call user (get "/api/auth/me") m.world).0) [
        | inl (a, p) ↦ rw (h, p, quiet) (refl, refl)
        | inr (b, p) ↦ rw (h, p, quiet) (refl, refl)
      ]
      | inr h ↦ rw h (refl, refl)
    ])

-- The page after a submission: what it shows of a password that is too short or not repeated, and of
-- the answer.
abbrev pub changed : Outcome Done → ChangePassword → ChangePassword
changed (ok u) s = record s { error = ""; saving = false; location = some "/chat" }
changed (fail e) s = record s { error = message e; saving = false }

abbrev pub submitted : Outcome Done → ChangePassword → ChangePassword
submitted o s =
    if ltb (length s.next) 8
    then record s { error = "New password must be at least 8 characters." }
    else if text_eq s.next s.confirm
    then changed o s
    else record s { error = "Passwords do not match." }

-- The request that a submission makes.
abbrev pub change_request : ChangePassword → Call
change_request s =
    post "/api/auth/change-password"
      (object (("current_password", words s.current) ∷ ("new_password", words s.next) ∷ []))

-- While nothing else runs, the submission does not throw: a new password of under 8 code units, or one that
-- is not repeated exactly, sets the error and leaves the world as it was, so that nothing is sent;
-- else the current and the new password are sent, success leads to the chat and a failure shows
-- its message, and saving has ended.
pub submit-submitted :
    {W : Type 0} (env : Env ChangePassword W) (m : Machine ChangePassword W)
    → IsQuiet env
    → ((submit env m).0 ≡ ok tt)
      × ((submit env m).1.ui ≡ submitted (env.call nothing (change_request m.ui) m.world).0 m.ui)
      × ((submit env m).1.world ≡ (
          if not (ltb (length m.ui.next) 8) && text_eq m.ui.next m.ui.confirm
          then (env.call nothing (change_request m.ui) m.world).1
          else m.world))
unfolding submit change_attempt request
submit-submitted env m quiet = elim (Bool-cases (ltb (length m.ui.next) 8)) [
  | inl h ↦ rw h (refl, refl, refl)
  | inr h ↦ elim (Bool-cases (text_eq m.ui.next m.ui.confirm)) [
    | inl t ↦ elim (Outcome-cases (env.call nothing (change_request m.ui) m.world).0) [
      | inl (a, p) ↦ rw (h, t, p, quiet) (refl, refl, refl)
      | inr (b, p) ↦ rw (h, t, p, quiet) (refl, refl, refl)
    ]
    | inr t ↦ rw (h, t) (refl, refl, refl)
  ]
]
