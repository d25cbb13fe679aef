-- ===== src/Pages/Dashboard/Ages.antt =====
-- The age of an alert.
use rafineai_self_hosted.Prelude.{ℕ, ◌+◌, ◌-◌, ◌*◌, ◌≤◌, ◌<◌, ltb, arith, inl, inr, Bool-cases}
use rafineai_self_hosted.Pages.Dashboard.{Age, just_now, minutes, hours, days, age}

-- An age says of the milliseconds since: less than a minute, or whole minutes under an hour, whole
-- hours under a day, or whole days.
abbrev pub IsAge : ℕ → Age → Type 0
IsAge ms just_now = ms < 60000
IsAge ms (minutes n) = (1 ≤ n) × (n < 60) × (n * 60000 ≤ ms) × (ms < n * 60000 + 60000)
IsAge ms (hours n) = (1 ≤ n) × (n < 24) × (n * 3600000 ≤ ms) × (ms < n * 3600000 + 3600000)
IsAge ms (days n) = (1 ≤ n) × (n * 86400000 ≤ ms) × (ms < n * 86400000 + 86400000)

-- The age shown is that of the time since, rounded down to a whole unit, in the largest unit that fits; a
-- time that is still to come counts as just now.
pub age-IsAge : (now at : ℕ) → IsAge (now - at) (age now at)
unfolding age
age-IsAge now at = elim (Bool-cases (ltb (now - at) 60000)) [
  | inl h ↦ rw h (ground (arith, h))
  | inr h ↦ elim (Bool-cases (ltb (now - at) 3600000)) [
    | inl k ↦ rw (h, k) (ground arith)
    | inr k ↦ elim (Bool-cases (ltb (now - at) 86400000)) [
      | inl l ↦ rw (h, k, l) (ground arith)
      | inr l ↦ rw (h, k, l) (ground arith)
    ]
  ]
]
