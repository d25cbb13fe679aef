-- ===== src/Pages/Dashboard.antt =====
-- panel/app/(dash)/dashboard/page.tsx. Times are in milliseconds; `number` prints a number.
pub mod Ages
pub mod View
use rafineai_self_hosted.Prelude.{
  ℕ, String, ◌-◌, ◌/◌, ltb, Option, none, some, List, [], ◌===◌, if◌then◌else◌,
}
use rafineai_self_hosted.Exec.{Failure, message, Exec, Done, try_catch, ◌>>=◌, ◌>>◌, detach, skip}
use rafineai_self_hosted.Types.{Alert}
use rafineai_self_hosted.ToolTypes.{Summary, TsPoint, ModelRow, UserRow}
use rafineai_self_hosted.Page.{
  list, summary, ts_point, model_row, user_row, alert, get, Machine, Env, await_api, both, set_ui,
  load,
}
use Prim.Native.String

-- The class and the label of an action in the feed.
unfoldable pub pill : String → Option (String × String)
pill a =
    if a === "block"
    then some ("pill-crit", "engel")
    else if a === "mask"
    then some ("pill-good", "maske")
    else if a === "flag"
    then some ("pill-warn", "flag")
    else none

-- What `ago` says, before it is put into words.
pub data Age : Type 0 where
  just_now : Age
  minutes hours days : ℕ → Age

-- The seconds are ms / 1000, a fraction; the tests and the floors are on the milliseconds.
unfoldable pub age : (now at : ℕ) → Age
age now at =
    if ltb (now - at) 60000
    then just_now
    else if ltb (now - at) 3600000
    then minutes ((now - at) / 60000)
    else if ltb (now - at) 86400000
    then hours ((now - at) / 3600000)
    else days ((now - at) / 86400000)

abbrev words_of : (ℕ → String) → Age → String
words_of number just_now = "az önce"
words_of number (minutes n) = String.◌++◌ (number n) " dk önce"
words_of number (hours n) = String.◌++◌ (number n) " sa önce"
words_of number (days n) = String.◌++◌ (number n) " gün önce"

unfoldable pub ago : (ℕ → String) → (now at : ℕ) → String
unfolding age
ago number now at = words_of number (age now at)

pub record Dashboard : Type 0 where
  pub days : ℕ
  pub summary : Option Summary
  pub ts : List TsPoint
  pub models : List ModelRow
  pub users_top : List UserRow
  pub alerts : List Alert
  pub error : String

abbrev pub report : {W : Type 0} → Failure → Exec (Machine Dashboard W) Done
report e = set_ui (λ s. record s { error = message e })

abbrev pub ignore : {W : Type 0} → Failure → Exec (Machine Dashboard W) Done
ignore e = skip

abbrev query : (ℕ → String) → String → ℕ → String
query number path n = String.◌++◌ path (String.◌++◌ "?days=" (number n))

module _ (number : ℕ → String) {W : Type 0} (env : Env Dashboard W) where
  unfoldable pub load_metrics : ℕ → Exec (Machine Dashboard W) Done
  unfolding both await_api
  load_metrics n = do
    (s, (t, (m, u))) ← both (await_api env summary (get (query number "/api/metrics/summary" n))) (
        both (await_api env (list ts_point) (get (query number "/api/metrics/timeseries" n))) (
          both (await_api env (list model_row) (get (query number "/api/metrics/by_model" n)))
            (await_api env (list user_row) (get (query number "/api/metrics/by_user" n)))))
    set_ui (λ d. record d { summary = some s; ts = t; models = m; users_top = u })

  unfoldable pub load_alerts : Exec (Machine Dashboard W) Done
  unfolding load
  load_alerts =
      try_catch (load env (list alert) (get "/api/alerts") (λ a d. record d { alerts = a })) ignore

  -- The effect, run for each choice of days; neither part waits for the other.
  unfoldable pub mount : ℕ → Exec (Machine Dashboard W) Done
  mount n = do detach (try_catch (load_metrics n) report); detach load_alerts
