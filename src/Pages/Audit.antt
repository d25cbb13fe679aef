-- ===== src/Pages/Audit.antt =====
-- panel/app/(dash)/audit/page.tsx.
pub mod View
use rafineai_self_hosted.Prelude.{String, List}
use rafineai_self_hosted.Exec.{Failure, message, Exec, Done, try_catch}
use rafineai_self_hosted.Types.{AuditRow}
use rafineai_self_hosted.Page.{list, audit_row, get, Machine, Env, set_ui, load}

pub record Audit : Type 0 where
  pub rows : List AuditRow
  pub error : String

abbrev pub report : {W : Type 0} → Failure → Exec (Machine Audit W) Done
report e = set_ui (λ s. record s { error = message e })

unfoldable pub mount : {W : Type 0} → Env Audit W → Exec (Machine Audit W) Done
unfolding load
mount env =
    try_catch
      (load env (list audit_row) (get "/api/audit?limit=200") (λ r s. record s { rows = r })) report
