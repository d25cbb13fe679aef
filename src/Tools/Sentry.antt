-- ===== src/Tools/Sentry.antt =====
-- panel/app/(dash)/tools/sentry/page.tsx.
pub mod Explaining
pub mod Buttons
pub mod View
use rafineai_self_hosted.Prelude.{
  String, Text, text, trim, Bool, Option, none, some, List, [], ◌∷◌, is_empty, ◌===◌, if◌then◌else◌,
}
use rafineai_self_hosted.Exec.{Failure, message, Exec, Done, try_catch, finally, ◌>>=◌, ◌>>◌, skip}
use rafineai_self_hosted.Json.{words, object}
use rafineai_self_hosted.ToolTypes.{Project, Issue, Explanation}
use rafineai_self_hosted.Page.{
  list, project, issue, explanation, Call, get, post, Machine, Env, on_ui, set_ui, load,
}
use Prim.Native.String

pub record Sentry : Type 0 where
  pub projects : List Project
  pub active : String
  pub issues : List Issue
  pub error : String
  pub link_input : Text
  -- The id or the url of the issue that is being explained, or "".
  pub analyzing : Text
  pub result : Option Explanation
  pub analysis_error : String

-- setLinkInput(v)
abbrev pub type_link : Text → Sentry → Sentry
type_link v s = record s { link_input = v }

-- i.permalink || i.id
unfoldable pub reference : Issue → Text
unfolding text
reference i = if i.permalink === "" then i.id else text i.permalink

abbrev pub report : {W : Type 0} → Failure → Exec (Machine Sentry W) Done
report e = set_ui (λ s. record s { error = message e })

abbrev pub no_issues : {W : Type 0} → Failure → Exec (Machine Sentry W) Done
no_issues e = set_ui (λ s. record s { error = message e; issues = [] })

abbrev pub report_analysis : {W : Type 0} → Failure → Exec (Machine Sentry W) Done
report_analysis e = set_ui (λ s. record s { analysis_error = message e })

abbrev pub explain_call : Text → Call
explain_call i = post "/api/tools/sentry/explain" (object (("issue", words i) ∷ []))

module _ {W : Type 0} (env : Env Sentry W) where
  unfoldable pub mount : Exec (Machine Sentry W) Done
  unfolding load
  mount =
      try_catch
        (load env (list project) (get "/api/tools/sentry/projects")
          (λ ps s. record s { projects = ps }))
        report

  unfoldable pub open_project : String → Exec (Machine Sentry W) Done
  unfolding load
  open_project slug = do
    set_ui (λ s. record s { active = slug; error = "" })
    try_catch
        (load env (list issue) (get (String.◌++◌ "/api/tools/sentry/issues?project=" slug))
          (λ is s. record s { issues = is }))
        no_issues

  unfoldable pub explain_attempt : Text → Exec (Machine Sentry W) Done
  unfolding load
  explain_attempt i = load env explanation (explain_call i) (λ r s. record s { result = some r })

  unfoldable pub explain : Text → Exec (Machine Sentry W) Done
  explain i = if is_empty (trim i) then skip else (do
    set_ui (λ s. record s { analyzing = i; analysis_error = ""; result = none })
    finally (try_catch (explain_attempt i) report_analysis)
        (on_ui (λ s. record s { analyzing = [] })))

  -- The button of an issue: setLinkInput(i.permalink || i.id), and explain of the same.
  unfoldable pub analyze : Issue → Exec (Machine Sentry W) Done
  unfolding reference explain
  analyze i = do set_ui (type_link (reference i)); explain (reference i)

  -- onKeyDown of the box for a link
  unfoldable pub link_key : (enter : Bool) → Exec (Machine Sentry W) Done
  unfolding explain
  link_key enter m = if enter then explain m.ui.link_input m else skip m
