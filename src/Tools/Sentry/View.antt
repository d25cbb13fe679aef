-- ===== src/Tools/Sentry/View.antt =====
-- What the Sentry page shows: the projects, the box for a link, the analysis and the issues.
use rafineai_self_hosted.Prelude.{
  String, Text, trim, Bool, true, false, not, ◌&&◌, ◌||◌, Option, none, some, List, [], ◌∷◌, map,
  is_empty, text_eq, ◌===◌, if◌then◌else◌,
}
use Prim.Native.String
use rafineai_self_hosted.ToolTypes.{Project, Issue, Explanation}
use rafineai_self_hosted.Tools.Sentry.{Sentry, reference}

-- The row of a project, with whether it is the active one.
unfoldable pub project_rows : Sentry → List (String × Bool)
project_rows s = map (λ (p : Project). (p.name, s.active === p.slug)) s.projects

pub record Button : Type 0 where
  pub label : String
  pub disabled : Bool

unfoldable pub link_button : Sentry → Button
link_button s = record {
  label = if text_eq s.analyzing s.link_input then "Analiz ediliyor…" else "Analiz et";
  disabled = is_empty (trim s.link_input) || text_eq s.analyzing s.link_input;
}

pub record Analysis : Type 0 where
  pub heading : String
  pub link : Option String
  pub answer : String

abbrev unless_blank : String → Option String
unless_blank v = if v === "" then none else some v

-- result.title || `Issue ${result.issue_id}`
abbrev analysis_of : Explanation → Analysis
analysis_of r = record {
  heading = if r.title === "" then String.◌++◌ "Issue " r.issue_id else r.title;
  link = unless_blank r.permalink;
  answer = r.answer;
}

unfoldable pub analysis : Sentry → Option Analysis
analysis s = elim s.result [ none ↦ none | some r ↦ some (analysis_of r) ]

pub record IssueCard : Type 0 where
  pub level : String
  pub class : String
  pub title : String
  pub href : String
  pub count : String
  pub button : Button
  pub culprit : Option String

-- LEVEL[i.level] || "bg-slate-100 text-slate-600"
unfoldable pub level_class : String → String
level_class l =
    if l === "error"
    then "bg-red-100 text-red-700"
    else if l === "warning"
    then "bg-amber-100 text-amber-700"
    else if l === "info"
    then "bg-sky-100 text-sky-700"
    else "bg-slate-100 text-slate-600"

unfoldable pub card_of : Text → Issue → IssueCard
unfolding reference level_class
card_of analyzing i = record {
  level = if i.level === "" then "?" else i.level;
  class = level_class i.level;
  title = i.title;
  href = i.permalink;
  count = String.◌++◌ i.count "×";
  button = record {
    label = if text_eq analyzing (reference i) then "…" else "🔍 Analiz et";
    disabled = text_eq analyzing (reference i);
  };
  culprit = unless_blank i.culprit;
}

unfoldable pub cards : Sentry → List IssueCard
unfolding card_of
cards s = map (card_of s.analyzing) s.issues

-- The hints: nothing is chosen and nothing analysed, and a project without issues.
unfoldable pub hints : Sentry → List String
hints s =
    (if s.active === "" && (elim s.result [ none ↦ true | some r ↦ false ])
      then "Bir proje seçin ya da yukarıya bir hata linki yapıştırın." ∷ []
      else if not (s.active === "") && is_empty s.issues
      then "Açık issue yok. 🎉" ∷ []
      else [])
