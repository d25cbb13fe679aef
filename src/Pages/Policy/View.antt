-- ===== src/Pages/Policy/View.antt =====
-- What the policy page shows: the switch, the built-in detectors, the form and the rules.
use rafineai_self_hosted.Prelude.{
  String, Bool, Option, none, some, List, [], ◌∷◌, map, is_empty, ◌===◌, if◌then◌else◌,
}
use rafineai_self_hosted.Types.{Builtin, PolicyRule}
use rafineai_self_hosted.Pages.Policy.{RuleForm, Policy, setting}

-- ACTION_TR, and the classes ACT and SEV: a key that is missing gives no label, and "undefined" as a class.
abbrev pub action_labels : List (String × String)
action_labels = ("mask", "Maskele") ∷ ("block", "Blokla") ∷ ("flag", "Uyar") ∷ []

abbrev action_classes : List (String × String)
action_classes =
    ("mask", "bg-indigo-100 text-indigo-700")
    ∷ ("block", "bg-red-100 text-red-700")
    ∷ ("flag", "bg-amber-100 text-amber-700")
    ∷ []

abbrev severity_classes : List (String × String)
severity_classes =
    ("high", "bg-red-100 text-red-700")
    ∷ ("medium", "bg-amber-100 text-amber-700")
    ∷ ("low", "bg-slate-100 text-slate-600")
    ∷ []

abbrev or_undefined : Option String → String
or_undefined none = "undefined"
or_undefined (some v) = v

pub record Badge : Type 0 where
  pub class : String
  pub label : Option String

unfoldable pub action_badge : String → Badge
unfolding setting
action_badge a = record {
  class = or_undefined (setting a action_classes);
  label = setting a action_labels;
}

unfoldable pub severity_badge : String → Badge
unfolding setting
severity_badge v = record { class = or_undefined (setting v severity_classes); label = some v }

unfoldable pub switch_title : Policy → String
switch_title s = if s.mask_responses then "Açık" else "Kapalı"

unfoldable pub detectors : Policy → List (String × Badge)
unfolding action_badge
detectors s = map (λ (b : Builtin). (b.name, action_badge b.action)) s.builtins

-- The options of the selects: the value, and what is shown for it.
abbrev pub kinds : List (String × String)
kinds = ("keyword", "Anahtar kelime") ∷ ("regex", "Regex") ∷ []

abbrev pub actions : List (String × String)
actions = ("mask", "Maskele") ∷ ("block", "Blokla") ∷ ("flag", "Uyar") ∷ []

abbrev pub severities : List (String × String)
severities = ("low", "Düşük") ∷ ("medium", "Orta") ∷ ("high", "Yüksek") ∷ []

unfoldable pub pattern_placeholder : RuleForm → String
pattern_placeholder f = if f.kind === "regex" then "örn. \\bGIZLI-\\d+\\b" else "örn. ProjeAtlas"

pub record Row : Type 0 where
  pub name : String
  pub category : String
  pub kind : String
  pub pattern : String
  pub action : Badge
  pub severity : Badge
  pub toggle_label : String

unfoldable pub row_of : PolicyRule → Row
unfolding action_badge severity_badge
row_of r = record {
  name = r.name;
  category = r.category;
  kind = r.kind;
  pattern = r.pattern;
  action = action_badge r.action;
  severity = severity_badge r.severity;
  toggle_label = if r.enabled then "Pasifleştir" else "Aktifleştir";
}

-- The rows, or the line for no rules.
unfoldable pub rows : Policy → List Row
unfolding row_of
rows s = map row_of s.rules

unfoldable pub is_bare : Policy → Bool
is_bare s = is_empty s.rules
