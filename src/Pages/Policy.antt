-- ===== src/Pages/Policy.antt =====
-- panel/app/(dash)/policy/page.tsx.
pub mod Masking
pub mod View
use rafineai_self_hosted.Prelude.{
  String, Bool, true, false, not, Option, none, some, List, [], ◌∷◌, find, ◌===◌, if◌then◌else◌,
}
use rafineai_self_hosted.Exec.{
  Failure, message, Exec, Done, captured, try_catch, ◌>>=◌, ◌>>◌, detach, skip,
}
use rafineai_self_hosted.Json.{Json, bool, str, object}
use rafineai_self_hosted.Types.{Builtin, PolicyRule}
use rafineai_self_hosted.Page.{
  list, builtin, policy_rule, dictionary, Call, get, post, put, patch, delete, ◌/+◌, Machine, Env,
  await_api, set_ui, load, request,
}

pub record RuleForm : Type 0 where
  pub name : String
  pub category : String
  pub kind : String
  pub pattern : String
  pub action : String
  pub severity : String

pub record Policy : Type 0 where
  pub builtins : List Builtin
  pub rules : List PolicyRule
  pub error : String
  pub mask_responses : Bool
  pub form : RuleForm

abbrev pub initial : Policy
initial = record {
  builtins = [];
  rules = [];
  error = "";
  mask_responses = true;
  form = record {
    name = "";
    category = "custom";
    kind = "keyword";
    pattern = "";
    action = "mask";
    severity = "medium";
  };
}

-- set(k, v): the keys of the form.
pub data Key : Type 0 where
  name category kind pattern action severity : Key

unfoldable pub set : Key → String → RuleForm → RuleForm
set name v f = record f { name = v }
set category v f = record f { category = v }
set kind v f = record f { kind = v }
set pattern v f = record f { pattern = v }
set action v f = record f { action = v }
set severity v f = record f { severity = v }

-- s[key] of a `Record<string, string>`
unfoldable pub setting : String → List (String × String) → Option String
setting k [] = none
setting k ((j, v) ∷ s) = if j === k then some v else setting k s

abbrev is_not_false : Option String → Bool
is_not_false none = true
is_not_false (some v) = not (v === "false")

-- s.mask_responses !== "false"
unfoldable pub masks : List (String × String) → Bool
unfolding setting
masks s = is_not_false (setting "mask_responses" s)

abbrev pub report : {W : Type 0} → Failure → Exec (Machine Policy W) Done
report e = set_ui (λ s. record s { error = message e })

abbrev pub mask_call : Bool → Call
mask_call on =
    put "/api/settings/mask_responses"
      (object (("value", str (if on then "true" else "false")) ∷ []))

abbrev pub rule_fields : RuleForm → List (String × Json)
rule_fields f =
    ("name", str f.name)
    ∷ ("category", str f.category)
    ∷ ("kind", str f.kind)
    ∷ ("pattern", str f.pattern)
    ∷ ("action", str f.action)
    ∷ ("severity", str f.severity)
    ∷ []

module _ {W : Type 0} (env : Env Policy W) where
  unfoldable pub refresh : Exec (Machine Policy W) Done
  unfolding load
  refresh = load env (list policy_rule) (get "/api/policy/rules") (λ rs s. record s { rules = rs })

  -- The effect of the first render: three requests, each with its own `catch`.
  unfoldable pub mount : Exec (Machine Policy W) Done
  unfolding load refresh masks
  mount = do
    try_catch
        (load env (list builtin) (get "/api/policy/builtins") (λ bs s. record s { builtins = bs }))
        (λ _. skip)
    try_catch
        (load env dictionary (get "/api/settings") (λ d s. record s { mask_responses = masks d }))
        (λ _. skip)
    try_catch refresh report

  -- toggleMaskResponses(); `maskResponses` is the closure's.
  unfoldable pub toggle_mask_responses : Exec (Machine Policy W) Done
  unfolding request
  toggle_mask_responses = captured λ c.
      let next = not c.ui.mask_responses in
      do
        set_ui (λ s. record s { mask_responses = next })
        try_catch (request env (mask_call next))
            (λ e. set_ui (λ s. record s { mask_responses = not next; error = message e }))

  unfoldable pub create_attempt : RuleForm → Exec (Machine Policy W) Done
  unfolding request refresh
  create_attempt f = do
    request env (post "/api/policy/rules" (object (rule_fields f)))
    set_ui (λ s. record s { form = record f { name = ""; pattern = "" } })
    detach refresh

  unfoldable pub create : Exec (Machine Policy W) Done
  unfolding create_attempt
  create =
      captured
        λ c. do set_ui (λ s. record s { error = "" }); try_catch (create_attempt c.ui.form) report

  unfoldable pub toggle : PolicyRule → Exec (Machine Policy W) Done
  unfolding request refresh
  toggle r = do
    request env
        (patch ("/api/policy/rules/" /+ r.id) (object (("enabled", bool (not r.enabled)) ∷ [])))
    detach refresh

  unfoldable pub remove : Bool → PolicyRule → Exec (Machine Policy W) Done
  unfolding request refresh
  remove confirmed r =
      if confirmed
      then (do request env (delete ("/api/policy/rules/" /+ r.id)); detach refresh)
      else skip
