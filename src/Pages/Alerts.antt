-- ===== src/Pages/Alerts.antt =====
-- panel/app/(dash)/alerts/page.tsx.
pub mod Snippets
pub mod View
use rafineai_self_hosted.Prelude.{
  ℕ, zero, suc, String, Text, text, strip_prefix, Bool, true, false, not, ◌&&◌, Option, none, some,
  List, [], ◌∷◌, ◌++◌, includes, toggle_id, length, take, ltb, if◌then◌else◌,
}
use rafineai_self_hosted.Exec.{
  Failure, message, Exec, Done, captured, try_catch, ◌>>=◌, ◌>>◌, detach,
}
use rafineai_self_hosted.Types.{Alert}
use rafineai_self_hosted.Page.{
  list, alert, Call, get, no_content, ◌/+◌, Machine, Env, await_api, set_ui, load, request,
}

pub record Alerts : Type 0 where
  pub alerts : List Alert
  pub only_open : Bool
  pub expanded : List String
  pub error : String

-- text.split("[MASKED]"): `skip` characters of a separator are still to be passed over.
abbrev separator : Text
separator = text "[MASKED]"

abbrev head_onto : ℕ → List Text → List Text
head_onto c [] = (c ∷ []) ∷ []
head_onto c (p ∷ ps) = (c ∷ p) ∷ ps

unfoldable pub split_masked : ℕ → Text → List Text
split_masked skip [] = [] ∷ []
split_masked (suc skip) (c ∷ t) = split_masked skip t
split_masked zero (c ∷ t) = elim (strip_prefix separator (c ∷ t)) [
  | some r ↦ [] ∷ split_masked 7 t
  | none ↦ head_onto c (split_masked zero t)
]

-- What SnippetText shows: the parts, with a mark between two of them.
pub data Piece : Type 0 where
  plain : Text → Piece
  masked : Piece

unfoldable pub pieces : List Text → List Piece
pieces [] = []
pieces (p ∷ []) = plain p ∷ []
pieces (p ∷ q ∷ ps) = plain p ∷ masked ∷ pieces (q ∷ ps)

unfoldable pub snippet_text : Text → List Piece
unfolding pieces split_masked
snippet_text t = pieces (split_masked zero t)

abbrev pub collapse_at : ℕ
collapse_at = 300

-- isLong and displaySnippet
unfoldable pub is_long : Alert → Bool
is_long a = ltb collapse_at (length a.snippet)

unfoldable pub display_snippet : List String → Alert → Text
unfolding is_long
display_snippet expanded a =
    if is_long a && not (includes a.id expanded)
    then take collapse_at a.snippet ++ text "…"
    else a.snippet

-- toggleExpand(id)
unfoldable pub toggle_expand : String → Alerts → Alerts
toggle_expand id s = record s { expanded = toggle_id id s.expanded }

abbrev pub report : {W : Type 0} → Failure → Exec (Machine Alerts W) Done
report e = set_ui (λ s. record s { error = message e })

abbrev pub alerts_path : Bool → String
alerts_path only_open =
    "/api/alerts" /+ (if only_open then "?resolved=false&limit=200" else "?limit=200")

module _ {W : Type 0} (env : Env Alerts W) where
  unfoldable pub refresh : Exec (Machine Alerts W) Done
  unfolding load
  refresh = captured λ c.
      load env (list alert) (get (alerts_path c.ui.only_open)) (λ xs s. record s { alerts = xs })

  -- The effect of the first render and of each change of `onlyOpen`.
  unfoldable pub mount : Exec (Machine Alerts W) Done
  unfolding refresh
  mount = try_catch refresh report

  unfoldable pub set_only_open : Bool → Exec (Machine Alerts W) Done
  unfolding mount
  set_only_open b = do set_ui (λ s. record s { only_open = b }); mount

  unfoldable pub resolve : Alert → Exec (Machine Alerts W) Done
  unfolding request refresh
  resolve a = do
    request env (record {
      method = "POST";
      path = "/api/alerts/" /+ a.id /+ "/resolve";
      content = no_content;
    })
    detach refresh
