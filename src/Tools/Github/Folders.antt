-- ===== src/Tools/Github/Folders.antt =====
-- Walking the folders of a repository.
use rafineai_self_hosted.Prelude.{
  String, Text, not, true, false, none, some, List, [], ◌∷◌, ◌++◌, ◌≡◌, refl, ap, ◌∙◌, filter,
  is_empty, All, arith, inl, inr, split_on, join, IsFree, split_on-join,
}
use rafineai_self_hosted.Exec.{message, Outcome, ok, fail}
use rafineai_self_hosted.ToolTypes.{Repo, Entry}
use rafineai_self_hosted.Page.{list, entry, Machine, Env}
use rafineai_self_hosted.Page.Quiet.{IsQuiet, Outcome-cases}
use rafineai_self_hosted.Tools.Github.{Github, init, parent, repo_call, read_folder, open_repo}

-- The names of the folders from the root: none is empty or has a slash.
abbrev pub AreNames : List Text → Type 0
AreNames ps = All (IsFree 47) ps × All (λ (p : Text). not (is_empty p) ≡ true) ps

filter-names :
    (ps : List Text)
    → All (λ (p : Text). not (is_empty p) ≡ true) ps
    → filter (λ (p : Text). not (is_empty p)) ps ≡ ps
filter-names [] h = refl
filter-names (p ∷ ps) h = ground (arith, filter-names ps h.1)

init-append : (ps : List Text) (p : Text) → init (ps ++ p ∷ []) ≡ ps
init-append [] p = refl
init-append (q ∷ []) p = refl
init-append (q ∷ r ∷ ps) p = ap (λ t. q ∷ t) (init-append (r ∷ ps) p)

split-join :
    (ps : List Text) (p : Text)
    → AreNames (ps ++ p ∷ [])
    → filter (λ (q : Text). not (is_empty q)) (split_on 47 (join 47 (ps ++ p ∷ []))) ≡ ps ++ p ∷ []
split-join [] p h = rw (split_on-join 47 p [] h.0) (filter-names (p ∷ []) h.1)
split-join (q ∷ ps) p h =
    rw (split_on-join 47 q (ps ++ p ∷ []) h.0) (filter-names (q ∷ ps ++ p ∷ []) h.1)

-- Going up from the path of a folder gives the path of the folder it stands in, of the root for a
-- folder of the root.
pub parent-join :
    (folders : List Text) (name : Text)
    → AreNames (folders ++ name ∷ [])
    → parent (join 47 (folders ++ name ∷ [])) ≡ join 47 folders
unfolding parent
parent-join folders name h =
    ap (λ ps. join 47 (init ps)) (split-join folders name h)
    ∙ ap (join 47) (init-append folders name)

-- A folder of a repository, with what it holds or why that is not known.
abbrev pub folder : Repo → Text → Outcome (List Entry) → Github → Github
folder r p (ok es) s = record s {
  repo = some r;
  path = p;
  file = none;
  error = "";
  loading = false;
  entries = es;
}
folder r p (fail e) s = record s {
  repo = some r;
  path = p;
  file = none;
  error = message e;
  loading = false;
}

-- Where nothing else runs meanwhile, opening a folder never throws, closes the file, and shows what
-- the folder holds; a failed request shows its error and leaves the entries that were shown before.
pub open_repo-folder :
    (encode part : Text → String) {W : Type 0} (env : Env Github W) (r : Repo) (p : Text)
    (m : Machine Github W)
    → IsQuiet env
    → ((open_repo encode part env r p m).0 ≡ ok tt)
      × ((open_repo encode part env r p m).1.ui
          ≡ folder r p (env.call (list entry) (repo_call encode part r "tree" p) m.world).0 m.ui)
unfolding open_repo read_folder
open_repo-folder encode part env r p m quiet =
    elim (Outcome-cases (env.call (list entry) (repo_call encode part r "tree" p) m.world).0) [
      | inl (a, h) ↦ rw (h, quiet) (refl, refl)
      | inr (e, h) ↦ rw (h, quiet) (refl, refl)
    ]
