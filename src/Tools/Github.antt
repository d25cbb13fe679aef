-- ===== src/Tools/Github.antt =====
-- panel/app/(dash)/tools/github/page.tsx. `encode` is `encodeURIComponent`, and `part` a piece of a
-- repository's name put into a path.
pub mod Folders
pub mod View
use rafineai_self_hosted.Prelude.{
  String, Text, text, Bool, not, true, false, Option, none, some, List, [], ◌∷◌, filter, is_empty,
  ◌===◌, split_on, join, if◌then◌else◌,
}
use rafineai_self_hosted.Exec.{
  Failure, message, Exec, Done, captured, try_catch, finally, ◌>>=◌, ◌>>◌, detach, skip,
}
use rafineai_self_hosted.ToolTypes.{Repo, Entry, FileContent}
use rafineai_self_hosted.Page.{
  list, repo, entry, file_content, Call, get, ◌/+◌, Machine, Env, on_ui, set_ui, load,
}
use Prim.Native.String

pub record Github : Type 0 where
  pub repos : List Repo
  pub repo : Option Repo
  pub path : Text
  pub entries : List Entry
  pub file : Option FileContent
  pub error : String
  pub loading : Bool

abbrev pub report : {W : Type 0} → Failure → Exec (Machine Github W) Done
report e = set_ui (λ s. record s { error = message e })

-- const [owner, name] = full_name.split("/"): a part that is missing reads "undefined" in the path.
abbrev first_part : List Text → Text
first_part [] = text "undefined"
first_part (p ∷ ps) = p

abbrev second_part : List Text → Text
second_part [] = text "undefined"
second_part (p ∷ []) = text "undefined"
second_part (p ∷ q ∷ ps) = q

-- parts.pop()
abbrev pub init : List Text → List Text
init [] = []
init (p ∷ []) = []
init (p ∷ q ∷ ps) = p ∷ init (q ∷ ps)

-- path.split("/").filter(Boolean), less its last part, joined again
unfoldable pub parent : Text → Text
unfolding split_on join
parent path = join 47 (init (filter (λ (p : Text). not (is_empty p)) (split_on 47 path)))

module _ (encode part : Text → String) where
  unfoldable pub repo_call : Repo → String → Text → Call
  unfolding split_on text
  repo_call r what path = get (
      String.◌++◌
        ("/api/tools/github/repos/"
          /+ part (first_part (split_on 47 r.full_name))
          /+ part (second_part (split_on 47 r.full_name))
          /+ what)
        (String.◌++◌ "?path=" (encode path)))

  module _ {W : Type 0} (env : Env Github W) where
    unfoldable pub mount : Exec (Machine Github W) Done
    unfolding load
    mount =
        try_catch
          (load env (list repo) (get "/api/tools/github/repos") (λ rs s. record s { repos = rs }))
          report

    unfoldable pub read_folder : Repo → Text → Exec (Machine Github W) Done
    unfolding load
    read_folder r p =
        load env (list entry) (repo_call r "tree" p) (λ es s. record s { entries = es })

    unfoldable pub open_repo : Repo → Text → Exec (Machine Github W) Done
    open_repo r p = do
      set_ui (λ s. record s { repo = some r; path = p; file = none; error = ""; loading = true })
      finally (try_catch (read_folder r p) report) (on_ui (λ s. record s { loading = false }))

    unfoldable pub read_file : Repo → Entry → Exec (Machine Github W) Done
    unfolding load
    read_file r e =
        load env file_content (repo_call r "file" e.path) (λ f s. record s { file = some f })

    abbrev open_in : Option Repo → Entry → Exec (Machine Github W) Done
    open_in none e = skip
    open_in (some r) e = if e.type === "dir" then detach (open_repo r e.path) else (do
      set_ui (λ s. record s { error = ""; loading = true })
      finally (try_catch (read_file r e) report) (on_ui (λ s. record s { loading = false })))

    unfoldable pub open_entry : Entry → Exec (Machine Github W) Done
    unfolding open_repo read_file
    open_entry e = captured λ m. open_in m.ui.repo e

    abbrev parent_in : Option Repo → Text → Exec (Machine Github W) Done
    parent_in none p = skip
    parent_in (some r) p = detach (open_repo r (parent p))

    -- parentPath()
    unfoldable pub parent_path : Exec (Machine Github W) Done
    unfolding open_repo parent
    parent_path = captured λ m. parent_in m.ui.repo m.ui.path
