-- ===== src/Tools/Github/View.antt =====
-- What the GitHub page shows: the repositories, the header, and a file or the entries of a folder.
use rafineai_self_hosted.Prelude.{
  ℕ, String, Text, text, text_eq, Bool, true, false, Option, none, some, List, map, is_empty, ◌===◌,
  if◌then◌else◌,
}
use rafineai_self_hosted.Decimal.{to_fixed}
use rafineai_self_hosted.ToolTypes.{Repo, Entry, FileContent}
use rafineai_self_hosted.Tools.Github.{Github}

pub record RepoRow : Type 0 where
  pub name : Text
  pub is_private : Bool
  pub is_active : Bool

abbrev is_open : Text → Option Repo → Bool
is_open name none = false
is_open name (some r) = text_eq r.full_name name

unfoldable pub repo_rows : Github → List RepoRow
repo_rows s =
    map
      (λ (r : Repo). record {
        name = r.full_name;
        is_private = r.is_private;
        is_active = is_open r.full_name s.repo;
      })
      s.repos

-- The repository, and its path or "(kök)".
abbrev header_of : Text → Option Repo → Text × Option Text
unfolding text
header_of path none = (text "Repo seçin", none)
header_of path (some r) = (r.full_name, some (if is_empty path then text "(kök)" else path))

unfoldable pub header : Github → Text × Option Text
unfolding header_of
header s = header_of s.path s.repo

-- An entry: its sign, and for a file its size in tenths of a KB.
pub record EntryRow : Type 0 where
  pub is_folder : Bool
  pub name : String
  pub size : Option ℕ

unfoldable pub entry_row : Entry → EntryRow
unfolding to_fixed
entry_row e = record {
  is_folder = e.type === "dir";
  name = e.name;
  size =
      if e.type === "file" then some (to_fixed 10 (record { num = e.size; den = 1024 })) else none;
}

-- A file, or the entries, with ".." below the root of a repository.
pub data Body : Type 0 where
  file : FileContent → Body
  folder : (has_parent : Bool) → List EntryRow → Body

abbrev has_parent : Text → Option Repo → Bool
has_parent path none = false
has_parent path (some r) = if is_empty path then false else true

unfoldable pub body : Github → Body
unfolding entry_row
body s = elim s.file [
  | some f ↦ file f
  | none ↦ folder (has_parent s.path s.repo) (map entry_row s.entries)
]

-- The button "Geri": setFile(null)
unfoldable pub close_file : Github → Github
close_file s = record s { file = none }
