-- ===== src/Phase/Folders.antt =====
-- The directories of `phases/` as the renumbering of phase.cjs changes them: a directory is its name
-- and the names of its files.
use aegis_workers.Base.{
  Bool, true, false, Option, none, some, List, [], ◌∷◌, ◌++◌, if◌then◌else◌, ltb, Text, text_eq,
  find, length,
}

pub record Dir : Type 0 where
  pub name : Text
  pub files : List Text

-- A directory to rename, with the identifiers that its files' names change.
pub record Rename : Type 0 where
  pub from : Text
  pub to : Text
  pub old_id : Text
  pub new_id : Text

-- What the functions report, and what they leave. A rename that the system refuses throws, and
-- the directories stay as they are then.
pub record Renamed : Type 0 where
  pub dirs : List Dir
  pub renamed_dirs : List (Text × Text)
  pub renamed_files : List (Text × Text)
  pub completed : Bool

abbrev pub names_of : List Dir → List Text
names_of [] = []
names_of (d ∷ ds) = d.name ∷ names_of ds

abbrev pub find_dir : Text → List Dir → Option Dir
find_dir name dirs = find (λ d. text_eq d.name name) dirs

abbrev pub rename_entry : Text → Text → List Dir → List Dir
rename_entry old new [] = []
rename_entry old new (d ∷ ds) =
    let rest = rename_entry old new ds in
    if text_eq d.name old then record { name = new; files = d.files } ∷ rest else d ∷ rest

abbrev pub without_dir : Text → List Dir → List Dir
without_dir name [] = []
without_dir name (d ∷ ds) =
    let rest = without_dir name ds in if text_eq d.name name then rest else d ∷ rest

-- `fs.renameSync` on directories: it throws for a directory that is not there, and for a new name
-- whose directory has files; an empty directory of the new name is replaced.
unfoldable pub rename_dir : Text → Text → List Dir → Option (List Dir)
rename_dir old new dirs = elim (find_dir old dirs) [
  | none ↦ none
  | some d ↦ if text_eq old new then some dirs else elim (find_dir new dirs) [
    | none ↦ some (rename_entry old new dirs)
    | some e ↦
        if ltb 0 (length e.files) then none else some (rename_entry old new (without_dir new dirs))
  ]
]

-- `fs.renameSync` on files: a file of the new name is replaced.
abbrev pub move_file : Text → Text → List Text → List Text
move_file old new [] = []
move_file old new (f ∷ fs) =
    let rest = move_file old new fs in
    if text_eq f old then new ∷ rest else if text_eq f new then rest else f ∷ rest

abbrev pub Files : Type 0
Files = List Text × List (Text × Text)

-- The loop over the files that were there, which reports the renamed ones
abbrev pub rename_files : (Text → Option Text) → List Text → List Text → Files
rename_files f [] files = (files, [])
rename_files f (x ∷ xs) files = elim (f x) [
  | none ↦ rename_files f xs files
  | some y ↦ let (left, report) = rename_files f xs (move_file x y files) in (left, (x, y) ∷ report)
]

abbrev pub set_files : Text → List Text → List Dir → List Dir
set_files name files [] = []
set_files name files (d ∷ ds) =
    let rest = set_files name files ds in
    if text_eq d.name name then record { name = d.name; files = files } ∷ ds else d ∷ rest

abbrev pub files_in : Text → List Dir → List Text
files_in name dirs = elim (find_dir name dirs) [ none ↦ [] | some d ↦ d.files ]

-- The loop over the items; `file_name r` gives the new name of a file.
unfoldable pub rename_all : (Rename → Text → Option Text) → List Rename → List Dir → Renamed
unfolding rename_dir
rename_all file_name [] dirs = record {
  dirs = dirs;
  renamed_dirs = [];
  renamed_files = [];
  completed = true;
}
rename_all file_name (r ∷ rs) dirs = elim (rename_dir r.from r.to dirs) [
  | none ↦ record { dirs = dirs; renamed_dirs = []; renamed_files = []; completed = false }
  | some moved ↦
      let files = files_in r.to moved in
      let (left, report) = rename_files (file_name r) files files in
      let later = rename_all file_name rs (set_files r.to left moved) in
      record {
        dirs = later.dirs;
        renamed_dirs = (r.from, r.to) ∷ later.renamed_dirs;
        renamed_files = report ++ later.renamed_files;
        completed = later.completed;
      }
]
