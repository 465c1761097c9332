-- ===== src/Phase/Directories.antt =====
-- `readSubdirectories` of core.cjs: the names of a directory's child directories, sorted as phases
-- on request. The sort is stable.
use Prim.Native.Nat.{Ordering, lt, eq, gt}
use aegis_workers.Base.{Bool, Option, none, some, List, [], ◌∷◌, Text, if◌then◌else◌}
use aegis_workers.Phase.Number.{compare_phase_num}

-- An entry that `readdirSync` gives.
pub record Entry : Type 0 where
  pub name : Text
  pub is_directory : Bool

abbrev directory_names : List Entry → List Text
directory_names [] = []
directory_names (e ∷ es) =
    let rest = directory_names es in if e.is_directory then e.name ∷ rest else rest

module _ (locale : Text → Text → Ordering) where
  unfoldable pub insert_phase : Text → List Text → List Text
  insert_phase x [] = x ∷ []
  insert_phase x (y ∷ ys) = elim (compare_phase_num locale x y) [
    | gt ↦ y ∷ insert_phase x ys
    | eq ↦ x ∷ y ∷ ys
    | lt ↦ x ∷ y ∷ ys
  ]

  unfoldable pub sort_phases : List Text → List Text
  unfolding insert_phase
  sort_phases [] = []
  sort_phases (x ∷ xs) = insert_phase x (sort_phases xs)

  -- A directory that cannot be read is given as missing.
  unfoldable pub read_subdirectories : Option (List Entry) → Bool → List Text
  unfolding sort_phases
  read_subdirectories none sort = []
  read_subdirectories (some entries) sort =
      let dirs = directory_names entries in if sort then sort_phases dirs else dirs
