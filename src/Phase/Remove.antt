-- ===== src/Phase/Remove.antt =====
-- `cmdPhaseRemove` of phase.cjs on the directories of `phases/`: the guard on executed work, the
-- removal, and the renumbering. Its changes of ROADMAP.md and STATE.md are not modelled.
pub mod Laws
pub mod Folders
pub mod Clear
pub mod Integers
pub mod Named
use aegis_workers.Base.{
  ℕ, Bool, true, false, ◌||◌, ◌&&◌, not, any, Option, none, some, List, [], ◌∷◌, ◌++◌, ◌==◌,
  if◌then◌else◌, ltb, Text, text_eq, begins, find, length, digits_value,
}
use Prim.Native.Nat.{Ordering}
use aegis_workers.Phase.Number.{span_digits, normalize_phase_name}
use aegis_workers.Phase.Files.{filter_summary_files}
use aegis_workers.Phase.Renumber.{
  DecimalPattern, Item, sorted_names, decimal_item, integer_item, rename_decimal_phases,
  rename_integer_phases,
}
use aegis_workers.Cli.Number.{Number, nan, int}
use aegis_workers.Phase.Insert.{number_at}
use aegis_workers.Phase.Folders.{Dir, Renamed, files_in, without_dir}
use aegis_workers.Security.Names.{parts}

-- What the command does: it ends without a phase or a roadmap, refuses with the number of the executed plans, or reports the directory
-- that it deleted and the renames. Renames that end with an exception are not reported.
pub data Removal : Type 0 where
  no_phase no_roadmap : Removal
  refused : ℕ → Removal
  removed :
      (directory_deleted : Option Text)
      → (renamed_directories renamed_files : List (Text × Text)) → (dirs : List Dir) → Removal

-- The removed number as the renumbering takes it, where `none` stands for one below zero; there is
-- none for NaN.
abbrev removed_number : Number → Option (Option ℕ)
removed_number nan = none
removed_number (int negative n) = if negative && ltb 0 n then some none else some (some n)

abbrev first_part : List Text → Text
first_part [] = []
first_part (x ∷ l) = x

abbrev second_part : List Text → Option Text
second_part (x ∷ y ∷ l) = some y
second_part _ = none

-- Which renumbering follows: that of the decimals, that of the integers, or none, since no number is
-- larger than NaN
pub data Follow : Type 0 where
  decimals : (base : Text) (removed : Option ℕ) → Follow
  integers : (removed : Option ℕ) → Follow
  nothing : Follow

abbrev follow_decimal : Text → Option (Option ℕ) → Follow
follow_decimal base none = nothing
follow_decimal base (some n) = decimals base n

abbrev follow_integer : Option (Option ℕ) → Follow
follow_integer none = nothing
follow_integer (some n) = integers n

-- `isDecimal ? … : …`, for the target and its normalized name
unfoldable pub follow_of : Text → Text → Follow
unfolding parts
follow_of target normalized =
    let segments = parts b'.' normalized in
    if any (λ c. c == b'.') target
    then follow_decimal (first_part segments) (removed_number (number_at (second_part segments)))
    else follow_integer (removed_number (number_at (some normalized)))

-- `!targetPhase`
abbrev pub is_missing : Text → Bool
is_missing [] = true
is_missing (c ∷ s) = false

module _ (locale : Text → Text → Ordering) where
  unfoldable pub renumbered : DecimalPattern → Follow → List Dir → Renamed
  unfolding rename_decimal_phases rename_integer_phases
  renumbered special (decimals base n) dirs = rename_decimal_phases locale special base n dirs
  renumbered special (integers n) dirs = rename_integer_phases locale n dirs
  renumbered special nothing dirs = record {
    dirs = dirs;
    renamed_dirs = [];
    renamed_files = [];
    completed = true;
  }

  unfoldable pub target_dir : Text → List Dir → Option Text
  target_dir normalized dirs =
      find (λ d. begins d (normalized ++ (b'-' ∷ [])) || text_eq d normalized)
        (sorted_names locale dirs)

  -- The number of the summaries of the directory
  abbrev pub executed : Option Text → List Dir → ℕ
  executed none dirs = 0
  executed (some name) dirs = length (filter_summary_files (files_in name dirs))

  abbrev pub remaining : Option Text → List Dir → List Dir
  remaining none dirs = dirs
  remaining (some name) dirs = without_dir name dirs

  abbrev report : Option Text → Renamed → Removal
  report target x =
      if x.completed
      then removed target x.renamed_dirs x.renamed_files x.dirs
      else removed target [] [] x.dirs

  unfoldable pub phase_remove :
      DecimalPattern → (roadmap : Bool) → Text → (force : Bool) → List Dir → Removal
  unfolding renumbered target_dir follow_of filter_summary_files normalize_phase_name
  phase_remove special roadmap phase force dirs =
      let normalized = normalize_phase_name phase in
      let target = target_dir normalized dirs in
      if is_missing phase
      then no_phase
      else if not roadmap
      then no_roadmap
      else if not force && ltb 0 (executed target dirs)
      then refused (executed target dirs)
      else report target (renumbered special (follow_of phase normalized) (remaining target dirs))
