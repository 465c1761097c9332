-- ===== src/Phase/Remove/Laws.antt =====
-- What the removal of a phase deletes, and the directories that it leaves.
use aegis_workers.Base.{
  ℕ, ◌≡◌, refl, sym, ap, ◌∙◌, ◌⊎◌, inl, inr, Bool, true, false, ◌&&◌, not, Option, none, some, List,
  [], ◌∷◌, ltb, Text, length, Bool-cases, arith,
}
use mathlib.Core.Path.{subst}
use Prim.Native.Nat.{Ordering}
use aegis_workers.Phase.Number.{normalize_phase_name}
use aegis_workers.Phase.Files.{filter_summary_files}
use aegis_workers.Phase.Renumber.{DecimalPattern, Item, decimal_item, integer_item}
use aegis_workers.Phase.Folders.{Dir, Renamed, names_of, files_in}
use aegis_workers.Phase.Renumber.Steps.{each, each-id}
use aegis_workers.Phase.Renumber.Names.{renumber, IsClear}
use aegis_workers.Phase.Renumber.Complete.{
  rename_decimal_phases-renumber, rename_integer_phases-renumber,
}
use aegis_workers.Phase.Remove.{
  Removal, no_phase, is_missing, no_roadmap, refused, removed, Follow, decimals, integers, nothing,
  follow_of, renumbered, target_dir, executed, remaining, report, phase_remove,
}

-- The rename of a directory that a removal plans
abbrev pub rule : DecimalPattern → Follow → Text → Option Item
rule special (decimals base n) = decimal_item special base n
rule special (integers n) = integer_item n
rule special nothing = λ name. none

-- The names of the directories behind a removal
abbrev pub names_left : Removal → Option (List Text)
names_left no_phase = none
names_left no_roadmap = none
names_left (refused n) = none
names_left (removed d r f dirs) = some (names_of dirs)

abbrev pub phase_rule : DecimalPattern → Text → Text → Option Item
phase_rule special phase = rule special (follow_of phase (normalize_phase_name phase))

module _ (locale : Text → Text → Ordering) where
  abbrev pub phase_dir : Text → List Dir → Option Text
  phase_dir phase dirs = target_dir locale (normalize_phase_name phase) dirs

  -- The names of the directories but that of the phase
  abbrev pub other_names : Text → List Dir → List Text
  other_names phase dirs = names_of (remaining locale (phase_dir phase dirs) dirs)

  renumbered-rule :
      (special : DecimalPattern) (f : Follow) (dirs : List Dir)
      → IsClear (rule special f) (names_of dirs)
      → names_of (renumbered locale special f dirs).dirs
        ≡ each (renumber (rule special f)) (names_of dirs)
  unfolding renumbered
  renumbered-rule special (decimals base n) dirs c =
      (rename_decimal_phases-renumber locale special base n dirs c).1
  renumbered-rule special (integers n) dirs c = (rename_integer_phases-renumber locale n dirs c).1
  renumbered-rule special nothing dirs c = sym (each-id (names_of dirs))

  names_left-report :
      (t : Option Text) (x : Renamed) → names_left (report locale t x) ≡ some (names_of x.dirs)
  names_left-report t x = elim (Bool-cases x.completed) [ inl e ↦ rw e refl | inr e ↦ rw e refl ]

  pub phase_remove-renumber :
      (special : DecimalPattern) (phase : Text) (force : Bool) (dirs : List Dir)
      → is_missing phase ≡ false
      → (force ≡ true) ⊎ (executed locale (phase_dir phase dirs) dirs ≡ 0)
      → IsClear (phase_rule special phase) (other_names phase dirs)
      → names_left (phase_remove locale special true phase force dirs)
        ≡ some (each (renumber (phase_rule special phase)) (other_names phase dirs))
  unfolding phase_remove
  phase_remove-renumber special phase force dirs filled g c =
      let normalized = normalize_phase_name phase in
      let target = target_dir locale normalized dirs in
      let f = follow_of phase normalized in
      let passes : (not force && ltb 0 (executed locale target dirs)) ≡ false = elim g [
        | inl e ↦ rw e refl
        | inr e ↦ rw e (ground arith)
      ] in
      rw (filled, passes, phase_remove)
        (names_left-report target (renumbered locale special f (remaining locale target dirs))
          ∙ ap (λ l. some l) (renumbered-rule special f (remaining locale target dirs) c))

  -- A removal without force that deletes a directory deletes none with a summary in it.
  pub phase_remove-filter_summary_files :
      (special : DecimalPattern) (roadmap : Bool) (phase name : Text) (dirs ds : List Dir)
      (r f : List (Text × Text))
      → phase_remove locale special roadmap phase false dirs ≡ removed (some name) r f ds
      → filter_summary_files (files_in name dirs) ≡ []
  unfolding phase_remove
  phase_remove-filter_summary_files special roadmap [] name dirs ds r f e = absurd cc
  phase_remove-filter_summary_files special false (c ∷ s) name dirs ds r f e = absurd (no_removal e)
    where
      no_removal : no_roadmap ≡ removed (some name) r f ds → ⊥
      no_removal g = cc
  phase_remove-filter_summary_files special true (c ∷ s) name dirs ds r f e =
      let phase = c ∷ s in
      let target = target_dir locale (normalize_phase_name phase) dirs in
      elim (Bool-cases (ltb 0 (executed locale target dirs))) [
        | inl p ↦ absurd (never (rw (p, phase_remove) at e))
        | inr p ↦ no_items (filter_summary_files (files_in name dirs)) (
            subst (λ t. ltb 0 (executed locale t dirs) ≡ false)
              (deleted-report target _ (rw (p, phase_remove) at e)) p)
      ]
    where
      never : {n : ℕ} → refused n ≡ removed (some name) r f ds → ⊥
      never g = cc

      no_items : (xs : List Text) → ltb 0 (length xs) ≡ false → xs ≡ []
      no_items [] g = refl
      no_items (x ∷ xs) g = absurd (ground arith)

      deleted : Removal → Option Text
      deleted (removed t a b c) = t
      deleted _ = none

      deleted-report :
          (t : Option Text) (x : Renamed)
          → report locale t x ≡ removed (some name) r f ds
          → t ≡ some name
      deleted-report t x g = elim (Bool-cases x.completed) [
        | inl p ↦ ap deleted (rw p at g)
        | inr p ↦ ap deleted (rw p at g)
      ]
