-- ===== src/Tests/Renumber.antt =====
-- The renumbering of phases at concrete directories.
use aegis_workers.Base.{
  refl, false, ◌≡◌, [], ◌∷◌, List, codes, Text, number_text, ◌++◌, ◌-◌, if◌then◌else◌, ltb, none,
  some,
}
use aegis_workers.Phase.Number.{compare_phase_num, match_phase, compare_letter, compare_segments}
use Prim.Native.Nat.{Ordering, eq}
use aegis_workers.Phase.Renumber.{
  DecimalPattern, decimal_item, integer_item, decimal_id, integer_prefix, rename_decimal_phases,
}
use aegis_workers.Phase.Folders.{Dir}
use aegis_workers.Phase.Renumber.Names.{renumber}
use aegis_workers.Phase.Renumber.Items.{renumber_lem}

abbrev no_locale : Text → Text → Ordering
no_locale s t = eq

abbrev left_dirs : List Dir
left_dirs =
    record { name = codes "06.1-base"; files = codes "06.1-01-PLAN.md" ∷ [] }
    ∷ record { name = codes "06.3-fix"; files = codes "06.3-01-PLAN.md" ∷ codes "notes.md" ∷ [] }
    ∷ record { name = codes "06.4-tests"; files = codes "06.4-01-PLAN.md" ∷ [] }
    ∷ record { name = codes "07-docs"; files = [] }
    ∷ []

-- A pattern that matches nothing; no base below has special characters.
abbrev no_pattern : DecimalPattern
no_pattern base name = none

decimals_renumbered :
    (rename_decimal_phases no_locale no_pattern (codes "06") (some 2) left_dirs).dirs ≡ (
      record { name = codes "06.1-base"; files = codes "06.1-01-PLAN.md" ∷ [] }
      ∷ record { name = codes "06.2-fix"; files = codes "06.2-01-PLAN.md" ∷ codes "notes.md" ∷ [] }
      ∷ record { name = codes "06.3-tests"; files = codes "06.3-01-PLAN.md" ∷ [] }
      ∷ record { name = codes "07-docs"; files = [] }
      ∷ [])
unfolding rename_decimal_phases compare_phase_num match_phase compare_letter compare_segments
    number_text
decimals_renumbered = refl

renumber_lem_example :
    (renumber
        (decimal_item no_pattern (codes "06") (some 2))
        (decimal_id (codes "06") 3 ++ (b'-' ∷ codes "fix"))
      ≡ decimal_id (codes "06") (if ltb 2 3 then 3 - 1 else 3) ++ (b'-' ∷ codes "fix"))
    × (renumber (integer_item (some 2)) (integer_prefix 3 [] none ++ (b'-' ∷ codes "fix"))
        ≡ integer_prefix (if ltb 2 3 then 3 - 1 else 3) [] none ++ (b'-' ∷ codes "fix"))
renumber_lem_example =
    renumber_lem no_pattern (codes "06") (codes "fix") 2 3 refl
      ((λ e. cc), (refl, (refl, (refl, tt))))

-- Two siblings with the same slug: the first rename, of the larger decimal, meets the directory of
-- the smaller one, and no directory is renumbered.
abbrev same_slug : List Dir
same_slug =
    record { name = codes "06.3-fix"; files = codes "06.3-01-PLAN.md" ∷ [] }
    ∷ record { name = codes "06.4-fix"; files = codes "06.4-01-PLAN.md" ∷ [] }
    ∷ []

same_slug_refused :
    ((rename_decimal_phases no_locale no_pattern (codes "06") (some 2) same_slug).completed ≡ false)
    × ((rename_decimal_phases no_locale no_pattern (codes "06") (some 2) same_slug).dirs
        ≡ same_slug)
unfolding rename_decimal_phases compare_phase_num match_phase compare_letter compare_segments
    number_text
same_slug_refused = (refl, refl)
