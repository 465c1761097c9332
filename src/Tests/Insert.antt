-- ===== src/Tests/Insert.antt =====
-- The insertion and the removal of phases at concrete directories.
use aegis_workers.Base.{
  none, All, arith, text_eq, text_eq_iff, ◌≢◌, sym, ◌∙◌, false, refl, true, false, ◌≡◌, ◌⊎◌, inr,
  some, [], ◌∷◌, ◌++◌, List, codes, Text, number_text,
}
use Prim.Native.Nat.{Ordering, eq}
use aegis_workers.Cli.Number.{scan_digits}
use aegis_workers.Phase.Number.{compare_phase_num, match_phase, compare_letter, compare_segments}
use aegis_workers.Phase.Number.Normalize.{IsRun}
use aegis_workers.Phase.Files.{is_kind, filter_summary_files}
use aegis_workers.Phase.Folders.{Dir, files_in}
use aegis_workers.Phase.Renumber.Steps.{In}
use aegis_workers.Phase.Insert.{RunPattern, insert_decimal, insert_dir, generate_slug, next_decimal}
use aegis_workers.Phase.Insert.Laws.{insert_dir-fresh, are_words, generate_slug-are_words}
use aegis_workers.Phase.Insert.Agree.{next_decimal-insert_decimal}
use aegis_workers.Phase.Renumber.{DecimalPattern}
use aegis_workers.Phase.Renumber.Items.{IsSlug}
use aegis_workers.Phase.Renumber.Plan.{Pairwise}
use aegis_workers.Phase.Remove.Folders.{
  Unlike, Folder, dirs_of, folder_names, others, renumbered_from,
}
use aegis_workers.Phase.Remove.Named.{IsUnexecuted, phase_remove-folder_names}
use aegis_workers.Phase.Remove.{removed, phase_remove}
use aegis_workers.Phase.Remove.Laws.{names_left, phase_remove-filter_summary_files}

abbrev no_locale : Text → Text → Ordering
no_locale s t = eq

abbrev dirs : List Text
dirs = codes "06-base" ∷ codes "06.2-fix" ∷ codes "06.10-tests" ∷ codes "07-docs" ∷ []

-- Patterns that match nothing
abbrev no_run : RunPattern
no_run base name = none

abbrev no_pattern : DecimalPattern
no_pattern base name = none

-- The pattern that the base C*D makes does not match the directory C*D.1-a, whose name is taken again.
special_taken : insert_dir no_run (codes "C*D") (codes "a") (codes "C*D.1-a" ∷ []) ≡ codes "C*D.1-a"
unfolding insert_dir number_text
special_taken = refl

inserted : insert_dir no_run (codes "06") (codes "hot-fix") dirs ≡ codes "06.11-hot-fix"
unfolding insert_dir number_text
inserted = refl

insert_dir-fresh_example : In (insert_dir no_run (codes "06") (codes "hot-fix") dirs) dirs → ⊥
insert_dir-fresh_example = insert_dir-fresh no_run (codes "06") (codes "hot-fix") dirs refl

same : Text → Text
same s = s

abbrev title : Text
title = codes "--fix: the  parser!"

abbrev slug : Text
slug = codes "fix-the-parser"

slug_of_title : generate_slug same title ≡ some slug
unfolding generate_slug same
slug_of_title = refl

generate_slug-are_words_example : (slug ≡ []) ⊎ (are_words true slug ≡ true)
generate_slug-are_words_example = generate_slug-are_words same title slug slug_of_title

base-IsRun : IsRun (codes "06")
base-IsRun = ((λ e. cc), (refl, (refl, tt)))

next_decimal-insert_decimal_example :
    (next_decimal no_run no_locale (codes "06") (some dirs)).next
    ≡ codes "06" ++ (b'.' ∷ number_text (insert_decimal no_run (codes "06") dirs))
next_decimal-insert_decimal_example =
    next_decimal-insert_decimal no_run no_locale (codes "06") dirs base-IsRun

-- Behind a decimal phase, the number behind the first point is taken: the phase printed is there.
next_decimal_taken :
    (next_decimal no_run no_locale
      (codes "06.1")
      (some (codes "06.1.1-a" ∷ codes "06.1.2-b" ∷ codes "06.1.3-c" ∷ []))).next
    ≡ codes "06.1.2"
unfolding next_decimal compare_phase_num match_phase compare_letter compare_segments number_text
    scan_digits
next_decimal_taken = refl

abbrev planned : List Dir
planned =
    record { name = codes "05-core"; files = codes "05-01-PLAN.md" ∷ [] }
    ∷ record {
      name = codes "06-data";
      files = codes "06-01-PLAN.md" ∷ codes "06-01-SUMMARY.md" ∷ [];
    }
    ∷ record { name = codes "07-docs"; files = codes "07-01-PLAN.md" ∷ [] }
    ∷ []

five_removed :
    phase_remove no_locale no_pattern true (codes "5") false planned
    ≡ removed
        (some (codes "05-core"))
        ((codes "07-docs", codes "06-docs") ∷ (codes "06-data", codes "05-data") ∷ [])
        ((codes "07-01-PLAN.md", codes "06-01-PLAN.md")
          ∷ (codes "06-01-PLAN.md", codes "05-01-PLAN.md")
          ∷ (codes "06-01-SUMMARY.md", codes "05-01-SUMMARY.md")
          ∷ [])
        (record {
          name = codes "05-data";
          files = codes "05-01-PLAN.md" ∷ codes "05-01-SUMMARY.md" ∷ [];
        }
          ∷ record { name = codes "06-docs"; files = codes "06-01-PLAN.md" ∷ [] }
          ∷ [])
unfolding phase_remove compare_phase_num match_phase compare_letter compare_segments number_text
    is_kind scan_digits
five_removed = refl

abbrev phases : List Folder
phases =
    record { number = 7; slug = codes "docs"; files = [] }
    ∷ record { number = 5; slug = codes "core"; files = codes "05-01-PLAN.md" ∷ [] }
    ∷ record { number = 4; slug = codes "base"; files = codes "04-01-SUMMARY.md" ∷ [] }
    ∷ record { number = 16; slug = codes "end"; files = [] }
    ∷ []

phases-IsUnexecuted : IsUnexecuted 5 phases
unfolding filter_summary_files is_kind
phases-IsUnexecuted = (
  (λ e. absurd (omega arith)),
  ((λ e. refl), ((λ e. absurd (omega arith)), ((λ e. absurd (omega arith)), tt))),
)

phases-slugs : All (λ e. IsSlug e.slug) phases
phases-slugs = (
  (λ e. cc, (refl, (refl, (refl, (refl, tt))))),
  (
    (λ e. cc, (refl, (refl, (refl, (refl, tt))))),
    ((λ e. cc, (refl, (refl, (refl, (refl, tt))))), ((λ e. cc, (refl, (refl, (refl, tt)))), tt)),
  ),
)

apart : (s t : Text) → text_eq s t ≡ false → s ≢ t
apart s t h = λ e. differ (sym ((text_eq_iff s t).1 e) ∙ h)
  where
    differ : true ≡ false → ⊥
    differ g = cc

phases-Unlike : Pairwise Unlike phases
phases-Unlike = (
  (
    (λ e. absurd (omega arith), apart _ _ refl),
    (
      (λ e. absurd (omega arith), apart _ _ refl),
      ((λ e. absurd (omega arith), apart _ _ refl), tt),
    ),
  ),
  (
    (
      (λ e. absurd (omega arith), apart _ _ refl),
      ((λ e. absurd (omega arith), apart _ _ refl), tt),
    ),
    (((λ e. absurd (omega arith), apart _ _ refl), tt), (tt, tt)),
  ),
)

phase_remove-folder_names_example :
    names_left (phase_remove no_locale no_pattern true (number_text 5) false (dirs_of phases))
    ≡ some (folder_names (renumbered_from 5) (others 5 phases))
phase_remove-folder_names_example =
    phase_remove-folder_names no_locale no_pattern 5 false phases phases-slugs phases-Unlike
      (inr phases-IsUnexecuted)

phase_remove-filter_summary_files_example :
    filter_summary_files (files_in (codes "05-core") planned) ≡ []
phase_remove-filter_summary_files_example =
    phase_remove-filter_summary_files no_locale no_pattern true (codes "5") (codes "05-core")
      planned
      (record {
        name = codes "05-data";
        files = codes "05-01-PLAN.md" ∷ codes "05-01-SUMMARY.md" ∷ [];
      }
        ∷ record { name = codes "06-docs"; files = codes "06-01-PLAN.md" ∷ [] }
        ∷ [])
      ((codes "07-docs", codes "06-docs") ∷ (codes "06-data", codes "05-data") ∷ [])
      ((codes "07-01-PLAN.md", codes "06-01-PLAN.md")
        ∷ (codes "06-01-PLAN.md", codes "05-01-PLAN.md")
        ∷ (codes "06-01-SUMMARY.md", codes "05-01-SUMMARY.md")
        ∷ [])
      five_removed

-- The removal of 06.1.2 takes the decimal 1 for the removed one: 06.2 becomes 06.1 beside 06.1.
nested_removal :
    names_left (
      phase_remove no_locale no_pattern true (codes "6.1.2") false (
        record { name = codes "06.1-base"; files = [] }
        ∷ record { name = codes "06.1.2-fix"; files = [] }
        ∷ record { name = codes "06.2-tests"; files = [] }
        ∷ []))
    ≡ some (codes "06.1-base" ∷ codes "06.1-tests" ∷ [])
unfolding phase_remove compare_phase_num match_phase compare_letter compare_segments number_text
    scan_digits
nested_removal = refl

-- The removal of 12A renumbers the phase behind 12, which is still there.
letter_removal :
    names_left (
      phase_remove no_locale no_pattern true (codes "12A") false (
        record { name = codes "12-base"; files = [] }
        ∷ record { name = codes "12A-fix"; files = [] }
        ∷ record { name = codes "13-tests"; files = [] }
        ∷ []))
    ≡ some (codes "12-base" ∷ codes "12-tests" ∷ [])
unfolding phase_remove compare_phase_num match_phase compare_letter compare_segments number_text
    scan_digits
letter_removal = refl

-- A phase behind white space is found by no name, and its number renumbers: 06 becomes a second 05.
spaced_removal :
    names_left (
      phase_remove no_locale no_pattern true (codes " 5") false (
        record { name = codes "05-core"; files = [] }
        ∷ record { name = codes "06-data"; files = [] }
        ∷ []))
    ≡ some (codes "05-core" ∷ codes "05-data" ∷ [])
unfolding phase_remove compare_phase_num match_phase compare_letter compare_segments number_text
    scan_digits
spaced_removal = refl

-- A negative number renumbers every phase.
negative_removal :
    names_left (
      phase_remove no_locale no_pattern true (codes "-5") false (
        record { name = codes "00-setup"; files = [] }
        ∷ record { name = codes "01-core"; files = [] }
        ∷ []))
    ≡ some (codes "-1-setup" ∷ codes "00-core" ∷ [])
unfolding phase_remove compare_phase_num match_phase compare_letter compare_segments number_text
    scan_digits
negative_removal = refl
