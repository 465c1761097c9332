-- ===== src/Tests/Phase.antt =====
-- The theorems on the phases' identifiers and files at concrete identifiers and names.
use aegis_workers.Base.{refl, true, some, ◌≡◌, false, [], ◌∷◌, codes, Text, All}
use Prim.Native.Nat.{Ordering, eq}
use aegis_workers.Phase.Number.{
  normalize_phase_name, compare_phase_num, then_by, match_phase, compare_padded, compare_letter,
  compare_segments,
}
use aegis_workers.Phase.Number.Laws.{
  IsNumeric, flip, compare_phase_num-flip, compare_phase_num-chain,
}
use aegis_workers.Phase.Number.Normalize.{
  normalize_phase_name_idempotent, compare_phase_num-normalize,
}
use aegis_workers.Phase.Files.{is_kind, summary_kind, get_phase_file_stats}
use aegis_workers.Phase.Directories.{read_subdirectories}
use aegis_workers.Phase.Files.Laws.{get_phase_file_stats-disjoint}

abbrev no_locale : Text → Text → Ordering
no_locale s t = eq

one-IsNumeric : IsNumeric (codes "1a")
unfolding match_phase
one-IsNumeric = λ e. cc

two-IsNumeric : IsNumeric (codes "2.1")
unfolding match_phase
two-IsNumeric = λ e. cc

ten-IsNumeric : IsNumeric (codes "10")
unfolding match_phase
ten-IsNumeric = λ e. cc

compare_phase_num-flip_example :
    compare_phase_num no_locale (codes "2.1") (codes "1a")
    ≡ flip (compare_phase_num no_locale (codes "1a") (codes "2.1"))
compare_phase_num-flip_example =
    compare_phase_num-flip no_locale (codes "1a") (codes "2.1") one-IsNumeric two-IsNumeric

compare_phase_num-chain_example :
    compare_phase_num no_locale (codes "1a") (codes "10")
    ≡ then_by
        (compare_phase_num no_locale (codes "1a") (codes "2.1"))
        (compare_phase_num no_locale (codes "2.1") (codes "10"))
unfolding compare_phase_num match_phase compare_padded compare_letter compare_segments
compare_phase_num-chain_example =
    compare_phase_num-chain no_locale (codes "1a") (codes "2.1") (codes "10") one-IsNumeric
      two-IsNumeric ten-IsNumeric (λ e. cc) (λ e. cc)

normalize_phase_name_idempotent_example :
    normalize_phase_name (normalize_phase_name (codes "1a.2")) ≡ normalize_phase_name (codes "1a.2")
normalize_phase_name_idempotent_example = normalize_phase_name_idempotent (codes "1a.2")

compare_phase_num-normalize_example :
    compare_phase_num no_locale (normalize_phase_name (codes "1a")) (codes "2.1")
    ≡ compare_phase_num no_locale (codes "1a") (codes "2.1")
compare_phase_num-normalize_example =
    compare_phase_num-normalize no_locale (codes "1a") (codes "2.1") one-IsNumeric two-IsNumeric

get_phase_file_stats-disjoint_example :
    All
      (λ f. is_kind summary_kind f ≡ false)
      (get_phase_file_stats (codes "01-PLAN.md" ∷ codes "SUMMARY.md" ∷ [])).plans
get_phase_file_stats-disjoint_example =
    get_phase_file_stats-disjoint (codes "01-PLAN.md" ∷ codes "SUMMARY.md" ∷ [])

subdirectories_sorted :
    read_subdirectories no_locale
      (some (
        record { name = codes "10-b"; is_directory = true }
        ∷ record { name = codes "2-a"; is_directory = true }
        ∷ []))
      true
    ≡ codes "2-a" ∷ codes "10-b" ∷ []
unfolding read_subdirectories compare_phase_num match_phase compare_padded compare_letter
    compare_segments
subdirectories_sorted = refl
