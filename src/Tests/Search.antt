-- ===== src/Tests/Search.antt =====
-- The search for a phase at concrete directories.
use aegis_workers.Base.{◌≡◌, refl, inl, false, none, some, [], ◌∷◌, ◌++◌, List, codes, Text}
use Prim.Native.Nat.{Ordering, eq}
use aegis_workers.Phase.Number.{match_phase, compare_phase_num, compare_letter, compare_segments}
use aegis_workers.Phase.Number.Laws.{IsNumeric}
use aegis_workers.Phase.Files.{is_kind}
use aegis_workers.Phase.Directories.{sort_phases}
use aegis_workers.Phase.Folders.{Dir, names_of}
use aegis_workers.Phase.Search.{Words, search_phase_in_dir, find_phase_internal}
use aegis_workers.Phase.Groups.{number_and_name}
use aegis_workers.Phase.Search.Laws.{IsFirst, search_phase_in_dir-IsFirst}

abbrev no_locale : Text → Text → Ordering
no_locale s t = eq

abbrev words : Words
words = record { upper = λ s. s; lower = λ s. s; join = λ base name. base ++ (b'/' ∷ name) }

abbrev phases : List Dir
phases =
    record { name = codes "06.1-fix"; files = [] }
    ∷ record {
      name = codes "06-data";
      files = codes "06-01-PLAN.md" ∷ codes "06-02-PLAN.md" ∷ codes "06-01-SUMMARY.md" ∷ [];
    }
    ∷ []

first-IsNumeric : IsNumeric (codes "06.1-fix")
unfolding match_phase
first-IsNumeric = λ e. cc

second-IsNumeric : IsNumeric (codes "06-data")
unfolding match_phase
second-IsNumeric = λ e. cc

search_phase_in_dir-IsFirst_example :
    IsFirst no_locale words
      (codes "phases")
      (codes "06")
      (names_of phases)
      (codes "06.1-fix")
      (search_phase_in_dir no_locale words none (codes "phases") phases (codes "06"))
search_phase_in_dir-IsFirst_example =
    search_phase_in_dir-IsFirst no_locale words none (codes "phases") (codes "06")
      (codes "06.1-fix") phases (first-IsNumeric, (second-IsNumeric, tt)) (inl refl) refl

phase_found :
    find_phase_internal no_locale words (codes "phases") phases [] (codes "6")
    ≡ some (record {
      directory = codes "phases/06-data";
      phase_number = codes "06";
      phase_name = some (codes "data");
      phase_slug = some (codes "data");
      plans = codes "06-01-PLAN.md" ∷ codes "06-02-PLAN.md" ∷ [];
      summaries = codes "06-01-SUMMARY.md" ∷ [];
      incomplete_plans = codes "06-02-PLAN.md" ∷ [];
      has_research = false;
      has_context = false;
      has_verification = false;
      has_reviews = false;
      archived = none;
    })
unfolding find_phase_internal sort_phases compare_phase_num match_phase compare_letter
    compare_segments is_kind
phase_found = refl

custom_name :
    number_and_name (codes "PROJ-42-login-page") ≡ (codes "PROJ-42-login", some (codes "page"))
unfolding number_and_name
custom_name = refl

letter_name : number_and_name (codes "12A.1.2-fix-it") ≡ (codes "12A.1.2", some (codes "fix-it"))
unfolding number_and_name
letter_name = refl

archived_found :
    find_phase_internal no_locale words
      (codes "phases")
      phases
      (record {
        name = codes "v1.0-phases";
        dirs = record { name = codes "03-old"; files = [] } ∷ [];
      }
        ∷ record { name = codes "notes"; dirs = record { name = codes "03-none"; files = [] } ∷ [] }
        ∷ [])
      (codes "3")
    ≡ some (record {
      directory = codes ".planning/milestones/v1.0-phases/03-old";
      phase_number = codes "03";
      phase_name = some (codes "old");
      phase_slug = some (codes "old");
      plans = [];
      summaries = [];
      incomplete_plans = [];
      has_research = false;
      has_context = false;
      has_verification = false;
      has_reviews = false;
      archived = some (codes "v1.0");
    })
unfolding find_phase_internal sort_phases compare_phase_num match_phase compare_letter
    compare_segments is_kind
archived_found = refl
