-- ===== src/Phase/Files.antt =====
-- The files of a phase directory: `filterPlanFiles`, `filterSummaryFiles` and `getPhaseFileStats` of core.cjs.
-- A file's name is the list of its character codes.
pub mod Laws
use aegis_workers.Base.{Bool, true, false, ◌||◌, List, [], ◌∷◌, Text, codes, text_eq, keep, any}

-- `s.endsWith(t)`
unfoldable pub ends_with : Text → Text → Bool
ends_with [] t = text_eq [] t
ends_with (c ∷ s) t = text_eq (c ∷ s) t || ends_with s t

-- A file of a kind: its name is the kind's, or ends with it behind a dash.
unfoldable pub is_kind : Text → Text → Bool
unfolding ends_with
is_kind kind f = ends_with f (b'-' ∷ kind) || text_eq f kind

abbrev pub plan_kind : Text
plan_kind = codes "PLAN.md"

abbrev pub summary_kind : Text
summary_kind = codes "SUMMARY.md"

unfoldable pub filter_plan_files : List Text → List Text
filter_plan_files files = keep (is_kind plan_kind) files

unfoldable pub filter_summary_files : List Text → List Text
filter_summary_files files = keep (is_kind summary_kind) files

pub record PhaseFileStats : Type 0 where
  pub plans : List Text
  pub summaries : List Text
  pub has_research : Bool
  pub has_context : Bool
  pub has_verification : Bool
  pub has_reviews : Bool

-- The statistics of a directory whose entries are `files`.
unfoldable pub get_phase_file_stats : List Text → PhaseFileStats
unfolding filter_plan_files filter_summary_files
get_phase_file_stats files = record {
  plans = filter_plan_files files;
  summaries = filter_summary_files files;
  has_research = any (is_kind (codes "RESEARCH.md")) files;
  has_context = any (is_kind (codes "CONTEXT.md")) files;
  has_verification = any (is_kind (codes "VERIFICATION.md")) files;
  has_reviews = any (is_kind (codes "REVIEWS.md")) files;
}
