-- ===== src/Cli/Route/Profiling.antt =====
-- The cases of the profiling pipeline and of its output in `runCommand`.
use aegis_workers.Base.{
  String, Bool, false, ◌||◌, not, none, some, List, if◌then◌else◌, truthy, get_elem?, includes,
}
use aegis_workers.Cli.Args.{after, is_flag}
use aegis_workers.Cli.Number.{int}
use aegis_workers.Cli.Call.{
  scan_sessions, extract_messages, profile_sample, write_profile, questionnaire, dev_preferences,
  claude_profile, claude_md, Outcome, call, failed, profile,
}
use aegis_workers.Cli.Route.Reads.{number_after, number_or}

unfoldable pub run_scan_sessions : List String → Bool → Outcome
run_scan_sessions args raw = call (
    profile (
      scan_sessions (after args "--path") (includes args "--verbose") (includes args "--json") raw))

abbrev extract_usage : String
extract_usage =
    "Usage: gsd-tools extract-messages <project> [--session <id>] [--limit N] [--path <dir>]\nRun scan-sessions first to see available projects."

unfoldable pub run_extract_messages : List String → Bool → Outcome
run_extract_messages args raw = elim (get_elem? args 1) [
  | none ↦ failed extract_usage
  | some project ↦
      if not (truthy project) || is_flag project
      then failed extract_usage
      else call (
          profile (
            extract_messages project (after args "--session") (number_after args "--limit") raw
              (after args "--path")))
]

unfoldable pub run_profile_sample : List String → Bool → Outcome
run_profile_sample args raw = call (
    profile (
      profile_sample (after args "--path") (number_or args "--limit" (int false 150))
        (number_after args "--max-per-project") (number_or args "--max-chars" (int false 500)) raw))

unfoldable pub run_write_profile : List String → Bool → Outcome
run_write_profile args raw = elim (after args "--input") [
  | none ↦ failed "--input <analysis-json-path> is required"
  | some input ↦
      if truthy input
      then call (profile (write_profile input (after args "--output") raw))
      else failed "--input <analysis-json-path> is required"
]

unfoldable pub run_questionnaire : List String → Bool → Outcome
run_questionnaire args raw = call (profile (questionnaire (after args "--answers") raw))

unfoldable pub run_dev_preferences : List String → Bool → Outcome
run_dev_preferences args raw = call (
    profile (
      dev_preferences (after args "--analysis") (after args "--output") (after args "--stack") raw))

unfoldable pub run_claude_profile : List String → Bool → Outcome
run_claude_profile args raw = call (
    profile (
      claude_profile (after args "--analysis") (after args "--output") (includes args "--global")
        raw))

unfoldable pub run_claude_md : List String → Bool → Outcome
run_claude_md args raw = call (
    profile
      (claude_md (after args "--output") (includes args "--auto") (includes args "--force") raw))
