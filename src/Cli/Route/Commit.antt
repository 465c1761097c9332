-- ===== src/Cli/Route/Commit.antt =====
-- The cases 'commit', 'commit-to-subrepo', 'verify-summary', 'summary-extract' and 'websearch' of
-- `runCommand`.
use aegis_workers.Base.{
  ◌+◌, String, Bool, false, Option, none, some, List, if◌then◌else◌, truthy, get_elem?, drop, take,
  length, includes, join, split,
}
use aegis_workers.Cli.Args.{index_of, positional, files_after, after}
use aegis_workers.Cli.Number.{int}
use aegis_workers.Cli.Call.{
  commit, commit_to_subrepo, summary, summary_extract, websearch, Outcome, call, thrown, commands,
  verify,
}
use aegis_workers.Cli.Route.Reads.{number_or}

-- The words between the command and `--files`, or the end, that are no flags
unfoldable pub message_words : List String → List String
message_words args = elim (index_of "--files" args) [
  | none ↦ positional (drop 1 (take (length args) args))
  | some i ↦ positional (drop 1 (take i args))
]

-- `s || undefined`
abbrev pub or_undefined : String → Option String
or_undefined s = if truthy s then some s else none

unfoldable pub run_commit : List String → Bool → Outcome
run_commit args raw = call (
    commands (
      commit (or_undefined (join " " (message_words args))) (files_after args) raw
        (includes args "--amend") (includes args "--no-verify")))

unfoldable pub run_commit_to_subrepo : List String → Bool → Outcome
run_commit_to_subrepo args raw =
    call (commands (commit_to_subrepo (get_elem? args 1) (files_after args) raw))

unfoldable pub run_verify_summary : List String → Bool → Outcome
run_verify_summary args raw =
    call (verify (summary (get_elem? args 1) (number_or args "--check-count" (int false 2)) raw))

-- `args[fieldsIndex + 1].split(',')` throws where nothing stands behind `--fields`.
unfoldable pub run_summary_extract : List String → Bool → Outcome
run_summary_extract args raw = elim (index_of "--fields" args) [
  | none ↦ call (commands (summary_extract (get_elem? args 1) none raw))
  | some i ↦ elim (get_elem? args (i + 1)) [
    | none ↦ thrown
    | some fields ↦
        call (commands (summary_extract (get_elem? args 1) (some (split b',' fields)) raw))
  ]
]

unfoldable pub run_websearch : List String → Bool → Outcome
run_websearch args raw = call (
    commands (
      websearch (get_elem? args 1) (number_or args "--limit" (int false 10))
        (after args "--freshness") raw))
