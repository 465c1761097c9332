-- ===== src/Cli/Route/Throws.antt =====
-- The only way in which `runCommand` of gsd-tools.cjs throws.
use aegis_workers.Base.{
  ℕ, ◌+◌, ◌≡◌, ◌≢◌, ◌↔◌, inl, inr, String, Bool, true, false, none, some, List, arith, ◌===◌,
  eq_iff, get_elem?, Bool-cases, Option-cases, if◌then◌else◌,
}
use aegis_workers.Json.{Parsed}
use aegis_workers.Cli.Args.{index_of}
use aegis_workers.Cli.Call.{Call, Outcome, call, thrown}
use aegis_workers.Cli.Route.State.{run_state}
use aegis_workers.Cli.Route.Commit.{
  run_commit, run_commit_to_subrepo, run_verify_summary, run_summary_extract, run_websearch,
}
use aegis_workers.Cli.Route.Documents.{
  run_template, run_frontmatter, run_verify, run_phases, run_roadmap, run_requirements,
}
use aegis_workers.Cli.Route.Planning.{
  run_phase, run_milestone, run_validate, run_uat, run_todo, run_scaffold, run_init, run_workstream,
}
use aegis_workers.Cli.Route.Profiling.{
  run_scan_sessions, run_extract_messages, run_profile_sample, run_write_profile, run_questionnaire,
  run_dev_preferences, run_claude_profile, run_claude_md,
}
use aegis_workers.Cli.Route.{run_late, run_middle, run_command}

if-ne-thrown : (b : Bool) (x y : Outcome) → x ≢ thrown → y ≢ thrown → (if b then x else y) ≢ thrown
if-ne-thrown true x y h k = h
if-ne-thrown false x y h k = k

call-ne-thrown : (c : Call) → call c ≢ thrown
call-ne-thrown c = cc

failed-ne-thrown : (e : String) → Outcome.failed e ≢ thrown
failed-ne-thrown e = cc

ruleset answers = (if-ne-thrown, call-ne-thrown, failed-ne-thrown)

run_init-ne-thrown : (args : List String) (raw : Bool) → run_init args raw ≢ thrown
unfolding run_init
run_init-ne-thrown args raw = search answers depth 40

run_state-ne-thrown : (args : List String) (raw : Bool) → run_state args raw ≢ thrown
unfolding run_state
run_state-ne-thrown args raw = search answers depth 40

run_commit-ne-thrown : (args : List String) (raw : Bool) → run_commit args raw ≢ thrown
unfolding run_commit
run_commit-ne-thrown args raw = cc

run_commit_to_subrepo-ne-thrown :
    (args : List String) (raw : Bool) → run_commit_to_subrepo args raw ≢ thrown
unfolding run_commit_to_subrepo
run_commit_to_subrepo-ne-thrown args raw = cc

run_verify_summary-ne-thrown :
    (args : List String) (raw : Bool) → run_verify_summary args raw ≢ thrown
unfolding run_verify_summary
run_verify_summary-ne-thrown args raw = cc

run_websearch-ne-thrown : (args : List String) (raw : Bool) → run_websearch args raw ≢ thrown
unfolding run_websearch
run_websearch-ne-thrown args raw = cc

run_frontmatter-ne-thrown : (args : List String) (raw : Bool) → run_frontmatter args raw ≢ thrown
unfolding run_frontmatter
run_frontmatter-ne-thrown args raw = search answers depth 40

run_verify-ne-thrown : (args : List String) (raw : Bool) → run_verify args raw ≢ thrown
unfolding run_verify
run_verify-ne-thrown args raw = search answers depth 40

run_phases-ne-thrown : (args : List String) (raw : Bool) → run_phases args raw ≢ thrown
unfolding run_phases
run_phases-ne-thrown args raw = search answers depth 40

run_roadmap-ne-thrown : (args : List String) (raw : Bool) → run_roadmap args raw ≢ thrown
unfolding run_roadmap
run_roadmap-ne-thrown args raw = search answers depth 40

run_requirements-ne-thrown : (args : List String) (raw : Bool) → run_requirements args raw ≢ thrown
unfolding run_requirements
run_requirements-ne-thrown args raw = search answers depth 40

run_phase-ne-thrown : (args : List String) (raw : Bool) → run_phase args raw ≢ thrown
unfolding run_phase
run_phase-ne-thrown args raw = search answers depth 40

run_milestone-ne-thrown : (args : List String) (raw : Bool) → run_milestone args raw ≢ thrown
unfolding run_milestone
run_milestone-ne-thrown args raw = search answers depth 40

run_validate-ne-thrown : (args : List String) (raw : Bool) → run_validate args raw ≢ thrown
unfolding run_validate
run_validate-ne-thrown args raw = search answers depth 40

run_uat-ne-thrown : (args : List String) (raw : Bool) → run_uat args raw ≢ thrown
unfolding run_uat
run_uat-ne-thrown args raw = search answers depth 40

run_todo-ne-thrown : (args : List String) (raw : Bool) → run_todo args raw ≢ thrown
unfolding run_todo
run_todo-ne-thrown args raw = search answers depth 40

run_scaffold-ne-thrown : (args : List String) (raw : Bool) → run_scaffold args raw ≢ thrown
unfolding run_scaffold
run_scaffold-ne-thrown args raw = cc

run_workstream-ne-thrown : (args : List String) (raw : Bool) → run_workstream args raw ≢ thrown
unfolding run_workstream
run_workstream-ne-thrown args raw = search answers depth 40

run_scan_sessions-ne-thrown :
    (args : List String) (raw : Bool) → run_scan_sessions args raw ≢ thrown
unfolding run_scan_sessions
run_scan_sessions-ne-thrown args raw = cc

run_profile_sample-ne-thrown :
    (args : List String) (raw : Bool) → run_profile_sample args raw ≢ thrown
unfolding run_profile_sample
run_profile_sample-ne-thrown args raw = cc

run_questionnaire-ne-thrown :
    (args : List String) (raw : Bool) → run_questionnaire args raw ≢ thrown
unfolding run_questionnaire
run_questionnaire-ne-thrown args raw = cc

run_dev_preferences-ne-thrown :
    (args : List String) (raw : Bool) → run_dev_preferences args raw ≢ thrown
unfolding run_dev_preferences
run_dev_preferences-ne-thrown args raw = cc

run_claude_profile-ne-thrown :
    (args : List String) (raw : Bool) → run_claude_profile args raw ≢ thrown
unfolding run_claude_profile
run_claude_profile-ne-thrown args raw = cc

run_claude_md-ne-thrown : (args : List String) (raw : Bool) → run_claude_md args raw ≢ thrown
unfolding run_claude_md
run_claude_md-ne-thrown args raw = cc

run_extract_messages-ne-thrown :
    (args : List String) (raw : Bool) → run_extract_messages args raw ≢ thrown
unfolding run_extract_messages
run_extract_messages-ne-thrown args raw = ground arith

run_write_profile-ne-thrown :
    (args : List String) (raw : Bool) → run_write_profile args raw ≢ thrown
unfolding run_write_profile
run_write_profile-ne-thrown args raw = ground arith

run_template-ne-thrown :
    (parse : String → Parsed) (args : List String) (raw : Bool)
    → run_template parse args raw ≢ thrown
unfolding run_template
run_template-ne-thrown parse args raw = ground arith

ruleset cases = (
  run_init-ne-thrown, run_state-ne-thrown, run_commit-ne-thrown, run_commit_to_subrepo-ne-thrown,
  run_verify_summary-ne-thrown, run_websearch-ne-thrown, run_frontmatter-ne-thrown,
  run_verify-ne-thrown, run_phases-ne-thrown, run_roadmap-ne-thrown, run_requirements-ne-thrown,
  run_phase-ne-thrown, run_milestone-ne-thrown, run_validate-ne-thrown, run_uat-ne-thrown,
  run_todo-ne-thrown, run_scaffold-ne-thrown, run_workstream-ne-thrown, run_scan_sessions-ne-thrown,
  run_profile_sample-ne-thrown, run_questionnaire-ne-thrown, run_dev_preferences-ne-thrown,
  run_claude_profile-ne-thrown, run_claude_md-ne-thrown, run_extract_messages-ne-thrown,
  run_write_profile-ne-thrown, run_template-ne-thrown, answers,
)

-- `o` is `thrown` only where `Q` holds.
OnlyIf : Outcome → Type 0 → Type 0
OnlyIf o Q = o ≡ thrown → Q

OnlyIf-never : (o : Outcome) (Q : Type 0) → o ≢ thrown → OnlyIf o Q
unfolding OnlyIf
OnlyIf-never o Q h e = absurd (h e)

OnlyIf-skip :
    (b : Bool) (x y : Outcome) (Q : Type 0)
    → x ≢ thrown
    → OnlyIf y Q
    → OnlyIf (if b then x else y) Q
unfolding OnlyIf
OnlyIf-skip true x y Q h k = λ e. absurd (h e)
OnlyIf-skip false x y Q h k = k

run_late-ne-thrown : (c : String) (args : List String) (raw : Bool) → run_late c args raw ≢ thrown
unfolding run_late
run_late-ne-thrown c args raw = search cases depth 40

-- Where nothing stands behind the first `--fields`.
abbrev pub BareFields : List String → Type 0
BareFields args = (i : ℕ) × (index_of "--fields" args ≡ some i) × (get_elem? args (i + 1) ≡ none)

OnlyIf-summary :
    (c : String) (args : List String) (raw : Bool) (y : Outcome)
    → OnlyIf y ((c ≡ "summary-extract") × BareFields args)
    → OnlyIf
        (if c === "summary-extract" then run_summary_extract args raw else y)
        ((c ≡ "summary-extract") × BareFields args)
unfolding OnlyIf run_summary_extract
OnlyIf-summary c args raw y k e = elim (Bool-cases (c === "summary-extract")) [
  | inl same ↦ (
    (eq_iff c "summary-extract").0 same,
    elim (Option-cases (index_of "--fields" args)) [
      | inl missing ↦ absurd (ground arith)
      | inr (i, found) ↦ (i, found, ground arith)
    ],
  )
  | inr other ↦ k (rw other at e)
]

run_late-OnlyIf :
    (c : String) (args : List String) (raw : Bool) (Q : Type 0) → OnlyIf (run_late c args raw) Q
run_late-OnlyIf c args raw Q = OnlyIf-never _ Q (run_late-ne-thrown c args raw)

run_middle-OnlyIf :
    (c : String) (args : List String) (raw : Bool)
    → OnlyIf (run_middle c args raw) ((c ≡ "summary-extract") × BareFields args)
unfolding run_middle
run_middle-OnlyIf c args raw = search (OnlyIf-summary, OnlyIf-skip, run_late-OnlyIf, cases) depth 40

run_command-OnlyIf :
    (parse : String → Parsed) (c : String) (args : List String) (raw : Bool)
    → OnlyIf (run_command parse c args raw) ((c ≡ "summary-extract") × BareFields args)
unfolding run_command
run_command-OnlyIf parse c args raw = search (OnlyIf-skip, run_middle-OnlyIf, cases) depth 60

-- The router ends in an uncaught `TypeError` exactly for `summary-extract` with nothing behind its
-- first `--fields`; on every other command line it calls a handler or exits with a message.
pub run_command-thrown_iff :
    (parse : String → Parsed) (c : String) (args : List String) (raw : Bool)
    → (run_command parse c args raw ≡ thrown) ↔ ((c ≡ "summary-extract") × BareFields args)
unfolding OnlyIf run_command run_middle run_summary_extract
run_command-thrown_iff parse c args raw =
    (run_command-OnlyIf parse c args raw, λ (same, bare). rw same (ground (arith, bare.1, bare.2)))
