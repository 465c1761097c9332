-- ===== src/Cli/Route.antt =====
-- `runCommand` of gsd-tools.cjs: which handler a command line calls, and with which arguments.
-- Each case that reads further arguments is a function of its own in a child module.
mod Reads
mod State
mod Commit
mod Documents
mod Planning
mod Profiling
pub mod Laws
pub mod Throws
pub mod Patches
use aegis_workers.Base.{
  String, ◌<>◌, Bool, true, false, Option, none, some, List, [], ◌∷◌, ◌===◌, if◌then◌else◌,
  get_elem?, or_default,
}
use aegis_workers.Json.{Parsed}
use aegis_workers.Cli.Call.{
  StateCall, CommandsCall, PhaseCall, ConfigCall, RoadmapCall, InitCall, Outcome, call, failed,
  state, commands, phase, config, roadmap, init,
}
use State.{run_state}
use Commit.{
  run_commit, run_commit_to_subrepo, run_verify_summary, run_summary_extract, run_websearch,
}
use Documents.{run_template, run_frontmatter, run_verify, run_phases, run_roadmap, run_requirements}
use Planning.{
  run_phase, run_milestone, run_validate, run_uat, run_todo, run_scaffold, run_init, run_workstream,
}
use Profiling.{
  run_scan_sessions, run_extract_messages, run_profile_sample, run_write_profile, run_questionnaire,
  run_dev_preferences, run_claude_profile, run_claude_md,
}

-- The cases from 'scan-sessions' on.
unfoldable pub run_late : String → List String → Bool → Outcome
run_late command args raw =
    if command === "scan-sessions"
    then run_scan_sessions args raw
    else if command === "extract-messages"
    then run_extract_messages args raw
    else if command === "profile-sample"
    then run_profile_sample args raw
    else if command === "write-profile"
    then run_write_profile args raw
    else if command === "profile-questionnaire"
    then run_questionnaire args raw
    else if command === "generate-dev-preferences"
    then run_dev_preferences args raw
    else if command === "generate-claude-profile"
    then run_claude_profile args raw
    else if command === "generate-claude-md"
    then run_claude_md args raw
    else if command === "workstream"
    then run_workstream args raw
    else failed ("Unknown command: " <> command)

-- The cases from 'phases' to 'websearch'.
unfoldable pub run_middle : String → List String → Bool → Outcome
run_middle command args raw =
    if command === "phases"
    then run_phases args raw
    else if command === "roadmap"
    then run_roadmap args raw
    else if command === "requirements"
    then run_requirements args raw
    else if command === "phase"
    then run_phase args raw
    else if command === "milestone"
    then run_milestone args raw
    else if command === "validate"
    then run_validate args raw
    else if command === "progress"
    then call (commands (CommandsCall.progress_render (or_default (get_elem? args 1) "json") raw))
    else if command === "audit-uat"
    then call (roadmap (RoadmapCall.audit_uat raw))
    else if command === "uat"
    then run_uat args raw
    else if command === "stats"
    then call (commands (CommandsCall.stats (or_default (get_elem? args 1) "json") raw))
    else if command === "todo"
    then run_todo args raw
    else if command === "scaffold"
    then run_scaffold args raw
    else if command === "init"
    then run_init args raw
    else if command === "phase-plan-index"
    then call (phase (PhaseCall.plan_index (get_elem? args 1) raw))
    else if command === "state-snapshot"
    then call (state (StateCall.snapshot raw))
    else if command === "summary-extract"
    then run_summary_extract args raw
    else if command === "websearch"
    then run_websearch args raw
    else run_late command args raw

unfoldable pub run_command : (String → Parsed) → String → List String → Bool → Outcome
run_command parse command args raw =
    if command === "state"
    then run_state args raw
    else if command === "resolve-model"
    then call (commands (CommandsCall.resolve_model (get_elem? args 1) raw))
    else if command === "find-phase"
    then call (phase (PhaseCall.find (get_elem? args 1) raw))
    else if command === "commit"
    then run_commit args raw
    else if command === "commit-to-subrepo"
    then run_commit_to_subrepo args raw
    else if command === "verify-summary"
    then run_verify_summary args raw
    else if command === "template"
    then run_template parse args raw
    else if command === "frontmatter"
    then run_frontmatter args raw
    else if command === "verify"
    then run_verify args raw
    else if command === "generate-slug"
    then call (commands (CommandsCall.generate_slug (get_elem? args 1) raw))
    else if command === "current-timestamp"
    then call (commands (CommandsCall.current_timestamp (or_default (get_elem? args 1) "full") raw))
    else if command === "list-todos"
    then call (commands (CommandsCall.list_todos (get_elem? args 1) raw))
    else if command === "verify-path-exists"
    then call (commands (CommandsCall.verify_path_exists (get_elem? args 1) raw))
    else if command === "config-ensure-section"
    then call (config (ConfigCall.ensure_section raw))
    else if command === "config-set"
    then call (config (ConfigCall.set (get_elem? args 1) (get_elem? args 2) raw))
    else if command === "config-set-model-profile"
    then call (config (ConfigCall.set_model_profile (get_elem? args 1) raw))
    else if command === "config-get"
    then call (config (ConfigCall.get (get_elem? args 1) raw))
    else if command === "config-new-project"
    then call (config (ConfigCall.new_project (get_elem? args 1) raw))
    else if command === "agent-skills"
    then call (init (InitCall.agent_skills (get_elem? args 1) raw))
    else if command === "history-digest"
    then call (commands (CommandsCall.history_digest raw))
    else run_middle command args raw
