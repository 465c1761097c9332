-- ===== src/Cli/Route/Planning.antt =====
-- The cases 'phase', 'milestone', 'validate', 'uat', 'todo', 'scaffold', 'init' and 'workstream' of
-- `runCommand`.
use aegis_workers.Base.{
  String, ◌<>◌, Bool, true, false, not, Option, none, some, List, [], ◌∷◌, ◌++◌, ◌===◌,
  if◌then◌else◌, get_elem?, drop, includes, join,
}
use aegis_workers.Cli.Args.{named, parse_multiword_arg, after}
use aegis_workers.Cli.Call.{
  PhaseCall, RoadmapCall, VerifyCall, CommandsCall, InitCall, WorkstreamCall, Outcome, call, failed,
  commands, phase, verify, roadmap, init, workstream,
}
use aegis_workers.Cli.Route.Reads.{is, shown}

-- The loop of `phase add` from `args[2]`: the words of the description and the last `--id` that a
-- word follows.
unfoldable pub split_id : List String → Option String → List String → List String × Option String
split_id words id [] = (words, id)
split_id words id (a ∷ []) = (words ++ a ∷ [], id)
split_id words id (a ∷ b ∷ rest) = elim (a === "--id") [
  | true ↦ split_id words (some b) rest
  | false ↦ split_id (words ++ a ∷ []) id (b ∷ rest)
]

abbrev add_phase : List String × Option String → Bool → Outcome
add_phase (words, id) raw = call (phase (PhaseCall.add (join " " words) raw id))

unfoldable pub run_phase : List String → Bool → Outcome
unfolding split_id
run_phase args raw =
    let sub = get_elem? args 1 in
    if is sub "next-decimal"
    then call (phase (PhaseCall.next_decimal (get_elem? args 2) raw))
    else if is sub "add"
    then add_phase (split_id [] none (drop 2 args)) raw
    else if is sub "insert"
    then call (phase (PhaseCall.insert (get_elem? args 2) (join " " (drop 3 args)) raw))
    else if is sub "remove"
    then call (phase (PhaseCall.remove (get_elem? args 2) (includes args "--force") raw))
    else if is sub "complete"
    then call (phase (PhaseCall.complete (get_elem? args 2) raw))
    else failed "Unknown phase subcommand. Available: next-decimal, add, insert, remove, complete"

unfoldable pub run_milestone : List String → Bool → Outcome
run_milestone args raw =
    if is (get_elem? args 1) "complete"
    then call (
        roadmap (
          RoadmapCall.milestone_complete (get_elem? args 2) (parse_multiword_arg args "name")
            (includes args "--archive-phases") raw))
    else failed "Unknown milestone subcommand. Available: complete"

unfoldable pub run_validate : List String → Bool → Outcome
run_validate args raw =
    let sub = get_elem? args 1 in
    if is sub "consistency"
    then call (verify (VerifyCall.consistency raw))
    else if is sub "health"
    then call (verify (VerifyCall.health (includes args "--repair") raw))
    else if is sub "agents"
    then call (verify (VerifyCall.agents raw))
    else failed "Unknown validate subcommand. Available: consistency, health, agents"

unfoldable pub run_uat : List String → Bool → Outcome
run_uat args raw =
    if is (get_elem? args 1) "render-checkpoint"
    then call (roadmap (RoadmapCall.render_checkpoint (named args "file") raw))
    else failed "Unknown uat subcommand. Available: render-checkpoint"

unfoldable pub run_todo : List String → Bool → Outcome
run_todo args raw =
    if is (get_elem? args 1) "complete"
    then call (commands (CommandsCall.todo_complete (get_elem? args 2) raw))
    else if is (get_elem? args 1) "match-phase"
    then call (commands (CommandsCall.todo_match_phase (get_elem? args 2) raw))
    else failed "Unknown todo subcommand. Available: complete, match-phase"

unfoldable pub run_scaffold : List String → Bool → Outcome
run_scaffold args raw = call (
    commands (
      CommandsCall.scaffold (get_elem? args 1) (named args "phase")
        (parse_multiword_arg args "name") raw))

abbrev init_workflows : String
init_workflows =
    "execute-phase, plan-phase, new-project, new-milestone, quick, resume, verify-work, phase-op, todos, milestone-op, map-codebase, progress, manager, new-workspace, list-workspaces, remove-workspace"

unfoldable pub run_init : List String → Bool → Outcome
run_init args raw =
    let w = get_elem? args 1 in
    let arg = get_elem? args 2 in
    if is w "execute-phase"
    then call (init (InitCall.execute_phase arg raw))
    else if is w "plan-phase"
    then call (init (InitCall.plan_phase arg raw))
    else if is w "new-project"
    then call (init (InitCall.new_project raw))
    else if is w "new-milestone"
    then call (init (InitCall.new_milestone raw))
    else if is w "quick"
    then call (init (InitCall.quick (join " " (drop 2 args)) raw))
    else if is w "resume"
    then call (init (InitCall.resume raw))
    else if is w "verify-work"
    then call (init (InitCall.verify_work arg raw))
    else if is w "phase-op"
    then call (init (InitCall.phase_op arg raw))
    else if is w "todos"
    then call (init (InitCall.todos arg raw))
    else if is w "milestone-op"
    then call (init (InitCall.milestone_op raw))
    else if is w "map-codebase"
    then call (init (InitCall.map_codebase raw))
    else if is w "progress"
    then call (init (InitCall.progress raw))
    else if is w "manager"
    then call (init (InitCall.manager raw))
    else if is w "new-workspace"
    then call (init (InitCall.new_workspace raw))
    else if is w "list-workspaces"
    then call (init (InitCall.list_workspaces raw))
    else if is w "remove-workspace"
    then call (init (InitCall.remove_workspace arg raw))
    else failed ("Unknown init workflow: " <> shown w <> "\nAvailable: " <> init_workflows)

unfoldable pub run_workstream : List String → Bool → Outcome
run_workstream args raw =
    let sub = get_elem? args 1 in
    if is sub "create"
    then call (
        workstream (
          WorkstreamCall.create (get_elem? args 2) (not (includes args "--no-migrate"))
            (after args "--migrate-name") raw))
    else if is sub "list"
    then call (workstream (WorkstreamCall.list raw))
    else if is sub "status"
    then call (workstream (WorkstreamCall.status (get_elem? args 2) raw))
    else if is sub "complete"
    then call (workstream (WorkstreamCall.complete (get_elem? args 2) raw))
    else if is sub "set"
    then call (workstream (WorkstreamCall.set (get_elem? args 2) raw))
    else if is sub "get"
    then call (workstream (WorkstreamCall.get raw))
    else if is sub "progress"
    then call (workstream (WorkstreamCall.progress raw))
    else failed
        "Unknown workstream subcommand. Available: create, list, status, complete, set, get, progress"
