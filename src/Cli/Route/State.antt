-- ===== src/Cli/Route/State.antt =====
-- The case 'state' of `runCommand`.
use aegis_workers.Base.{
  String, Bool, Option, none, some, List, [], ◌∷◌, ◌===◌, if◌then◌else◌, get_elem?, drop,
  slice_from, truthy, or_default,
}
use aegis_workers.Cli.Args.{named, is_flag}
use aegis_workers.Cli.Number.{Number, parse_int}
use aegis_workers.Cli.Call.{
  json, advance_plan, update_progress, load, signal_resume, update, get, patch, record_metric,
  add_decision, add_blocker, resolve_blocker, record_session, begin_phase, signal_waiting, Outcome,
  call, state,
}
use aegis_workers.Cli.Route.Reads.{is}

-- `args[i].replace(/^--/, '')`
abbrev pub strip_dashes : String → String
strip_dashes a = if is_flag a then slice_from 2 a else a

abbrev pub insert_field : String → String → List (String × String) → List (String × String)
insert_field k v [] = (k, v) ∷ []
insert_field k v ((j, w) ∷ r) = if j === k then (k, v) ∷ r else (j, w) ∷ insert_field k v r

-- `patches[key] = value`: a text assigned to `__proto__` is dropped. The list keeps the order in
-- which the fields were inserted; that JavaScript goes over whole numbers first comes only where the
-- handler enumerates the object.
unfoldable pub assign : String → String → List (String × String) → List (String × String)
assign k v fields = if k === "__proto__" then fields else insert_field k v fields

-- The loop over the pairs from `args[2]`, two at a time; a last key without a value is dropped.
unfoldable pub collect_patches : List (String × String) → List String → List (String × String)
unfolding assign
collect_patches patches (a ∷ v ∷ rest) =
    collect_patches (if truthy (strip_dashes a) then assign (strip_dashes a) v patches else patches)
      rest
collect_patches patches (a ∷ []) = patches
collect_patches patches [] = patches

-- `plans !== null ? parseInt(plans, 10) : null`
abbrev plan_count : Option String → Option Number
plan_count none = none
plan_count (some n) = some (parse_int (some n))

unfoldable pub run_state : List String → Bool → Outcome
unfolding collect_patches
run_state args raw =
    let sub = get_elem? args 1 in
    if is sub "json"
    then call (state (json raw))
    else if is sub "update"
    then call (state (update (get_elem? args 2) (get_elem? args 3)))
    else if is sub "get"
    then call (state (get (get_elem? args 2) raw))
    else if is sub "patch"
    then call (state (patch (collect_patches [] (drop 2 args)) raw))
    else if is sub "advance-plan"
    then call (state (advance_plan raw))
    else if is sub "record-metric"
    then call (
        state (
          record_metric (named args "phase") (named args "plan") (named args "duration")
            (named args "tasks") (named args "files") raw))
    else if is sub "update-progress"
    then call (state (update_progress raw))
    else if is sub "add-decision"
    then call (
        state (
          add_decision (named args "phase") (named args "summary") (named args "summary-file")
            (or_default (named args "rationale") "") (named args "rationale-file") raw))
    else if is sub "add-blocker"
    then call (state (add_blocker (named args "text") (named args "text-file") raw))
    else if is sub "resolve-blocker"
    then call (state (resolve_blocker (named args "text") raw))
    else if is sub "record-session"
    then call (
        state (
          record_session (named args "stopped-at") (or_default (named args "resume-file") "None")
            raw))
    else if is sub "begin-phase"
    then call (
        state (
          begin_phase (named args "phase") (named args "name") (plan_count (named args "plans"))
            raw))
    else if is sub "signal-waiting"
    then call (
        state (
          signal_waiting (named args "type") (named args "question") (named args "options")
            (named args "phase") raw))
    else if is sub "signal-resume"
    then call (state (signal_resume raw))
    else call (state (load raw))
