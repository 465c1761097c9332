-- ===== src/Cli/Route/Documents.antt =====
-- The cases 'template', 'frontmatter', 'verify', 'phases' and 'roadmap' to 'requirements' of
-- `runCommand`.
use aegis_workers.Base.{
  String, Bool, Option, none, some, List, if◌then◌else◌, given, get_elem?, drop, includes,
  or_default,
}
use aegis_workers.Json.{obj, end, Parsed}
use aegis_workers.Security.JsonSafety.{SafeJson, safe_json_parse}
use aegis_workers.Cli.Args.{named, after}
use aegis_workers.Cli.Call.{
  template_select, template_fill, frontmatter_get, frontmatter_merge, frontmatter_validate,
  frontmatter_set, plan_structure, phase_completeness, references, artifacts, key_links, commits,
  PhaseCall, RoadmapCall, requirements_mark_complete, Outcome, call, failed, failed_json, document,
  verify, phase, roadmap,
}
use aegis_workers.Cli.Route.Reads.{is}

-- `--fields` is read as JSON if it is given and not empty.
abbrev fields_of : (String → Parsed) → Option String → SafeJson
fields_of parse none = SafeJson.ok (obj end)
fields_of parse (some f) =
    if given (some f)
    then safe_json_parse parse (some f) none (some "--fields")
    else SafeJson.ok (obj end)

unfoldable pub run_template : (String → Parsed) → List String → Bool → Outcome
run_template parse args raw =
    if is (get_elem? args 1) "select"
    then call (document (template_select (get_elem? args 2) raw))
    else if is (get_elem? args 1) "fill"
    then elim (fields_of parse (named args "fields")) [
      | SafeJson.failed e ↦ failed_json e
      | SafeJson.ok fields ↦ call (
          document (
            template_fill (get_elem? args 2) (named args "phase") (named args "plan")
              (named args "name") fields (or_default (named args "type") "execute")
              (or_default (named args "wave") "1") raw))
    ]
    else failed "Unknown template subcommand. Available: select, fill"

unfoldable pub run_frontmatter : List String → Bool → Outcome
run_frontmatter args raw =
    let sub = get_elem? args 1 in
    let file = get_elem? args 2 in
    if is sub "get"
    then call (document (frontmatter_get file (named args "field") raw))
    else if is sub "set"
    then call (document (frontmatter_set file (named args "field") (named args "value") raw))
    else if is sub "merge"
    then call (document (frontmatter_merge file (named args "data") raw))
    else if is sub "validate"
    then call (document (frontmatter_validate file (named args "schema") raw))
    else failed "Unknown frontmatter subcommand. Available: get, set, merge, validate"

unfoldable pub run_verify : List String → Bool → Outcome
run_verify args raw =
    let sub = get_elem? args 1 in
    if is sub "plan-structure"
    then call (verify (plan_structure (get_elem? args 2) raw))
    else if is sub "phase-completeness"
    then call (verify (phase_completeness (get_elem? args 2) raw))
    else if is sub "references"
    then call (verify (references (get_elem? args 2) raw))
    else if is sub "commits"
    then call (verify (commits (drop 2 args) raw))
    else if is sub "artifacts"
    then call (verify (artifacts (get_elem? args 2) raw))
    else if is sub "key-links"
    then call (verify (key_links (get_elem? args 2) raw))
    else failed
        "Unknown verify subcommand. Available: plan-structure, phase-completeness, references, commits, artifacts, key-links"

unfoldable pub run_phases : List String → Bool → Outcome
run_phases args raw =
    if is (get_elem? args 1) "list"
    then call (
        phase (
          PhaseCall.list (after args "--type") (after args "--phase")
            (includes args "--include-archived") raw))
    else failed "Unknown phases subcommand. Available: list"

unfoldable pub run_roadmap : List String → Bool → Outcome
run_roadmap args raw =
    let sub = get_elem? args 1 in
    if is sub "get-phase"
    then call (roadmap (RoadmapCall.get_phase (get_elem? args 2) raw))
    else if is sub "analyze"
    then call (roadmap (RoadmapCall.analyze raw))
    else if is sub "update-plan-progress"
    then call (roadmap (RoadmapCall.update_plan_progress (get_elem? args 2) raw))
    else failed "Unknown roadmap subcommand. Available: get-phase, analyze, update-plan-progress"

unfoldable pub run_requirements : List String → Bool → Outcome
run_requirements args raw =
    if is (get_elem? args 1) "mark-complete"
    then call (roadmap (requirements_mark_complete (drop 2 args) raw))
    else failed "Unknown requirements subcommand. Available: mark-complete"
