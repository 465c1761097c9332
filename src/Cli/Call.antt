-- ===== src/Cli/Call.antt =====
-- The handlers that `runCommand` of gsd-tools.cjs calls, with the arguments that it passes besides
-- the working directory: one constructor for each `cmd…` function, grouped by its file in lib/.
use aegis_workers.Base.{String, Bool, Option, List}
use aegis_workers.Cli.Number.{Number}
use aegis_workers.Json.{Json, JsonError}

abbrev pub Arg : Type 0
Arg = Option String

-- lib/state.cjs
pub data StateCall : Type 0 where
  json advance_plan update_progress load signal_resume snapshot : Bool → StateCall
  update : (name value : Arg) → StateCall
  get : (section : Arg) → Bool → StateCall
  patch : List (String × String) → Bool → StateCall
  record_metric : (phase plan duration tasks files : Arg) → Bool → StateCall
  add_decision :
      (phase summary summary_file : Arg) (rationale : String) (rationale_file : Arg)
      → Bool
      → StateCall
  add_blocker : (text text_file : Arg) → Bool → StateCall
  resolve_blocker : (text : Arg) → Bool → StateCall
  record_session : (stopped_at : Arg) (resume_file : String) → Bool → StateCall
  begin_phase : (phase name : Arg) (plans : Option Number) → Bool → StateCall
  signal_waiting : (type question options phase : Arg) → Bool → StateCall

-- lib/commands.cjs
pub data CommandsCall : Type 0 where
  resolve_model generate_slug list_todos verify_path_exists todo_complete todo_match_phase :
      Arg → Bool → CommandsCall
  commit : (message : Arg) (files : List String) (raw amend no_verify : Bool) → CommandsCall
  commit_to_subrepo : (message : Arg) (files : List String) → Bool → CommandsCall
  current_timestamp progress_render stats : String → Bool → CommandsCall
  history_digest : Bool → CommandsCall
  scaffold : (type phase name : Arg) → Bool → CommandsCall
  summary_extract : (path : Arg) (fields : Option (List String)) → Bool → CommandsCall
  websearch : (query : Arg) (limit : Number) (freshness : Arg) → Bool → CommandsCall

-- lib/phase.cjs
pub data PhaseCall : Type 0 where
  find next_decimal complete plan_index : Arg → Bool → PhaseCall
  list : (type phase : Arg) (include_archived : Bool) → Bool → PhaseCall
  add : (description : String) → Bool → (custom_id : Arg) → PhaseCall
  insert : (behind : Arg) (description : String) → Bool → PhaseCall
  remove : (phase : Arg) (force : Bool) → Bool → PhaseCall

-- lib/verify.cjs
pub data VerifyCall : Type 0 where
  summary : (path : Arg) (check_count : Number) → Bool → VerifyCall
  plan_structure phase_completeness references artifacts key_links : Arg → Bool → VerifyCall
  commits : List String → Bool → VerifyCall
  consistency agents : Bool → VerifyCall
  health : (repair : Bool) → Bool → VerifyCall

-- lib/template.cjs and lib/frontmatter.cjs
pub data DocumentCall : Type 0 where
  template_select : Arg → Bool → DocumentCall
  template_fill :
      (template_type phase plan name : Arg) (fields : Json) (type wave : String)
      → Bool
      → DocumentCall
  frontmatter_get frontmatter_merge frontmatter_validate : (file option : Arg) → Bool → DocumentCall
  frontmatter_set : (file name value : Arg) → Bool → DocumentCall

-- lib/config.cjs
pub data ConfigCall : Type 0 where
  ensure_section : Bool → ConfigCall
  set : (key value : Arg) → Bool → ConfigCall
  set_model_profile get new_project : Arg → Bool → ConfigCall

-- lib/roadmap.cjs, lib/milestone.cjs and lib/uat.cjs
pub data RoadmapCall : Type 0 where
  get_phase update_plan_progress : Arg → Bool → RoadmapCall
  analyze audit_uat : Bool → RoadmapCall
  requirements_mark_complete : List String → Bool → RoadmapCall
  milestone_complete : (version name : Arg) (archive_phases : Bool) → Bool → RoadmapCall
  render_checkpoint : (file : Arg) → Bool → RoadmapCall

-- lib/init.cjs
pub data InitCall : Type 0 where
  execute_phase plan_phase verify_work phase_op todos remove_workspace agent_skills :
      Arg → Bool → InitCall
  new_project new_milestone resume milestone_op map_codebase progress manager new_workspace
        list_workspaces :
      Bool → InitCall
  quick : String → Bool → InitCall

-- lib/profile-pipeline.cjs and lib/profile-output.cjs
pub data ProfileCall : Type 0 where
  scan_sessions : (path : Arg) (verbose json : Bool) → Bool → ProfileCall
  extract_messages :
      (project : String) (session_id : Arg) (limit : Option Number)
      → Bool
      → (path : Arg) → ProfileCall
  profile_sample :
      (path : Arg) (limit : Number) (max_per_project : Option Number) (max_chars : Number)
      → Bool
      → ProfileCall
  write_profile : (input : String) (output : Arg) → Bool → ProfileCall
  questionnaire : (answers : Arg) → Bool → ProfileCall
  dev_preferences : (analysis output stack : Arg) → Bool → ProfileCall
  claude_profile : (analysis output : Arg) (global : Bool) → Bool → ProfileCall
  claude_md : (output : Arg) (auto force : Bool) → Bool → ProfileCall

-- lib/workstream.cjs
pub data WorkstreamCall : Type 0 where
  create : (name : Arg) (migrate : Bool) (migrate_name : Arg) → Bool → WorkstreamCall
  list get progress : Bool → WorkstreamCall
  status complete set : Arg → Bool → WorkstreamCall

pub data Call : Type 0 where
  state : StateCall → Call
  commands : CommandsCall → Call
  phase : PhaseCall → Call
  verify : VerifyCall → Call
  document : DocumentCall → Call
  config : ConfigCall → Call
  roadmap : RoadmapCall → Call
  init : InitCall → Call
  profile : ProfileCall → Call
  workstream : WorkstreamCall → Call

-- What becomes of a command: a call, an exit with an error message, or an uncaught `TypeError`.
pub data Outcome : Type 0 where
  call : Call → Outcome
  failed : String → Outcome
  failed_json : JsonError → Outcome
  thrown : Outcome
