-- ===== src/Config/NewProject.antt =====
-- `buildNewProjectConfig` of config.cjs: hardcoded defaults, then the user's defaults file, then the
-- choices, merged on three levels.
pub mod Laws
use aegis_workers.Base.{
  String, Bool, true, false, ◌&&◌, not, Option, none, some, ◌===◌, if◌then◌else◌,
}
use aegis_workers.Json.{
  Json, null, bool, num, str, arr, obj, Members, end, member, get_member, set_member, remove_member,
  spread, has_member, is_truthy, own_members,
}

-- `~/.gsd/defaults.json`
pub data DefaultsFile : Type 0 where
  missing malformed : DefaultsFile
  holds : Json → DefaultsFile

-- What the home directory and the environment say.
pub record Home : Type 0 where
  pub brave : Bool
  pub firecrawl : Bool
  pub exa : Bool
  pub defaults : DefaultsFile

-- `depthToGranularity[depth] || depth`; a list is taken as no name of the table.
abbrev pub granularity_of : Json → Json
granularity_of (str s) =
    if s === "quick"
    then str "coarse"
    else if s === "standard"
    then str "standard"
    else if s === "comprehensive"
    then str "fine"
    else str s
granularity_of v = v

-- The deprecated key is renamed if the new one is not there.
unfoldable pub migrate_depth : Members → Members
migrate_depth ms = elim (get_member "depth" ms) [
  | none ↦ ms
  | some d ↦
      if has_member "granularity" ms
      then ms
      else remove_member "depth" (set_member "granularity" (granularity_of d) ms)
]

-- The values that the merge reads; `in` on a value that is no object throws inside the `try`.
unfoldable pub user_defaults : DefaultsFile → Json
unfolding migrate_depth
user_defaults missing = obj end
user_defaults malformed = obj end
user_defaults (holds (obj ms)) = obj (migrate_depth ms)
user_defaults (holds v) = v

unfoldable pub hardcoded_git : Members
hardcoded_git = member "branching_strategy" (str "none") (
    member "phase_branch_template" (str "gsd/phase-{phase}-{slug}") (
      member "milestone_branch_template" (str "gsd/{milestone}-{slug}")
        (member "quick_branch_template" null end)))

unfoldable pub hardcoded_workflow : Members
hardcoded_workflow = member "research" (bool true) (
    member "plan_check" (bool true) (
      member "verifier" (bool true) (
        member "nyquist_validation" (bool true) (
          member "auto_advance" (bool false) (
            member "node_repair" (bool true) (
              member "node_repair_budget" (num "2") (
                member "ui_phase" (bool true) (
                  member "ui_safety_gate" (bool true) (
                    member "text_mode" (bool false) (
                      member "research_before_questions" (bool false) (
                        member "discuss_mode" (str "discuss")
                          (member "skip_discuss" (bool false) end))))))))))))

unfoldable pub hardcoded_hooks : Members
hardcoded_hooks = member "context_warnings" (bool true) end

unfoldable pub hardcoded : Home → Members
unfolding hardcoded_git hardcoded_workflow hardcoded_hooks
hardcoded h = member "model_profile" (str "balanced") (
    member "commit_docs" (bool true) (
      member "parallelization" (bool true) (
        member "search_gitignored" (bool false) (
          member "brave_search" (bool h.brave) (
            member "firecrawl" (bool h.firecrawl) (
              member "exa_search" (bool h.exa) (
                member "git" (obj hardcoded_git) (
                  member "workflow" (obj hardcoded_workflow) (
                    member "hooks" (obj hardcoded_hooks)
                      (member "agent_skills" (obj end) end))))))))))

-- `v[name] || {}` for a value that is not null; only objects have a member of such a name.
abbrev pub section : String → Json → Option Json
section name (obj ms) = elim (get_member name ms) [
  | none ↦ none
  | some v ↦ if is_truthy (some v) then some v else none
]
section name v = none

-- `{ ...hardcoded.name, ...(userDefaults.name || {}), ...(choices.name || {}) }`
unfoldable pub merge_section : String → Members → Json → Json → Members
merge_section name base defaults choices =
    spread (spread base (own_members (section name defaults))) (own_members (section name choices))

-- `none` is the `TypeError` of `userDefaults.git` where the file holds null.
unfoldable pub merge : Members → Json → Json → Option Members
unfolding merge_section hardcoded_git hardcoded_workflow hardcoded_hooks
merge base null choices = none
merge base defaults choices = some (
    set_member "agent_skills" (obj (merge_section "agent_skills" end defaults choices)) (
      set_member "hooks" (obj (merge_section "hooks" hardcoded_hooks defaults choices)) (
        set_member "workflow" (obj (merge_section "workflow" hardcoded_workflow defaults choices)) (
          set_member "git" (obj (merge_section "git" hardcoded_git defaults choices))
            (spread (spread base (own_members (some defaults))) (own_members (some choices)))))))

-- `userChoices || {}`
abbrev pub choices_or_new : Json → Json
choices_or_new v = if is_truthy (some v) then v else obj end

unfoldable pub build_new_project_config : Home → Json → Option Members
unfolding user_defaults hardcoded merge
build_new_project_config h choices =
    merge (hardcoded h) (user_defaults h.defaults) (choices_or_new choices)
