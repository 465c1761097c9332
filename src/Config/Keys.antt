-- ===== src/Config/Keys.antt =====
-- Which keys `config-set` takes: `VALID_CONFIG_KEYS`, `isValidConfigKey`, `CONFIG_KEY_SUGGESTIONS`
-- and `validateKnownConfigKeyPath` of config.cjs.
use aegis_workers.Base.{
  ℕ, String, Bool, true, false, ◌||◌, ◌&&◌, Option, none, some, List, [], ◌∷◌, ◌===◌, ◌==◌,
  starts_with, if◌then◌else◌, includes, slice_from, codes, Text, all, is_alnum,
}

unfoldable pub valid_config_keys : List String
valid_config_keys =
    "mode" ∷ "granularity" ∷ "parallelization" ∷ "commit_docs" ∷ "model_profile"
    ∷ "search_gitignored" ∷ "brave_search" ∷ "firecrawl" ∷ "exa_search" ∷ "workflow.research"
    ∷ "workflow.plan_check" ∷ "workflow.verifier" ∷ "workflow.nyquist_validation"
    ∷ "workflow.ui_phase" ∷ "workflow.ui_safety_gate" ∷ "workflow.auto_advance"
    ∷ "workflow.node_repair" ∷ "workflow.node_repair_budget" ∷ "workflow.text_mode"
    ∷ "workflow.research_before_questions" ∷ "workflow.discuss_mode" ∷ "workflow.skip_discuss"
    ∷ "workflow._auto_chain_active" ∷ "git.branching_strategy" ∷ "git.phase_branch_template"
    ∷ "git.milestone_branch_template" ∷ "git.quick_branch_template" ∷ "planning.commit_docs"
    ∷ "planning.search_gitignored" ∷ "hooks.context_warnings" ∷ []

-- `[a-zA-Z0-9_-]`
abbrev pub is_key_char : ℕ → Bool
is_key_char c = is_alnum c || c == b'_' || c == b'-'

-- `[a-zA-Z0-9_-]+$`
abbrev pub is_agent_type : Text → Bool
is_agent_type [] = false
is_agent_type (c ∷ s) = all is_key_char (c ∷ s)

-- `/^agent_skills\.[a-zA-Z0-9_-]+$/`; the prefix has 13 characters.
unfoldable pub is_agent_key : String → Bool
is_agent_key key = starts_with key "agent_skills." && is_agent_type (codes (slice_from 13 key))

unfoldable pub is_valid_config_key : String → Bool
unfolding valid_config_keys is_agent_key
is_valid_config_key key = if includes valid_config_keys key then true else is_agent_key key

-- `CONFIG_KEY_SUGGESTIONS[keyPath]`
unfoldable pub suggestion : String → Option String
suggestion key =
    if key === "workflow.nyquist_validation_enabled"
    then some "workflow.nyquist_validation"
    else if key === "agents.nyquist_validation_enabled"
    then some "workflow.nyquist_validation"
    else if key === "nyquist.validation_enabled"
    then some "workflow.nyquist_validation"
    else if key === "hooks.research_questions"
    then some "workflow.research_before_questions"
    else if key === "workflow.research_questions"
    then some "workflow.research_before_questions"
    else none
