-- ===== src/Models.antt =====
-- Which model an agent uses: the table of model-profiles.cjs, `resolveModelInternal` and
-- `checkAgentsInstalled` of core.cjs. The names that every JavaScript object inherits, such as
-- `constructor`, are left out of the lookups.
pub mod Laws
pub mod Table
use aegis_workers.Base.{
  ℕ, ◌+◌, String, ◌<>◌, Bool, true, false, not, ◌&&◌, ◌===◌, ◌==◌, if◌then◌else◌, Option, none,
  some, List, [], ◌∷◌, Text, codes, text_eq, is_upper, keep, join, ltb, length, any, all,
}
use aegis_workers.Json.{
  Json, Items, Members, null, bool, num, str, arr, obj, nil, cons, get_member, is_truthy,
}

-- An agent's model for the profiles quality, balanced and budget.
pub data Models : Type 0 where
  models : (quality balanced budget : String) → Models

unfoldable pub model_profiles : List (String × Models)
model_profiles =
    ("gsd-planner", models "opus" "opus" "sonnet")
    ∷ ("gsd-roadmapper", models "opus" "sonnet" "sonnet")
    ∷ ("gsd-executor", models "opus" "sonnet" "sonnet")
    ∷ ("gsd-phase-researcher", models "opus" "sonnet" "haiku")
    ∷ ("gsd-project-researcher", models "opus" "sonnet" "haiku")
    ∷ ("gsd-research-synthesizer", models "sonnet" "sonnet" "haiku")
    ∷ ("gsd-debugger", models "opus" "sonnet" "sonnet")
    ∷ ("gsd-codebase-mapper", models "sonnet" "haiku" "haiku")
    ∷ ("gsd-verifier", models "sonnet" "sonnet" "haiku")
    ∷ ("gsd-plan-checker", models "sonnet" "sonnet" "haiku")
    ∷ ("gsd-integration-checker", models "sonnet" "sonnet" "haiku")
    ∷ ("gsd-nyquist-auditor", models "sonnet" "sonnet" "haiku")
    ∷ ("gsd-ui-researcher", models "opus" "sonnet" "haiku")
    ∷ ("gsd-ui-checker", models "sonnet" "sonnet" "haiku")
    ∷ ("gsd-ui-auditor", models "sonnet" "sonnet" "haiku")
    ∷ []

-- `agentModels[profile]`
unfoldable pub model_of : Text → Models → Option String
model_of profile (models quality balanced budget) =
    if text_eq profile (codes "quality")
    then some quality
    else if text_eq profile (codes "balanced")
    then some balanced
    else if text_eq profile (codes "budget")
    then some budget
    else none

abbrev pub map_entries :
    (Models → Option String) → List (String × Models) → List (String × Option String)
map_entries f [] = []
map_entries f ((agent, m) ∷ rest) = (agent, f m) ∷ map_entries f rest

unfoldable pub get_agent_to_model_map_for_profile : Text → List (String × Option String)
unfolding model_profiles
get_agent_to_model_map_for_profile profile = map_entries (model_of profile) model_profiles

-- `MODEL_PROFILES[agent]`
unfoldable pub find_models : String → List (String × Models) → Option Models
find_models agent [] = none
find_models agent ((a, m) ∷ rest) = if a === agent then some m else find_models agent rest

abbrev pub to_lower : Text → Text
to_lower [] = []
to_lower (c ∷ s) = (if is_upper c then c + 32 else c) ∷ to_lower s

-- `String(v)`
unfoldable mutual
  pub string_of : Json → String
  string_of null = "null"
  string_of (bool b) = if b then "true" else "false"
  string_of (num s) = s
  string_of (str s) = s
  string_of (arr vs) = join "," (strings_of vs)
  string_of (obj ms) = "[object Object]"

  pub strings_of : Items → List String
  strings_of nil = []
  strings_of (cons null vs) = "" ∷ strings_of vs
  strings_of (cons v vs) = string_of v ∷ strings_of vs

unfoldable pub valid_profiles : List String
valid_profiles = "quality" ∷ "balanced" ∷ "budget" ∷ []

-- What the function reads of the loaded configuration.
pub record ModelConfig : Type 0 where
  pub model_profile : Json
  pub resolve_model_ids : Json
  pub model_overrides : Json

-- `config.model_overrides?.[agent]`
abbrev pub override_of : String → Json → Option Json
override_of agent (obj ms) = get_member agent ms
override_of agent v = none

-- `MODEL_ALIAS_MAP[alias] || alias`
unfoldable pub full_model : String → String
full_model alias =
    if alias === "opus"
    then "claude-opus-4-0"
    else if alias === "sonnet"
    then "claude-sonnet-4-5"
    else if alias === "haiku"
    then "claude-haiku-3-5"
    else alias

-- `String(config.model_profile || 'balanced').toLowerCase()`
unfoldable pub profile_of : Json → Text
unfolding string_of
profile_of v = to_lower (codes (if is_truthy (some v) then string_of v else "balanced"))

-- `agentModels[profile] || agentModels['balanced'] || 'sonnet'`; the table has no empty name.
unfoldable pub alias_of : Text → Models → String
unfolding model_of
alias_of profile (models quality balanced budget) =
    elim (model_of profile (models quality balanced budget)) [ some m ↦ m | none ↦ balanced ]

abbrev is_omit : Json → Bool
is_omit (str s) = s === "omit"
is_omit v = false

-- The part behind the override and the test for `omit`.
unfoldable pub model_from_table : String → Json → Json → String
unfolding find_models model_profiles profile_of alias_of full_model
model_from_table agent profile ids = elim (find_models agent model_profiles) [
  | none ↦ "sonnet"
  | some m ↦
      if text_eq (profile_of profile) (codes "inherit")
      then "inherit"
      else if is_truthy (some ids)
      then full_model (alias_of (profile_of profile) m)
      else alias_of (profile_of profile) m
]

abbrev without_override : ModelConfig → String → Json
without_override config agent =
    if is_omit config.resolve_model_ids
    then str ""
    else str (model_from_table agent config.model_profile config.resolve_model_ids)

unfoldable pub resolve_model : ModelConfig → String → Json
unfolding model_from_table
resolve_model config agent = elim (override_of agent config.model_overrides) [
  | none ↦ without_override config agent
  | some v ↦ if is_truthy (some v) then v else without_override config agent
]

pub record Installation : Type 0 where
  pub agents_installed : Bool
  pub missing_agents : List String
  pub installed_agents : List String

-- The names of a table's agents
abbrev pub agents_of : List (String × Models) → List String
agents_of [] = []
agents_of ((agent, m) ∷ rest) = agent ∷ agents_of rest

-- The check for the agents `expected`, where `exists` says whether the agents directory and the
-- file of an agent are there.
unfoldable pub check_agents : List String → Bool → (String → Bool) → Installation
check_agents expected directory exists =
    let installed = keep exists expected in
    let missing = keep (λ a. not (exists a)) expected in
    if directory
    then record {
      agents_installed = ltb 0 (length installed) && length missing == 0;
      missing_agents = missing;
      installed_agents = installed;
    }
    else record { agents_installed = false; missing_agents = expected; installed_agents = [] }

unfoldable pub check_agents_installed : Bool → (String → Bool) → Installation
unfolding check_agents model_profiles
check_agents_installed directory exists =
    check_agents (agents_of model_profiles) directory (λ agent. exists (agent <> ".md"))
