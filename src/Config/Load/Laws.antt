-- ===== src/Config/Load/Laws.antt =====
-- What the load makes of a configuration.
use mathlib.Core.Option.{some-injective}
use aegis_workers.Base.{◌≡◌, refl, Bool, none, some}
use aegis_workers.Json.{Members, get_member, set_member, spread, bool, obj, end, null}
use aegis_workers.Config.NewProject.{Home, missing, build_new_project_config}
use aegis_workers.Config.Load.{Project, Loaded, load_config, defaults}

-- A home directory without user defaults.
abbrev pub home_with : (brave firecrawl exa : Bool) → Home
home_with brave firecrawl exa = record {
  brave = brave;
  firecrawl = firecrawl;
  exa = exa;
  defaults = missing;
}

-- The values for a missing file, with the search tools that the environment offers.
abbrev pub defaults_with : (brave firecrawl exa : Bool) → Loaded
defaults_with brave firecrawl exa = record {
  model_profile = defaults.model_profile;
  commit_docs = defaults.commit_docs;
  search_gitignored = defaults.search_gitignored;
  branching_strategy = defaults.branching_strategy;
  phase_branch_template = defaults.phase_branch_template;
  milestone_branch_template = defaults.milestone_branch_template;
  quick_branch_template = defaults.quick_branch_template;
  research = defaults.research;
  plan_checker = defaults.plan_checker;
  verifier = defaults.verifier;
  nyquist_validation = defaults.nyquist_validation;
  parallelization = defaults.parallelization;
  brave_search = bool brave;
  firecrawl = bool firecrawl;
  exa_search = bool exa;
  text_mode = defaults.text_mode;
  sub_repos = defaults.sub_repos;
  resolve_model_ids = defaults.resolve_model_ids;
  context_window = defaults.context_window;
  phase_naming = defaults.phase_naming;
  model_overrides = some null;
  agent_skills = some (obj end);
}

-- The configuration that a new project gets where there is no file of user defaults and no choice
-- is made loads, in every directory, without a write, as the values that the load has for a missing
-- file, but for the three search tools, which are those that the environment offers, and for the
-- overrides of models and the skills of agents, which are empty and no longer missing.
pub load_config-build_new_project_config :
    (brave firecrawl exa : Bool) (ms : Members) (p : Project)
    → build_new_project_config (home_with brave firecrawl exa) (obj end) ≡ some ms
    → load_config p (some (obj ms)) ≡ (defaults_with brave firecrawl exa, none)
unfolding build_new_project_config load_config defaults get_member set_member spread
load_config-build_new_project_config brave firecrawl exa ms p h = rw (← some-injective _ _ h) refl
