-- ===== src/Models/Laws.antt =====
-- The model that is chosen agrees with the code's table of models and with the documented one.
use mathlib.Core.Path.{subst}
use aegis_workers.Base.{
  ◌≡◌, refl, sym, ap, ◌∙◌, String, Bool, true, false, not, Option, none, some, List, [], ◌∷◌, Text,
  codes, text_eq, keep, length, All, arith, ◌<◌, if◌then◌else◌, ◌<>◌, ◌↔◌, ◌+◌,
}
use aegis_workers.Json.{Json, null, bool, str}
use aegis_workers.Models.{
  model_profiles, get_agent_to_model_map_for_profile, find_models, profile_of, alias_of,
  ModelConfig, resolve_model, model_from_table, check_agents, check_agents_installed, agents_of,
}

-- A configuration with a profile, without overrides, that keeps the aliases.
abbrev pub with_profile : String → ModelConfig
with_profile profile = record {
  model_profile = str profile;
  resolve_model_ids = bool false;
  model_overrides = null;
}

-- The model of an agent, by the name of the profile in small letters.
abbrev table_model : Text → String → String
table_model profile agent = elim (find_models agent model_profiles) [
  | none ↦ "sonnet"
  | some m ↦ if text_eq profile (codes "inherit") then "inherit" else alias_of profile m
]

abbrev pub as_json : Option String → Json
as_json none = null
as_json (some m) = str m

-- The entries of a table of agents are the models that `model` gives.
abbrev pub Gives : (String → Json) → List (String × Option String) → Type 0
Gives model entries = All (λ e. as_json e.1 ≡ model e.0) entries

-- The profiles of the table.
pub data Tier : Type 0 where
  quality balanced budget : Tier

abbrev pub tier_name : Tier → Text
tier_name quality = codes "quality"
tier_name balanced = codes "balanced"
tier_name budget = codes "budget"

-- The models that the profile table of references/model-profiles.md lists.
abbrev pub documented : Tier → List (String × Option String)
documented quality =
    ("gsd-planner", some "opus")
    ∷ ("gsd-roadmapper", some "opus")
    ∷ ("gsd-executor", some "opus")
    ∷ ("gsd-phase-researcher", some "opus")
    ∷ ("gsd-project-researcher", some "opus")
    ∷ ("gsd-research-synthesizer", some "sonnet")
    ∷ ("gsd-debugger", some "opus")
    ∷ ("gsd-codebase-mapper", some "sonnet")
    ∷ ("gsd-verifier", some "sonnet")
    ∷ ("gsd-plan-checker", some "sonnet")
    ∷ ("gsd-integration-checker", some "sonnet")
    ∷ ("gsd-nyquist-auditor", some "sonnet")
    ∷ []
documented balanced =
    ("gsd-planner", some "opus")
    ∷ ("gsd-roadmapper", some "sonnet")
    ∷ ("gsd-executor", some "sonnet")
    ∷ ("gsd-phase-researcher", some "sonnet")
    ∷ ("gsd-project-researcher", some "sonnet")
    ∷ ("gsd-research-synthesizer", some "sonnet")
    ∷ ("gsd-debugger", some "sonnet")
    ∷ ("gsd-codebase-mapper", some "haiku")
    ∷ ("gsd-verifier", some "sonnet")
    ∷ ("gsd-plan-checker", some "sonnet")
    ∷ ("gsd-integration-checker", some "sonnet")
    ∷ ("gsd-nyquist-auditor", some "sonnet")
    ∷ []
documented budget =
    ("gsd-planner", some "sonnet")
    ∷ ("gsd-roadmapper", some "sonnet")
    ∷ ("gsd-executor", some "sonnet")
    ∷ ("gsd-phase-researcher", some "haiku")
    ∷ ("gsd-project-researcher", some "haiku")
    ∷ ("gsd-research-synthesizer", some "haiku")
    ∷ ("gsd-debugger", some "sonnet")
    ∷ ("gsd-codebase-mapper", some "haiku")
    ∷ ("gsd-verifier", some "haiku")
    ∷ ("gsd-plan-checker", some "haiku")
    ∷ ("gsd-integration-checker", some "haiku")
    ∷ ("gsd-nyquist-auditor", some "haiku")
    ∷ []

Gives-cong :
    (f g : String → Json)
    → ((agent : String) → f agent ≡ g agent)
    → (entries : List (String × Option String)) → Gives f entries
    → Gives g entries
Gives-cong f g same [] h = tt
Gives-cong f g same (e ∷ es) (p, h) = (p ∙ same e.0, Gives-cong f g same es h)

table_model-entries :
    (tier : Tier)
    → Gives
        (λ agent. str (table_model (tier_name tier) agent))
        (get_agent_to_model_map_for_profile (tier_name tier))
unfolding get_agent_to_model_map_for_profile find_models alias_of
table_model-entries quality = (
  refl,
  (
    refl,
    (
      refl,
      (
        refl,
        (refl, (refl, (refl, (refl, (refl, (refl, (refl, (refl, (refl, (refl, (refl, tt))))))))))),
      ),
    ),
  ),
)
table_model-entries balanced = (
  refl,
  (
    refl,
    (
      refl,
      (
        refl,
        (refl, (refl, (refl, (refl, (refl, (refl, (refl, (refl, (refl, (refl, (refl, tt))))))))))),
      ),
    ),
  ),
)
table_model-entries budget = (
  refl,
  (
    refl,
    (
      refl,
      (
        refl,
        (refl, (refl, (refl, (refl, (refl, (refl, (refl, (refl, (refl, (refl, (refl, tt))))))))))),
      ),
    ),
  ),
)

table_model-documented :
    (tier : Tier) → Gives (λ agent. str (table_model (tier_name tier) agent)) (documented tier)
unfolding find_models alias_of model_profiles
table_model-documented quality = (
  refl,
  (refl, (refl, (refl, (refl, (refl, (refl, (refl, (refl, (refl, (refl, (refl, tt))))))))))),
)
table_model-documented balanced = (
  refl,
  (refl, (refl, (refl, (refl, (refl, (refl, (refl, (refl, (refl, (refl, (refl, tt))))))))))),
)
table_model-documented budget = (
  refl,
  (refl, (refl, (refl, (refl, (refl, (refl, (refl, (refl, (refl, (refl, (refl, tt))))))))))),
)

-- Where the configuration names a profile of the table, in letters of either case, has no
-- overrides and keeps the aliases, the model that is chosen for an agent is, for each of the twelve
-- agents of the profile table in references/model-profiles.md, the one listed there in the
-- profile's column; and for each agent of the code's table it is the one that the table of agents
-- and models names, which a change to the profile reports.
pub resolve_model-get_agent_to_model_map_for_profile :
    (profile : String) (tier : Tier)
    → profile_of (str profile) ≡ tier_name tier
    → Gives (resolve_model (with_profile profile)) (documented tier)
      × Gives
          (resolve_model (with_profile profile))
          (get_agent_to_model_map_for_profile (profile_of (str profile)))
unfolding resolve_model model_from_table
resolve_model-get_agent_to_model_map_for_profile profile tier h =
    let chosen : (agent : String)
        → str (table_model (tier_name tier) agent) ≡ resolve_model (with_profile profile) agent =
      λ agent. ap (λ name. str (table_model name agent)) (sym h) in
    (
      Gives-cong _ _ chosen (documented tier) (table_model-documented tier),
      Gives-cong _ _ chosen _ (
          subst
            (λ name.
              Gives (λ agent. str (table_model (tier_name tier) agent))
                (get_agent_to_model_map_for_profile name))
            (sym h) (table_model-entries tier)),
    )

filtered :
    {A : Type 0} (p : A → Bool) (xs : List A)
    → length (keep p xs) + length (keep (λ a. not (p a)) xs) ≡ length xs
filtered p [] = refl
filtered p (x ∷ xs) = ground (arith, filtered p xs)

filtered-none :
    {A : Type 0} (p : A → Bool) (xs : List A)
    → length (keep (λ a. not (p a)) xs) ≡ 0 ↔ All (λ x. p x ≡ true) xs
filtered-none p [] = ground arith
filtered-none p (x ∷ xs) = ground (arith, filtered-none p xs)

check_agents-complete_iff :
    (expected : List String) (directory : Bool) (exists : String → Bool)
    → 0 < length expected
    → ((check_agents expected directory exists).agents_installed ≡ true)
      ↔ ((directory ≡ true) × All (λ a. exists a ≡ true) expected)
unfolding check_agents
check_agents-complete_iff expected directory exists some_expected =
    ground (arith, filtered exists expected, filtered-none exists expected)

-- The agents count as installed exactly if the agents directory is there and holds the file of every
-- agent of the table.
pub check_agents_installed-complete_iff :
    (directory : Bool) (exists : String → Bool)
    → ((check_agents_installed directory exists).agents_installed ≡ true) ↔ (
        (directory ≡ true)
        × All (λ agent. exists (agent <> ".md") ≡ true) (agents_of model_profiles))
unfolding check_agents_installed
check_agents_installed-complete_iff directory exists =
    check_agents-complete_iff (agents_of model_profiles) directory
      (λ agent. exists (agent <> ".md")) (omega arith)
