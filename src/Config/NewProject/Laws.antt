-- ===== src/Config/NewProject/Laws.antt =====
-- The order of priority of the merge.
use mathlib.Core.Path.{subst}
use mathlib.Core.Option.{some-injective}
use aegis_workers.Base.{◌≡◌, ◌≢◌, ◌↔◌, refl, ◌∙◌, String, Option, none, some, eq_iff, arith}
use aegis_workers.Json.{Json, null, obj, Members, end, get_member, set_member, spread, own_members}
use aegis_workers.Json.Laws.{get_member-set_member, get_member-spread, HasUniqueKeys, or_member}
use aegis_workers.Config.NewProject.{
  DefaultsFile, missing, malformed, holds, hardcoded, hardcoded_git, hardcoded_workflow,
  hardcoded_hooks, section, merge_section, merge, Home, user_defaults, choices_or_new,
  build_new_project_config,
}

-- A key as the choices give it, else as the user's defaults do, else as `base` does.
abbrev pub first_given : String → Members → Members → Members → Option Json
first_given k choices defaults base =
    or_member (get_member k choices) (or_member (get_member k defaults) (get_member k base))

-- A section of the result, field by field.
pub merge_section_priority :
    (name k : String) (base : Members) (defaults choices : Json)
    → HasUniqueKeys (own_members (section name defaults))
    → HasUniqueKeys (own_members (section name choices))
    → get_member k (merge_section name base defaults choices)
      ≡ first_given k
          (own_members (section name choices))
          (own_members (section name defaults))
          base
unfolding merge_section
merge_section_priority name k base defaults choices u w =
    get_member-spread k _ _ w ∙ rw (get_member-spread k base _ u)

-- The keys of a value, and those of its four sections, do not repeat.
abbrev pub HasUniqueNames : Json → Type 0
HasUniqueNames v =
    HasUniqueKeys (own_members (some v))
    × HasUniqueKeys (own_members (section "git" v))
    × HasUniqueKeys (own_members (section "workflow" v))
    × HasUniqueKeys (own_members (section "hooks" v))
    × HasUniqueKeys (own_members (section "agent_skills" v))

-- A section of the result is an object that takes each key from the choices' section, else from
-- that of the user's defaults, else from `base`.
abbrev pub SectionMerged : String → Members → Json → Json → Members → Type 0
SectionMerged name base defaults choices result =
    (ms : Members) × (get_member name result ≡ some (obj ms))
    × ((k : String)
        → get_member k ms
          ≡ first_given k (own_members (section name choices)) (own_members (section name defaults))
              base)

-- A key outside the four sections.
abbrev pub IsPlain : String → Type 0
IsPlain k = (k ≢ "git") × (k ≢ "workflow") × (k ≢ "hooks") × (k ≢ "agent_skills")

-- The order of priority: choices, user's defaults, hardcoded.
pub record IsMerged (h : Home) (defaults choices : Json) (result : Members) : Type 0 where
  pub top :
      (k : String)
      → IsPlain k
      → get_member k result
        ≡ first_given k (own_members (some choices)) (own_members (some defaults)) (hardcoded h)
  pub git : SectionMerged "git" hardcoded_git defaults choices result
  pub workflow : SectionMerged "workflow" hardcoded_workflow defaults choices result
  pub hooks : SectionMerged "hooks" hardcoded_hooks defaults choices result
  pub agent_skills : SectionMerged "agent_skills" end defaults choices result

module _ (m : Members) (g w k a : Json) where
  abbrev with_sections : Members
  with_sections =
      set_member "agent_skills" a
        (set_member "hooks" k (set_member "workflow" w (set_member "git" g m)))

  with_sections_plain : (j : String) → IsPlain j → get_member j with_sections ≡ get_member j m
  with_sections_plain j (p, q, r, s) = ground (
    arith,
    get_member-set_member j "agent_skills" a
        (set_member "hooks" k (set_member "workflow" w (set_member "git" g m))),
    get_member-set_member j "hooks" k (set_member "workflow" w (set_member "git" g m)),
    get_member-set_member j "workflow" w (set_member "git" g m),
    get_member-set_member j "git" g m,
    eq_iff "agent_skills" j,
    eq_iff "hooks" j,
    eq_iff "workflow" j,
    eq_iff "git" j,
  )

  with_sections_git : get_member "git" with_sections ≡ some g
  with_sections_git = simp get_member-set_member

  with_sections_workflow : get_member "workflow" with_sections ≡ some w
  with_sections_workflow = simp get_member-set_member

  with_sections_hooks : get_member "hooks" with_sections ≡ some k
  with_sections_hooks = simp get_member-set_member

module _ (m : Members) (g w k a : Json) where
  with_sections_agents : get_member "agent_skills" (with_sections m g w k a) ≡ some a
  with_sections_agents = simp get_member-set_member

-- The merged object, whatever the sections are over.
IsMerged-body :
    (h : Home) (defaults choices : Json)
    → HasUniqueNames defaults
    → HasUniqueNames choices
    → IsMerged h defaults choices (
        with_sections
          (spread (spread (hardcoded h) (own_members (some defaults))) (own_members (some choices)))
          (obj (merge_section "git" hardcoded_git defaults choices))
          (obj (merge_section "workflow" hardcoded_workflow defaults choices))
          (obj (merge_section "hooks" hardcoded_hooks defaults choices))
          (obj (merge_section "agent_skills" end defaults choices)))
IsMerged-body h defaults choices (u, ug, uw, uh, ua) (v, vg, vw, vh, va) = record {
  top = λ k plain.
      with_sections_plain _ _ _ _ _ k plain
      ∙ get_member-spread k _ _ v
      ∙ rw (get_member-spread k (hardcoded h) _ u);
  git = (
    _,
    with_sections_git _ _ _ _ _,
    λ k. merge_section_priority "git" k hardcoded_git defaults choices ug vg,
  );
  workflow = (
    _,
    with_sections_workflow _ _ _ _ _,
    λ k. merge_section_priority "workflow" k hardcoded_workflow defaults choices uw vw,
  );
  hooks = (
    _,
    with_sections_hooks _ _ _ _ _,
    λ k. merge_section_priority "hooks" k hardcoded_hooks defaults choices uh vh,
  );
  agent_skills = (
    _,
    with_sections_agents _ _ _ _ _,
    λ k. merge_section_priority "agent_skills" k end defaults choices ua va,
  );
}

merge-IsMerged :
    (h : Home) (defaults choices : Json) (result : Members)
    → HasUniqueNames defaults
    → HasUniqueNames choices
    → merge (hardcoded h) defaults choices ≡ some result
    → IsMerged h defaults choices result
unfolding merge
merge-IsMerged h null choices result u w e = cc
merge-IsMerged h defaults choices result u w e =
    subst (IsMerged h defaults choices) (some-injective _ _ e)
      (IsMerged-body h defaults choices u w)

build-none_iff :
    (h : Home) (choices : Json) (f : DefaultsFile)
    → (merge (hardcoded h) (user_defaults f) choices ≡ none) ↔ (f ≡ holds null)
unfolding merge user_defaults
build-none_iff h choices missing = (λ e. cc, λ e. cc)
build-none_iff h choices malformed = (λ e. cc, λ e. cc)
build-none_iff h choices (holds null) = (λ e. refl, λ e. refl)
build-none_iff h choices (holds v) = (λ e. cc, λ e. cc)

-- Where the configuration of a new project is made, it takes each key outside the four sections from
-- the user's choices, else from the defaults file, else from the hardcoded defaults, and each key of
-- a section from the same sections in this order, if no object of the two has a key twice.
pub build_new_project_config-IsMerged :
    (h : Home) (choices : Json) (result : Members)
    → HasUniqueNames (user_defaults h.defaults)
    → HasUniqueNames (choices_or_new choices)
    → build_new_project_config h choices ≡ some result
    → IsMerged h (user_defaults h.defaults) (choices_or_new choices) result
unfolding build_new_project_config
build_new_project_config-IsMerged h choices result u w e =
    merge-IsMerged h (user_defaults h.defaults) (choices_or_new choices) result u w e

-- The configuration of a new project is not made, by a `TypeError`, exactly where the defaults file
-- holds null, whatever the choices are.
pub build_new_project_config-none_iff :
    (h : Home) (choices : Json)
    → (build_new_project_config h choices ≡ none) ↔ (h.defaults ≡ holds null)
unfolding build_new_project_config
build_new_project_config-none_iff h choices = build-none_iff h (choices_or_new choices) h.defaults
