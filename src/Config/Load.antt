-- ===== src/Config/Load.antt =====
-- `detectSubRepos` and `loadConfig` of core.cjs: the configuration that the other commands read, with
-- the migrations that the load writes back to `config.json`. In an array the code finds none of
-- the keys, so it reads as an object without members; that a write of the file fails is ignored by the code.
pub mod Laws
use aegis_workers.Base.{
  String, Bool, true, false, not, ◌&&◌, ◌||◌, ◌===◌, if◌then◌else◌, Option, none, some, List, [],
  ◌∷◌, Text, codes, ltb, ◌==◌, starts_with,
}
use aegis_workers.Json.{
  Json, Items, Members, null, bool, num, str, arr, obj, nil, cons, end, get_member, set_member,
  remove_member, has_member, is_truthy,
}
use aegis_workers.Models.{string_of}
use aegis_workers.Config.NewProject.{migrate_depth}

-- Order of texts by their codes
abbrev pub text_le : Text → Text → Bool
text_le [] t = true
text_le (c ∷ s) [] = false
text_le (c ∷ s) (d ∷ t) = ltb c d || (c == d && text_le s t)

-- `xs.sort()` by the strings of the items
abbrev pub insert_by {ℓ} : {A : Type ℓ} → (A → String) → A → List A → List A
insert_by key x [] = x ∷ []
insert_by key x (y ∷ ys) =
    let rest = insert_by key x ys in
    if text_le (codes (key x)) (codes (key y)) then x ∷ y ∷ ys else y ∷ rest

abbrev pub sort_by {ℓ} : {A : Type ℓ} → (A → String) → List A → List A
sort_by key [] = []
sort_by key (x ∷ xs) = insert_by key x (sort_by key xs)

-- An entry of the project's directory.
pub record Entry : Type 0 where
  pub name : String
  pub is_directory : Bool
  pub has_git : Bool

abbrev pub is_sub_repo : Entry → Bool
is_sub_repo e =
    e.is_directory && not (starts_with e.name "." || e.name === "node_modules") && e.has_git

abbrev repo_names : List Entry → List String
repo_names [] = []
repo_names (e ∷ es) = if is_sub_repo e then e.name ∷ repo_names es else repo_names es

-- The directory that cannot be read counts as one without entries.
unfoldable pub detect_sub_repos : List Entry → List String
detect_sub_repos entries = sort_by (λ n. n) (repo_names entries)

-- What the load asks of the project: its directory's entries, and whether git ignores `.planning/`.
pub record Project : Type 0 where
  pub entries : List Entry
  pub ignored : Bool

abbrev pub to_items : List String → Items
to_items [] = nil
to_items (s ∷ ss) = cons (str s) (to_items ss)

abbrev pub from_items : Items → List Json
from_items nil = []
from_items (cons v vs) = v ∷ from_items vs

-- `parsed[section]?.[field]`
abbrev pub nested : String → String → Members → Option Json
nested section field ms = elim (get_member section ms) [
  | some (obj inner) ↦ get_member field inner
  | _ ↦ none
]

abbrev is_true : Option Json → Bool
is_true (some (bool b)) = b
is_true v = false

-- `if (!parsed.planning) parsed.planning = {}; parsed.planning.commit_docs = false`, which does
-- nothing to a primitive value.
abbrev pub without_commit_docs : Members → Members
without_commit_docs ms = elim (get_member "planning" ms) [
  | some (obj inner) ↦ set_member "planning" (obj (set_member "commit_docs" (bool false) inner)) ms
  | some v ↦
      if is_truthy (some v)
      then ms
      else set_member "planning" (obj (set_member "commit_docs" (bool false) end)) ms
  | none ↦ set_member "planning" (obj (set_member "commit_docs" (bool false) end)) ms
]

-- The members, and whether they differ from the file's.
abbrev pub Dirty : Type 0
Dirty = Members × Bool

-- The legacy `multiRepo: true` becomes a list of repositories.
unfoldable pub migrate_multi_repo : List String → Members → Dirty
migrate_multi_repo detected ms =
    if is_true (get_member "multiRepo" ms)
      && not (is_truthy (get_member "sub_repos" ms))
      && not (is_truthy (nested "planning" "sub_repos" ms))
    then elim detected [
      | [] ↦ (ms, false)
      | d ∷ ds ↦ (
        remove_member "multiRepo"
            (without_commit_docs (set_member "sub_repos" (arr (to_items (d ∷ ds))) ms)),
        true,
      )
    ]
    else (ms, false)

-- `parsed.sub_repos || parsed.planning?.sub_repos || []`
abbrev pub current_sub_repos : Members → Option Json
current_sub_repos ms =
    if is_truthy (get_member "sub_repos" ms)
    then get_member "sub_repos" ms
    else if is_truthy (nested "planning" "sub_repos" ms)
    then nested "planning" "sub_repos" ms
    else some (arr nil)

-- Whether the JSON texts of the sorted items and of the detected names agree.
abbrev pub same_names : List Json → List String → Bool
same_names [] [] = true
same_names (str s ∷ vs) (n ∷ ns) = s === n && same_names vs ns
same_names _ _ = false

-- The list of repositories follows the directory.
unfoldable pub sync_sub_repos : List String → Dirty → Dirty
sync_sub_repos detected (ms, dirty) = elim (current_sub_repos ms) [
  | some (arr (cons v vs)) ↦ elim detected [
    | [] ↦ (ms, dirty)
    | d ∷ ds ↦
        if same_names (sort_by string_of (v ∷ from_items vs)) (d ∷ ds)
        then (ms, dirty)
        else (set_member "sub_repos" (arr (to_items (d ∷ ds))) ms, true)
  ]
  | _ ↦ (ms, dirty)
]

-- The configuration that the commands see.
pub record Loaded : Type 0 where
  pub model_profile : Json
  pub commit_docs : Json
  pub search_gitignored : Json
  pub branching_strategy : Json
  pub phase_branch_template : Json
  pub milestone_branch_template : Json
  pub quick_branch_template : Json
  pub research : Json
  pub plan_checker : Json
  pub verifier : Json
  pub nyquist_validation : Json
  pub parallelization : Json
  pub brave_search : Json
  pub firecrawl : Json
  pub exa_search : Json
  pub text_mode : Json
  pub sub_repos : Json
  pub resolve_model_ids : Json
  pub context_window : Json
  pub phase_naming : Json
  pub model_overrides : Option Json
  pub agent_skills : Option Json

unfoldable pub defaults : Loaded
defaults = record {
  model_profile = str "balanced";
  commit_docs = bool true;
  search_gitignored = bool false;
  branching_strategy = str "none";
  phase_branch_template = str "gsd/phase-{phase}-{slug}";
  milestone_branch_template = str "gsd/{milestone}-{slug}";
  quick_branch_template = null;
  research = bool true;
  plan_checker = bool true;
  verifier = bool true;
  nyquist_validation = bool true;
  parallelization = bool true;
  brave_search = bool false;
  firecrawl = bool false;
  exa_search = bool false;
  text_mode = bool false;
  sub_repos = arr nil;
  resolve_model_ids = bool false;
  context_window = num "200000";
  phase_naming = str "sequential";
  model_overrides = none;
  agent_skills = none;
}

-- `get(key, { section, field })`
unfoldable pub get_nested : String → String → String → Members → Option Json
get_nested key section field ms = elim (get_member key ms) [
  | some v ↦ some v
  | none ↦ nested section field ms
]

-- `v ?? d`
abbrev pub or_null : Option Json → Json → Json
or_null none d = d
or_null (some null) d = d
or_null (some v) d = v

abbrev pub parallelization_of : Option Json → Json
parallelization_of (some (bool b)) = bool b
parallelization_of (some (obj ms)) = elim (get_member "enabled" ms) [
  | some v ↦ v
  | none ↦ bool true
]
parallelization_of v = bool true

abbrev pub commit_docs_of : Bool → Option Json → Json
commit_docs_of ignored (some v) = v
commit_docs_of ignored none = if ignored then bool false else bool true

abbrev truthy_or : Option Json → Json → Json
truthy_or o d = elim o [ none ↦ d | some v ↦ if is_truthy (some v) then v else d ]

unfoldable pub resolve : Bool → Members → Loaded
unfolding get_nested
resolve ignored ms = record {
  model_profile = or_null (get_member "model_profile" ms) (str "balanced");
  commit_docs = commit_docs_of ignored (get_nested "commit_docs" "planning" "commit_docs" ms);
  search_gitignored =
      or_null (get_nested "search_gitignored" "planning" "search_gitignored" ms) (bool false);
  branching_strategy =
      or_null (get_nested "branching_strategy" "git" "branching_strategy" ms) (str "none");
  phase_branch_template =
      or_null (get_nested "phase_branch_template" "git" "phase_branch_template" ms)
        (str "gsd/phase-{phase}-{slug}");
  milestone_branch_template =
      or_null (get_nested "milestone_branch_template" "git" "milestone_branch_template" ms)
        (str "gsd/{milestone}-{slug}");
  quick_branch_template =
      or_null (get_nested "quick_branch_template" "git" "quick_branch_template" ms) null;
  research = or_null (get_nested "research" "workflow" "research" ms) (bool true);
  plan_checker = or_null (get_nested "plan_checker" "workflow" "plan_check" ms) (bool true);
  verifier = or_null (get_nested "verifier" "workflow" "verifier" ms) (bool true);
  nyquist_validation =
      or_null (get_nested "nyquist_validation" "workflow" "nyquist_validation" ms) (bool true);
  parallelization = parallelization_of (get_member "parallelization" ms);
  brave_search = or_null (get_member "brave_search" ms) (bool false);
  firecrawl = or_null (get_member "firecrawl" ms) (bool false);
  exa_search = or_null (get_member "exa_search" ms) (bool false);
  text_mode = or_null (get_nested "text_mode" "workflow" "text_mode" ms) (bool false);
  sub_repos = or_null (get_nested "sub_repos" "planning" "sub_repos" ms) (arr nil);
  resolve_model_ids = or_null (get_member "resolve_model_ids" ms) (bool false);
  context_window = or_null (get_member "context_window" ms) (num "200000");
  phase_naming = or_null (get_member "phase_naming" ms) (str "sequential");
  model_overrides = some (truthy_or (get_member "model_overrides" ms) null);
  agent_skills = some (truthy_or (get_member "agent_skills" ms) (obj end));
}

-- The three migrations of a configuration
unfoldable pub migrate : Project → Members → Dirty
unfolding migrate_depth detect_sub_repos migrate_multi_repo sync_sub_repos
migrate p ms =
    let detected = detect_sub_repos p.entries in
    sync_sub_repos detected (migrate_multi_repo detected (migrate_depth ms))

-- `'depth' in parsed && !('granularity' in parsed)`
abbrev has_old_depth : Members → Bool
has_old_depth ms = has_member "depth" ms && not (has_member "granularity" ms)

-- What the load returns, and the new content of the file if it is written. `none` is a file that
-- cannot be read or parsed. A primitive value throws at the first `in`.
unfoldable pub load_config : Project → Option Json → Loaded × Option Json
unfolding migrate resolve defaults
load_config p none = (defaults, none)
load_config p (some (obj ms)) =
    let (new, dirty) = migrate p ms in
    (resolve p.ignored new, if has_old_depth ms || dirty then some (obj new) else none)
load_config p (some (arr vs)) = (resolve p.ignored end, none)
load_config p (some v) = (defaults, none)
