-- ===== src/Core/Root.antt =====
-- `findProjectRoot` of core.cjs: the walk from a directory up to the project that it belongs to.
-- `dirname`, the file system, and the configuration files' JSON are parameters; a file system that
-- changes during the walk is not modelled.
pub mod Laws
use aegis_workers.Base.{
  ℕ, zero, suc, String, Bool, true, false, ◌&&◌, ◌||◌, not, any, Option, none, some, List, [], ◌∷◌,
  ◌===◌, if◌then◌else◌, ltb, length,
}
use aegis_workers.Json.{
  Json, Items, Members, null, bool, num, str, arr, obj, nil, cons, end, get_member, is_truthy,
}

-- What the code asks of the system: `dirname`, whether `.planning` is a directory of a path and
-- `.git` is there, the parsed `config.json` of its `.planning` if that can be read, and the first
-- segment of the relative path from a parent to the resolved directory.
pub record Tree : Type 0 where
  pub dirname : String → String
  pub has_planning : String → Bool
  pub has_git : String → Bool
  pub config : String → Option Json
  pub top_segment : String → String
  pub root : String
  pub home : String

-- `isInsideGitRepo(candidate)`, from `d` up; none where the fuel runs out
unfoldable pub inside_git : Tree → ℕ → String → String → Option Bool
inside_git y zero candidate d = none
inside_git y (suc fuel) candidate d =
    let above = inside_git y fuel candidate (y.dirname d) in
    if d === y.root
    then some false
    else if y.has_git d
    then some true
    else if d === candidate
    then some false
    else above

-- `config.sub_repos || config.planning?.sub_repos || []`, and none where a property of null is read
abbrev pub property : String → Option Json → Option Json
property name (some (obj ms)) = get_member name ms
property name v = none

abbrev pub sub_repos_of : Json → Option Json
sub_repos_of config =
    let own = property "sub_repos" (some config) in
    let nested = property "sub_repos" (property "planning" (some config)) in
    if is_truthy own then own else if is_truthy nested then nested else some (arr nil)

-- `subRepos.includes(segment)` on an array, where an empty one includes nothing
abbrev pub items_include : String → Items → Bool
items_include s nil = false
items_include s (cons (str t) vs) = s === t || items_include s vs
items_include s (cons v vs) = items_include s vs

abbrev pub lists_segment : String → Option Json → Bool
lists_segment s (some (arr vs)) = items_include s vs
lists_segment s v = false

abbrev pub is_true : Option Json → Bool
is_true (some (bool b)) = b
is_true v = false

-- Whether a parent with a `.planning` directory is taken. The tests that end in `return parent` are a
-- list of the repository in `sub_repos`, the flag `multiRepo` with a git repository, and a git
-- repository alone; a configuration that throws leaves the last.
abbrev pub is_taken : Tree → String → Bool → Bool
is_taken y parent inside = elim (y.config parent) [
  | none ↦ inside
  | some null ↦ inside
  | some v ↦
      lists_segment (y.top_segment parent) (sub_repos_of v)
      || ((is_true (property "multiRepo" (some v)) && inside) || inside)
]

-- The loop from `dir` up; the limit is the fuel of each search for a git repository.
unfoldable pub walk_up : Tree → ℕ → ℕ → String → String → String → Option String
unfolding inside_git
walk_up y limit zero start resolved dir = none
walk_up y limit (suc fuel) start resolved dir =
    let parent = y.dirname dir in
    let above = walk_up y limit fuel start resolved parent in
    let inside = inside_git y limit parent resolved in
    if dir === y.root || (parent === dir || parent === y.home)
    then some start
    else if y.has_planning parent
    then elim inside [ none ↦ none | some b ↦ if is_taken y parent b then some parent else above ]
    else above

unfoldable pub find_project_root : Tree → ℕ → String → String → Option String
unfolding walk_up
find_project_root y fuel start resolved =
    if y.has_planning resolved then some start else walk_up y fuel fuel start resolved resolved
