-- ===== src/Core/Workstream.antt =====
-- The planning paths and the active workstream of core.cjs: `planningDir`, `planningRoot`,
-- `planningPaths`, `getActiveWorkstream` and `setActiveWorkstream`.
pub mod Laws
use aegis_workers.Base.{
  String, ◌<>◌, Bool, true, false, not, ◌&&◌, ◌||◌, if◌then◌else◌, Option, none, some, List, [],
  ◌∷◌, truthy, trim, codes,
}
use aegis_workers.Cli.Options.{is_name}

-- `path.join` on the parts of a path, which the code calls.
module _ (path_join : List String → String) where
  -- `ws` is undefined where the outer option is empty, and null where the inner one is.
  unfoldable pub planning_dir :
      (env : Option String) (cwd : String) → Option (Option String) → String
  planning_dir env cwd none = elim env [
    | none ↦ path_join (cwd ∷ ".planning" ∷ [])
    | some ws ↦
        if truthy ws
        then path_join (cwd ∷ ".planning" ∷ "workstreams" ∷ ws ∷ [])
        else path_join (cwd ∷ ".planning" ∷ [])
  ]
  planning_dir env cwd (some none) = path_join (cwd ∷ ".planning" ∷ [])
  planning_dir env cwd (some (some ws)) =
      if truthy ws
      then path_join (cwd ∷ ".planning" ∷ "workstreams" ∷ ws ∷ [])
      else path_join (cwd ∷ ".planning" ∷ [])

  unfoldable pub planning_root : String → String
  planning_root cwd = path_join (cwd ∷ ".planning" ∷ [])

  pub record PlanningPaths : Type 0 where
    pub planning : String
    pub state : String
    pub roadmap : String
    pub project : String
    pub config : String
    pub phases : String
    pub requirements : String

  unfoldable pub planning_paths :
      (env : Option String) (cwd : String) → Option (Option String) → PlanningPaths
  unfolding planning_dir planning_root
  planning_paths env cwd ws =
      let base = planning_dir env cwd ws in
      let root = planning_root cwd in
      record {
        planning = base;
        state = path_join (base ∷ "STATE.md" ∷ []);
        roadmap = path_join (base ∷ "ROADMAP.md" ∷ []);
        project = path_join (root ∷ "PROJECT.md" ∷ []);
        config = path_join (root ∷ "config.json" ∷ []);
        phases = path_join (base ∷ "phases" ∷ []);
        requirements = path_join (base ∷ "REQUIREMENTS.md" ∷ []);
      }

-- The file `.planning/active-workstream`, and which directories are under `.planning/workstreams`.
pub record Marker : Type 0 where
  pub content : Option String
  pub exists : String → Bool

unfoldable pub get_active_workstream : Marker → Option String
get_active_workstream m = elim m.content [
  | none ↦ none
  | some text ↦
      let name = trim text in
      if not (truthy name) || not (is_name (codes name))
      then none
      else if m.exists name
      then some name
      else none
]

-- What the call leaves; `none` is the error for an invalid name.
unfoldable pub set_active_workstream : Option String → Marker → Option Marker
set_active_workstream none m = some (record { content = none; exists = m.exists })
set_active_workstream (some name) m =
    if not (truthy name)
    then some (record { content = none; exists = m.exists })
    else if is_name (codes name)
    then some (record { content = some (name <> "\n"); exists = m.exists })
    else none
