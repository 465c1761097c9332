-- ===== src/Tests/Core.antt =====
-- The theorems on the lock, the workstreams, the models and the checks of inputs, at concrete inputs.
use aegis_workers.Base.{
  if◌then◌else◌, ◌≡◌, ◌≢◌, ◌↔◌, refl, ℕ, suc, ◌<>◌, true, false, none, some, [], ◌∷◌, codes, All,
  ◌===◌,
}
use aegis_workers.Json.{str}
use aegis_workers.Core.Lock.{
  Outcome, returned, thrown, Round, Trace, created, denied, with_planning_lock,
}
use aegis_workers.Core.Lock.Laws.{
  RanOnce, NeverExists, AlwaysExists, with_planning_lock-once, with_planning_lock-reruns,
}
use aegis_workers.Core.Workstream.{Marker, get_active_workstream, set_active_workstream}
use aegis_workers.Core.Workstream.Laws.{get_active_workstream-set_active_workstream}
use aegis_workers.Cli.Options.{is_name}
use aegis_workers.Models.{
  profile_of, resolve_model, get_agent_to_model_map_for_profile, check_agents_installed, agents_of,
  model_profiles,
}
use aegis_workers.Models.Table.{format_agent_to_model_map_as_table}
use aegis_workers.Models.Laws.{
  documented, budget, Gives, with_profile, resolve_model-get_agent_to_model_map_for_profile,
  check_agents_installed-complete_iff,
}
use aegis_workers.Security.Paths.{PathSystem, safe_path, require_safe_path}
use aegis_workers.Security.Paths.Laws.{IsSafe, require_safe_path-IsSafe}
use aegis_workers.Security.Names.{validate_shell_arg, accepted}
use aegis_workers.Security.Names.Laws.{IsInert, validate_shell_arg-accepted_iff}

-- A callback that counts its runs and returns.
abbrev count_up : ℕ → Outcome ℕ × ℕ
count_up n = (returned n, suc n)

-- A callback that counts its runs and fails on a file that is there.
abbrev collide : ℕ → Outcome ℕ × ℕ
collide n = (thrown "EEXIST", suc n)

abbrev fresh : Trace
fresh = record { unlinked = 0; slept = 0 }

abbrev held : Round
held = record { attempt = denied "EEXIST"; age = some 120 }

abbrev free : Round
free = record { attempt = created; age = none }

count_up-NeverExists : NeverExists count_up
count_up-NeverExists s c e = cc

with_planning_lock-once_example :
    RanOnce count_up none 0 (with_planning_lock count_up (held ∷ free ∷ []) 0 fresh)
with_planning_lock-once_example =
    with_planning_lock-once count_up count_up-NeverExists (held ∷ free ∷ []) 0 fresh

collide-AlwaysExists : AlwaysExists collide
collide-AlwaysExists s = refl

with_planning_lock-reruns_example :
    (with_planning_lock collide (free ∷ free ∷ []) 0 fresh).state ≡ 3
with_planning_lock-reruns_example =
    with_planning_lock-reruns collide collide-AlwaysExists (free ∷ free ∷ []) (refl, (refl, tt)) 0
      fresh

abbrev cleared : Marker
cleared = record { content = none; exists = λ name. name === "alpha" }

abbrev marked : Marker
marked = record { content = some "alpha\n"; exists = λ name. name === "alpha" }

get_active_workstream-set_active_workstream_example : get_active_workstream marked ≡ some "alpha"
unfolding set_active_workstream is_name
get_active_workstream-set_active_workstream_example =
    get_active_workstream-set_active_workstream "alpha" cleared marked refl

resolve_model-get_agent_to_model_map_for_profile_example :
    Gives (resolve_model (with_profile "Budget")) (documented budget)
    × Gives
        (resolve_model (with_profile "Budget"))
        (get_agent_to_model_map_for_profile (profile_of (str "Budget")))
unfolding profile_of
resolve_model-get_agent_to_model_map_for_profile_example =
    resolve_model-get_agent_to_model_map_for_profile "Budget" budget refl

check_agents_installed-complete_iff_example :
    ((check_agents_installed true (λ file. file === "gsd-planner.md")).agents_installed ≡ true) ↔ (
      (true ≡ true)
      × All (λ agent. ((agent <> ".md") === "gsd-planner.md") ≡ true) (agents_of model_profiles))
check_agents_installed-complete_iff_example =
    check_agents_installed-complete_iff true (λ file. file === "gsd-planner.md")

abbrev paths : PathSystem
paths = record {
  resolve = λ path. path;
  resolve_in = λ base path. base <> "/" <> path;
  is_absolute = λ path. path === "/etc/passwd";
  real_path = λ path. some path;
  dirname = λ path. path;
  basename = λ path. path;
  join = λ directory name. directory <> "/" <> name;
  separator = "/";
}

require_safe_path-IsSafe_example : IsSafe paths (some "a.md") (some "/work") false "/work/a.md"
unfolding require_safe_path
require_safe_path-IsSafe_example =
    require_safe_path-IsSafe paths none (some "a.md") (some "/work") false "/work/a.md" refl

-- /work/out is a link to /etc; neither the file nor its directory exists behind it.
abbrev linked : PathSystem
linked = record {
  resolve = λ path. path;
  resolve_in = λ base path. base <> "/" <> path;
  is_absolute = λ path. false;
  real_path = λ path.
      if path === "/work/out" then some "/etc" else if path === "/work" then some "/work" else none;
  dirname = λ path. "/work/out/new";
  basename = λ path. "a.md";
  join = λ directory name. directory <> "/" <> name;
  separator = "/";
}

link_accepted :
    require_safe_path linked none (some "out/new/a.md") (some "/work") false
    ≡ safe_path "/work/out/new/a.md"
unfolding require_safe_path
link_accepted = refl

validate_shell_arg-accepted_iff_example :
    (validate_shell_arg (some (codes "v1.0")) ≡ accepted (codes "v1.0"))
    ↔ ((codes "v1.0" ≡ codes "v1.0") × (codes "v1.0" ≢ []) × IsInert (codes "v1.0"))
validate_shell_arg-accepted_iff_example =
    validate_shell_arg-accepted_iff (codes "v1.0") (codes "v1.0")

table_of_one :
    format_agent_to_model_map_as_table (("gsd-planner", "opus") ∷ [])
    ≡ " Agent       │ Model\n─────────────┼───────\n gsd-planner │ opus \n"
unfolding format_agent_to_model_map_as_table
table_of_one = refl
