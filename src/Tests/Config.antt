-- ===== src/Tests/Config.antt =====
-- The configuration's theorems at concrete configurations.
use aegis_workers.Base.{
  ◌≡◌, ◌↔◌, refl, String, Option, true, false, none, some, [], ◌∷◌, truthy, split,
}
use aegis_workers.Json.{
  Json, Members, get_member, set_member, spread, Parsed, invalid, obj, str, num, bool, null, end,
  member,
}
use aegis_workers.Config.Keys.{suggestion, is_valid_config_key, valid_config_keys}
use aegis_workers.Config.Paths.{get_path, set_path}
use aegis_workers.Config.Paths.Laws.{Wrote, set_path-Wrote}
use aegis_workers.Config.Values.{parse_value}
use aegis_workers.Config.NewProject.{
  Home, holds, build_new_project_config, user_defaults, choices_or_new, hardcoded,
}
use aegis_workers.Config.NewProject.Laws.{
  IsMerged, build_new_project_config-none_iff, build_new_project_config-IsMerged,
}
use aegis_workers.Config.Commands
use aegis_workers.Config.Commands.{
  Planning, present, absent, updated, value, already_exists, created, config_of, cmd_config_set,
  set_config_value, cmd_config_get, cmd_config_new_project,
}
use aegis_workers.Config.Commands.Laws.{
  cmd_config_set-guard, cmd_config_get-cmd_config_set, cmd_config_new_project_twice,
}
use aegis_workers.Config.Load.{Project, load_config}
use aegis_workers.Config.Load.Laws.{home_with, defaults_with, load_config-build_new_project_config}

abbrev no_json : String → Parsed
no_json text = invalid text

abbrev no_float : String → Option String
no_float text = none

-- An infinite number is stored as null.
infinity_null : parse_value no_float no_json (some "Infinity") ≡ some null
unfolding parse_value
infinity_null = refl

numbers_read :
    (parse_value no_float no_json (some "007") ≡ some (num "7"))
    × (parse_value no_float no_json (some "0x1F") ≡ some (num "31"))
    × (parse_value no_float no_json (some " -0 ") ≡ some (num "0"))
    × (parse_value no_float no_json (some "-120") ≡ some (num "-120"))
unfolding parse_value
numbers_read = (refl, refl, refl, refl)

abbrev quiet : Json
quiet = obj (member "workflow" (obj (member "research" (bool false) end)) end)

abbrev home : Home
home = record { brave = true; firecrawl = false; exa = false; defaults = holds quiet }

abbrev empty_project : Project
empty_project = record { entries = []; ignored = true }

set_path-Wrote_example : Wrote ("workflow" ∷ "research" ∷ []) (some (bool true)) quiet
unfolding get_member
set_path-Wrote_example = set_path-Wrote "workflow" ("research" ∷ []) (some (bool true)) quiet tt

cmd_config_get-cmd_config_set_example :
    (p : Planning) × (cmd_config_set no_float no_json
        (some "workflow.research")
        (some "true")
        (present (Commands.holds quiet))
      ≡ (
        updated "workflow.research"
            (some (bool true))
            (get_path (split b'.' "workflow.research") quiet),
        p,
      ))
    × (cmd_config_get (some "workflow.research") p ≡ value (bool true))
unfolding get_member is_valid_config_key valid_config_keys suggestion parse_value
cmd_config_get-cmd_config_set_example =
    cmd_config_get-cmd_config_set no_float no_json "workflow.research" (some "true") (bool true)
      quiet refl refl refl refl tt

-- The configuration that the home directory and a choice of the profile make.
abbrev fast : Json
fast = obj (member "model_profile" (str "budget") end)

abbrev made : Members
made = elim (build_new_project_config home fast) [ some ms ↦ ms | none ↦ end ]

build_new_project_config-IsMerged_example :
    IsMerged home (user_defaults home.defaults) (choices_or_new fast) made
unfolding user_defaults get_member build_new_project_config
build_new_project_config-IsMerged_example =
    build_new_project_config-IsMerged home fast made ((refl, tt), tt, (refl, tt), tt, tt)
      ((refl, tt), tt, tt, tt, tt) refl

build_new_project_config-none_iff_example :
    (build_new_project_config home fast ≡ none) ↔ (home.defaults ≡ holds null)
build_new_project_config-none_iff_example = build_new_project_config-none_iff home fast

cmd_config_new_project_twice_example :
    (let q = (cmd_config_new_project no_json home none absent).1 in
      cmd_config_new_project no_json home (some "{}") q ≡ (already_exists, q))
unfolding cmd_config_new_project build_new_project_config user_defaults
cmd_config_new_project_twice_example =
    cmd_config_new_project_twice no_json home home none (some "{}") absent refl

cmd_config_set-guard_example :
    (is_valid_config_key "model_profile" ≡ true)
    × (suggestion "model_profile" ≡ none)
    × (truthy "model_profile" ≡ true)
unfolding cmd_config_set is_valid_config_key valid_config_keys suggestion set_config_value set_path
cmd_config_set-guard_example =
    cmd_config_set-guard no_float no_json "model_profile" (some "budget") (present Commands.missing)
      (λ e. cc)

load_config-build_new_project_config_example :
    load_config empty_project (some (obj (hardcoded (home_with true false false))))
    ≡ (defaults_with true false false, none)
unfolding build_new_project_config hardcoded get_member set_member spread
load_config-build_new_project_config_example =
    load_config-build_new_project_config true false false (hardcoded (home_with true false false))
      empty_project refl
