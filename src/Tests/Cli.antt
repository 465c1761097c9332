-- ===== src/Tests/Cli.antt =====
-- The command line's theorems at concrete command lines.
use aegis_workers.Base.{
  ◌≡◌, ◌↔◌, ◌⊎◌, refl, String, ◌<>◌, true, false, none, some, List, [], ◌∷◌, ◌++◌, codes, truthy,
  trim, includes,
}
use aegis_workers.Json.{
  Json, get_member, Parsed, parsed, invalid, obj, arr, bool, member, end, cons, nil,
}
use aegis_workers.Cli.Pick.{extract_field, pick_output}
use aegis_workers.Core.Worktree.{System}
use aegis_workers.Cli.Options.{Host, Options, main_options, take_option, ok, is_name}
use aegis_workers.Cli.Options.Laws.{main_options-cwd, main_options-workstream}
use aegis_workers.Cli.Args.{named, parse_named_args, field, value, is_flag}
use aegis_workers.Cli.Args.Laws.{named_iff, field-parse_named_args}
use aegis_workers.Cli.Call.{call, thrown, CommandsCall, StateCall, commands, state}
use aegis_workers.Cli.Route.{run_command}
use aegis_workers.Cli.Route.Laws.{run_command-commit}
use aegis_workers.Cli.Route.Patches.{run_command-state_patch}
use aegis_workers.Cli.Route.Throws.{run_command-thrown_iff, BareFields}

abbrev system : System
system = record {
  spawn_git = λ cwd args. record { status = some 128; stdout = none; stderr = none };
  exists = λ path. true;
  path_join = λ p q. p <> "/" <> q;
  path_resolve = λ p q. p <> "/" <> q;
  dirname = λ p. p;
}

abbrev host : Host
host = record {
  cwd = "/work";
  resolve = λ path. path;
  is_directory = λ path. true;
  system = system;
  env_workstream = some "alpha";
  active_workstream = λ cwd. none;
}

abbrev options : Options
options = record {
  cwd = "/work";
  workstream = some "beta";
  raw = false;
  pick = none;
  args = "state" ∷ [];
}

abbrev no_json : String → Parsed
no_json text = invalid text

options_parsed : main_options host ("state" ∷ "--ws" ∷ "beta" ∷ []) ≡ ok options
unfolding main_options take_option is_name
options_parsed = refl

main_options-workstream_example :
    (is_name (codes "beta") ≡ true)
    ⊎ ((host.env_workstream ≡ some "beta") × (truthy (trim "beta") ≡ false))
main_options-workstream_example =
    main_options-workstream host ("state" ∷ "--ws" ∷ "beta" ∷ []) options "beta" options_parsed refl

main_options-cwd_example :
    (main_options host ("state" ∷ "--cwd" ∷ "/other" ∷ "get" ∷ [])
      ≡ main_options (record host { cwd = host.resolve "/other" }) ("state" ∷ "get" ∷ []))
    × (main_options host ("state" ∷ "--cwd=/other" ∷ "get" ∷ [])
        ≡ main_options (record host { cwd = host.resolve "/other" }) ("state" ∷ "get" ∷ []))
unfolding is_flag
main_options-cwd_example =
    main_options-cwd host "/other" ("state" ∷ []) ("get" ∷ []) refl refl refl (refl, refl)
      (refl, refl)

abbrev command : String
command = "summary-extract"

run_command-thrown_iff_example :
    (run_command no_json command ("summary-extract" ∷ "--fields" ∷ []) false ≡ thrown)
    ↔ ((command ≡ "summary-extract") × BareFields ("summary-extract" ∷ "--fields" ∷ []))
run_command-thrown_iff_example =
    run_command-thrown_iff no_json command ("summary-extract" ∷ "--fields" ∷ []) false

run_command-commit_example :
    run_command no_json "commit" ("commit" ∷ "fix" ∷ "it" ∷ "--files" ∷ "a.md" ∷ []) true
    ≡ call (commands (CommandsCall.commit (some "fix it") ("a.md" ∷ []) true false false))
unfolding is_flag
run_command-commit_example =
    run_command-commit no_json ("fix" ∷ "it" ∷ []) ("a.md" ∷ []) true (refl, (refl, tt)) (refl, tt)

run_command-state_patch_example :
    run_command no_json "state"
      ("state" ∷ "patch" ∷ "--status" ∷ "done" ∷ "--plan" ∷ "--2" ∷ [])
      false
    ≡ call (state (StateCall.patch (("status", "done") ∷ ("plan", "--2") ∷ []) false))
run_command-state_patch_example =
    run_command-state_patch no_json (("status", "done") ∷ ("plan", "--2") ∷ []) false
      (refl, refl, refl, (refl, refl, refl, tt))

named_iff_example : (named ("x" ∷ "--name" ∷ "v" ∷ []) "name" ≡ some "v") ↔ (
    (before : List String) × (behind : List String) × (("x" ∷ "--name" ∷ "v" ∷ [])
      ≡ before ++ ("--name" ∷ "v" ∷ behind))
    × (includes before "--name" ≡ false)
    × (is_flag "v" ≡ false))
named_iff_example = named_iff ("x" ∷ "--name" ∷ "v" ∷ []) "name" "v"

field-parse_named_args_example :
    field "type" (parse_named_args ("--type" ∷ "plan" ∷ []) ("type" ∷ []) ("raw" ∷ []))
    ≡ some (value (named ("--type" ∷ "plan" ∷ []) "type"))
field-parse_named_args_example =
    field-parse_named_args ("--type" ∷ "plan" ∷ []) ("type" ∷ []) ("raw" ∷ []) "type"

-- `{"items": [true, false]}`
abbrev captured : Json
captured = obj (member "items" (arr (cons (bool true) (cons (bool false) nil))) end)

last_item_picked : extract_field captured "items[-1]" ≡ some (bool false)
unfolding extract_field get_member
last_item_picked = refl

missing_item_picked : pick_output "items[7]" "{}" (parsed captured) ≡ ""
unfolding pick_output get_member
missing_item_picked = refl
