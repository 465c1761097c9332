-- ===== src/Cli/Route/Reads.antt =====
-- How the cases of `runCommand` read the arguments.
use aegis_workers.Base.{◌+◌, String, Bool, false, Option, none, some, List, ◌===◌, get_elem?}
use aegis_workers.Cli.Args.{index_of}
use aegis_workers.Cli.Number.{Number, parse_int}

-- `x === s` where `x` may be undefined
abbrev pub is : Option String → String → Bool
is none s = false
is (some x) s = x === s

-- A value in a template literal
abbrev pub shown : Option String → String
shown none = "undefined"
shown (some s) = s

-- `i !== -1 ? parseInt(args[i + 1], 10) : null` after `i = args.indexOf(flag)`
unfoldable pub number_after : List String → String → Option Number
number_after args flag = elim (index_of flag args) [
  | none ↦ none
  | some i ↦ some (parse_int (get_elem? args (i + 1)))
]

-- The same with a default in place of null
unfoldable pub number_or : List String → String → Number → Number
unfolding number_after
number_or args flag default = elim (number_after args flag) [ none ↦ default | some n ↦ n ]
