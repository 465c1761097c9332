-- ===== src/Cli/Args.antt =====
-- The argument helpers of gsd-tools.cjs: `parseNamedArgs`, `parseMultiwordArg`, and the reads of
-- `args` that the router makes by hand. `args[i]` out of range is `none`.
pub mod Laws
use aegis_workers.Base.{
  ℕ, zero, suc, ◌+◌, ◌-◌, String, ◌<>◌, Bool, true, false, ◌&&◌, not, Option, none, some, List, [],
  ◌∷◌, ◌++◌, starts_with, ◌===◌, if◌then◌else◌, get_elem?, drop, take, keep, includes, join, length,
}

-- `args.indexOf(s)`, with `none` for -1
abbrev pub index_of : String → List String → Option ℕ
index_of s [] = none
index_of s (x ∷ xs) =
    if x === s then some 0 else elim (index_of s xs) [ none ↦ none | some i ↦ some (suc i) ]

-- `a.startsWith('--')`
unfoldable pub is_flag : String → Bool
is_flag a = starts_with a "--"

-- The value of a `--flag <value>` pair, null where the flag or its value is missing.
unfoldable pub named : List String → String → Option String
named args flag = elim (index_of ("--" <> flag) args) [
  | none ↦ none
  | some idx ↦ elim (get_elem? args (idx + 1)) [
    | none ↦ none
    | some v ↦ if is_flag v then none else some v
  ]
]

-- A field of the object that `parseNamedArgs` returns.
pub data Field : Type 0 where
  value : Option String → Field
  present : Bool → Field

-- The loop over `valueFlags`.
named_values : List String → List String → List (String × Field)
named_values args [] = []
named_values args (flag ∷ flags) = (flag, value (named args flag)) ∷ named_values args flags

-- The loop over `booleanFlags`.
named_booleans : List String → List String → List (String × Field)
named_booleans args [] = []
named_booleans args (flag ∷ flags) =
    (flag, present (includes args ("--" <> flag))) ∷ named_booleans args flags

-- The fields in the order in which they are assigned: the last one of a name counts.
unfoldable pub parse_named_args : List String → List String → List String → List (String × Field)
unfolding named_values named_booleans
parse_named_args args value_flags boolean_flags =
    named_values args value_flags ++ named_booleans args boolean_flags

-- Reads a field of an object whose fields were assigned in this order.
unfoldable pub field : String → List (String × Field) → Option Field
field k [] = none
field k ((j, v) ∷ r) = elim (field k r) [
  | none ↦ if j === k then some v else none
  | some w ↦ some w
]

-- The tokens up to the next flag.
unfoldable pub until_flag : List String → List String
until_flag [] = []
until_flag (a ∷ args) = let rest = until_flag args in if is_flag a then [] else a ∷ rest

-- `tokens.length > 0 ? tokens.join(' ') : null`
abbrev join_tokens : List String → Option String
join_tokens [] = none
join_tokens (t ∷ ts) = some (join " " (t ∷ ts))

unfoldable pub parse_multiword_arg : List String → String → Option String
unfolding until_flag
parse_multiword_arg args flag = elim (index_of ("--" <> flag) args) [
  | none ↦ none
  | some idx ↦ join_tokens (until_flag (drop (idx + 1) args))
]

-- `idx !== -1 ? args[idx + 1] : null` after `idx = args.indexOf(flag)`: no test of what follows.
unfoldable pub after : List String → String → Option String
after args flag = elim (index_of flag args) [ none ↦ none | some idx ↦ get_elem? args (idx + 1) ]

-- `a => !a.startsWith('--')` as a filter
abbrev pub positional : List String → List String
positional = keep (λ a. not (is_flag a))

-- The arguments behind `--files` that are no flags, and none without `--files`.
unfoldable pub files_after : List String → List String
files_after args = elim (index_of "--files" args) [
  | none ↦ []
  | some idx ↦ positional (drop (idx + 1) args)
]
