-- ===== src/Cli/Args/Laws.antt =====
-- What the argument helpers return, for every command line.
use aegis_workers.Base.{
  ℕ, ◌+◌, ◌≡◌, refl, ◌≢◌, ◌↔◌, inl, inr, String, ◌<>◌, true, false, none, some, List, [], ◌∷◌, ◌++◌,
  arith, ◌===◌, eq_iff, get_elem?, drop, take, if◌then◌else◌, length, All, join, includes,
  Option-cases, Bool-cases,
}
use aegis_workers.Cli.Args.{
  index_of, is_flag, named, Field, value, present, named_values, named_booleans, parse_named_args,
  field, until_flag, parse_multiword_arg, positional, files_after,
}

-- Where `args` holds `s` for the first time.
pub record FirstAt (s : String) (args : List String) (i : ℕ) : Type 0 where
  pub before : List String
  pub behind : List String
  pub split : args ≡ before ++ (s ∷ behind)
  pub first : includes before s ≡ false
  pub position : i ≡ length before

index_of-FirstAt :
    (s : String) (args : List String) (i : ℕ) → index_of s args ≡ some i → FirstAt s args i
index_of-FirstAt s [] i h = cc
index_of-FirstAt s (x ∷ xs) i h = elim (Bool-cases (x === s)) [
  | inl e ↦ record {
    before = [];
    behind = xs;
    split = ground (arith, eq_iff x s);
    first = refl;
    position = ground arith;
  }
  | inr e ↦ elim (Option-cases (index_of s xs)) [
    | inl missing ↦ absurd (ground arith)
    | inr (k, found) ↦
        let r = index_of-FirstAt s xs k found in
        record {
          before = x ∷ r.before;
          behind = r.behind;
          split = cc r.split;
          first = rw (e) r.first;
          position = ground (arith, r.position);
        }
  ]
]

pub index_of-append :
    (s : String) (before behind : List String)
    → includes before s ≡ false
    → index_of s (before ++ (s ∷ behind)) ≡ some (length before)
index_of-append s [] behind h = ground (arith, eq_iff s s)
index_of-append s (x ∷ xs) behind h = ground (arith, index_of-append s xs behind)

pub get_elem?-append :
    (before : List String) (s : String) (behind : List String)
    → get_elem? (before ++ (s ∷ behind)) (length before + 1) ≡ get_elem? behind 0
get_elem?-append [] s behind = refl
get_elem?-append (x ∷ xs) s behind = ground (arith, get_elem?-append xs s behind)

pub drop-append :
    (before : List String) (s : String) (behind : List String)
    → drop (length before + 1) (before ++ (s ∷ behind)) ≡ behind
drop-append [] s behind = refl
drop-append (x ∷ xs) s behind = ground (arith, drop-append xs s behind)

named_of_split :
    (before behind : List String) (flag v : String)
    → includes before ("--" <> flag) ≡ false
    → is_flag v ≡ false
    → named (before ++ (("--" <> flag) ∷ v ∷ behind)) flag ≡ some v
unfolding named
named_of_split before behind flag v fresh plain =
    rw (index_of-append ("--" <> flag) before (v ∷ behind) fresh, named)
      (rw (get_elem?-append before ("--" <> flag) (v ∷ behind), named) (ground arith))

split_of_named :
    (args : List String) (flag v : String)
    → named args flag ≡ some v
    → (before : List String) × (behind : List String) × (args
        ≡ before ++ (("--" <> flag) ∷ v ∷ behind))
      × (includes before ("--" <> flag) ≡ false)
      × (is_flag v ≡ false)
unfolding named
split_of_named args flag v h = elim (Option-cases (index_of ("--" <> flag) args)) [
  | inl missing ↦ absurd (ground arith)
  | inr (i, found) ↦
      let r = index_of-FirstAt ("--" <> flag) args i found in
      let at : get_elem? args (i + 1) ≡ get_elem? r.behind 0 =
        rw (r.split, r.position) (get_elem?-append r.before ("--" <> flag) r.behind) in
      go r.before r.behind r.split r.first (ground (arith, at)) (ground (arith, at))
]
  where
    go :
        (before rest : List String)
        → args ≡ before ++ (("--" <> flag) ∷ rest)
        → includes before ("--" <> flag) ≡ false
        → get_elem? rest 0 ≡ some v
        → is_flag v ≡ false
        → (before : List String) × (behind : List String) × (args
            ≡ before ++ (("--" <> flag) ∷ v ∷ behind))
          × (includes before ("--" <> flag) ≡ false)
          × (is_flag v ≡ false)
    go before [] split first e plain = absurd (ground arith)
    go before (w ∷ rest) split first e plain =
        let same : w ≡ v = ground arith in (before, rest, rw (← same) split, first, plain)

-- `named` is `some v` exactly where the first `--flag` of the command line stands right before `v`
-- and `v` does not begin with `--`.
pub named_iff :
    (args : List String) (flag v : String)
    → (named args flag ≡ some v) ↔ (
        (before : List String) × (behind : List String) × (args
          ≡ before ++ (("--" <> flag) ∷ v ∷ behind))
        × (includes before ("--" <> flag) ≡ false)
        × (is_flag v ≡ false))
named_iff args flag v = (
  split_of_named args flag v,
  λ (before, behind, split, fresh, plain).
      rw split (named_of_split before behind flag v fresh plain),
)

until_flag-append :
    (tokens behind : List String)
    → All (λ t. is_flag t ≡ false) tokens
    → All (λ t. is_flag t ≡ true) (take 1 behind)
    → until_flag (tokens ++ behind) ≡ tokens
unfolding until_flag
until_flag-append [] [] plain ends = refl
until_flag-append [] (b ∷ behind) plain ends = ground arith
until_flag-append (t ∷ tokens) behind (p, plain) ends =
    ground (arith, until_flag-append tokens behind plain ends)

-- The words between the first `--flag` and the next flag, or the end, are joined with spaces.
pub parse_multiword_arg_run :
    (before tokens behind : List String) (flag : String)
    → includes before ("--" <> flag) ≡ false
    → All (λ t. is_flag t ≡ false) tokens
    → tokens ≢ []
    → All (λ t. is_flag t ≡ true) (take 1 behind)
    → parse_multiword_arg (before ++ (("--" <> flag) ∷ (tokens ++ behind))) flag
      ≡ some (join " " tokens)
unfolding parse_multiword_arg
parse_multiword_arg_run before [] behind flag fresh plain some_token ends = absurd (some_token refl)
parse_multiword_arg_run before (t ∷ tokens) behind flag fresh plain some_token ends =
    rw (index_of-append ("--" <> flag) before (t ∷ tokens ++ behind) fresh, parse_multiword_arg)
      (rw (drop-append before ("--" <> flag) (t ∷ tokens ++ behind), parse_multiword_arg)
        (rw (until_flag-append (t ∷ tokens) behind plain ends, parse_multiword_arg) refl))

field-append :
    (k : String) (r q : List (String × Field))
    → field k (r ++ q) ≡ elim (field k q) [ none ↦ field k r | some v ↦ some v ]
unfolding field
field-append k [] q = ground arith
field-append k ((j, v) ∷ r) q = ground (arith, field-append k r q)

field-named_values :
    (args flags : List String) (k : String)
    → field k (named_values args flags)
      ≡ (if includes flags k then some (value (named args k)) else none)
unfolding field named_values
field-named_values args [] k = refl
field-named_values args (f ∷ flags) k = ground (arith, field-named_values args flags k, eq_iff f k)

field-named_booleans :
    (args flags : List String) (k : String)
    → field k (named_booleans args flags)
      ≡ (if includes flags k then some (present (includes args ("--" <> k))) else none)
unfolding field named_booleans
field-named_booleans args [] k = refl
field-named_booleans args (f ∷ flags) k =
    ground (arith, field-named_booleans args flags k, eq_iff f k)

-- The object has a field exactly for each listed flag: for a boolean flag whether it is among the
-- arguments, also where the name is listed as a value flag too; for any other value flag the value
-- that `named` finds.
pub field-parse_named_args :
    (args value_flags boolean_flags : List String) (k : String)
    → field k (parse_named_args args value_flags boolean_flags) ≡ (
        if includes boolean_flags k
        then some (present (includes args ("--" <> k)))
        else if includes value_flags k
        then some (value (named args k))
        else none)
unfolding parse_named_args
field-parse_named_args args value_flags boolean_flags k = ground (
  arith,
  field-append k (named_values args value_flags) (named_booleans args boolean_flags),
  field-named_values args value_flags k,
  field-named_booleans args boolean_flags k,
)

positional-All : (args : List String) → All (λ a. is_flag a ≡ false) (positional args)
positional-All [] = tt
positional-All (a ∷ args) = ground (arith, positional-All args)

-- No flag is ever among the files of a commit, whatever the command line.
pub files_after-All : (args : List String) → All (λ a. is_flag a ≡ false) (files_after args)
unfolding files_after
files_after-All args =
    elim (index_of "--files" args)
      as (λ o.
        All (λ a. is_flag a ≡ false)
          (elim o [ none ↦ [] | some idx ↦ positional (drop (idx + 1) args) ])) [
            | none ↦ tt
            | some i ↦ positional-All (drop (i + 1) args)
          ]
