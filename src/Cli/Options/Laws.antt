-- ===== src/Cli/Options/Laws.antt =====
-- The global options may stand anywhere on the command line, and a workstream name is checked.
use text.Mathlib.TextLemmas.{append_assoc}
use text.Mathlib.TextPositions.{starts_with-append}
use text.Mathlib.TextEquality.{starts_with_iff}
use aegis_workers.Base.{
  sym, ◌≡◌, refl, ap, ◌∙◌, ◌⊎◌, inl, inr, String, ◌<>◌, Bool, true, false, Option, none, some, List,
  [], ◌∷◌, ◌++◌, arith, ◌===◌, eq_iff, starts_with, length, find, includes, Option-cases,
  Bool-cases, truthy, trim, slice_from-append, codes,
}
use aegis_workers.Cli.Args.{index_of, is_flag}
use aegis_workers.Cli.Args.Laws.{index_of-append, get_elem?-append}
use aegis_workers.Cli.Options.{
  Result, ok, failed, ◌>>=◌, splice, remove_first, take_option, Host, is_name, Options, take_cwd,
  default_workstream, set_workstream, take_workstream, take_raw, take_pick, main_options, or_given,
}

splice-append :
    (before : List String) (a b : String) (behind : List String)
    → splice (length before) 2 (before ++ (a ∷ b ∷ behind)) ≡ before ++ behind
splice-append [] a b behind = refl
splice-append (x ∷ before) a b behind = ground (arith, splice-append before a b behind)

-- No argument is spelled `name=…`.
abbrev pub LacksEq : String → List String → Type 0
LacksEq name args = find (λ a. starts_with a (name <> "=")) args ≡ none

-- `name v` anywhere among the arguments gives `v`, and leaves the others in their order.
take_option_pair :
    (name v : String) (before behind : List String)
    → LacksEq name (before ++ (name ∷ v ∷ behind))
    → includes before name ≡ false
    → truthy v ≡ true
    → is_flag v ≡ false
    → take_option name (before ++ (name ∷ v ∷ behind)) ≡ ok (some v, before ++ behind)
unfolding take_option
take_option_pair name v before behind lacks fresh filled plain =
    rw (lacks, take_option)
      (rw (index_of-append name before (v ∷ behind) fresh, take_option)
        (rw (get_elem?-append before name (v ∷ behind), take_option)
          (rw (plain, filled, splice-append before name v behind) refl)))

find-append :
    (p : String → Bool) (before : List String) (a : String) (behind : List String)
    → find p before ≡ none
    → p a ≡ true
    → find p (before ++ (a ∷ behind)) ≡ some a
find-append p [] a behind h k = ground arith
find-append p (x ∷ before) a behind h k = ground (arith, find-append p before a behind)

remove_first-append :
    (p : String → Bool) (before : List String) (a : String) (behind : List String)
    → find p before ≡ none
    → p a ≡ true
    → remove_first a (before ++ (a ∷ behind)) ≡ before ++ behind
remove_first-append p [] a behind h k = ground (arith, eq_iff a a)
remove_first-append p (x ∷ before) a behind h k = elim (Bool-cases (x === a)) [
  | inl same ↦
      absurd (let e : x ≡ a = (eq_iff x a).0 same in let e' : p x ≡ true = rw e k in ground arith)
  | inr other ↦ rw other (ap (λ l. x ∷ l) (remove_first-append p before a behind (ground arith) k))
]

-- `name=v` anywhere among the arguments gives `v` without the white space around it.
take_option_eq :
    (name v : String) (before behind : List String)
    → LacksEq name before
    → truthy (trim v) ≡ true
    → take_option name (before ++ (((name <> "=") <> v) ∷ behind))
      ≡ ok (some (trim v), before ++ behind)
unfolding take_option
take_option_eq name v before behind lacks filled =
    let hit = starts_with-append (name <> "=") v in
    rw
      (
        find-append (λ a. starts_with a (name <> "=")) before ((name <> "=") <> v) behind lacks hit,
        take_option,
      )
      (rw (slice_from-append (name <> "=") v, take_option)
        (rw
          (
            filled,
            remove_first-append (λ a. starts_with a (name <> "=")) before ((name <> "=") <> v)
                behind lacks hit,
          )
          refl))

find-none-append :
    (p : String → Bool) (xs ys : List String)
    → find p xs ≡ none
    → find p ys ≡ none
    → find p (xs ++ ys) ≡ none
find-none-append p [] ys h k = k
find-none-append p (x ∷ xs) ys h k = ground (arith, find-none-append p xs ys)

includes-append :
    (xs ys : List String) (s : String)
    → includes xs s ≡ false
    → includes ys s ≡ false
    → includes (xs ++ ys) s ≡ false
includes-append [] ys s h k = k
includes-append (x ∷ xs) ys s h k = ground (arith, includes-append xs ys s)

index_of-none : (s : String) (args : List String) → includes args s ≡ false → index_of s args ≡ none
index_of-none s [] h = refl
index_of-none s (x ∷ xs) h = ground (arith, index_of-none s xs)

take_option_absent :
    (name : String) (args : List String)
    → LacksEq name args
    → includes args name ≡ false
    → take_option name args ≡ ok (none, args)
unfolding take_option
take_option_absent name args lacks fresh =
    rw (lacks, take_option) (rw (index_of-none name args fresh, take_option) refl)

-- No argument is `name` or `name=…`.
abbrev pub Lacks : String → List String → Type 0
Lacks name args = LacksEq name args × (includes args name ≡ false)

Lacks-append :
    (name : String) (xs ys : List String) → Lacks name xs → Lacks name ys → Lacks name (xs ++ ys)
Lacks-append name xs ys (a, b) (c, d) =
    (find-none-append (λ a. starts_with a (name <> "=")) xs ys a c, includes-append xs ys name b d)

flag_of_starts_with : (d t : String) → starts_with d ("--" <> t) ≡ true → is_flag d ≡ true
unfolding is_flag
flag_of_starts_with d t h =
    let (rest, split) = (starts_with_iff d ("--" <> t)).0 h in
    rw (← split, append_assoc "--" t rest) (starts_with-append "--" (t <> rest))

-- Where no other argument is `--cwd` or `--cwd=…`, the pair `--cwd d` anywhere on the command line
-- (`d` not empty and no flag) and the single argument `--cwd=d` (`d` not blank) have the effect of
-- a start in the directory that `d` resolves to, trimmed in the second form.
pub main_options-cwd :
    (h : Host) (d : String) (before behind : List String)
    → truthy (trim d) ≡ true
    → truthy d ≡ true
    → is_flag d ≡ false
    → Lacks "--cwd" before
    → Lacks "--cwd" behind
    → (main_options h (before ++ ("--cwd" ∷ d ∷ behind))
        ≡ main_options (record h { cwd = h.resolve d }) (before ++ behind))
      × (main_options h (before ++ ((("--cwd" <> "=") <> d) ∷ behind))
          ≡ main_options (record h { cwd = h.resolve (trim d) }) (before ++ behind))
unfolding main_options
main_options-cwd h d before behind solid filled plain lb lc =
    let absent =
      take_option_absent "--cwd" (before ++ behind) (Lacks-append "--cwd" before behind lb lc).0
        (Lacks-append "--cwd" before behind lb lc).1 in
    let both =
      find-none-append (λ a. starts_with a ("--cwd" <> "=")) before ("--cwd" ∷ d ∷ behind) lb.0
        (ground (arith, flag_of_starts_with d "cwd=", lc.0)) in
    (
      rw (take_option_pair "--cwd" d before behind both lb.1 filled plain, main_options)
          (rw (absent, main_options) refl),
      rw (take_option_eq "--cwd" d before behind lb.0 solid, main_options)
          (rw (absent, main_options) refl),
    )

take_option-truthy :
    (name : String) (args : List String) {v : String} {rest : List String}
    → take_option name args ≡ ok (some v, rest)
    → truthy v ≡ true
unfolding take_option
take_option-truthy name args {v} {rest} h = ground arith

trim-blank : (w : String) → truthy w ≡ false → truthy (trim w) ≡ false
trim-blank String.[] h = refl
trim-blank (String.◌∷◌ c w) h = cc

set_workstream-default :
    (h : Host) (cwd w : String)
    → set_workstream h (default_workstream h cwd) ≡ ok (some w)
    → (is_name (codes w) ≡ true) ⊎ ((h.env_workstream ≡ some w) × (truthy (trim w) ≡ false))
set_workstream-default h cwd w e = elim (Option-cases h.env_workstream) [
  | inl unset ↦ inl (elim (Option-cases (h.active_workstream cwd)) [
    | inl a ↦ absurd (ground arith)
    | inr (a, b) ↦ ground arith
  ])
  | inr (x, set) ↦ ground (arith, trim-blank w)
]

set_workstream-given :
    (h : Host) (v w : String)
    → truthy v ≡ true
    → set_workstream h (some v) ≡ ok (some w)
    → is_name (codes w) ≡ true
set_workstream-given h v w filled e = ground arith

-- The steps of a chain that gives a result: what the first one gave, and that the next one took it.
bind_steps {κ ℓ} :
    {Next : Type ℓ} {Given : Type κ} {last : Next} (step : Given → Result Next)
    (first : Result Given)
    → ok last ≡ (first >>= step)
    → (given : Given) × (first ≡ ok given) × (step given ≡ ok last)
bind_steps step (failed message) e = cc
bind_steps step (ok found) e = (found, refl, sym e)

take_workstream-IsName :
    (h : Host) (cwd : String) (args : List String) (w : String) (rest : List String)
    → take_workstream h cwd args ≡ ok (some w, rest)
    → (is_name (codes w) ≡ true) ⊎ ((h.env_workstream ≡ some w) × (truthy (trim w) ≡ false))
unfolding take_workstream
take_workstream-IsName h cwd args w rest e =
    let ((x, r), taken, e') = bind_steps _ (take_option "--ws" args) (sym e) in
    let (y, chosen, done) =
      bind_steps _ (set_workstream h (or_given x (default_workstream h cwd))) (sym e') in
    let same : y ≡ some w = ground arith in go x r taken (chosen ∙ ap ok same)
  where
    go :
        (x : Option String) (r : List String)
        → take_option "--ws" args ≡ ok (x, r)
        → set_workstream h (or_given x (default_workstream h cwd)) ≡ ok (some w)
        → (is_name (codes w) ≡ true) ⊎ ((h.env_workstream ≡ some w) × (truthy (trim w) ≡ false))
    go none r taken chosen = set_workstream-default h cwd w chosen
    go (some v) r taken chosen =
        inl (set_workstream-given h v w (take_option-truthy "--ws" args taken) chosen)

-- The variable `GSD_WORKSTREAM` that the commands see is either a plain name, of letters, digits,
-- `_` and `-` only, or the value that the environment had, which then is blank.
pub main_options-workstream :
    (h : Host) (argv : List String) (o : Options) (w : String)
    → main_options h argv ≡ ok o
    → o.workstream ≡ some w
    → (is_name (codes w) ≡ true) ⊎ ((h.env_workstream ≡ some w) × (truthy (trim w) ≡ false))
unfolding main_options
main_options-workstream h argv o w e same =
    let ((cwd, args), _, e1) = bind_steps _ (take_cwd h argv) (sym e) in
    let ((x, args'), taken, e2) = bind_steps _ (take_workstream h cwd args) (sym e1) in
    let ((pick, rest), _, e3) = bind_steps _ (take_pick (take_raw args').1) (sym e2) in
    let found : x ≡ some w = ground arith in
    take_workstream-IsName h cwd args w args' (rw (← found) taken)
