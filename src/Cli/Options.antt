-- ===== src/Cli/Options.antt =====
-- The global options that `main` of gsd-tools.cjs takes out of the arguments before it looks at
-- the command: `--cwd`, `--ws`, `--raw` and `--pick`, in that order.
pub mod Laws
use aegis_workers.Base.{
  ℕ, zero, suc, ◌+◌, String, ◌<>◌, Bool, true, false, ◌&&◌, ◌||◌, not, Option, none, some, List, [],
  ◌∷◌, ◌++◌, starts_with, ◌===◌, if◌then◌else◌, get_elem?, drop, take, find, truthy, given,
  slice_from, trim, codes, Text, all, is_alnum, ◌==◌, includes,
}
use Prim.Native.String.{count}
use aegis_workers.Core.Worktree.{System, resolve_worktree_root}
use aegis_workers.Cli.Args.{index_of, is_flag}

-- What a step of `main` gives, or the message of `error(message)`, which exits with status 1.
pub data Result {ℓ} (Given : Type ℓ) : Type ℓ where
  failed : (message : String) → Result Given
  ok : (given : Given) → Result Given

infixl 5 ◌>>=◌
-- After an exit no further step is taken.
abbrev pub ◌>>=◌ {ℓ κ} :
    {Given : Type ℓ} {Next : Type κ} → Result Given → (Given → Result Next) → Result Next
failed message >>= step = failed message
ok found >>= step = step found

-- `args.splice(i, n)`, the arguments that remain
abbrev pub splice : ℕ → ℕ → List String → List String
splice i n args = take i args ++ drop (i + n) args

-- `args.splice(args.indexOf(s), 1)` where `s` is among the arguments
abbrev pub remove_first : String → List String → List String
remove_first s [] = []
remove_first s (x ∷ xs) = if x === s then xs else x ∷ remove_first s xs

-- The value of `name=value` or of `name value`, and the arguments without it.
unfoldable pub take_option : String → List String → Result (Option String × List String)
unfolding is_flag
take_option name args = elim (find (λ a. starts_with a (name <> "=")) args) [
  | some a ↦
      let v = trim (slice_from (count (name <> "=")) a) in
      if truthy v then ok (some v, remove_first a args) else failed ("Missing value for " <> name)
  | none ↦ elim (index_of name args) [
    | none ↦ ok (none, args)
    | some i ↦ elim (get_elem? args (i + 1)) [
      | none ↦ failed ("Missing value for " <> name)
      | some v ↦
          if not (truthy v) || is_flag v
          then failed ("Missing value for " <> name)
          else ok (some v, splice i 2 args)
    ]
  ]
]

-- What `main` asks of the file system, of the environment and of core.cjs.
pub record Host : Type 0 where
  pub cwd : String
  pub resolve : String → String
  pub is_directory : String → Bool
  pub system : System
  pub env_workstream : Option String
  pub active_workstream : String → Option String

-- `/^[a-zA-Z0-9_-]+$/`
abbrev pub is_name_char : ℕ → Bool
is_name_char c = is_alnum c || c == b'_' || c == b'-'

unfoldable pub is_name : Text → Bool
is_name [] = false
is_name (c ∷ s) = all is_name_char (c ∷ s)

pub record Options : Type 0 where
  pub cwd : String
  -- `process.env.GSD_WORKSTREAM` from here on
  pub workstream : Option String
  pub raw : Bool
  pub pick : Option String
  pub args : List String

abbrev chosen_cwd : Host → Option String → String
chosen_cwd h none = h.cwd
chosen_cwd h (some v) = h.resolve v

-- The root of the worktree, unless the directory has its own `.planning/`.
abbrev planning_owner : System → String → String
planning_owner y cwd =
    if y.exists (y.path_join cwd ".planning") then cwd else resolve_worktree_root y cwd

-- `--cwd`, which must name a directory; then the root of the worktree.
unfoldable pub take_cwd : Host → List String → Result (String × List String)
take_cwd h argv = do
  (o, args) ← take_option "--cwd" argv
  let cwd = chosen_cwd h o
  if h.is_directory cwd
      then ok (planning_owner h.system cwd, args)
      else failed ("Invalid --cwd: " <> cwd)

-- The fallbacks of `--ws`: the environment variable if it is not empty, then the marker file.
abbrev default_workstream : Host → String → Option String
default_workstream h cwd = elim h.env_workstream [
  | none ↦ h.active_workstream cwd
  | some e ↦ if truthy e then some (trim e) else h.active_workstream cwd
]

abbrev or_given : Option String → Option String → Option String
or_given none d = d
or_given (some v) d = some v

-- `if (ws) process.env.GSD_WORKSTREAM = ws`, behind the test of the name.
abbrev set_workstream : Host → Option String → Result (Option String)
set_workstream h none = ok h.env_workstream
set_workstream h (some w) =
    if not (truthy w)
    then ok h.env_workstream
    else if is_name (codes w)
    then ok (some w)
    else failed "Invalid workstream name: must be alphanumeric, hyphens, and underscores only"

unfoldable pub take_workstream : Host → String → List String → Result (Option String × List String)
take_workstream h cwd argv = do
  (o, args) ← take_option "--ws" argv
  w ← set_workstream h (or_given o (default_workstream h cwd))
  ok (w, args)

unfoldable pub take_raw : List String → Bool × List String
take_raw args = elim (index_of "--raw" args) [
  | none ↦ (false, args)
  | some i ↦ (true, splice i 1 args)
]

-- `--pick` takes no `=`.
unfoldable pub take_pick : List String → Result (Option String × List String)
unfolding is_flag
take_pick args = elim (index_of "--pick" args) [
  | none ↦ ok (none, args)
  | some i ↦ elim (get_elem? args (i + 1)) [
    | none ↦ failed "Missing value for --pick"
    | some v ↦
        if not (truthy v) || is_flag v
        then failed "Missing value for --pick"
        else ok (some v, splice i 2 args)
  ]
]

unfoldable pub main_options : Host → List String → Result Options
unfolding take_cwd take_workstream take_raw take_pick
main_options h argv = do
  (cwd, args) ← take_cwd h argv
  (w, args') ← take_workstream h cwd args
  let (raw, args'') = take_raw args'
  (pick, rest) ← take_pick args''
  ok (record { cwd = cwd; workstream = w; raw = raw; pick = pick; args = rest })
