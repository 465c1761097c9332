-- ===== src/Phase/Insert.antt =====
-- The next decimal phase of phase.cjs: `cmdPhaseNextDecimal`, the number and the directory of
-- `cmdPhaseInsert`, and `generateSlugInternal` of core.cjs, which names the directory.
pub mod Laws
pub mod Next
pub mod Agree
use aegis_workers.Base.{
  ℕ, suc, ◌+◌, ◌-◌, Bool, true, false, ◌||◌, ◌&&◌, not, Option, none, some, List, [], ◌∷◌, ◌++◌,
  ◌==◌, if◌then◌else◌, ltb, Text, text_eq, codes, is_digit, is_lower, is_space, begins, any,
  digits_value, number_text,
}
use Prim.Native.Nat.{Ordering}
use aegis_workers.Cli.Number.{Number, nan, int, scan_sign}
use aegis_workers.Phase.Number.{span_digits}
use aegis_workers.Phase.Directories.{sort_phases}
use aegis_workers.Phase.Renumber.{is_plain_char, is_plain_base}
use aegis_workers.Security.Names.{parts}

-- A character of the base in a pattern: a point takes any character of a line.
abbrev matches : ℕ → ℕ → Bool
matches c d = if c == b'.' then is_plain_char d else c == d

-- What follows a match of the base and of `\.`
unfoldable pub behind_base : Text → Text → Option Text
behind_base [] [] = none
behind_base [] (c ∷ s) = if c == b'.' then some s else none
behind_base (b ∷ base) [] = none
behind_base (b ∷ base) (c ∷ s) = let rest = behind_base base s in if matches b c then rest else none

abbrev digits_first : Text × Text → Option Text
digits_first ([], rest) = none
digits_first (d ∷ run, rest) = some (d ∷ run)

-- What the pattern `^${base}\.(\d+)` takes for its group in a name, for the bases with special
-- characters
abbrev pub RunPattern : Type 0
RunPattern = (base name : Text) → Option Text

abbrev pub plain_run : Text → Text → Option Text
plain_run base name = elim (behind_base base name) [
  | none ↦ none
  | some rest ↦ digits_first (span_digits rest)
]

-- The group of `^${base}\.(\d+)`; the base is put into the pattern as it is.
unfoldable pub decimal_run : RunPattern → Text → Text → Option Text
unfolding behind_base span_digits
decimal_run special base name =
    if is_plain_base base then plain_run base name else special base name

unfoldable pub decimal_runs : RunPattern → Text → List Text → List Text
unfolding decimal_run
decimal_runs special base [] = []
decimal_runs special base (d ∷ dirs) =
    let rest = decimal_runs special base dirs in
    elim (decimal_run special base d) [ none ↦ rest | some run ↦ run ∷ rest ]

-- `Math.max(...numbers)` on numbers that are not empty
abbrev pub max_value : List Text → ℕ
max_value [] = 0
max_value (run ∷ runs) =
    let rest = max_value runs in if ltb rest (digits_value 0 run) then digits_value 0 run else rest

-- `nextDecimal` of `cmdPhaseInsert`
unfoldable pub insert_decimal : RunPattern → Text → List Text → ℕ
unfolding decimal_runs
insert_decimal special base dirs = elim (decimal_runs special base dirs) [
  | [] ↦ 1
  | run ∷ runs ↦ max_value (run ∷ runs) + 1
]

-- The directory that `cmdPhaseInsert` makes
unfoldable pub insert_dir : RunPattern → Text → Text → List Text → Text
unfolding insert_decimal
insert_dir special base slug dirs =
    base ++ (b'.' ∷ (number_text (insert_decimal special base dirs) ++ (b'-' ∷ slug)))

abbrev pub is_slug_char : ℕ → Bool
is_slug_char c = is_lower c || is_digit c

-- `.replace(/[^a-z0-9]+/g, '-')`; the first argument says that a dash was just written.
unfoldable pub dashes : Bool → Text → Text
dashes after [] = []
dashes after (c ∷ s) =
    let kept = dashes false s in
    let skipped = dashes true s in
    if is_slug_char c then c ∷ kept else if after then skipped else b'-' ∷ skipped

-- `.replace(/^-+|-+$/g, '')`
unfoldable pub without_first : Text → Text
without_first [] = []
without_first (c ∷ s) = let rest = without_first s in if c == b'-' then rest else c ∷ s

abbrev pub onto_end : ℕ → Text → Text
onto_end c [] = if c == b'-' then [] else c ∷ []
onto_end c (d ∷ s) = c ∷ d ∷ s

unfoldable pub without_last : Text → Text
without_last [] = []
without_last (c ∷ s) = onto_end c (without_last s)

-- `toLowerCase` is a parameter; null is `none`.
unfoldable pub generate_slug : (Text → Text) → Text → Option Text
unfolding dashes without_first without_last
generate_slug lower [] = none
generate_slug lower (c ∷ s) = some (without_last (without_first (dashes false (lower (c ∷ s)))))

-- What `cmdPhaseNextDecimal` prints
pub record NextDecimal : Type 0 where
  pub found : Bool
  pub base_phase : Text
  pub next : Text
  pub existing : List Text

abbrev second_part : List Text → Option Text
second_part (x ∷ y ∷ l) = some y
second_part _ = none

abbrev skip_spaces : Text → Text
skip_spaces [] = []
skip_spaces (c ∷ s) = let rest = skip_spaces s in if is_space c then rest else c ∷ s

abbrev pub number_at : Option Text → Number
number_at none = nan
number_at (some s) = scan_sign (skip_spaces s)

-- `${n + 1}`
abbrev pub printed_successor : Number → Text
printed_successor nan = codes "NaN"
printed_successor (int false n) = number_text (n + 1)
printed_successor (int true n) = if ltb 1 n then b'-' ∷ number_text (n - 1) else number_text (1 - n)

abbrev last_of : Text → List Text → Text
last_of x [] = x
last_of x (y ∷ l) = last_of y l

abbrev with_base : Text → List Text → List Text
with_base base [] = []
with_base base (run ∷ runs) = (base ++ (b'.' ∷ run)) ∷ with_base base runs

-- `nextDecimal` of `cmdPhaseNextDecimal`: one more than the number behind the first point of the
-- last identifier.
unfoldable pub decimal_behind : Text → List Text → Text
unfolding parts
decimal_behind base [] = base ++ (b'.' ∷ b'1' ∷ [])
decimal_behind base (x ∷ l) =
    base ++ (b'.' ∷ printed_successor (number_at (second_part (parts b'.' (last_of x l)))))

-- The directories are missing where `phases/` is.
unfoldable pub next_decimal :
    RunPattern → (Text → Text → Ordering) → Text → Option (List Text) → NextDecimal
unfolding decimal_runs decimal_behind sort_phases
next_decimal special locale base none = record {
  found = false;
  base_phase = base;
  next = base ++ (b'.' ∷ b'1' ∷ []);
  existing = [];
}
next_decimal special locale base (some dirs) =
    let existing = sort_phases locale (with_base base (decimal_runs special base dirs)) in
    record {
      found = any (λ d. begins d (base ++ (b'-' ∷ [])) || text_eq d base) dirs;
      base_phase = base;
      next = decimal_behind base existing;
      existing = existing;
    }
