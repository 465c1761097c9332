-- ===== src/Phase/Renumber.antt =====
-- `renameDecimalPhases` and `renameIntegerPhases` of phase.cjs: the directories of `phases/` are
-- renumbered after a phase is removed.
pub mod Steps
pub mod Plan
pub mod Laws
pub mod Names
pub mod Complete
pub mod Items
use aegis_workers.Base.{
  ℕ, zero, suc, ◌+◌, ◌-◌, Bool, true, false, ◌||◌, ◌&&◌, not, Option, none, some, List, [], ◌∷◌,
  ◌++◌, ◌==◌, if◌then◌else◌, ltb, leb, Text, text_eq, is_letter, to_upper, begins, all, any, codes,
  find, drop, length, digits_value, number_text,
}
use Prim.Native.Nat.{Ordering}
use aegis_workers.Phase.Number.{span_digits, pad_two}
use aegis_workers.Phase.Folders.{Dir, Rename, Renamed, names_of, rename_all}
use aegis_workers.Phase.Directories.{sort_phases}

-- The text behind a prefix
unfoldable pub text_behind : Text → Text → Option Text
text_behind [] s = some s
text_behind (p ∷ ps) [] = none
text_behind (p ∷ ps) (c ∷ s) = let rest = text_behind ps s in if p == c then rest else none

-- `s.replace(old, new)` for texts, at the first occurrence; none where `s` does not include `old`
unfoldable pub replace_first : Text → Text → Text → Option Text
unfolding text_behind
replace_first old new [] = elim (text_behind old []) [
  | none ↦ none
  | some rest ↦ some (new ++ rest)
]
replace_first old new (c ∷ s) =
    let later = replace_first old new s in
    elim (text_behind old (c ∷ s)) [
      | some rest ↦ some (new ++ rest)
      | none ↦ elim later [ none ↦ none | some u ↦ some (c ∷ u) ]
    ]

-- `.` in a pattern
abbrev pub is_plain_char : ℕ → Bool
is_plain_char c = not (c == 10 || (c == 13 || (c == 0x2028 || c == 0x2029)))

-- The characters other than the point that are special in a pattern
abbrev pub is_special : ℕ → Bool
is_special c = any (λ d. c == d) (codes "\\^$*+?()[]{}|")

-- No character of the base but points is special in a pattern. The base is the identifier of a phase
-- or its part before the first point, and only a custom identifier can hold another one.
abbrev pub is_plain_base : Text → Bool
is_plain_base base = not (any is_special base)

-- `-(.+)$`
abbrev pub slug_behind : Text → Option Text
slug_behind [] = none
slug_behind (c ∷ []) = none
slug_behind (c ∷ d ∷ s) = if c == b'-' && all is_plain_char (d ∷ s) then some (d ∷ s) else none

abbrev pub decimal_and_slug : Text × Text → Option (ℕ × Text)
decimal_and_slug ([], rest) = none
decimal_and_slug (d ∷ run, rest) = elim (slug_behind rest) [
  | none ↦ none
  | some slug ↦ some (digits_value 0 (d ∷ run), slug)
]

-- What the pattern `^${base}\.(\d+)-(.+)$` takes for its groups in a name, the first as a number, for
-- the bases with special characters
abbrev pub DecimalPattern : Type 0
DecimalPattern = (base name : Text) → Option (ℕ × Text)

abbrev pub plain_decimal : Text → Text → Option (ℕ × Text)
plain_decimal base name = elim (text_behind (base ++ (b'.' ∷ [])) name) [
  | none ↦ none
  | some rest ↦ decimal_and_slug (span_digits rest)
]

-- `dir.match(new RegExp(`^${base}\\.(\\d+)-(.+)$`))`; the base is put into the pattern as it is. It
-- holds no point, since it is what stands before the first one.
unfoldable pub match_decimal : DecimalPattern → Text → Text → Option (ℕ × Text)
unfolding text_behind span_digits
match_decimal special base name =
    if is_plain_base base then plain_decimal base name else special base name

-- Whether a number is above the removed one; a removed number below zero is given as `none`.
abbrev pub is_above : Option ℕ → ℕ → Bool
is_above none n = true
is_above (some removed) n = ltb removed n

-- `n - 1`, printed
abbrev pub less_one : ℕ → Text
less_one n = if n == 0 then b'-' ∷ b'1' ∷ [] else number_text (n - 1)

abbrev pub decimal_id : Text → ℕ → Text
decimal_id base n = base ++ (b'.' ∷ number_text n)

-- An item keeps the number that the list is sorted by, and the one that breaks ties.
abbrev pub Item : Type 0
Item = ℕ × ℕ × Rename

-- `.sort((a, b) => …)`: the larger numbers first, else in the order of the list
abbrev insert_item : Item → List Item → List Item
insert_item x [] = x ∷ []
insert_item (n, m, r) ((k, l, q) ∷ items) =
    let rest = insert_item (n, m, r) items in
    if ltb k n || (k == n && leb l m) then (n, m, r) ∷ (k, l, q) ∷ items else (k, l, q) ∷ rest

abbrev pub sort_items : List Item → List Item
sort_items [] = []
sort_items (x ∷ items) = insert_item x (sort_items items)

abbrev pub renames_of : List Item → List Rename
renames_of [] = []
renames_of ((n, m, r) ∷ items) = r ∷ renames_of items

-- The item of a sibling behind the removed decimal
unfoldable pub decimal_item : DecimalPattern → Text → Option ℕ → Text → Option Item
unfolding match_decimal
decimal_item special base removed name = elim (match_decimal special base name) [
  | none ↦ none
  | some (n, slug) ↦
      if is_above removed n
      then some (
        n,
        0,
        record {
          from = name;
          to = (base ++ (b'.' ∷ less_one n)) ++ (b'-' ∷ slug);
          old_id = decimal_id base n;
          new_id = base ++ (b'.' ∷ less_one n);
        },
      )
      else none
]

-- `([A-Z])?` in either case
abbrev optional_letter : Text → Text × Text
optional_letter [] = ([], [])
optional_letter (c ∷ s) = if is_letter c then (to_upper c ∷ [], s) else ([], c ∷ s)

-- `(?:\.(\d+))?`: a point with no digit behind it is not taken.
abbrev optional_decimal : Text → Option ℕ × Text
optional_decimal [] = (none, [])
optional_decimal (c ∷ s) =
    let (run, rest) = span_digits s in
    if c == b'.'
    then elim run [ [] ↦ (none, c ∷ s) | d ∷ more ↦ (some (digits_value 0 (d ∷ more)), rest) ]
    else (none, c ∷ s)

-- The groups behind the digits
abbrev pub integer_groups : Text × Text → Option (ℕ × Text × Option ℕ × Text)
integer_groups ([], rest) = none
integer_groups (d ∷ digits, rest) =
    let (letter, more) = optional_letter rest in
    let (decimal, last) = optional_decimal more in
    elim (slug_behind last) [
      | none ↦ none
      | some slug ↦ some (digits_value 0 (d ∷ digits), letter, decimal, slug)
    ]

-- The groups of `/^(\d+)([A-Z])?(?:\.(\d+))?-(.+)$/i`: the number, the letter in upper case, the
-- decimal and the slug
unfoldable pub match_integer : Text → Option (ℕ × Text × Option ℕ × Text)
unfolding span_digits
match_integer name = integer_groups (span_digits name)

abbrev decimal_suffix : Option ℕ → Text
decimal_suffix none = []
decimal_suffix (some n) = b'.' ∷ number_text n

abbrev or_zero : Option ℕ → ℕ
or_zero none = 0
or_zero (some n) = n

-- `${String(n).padStart(2, '0')}${letter}${decimal}`
abbrev pub prefix_of : Text → Text → Option ℕ → Text
prefix_of number letter decimal = pad_two number ++ (letter ++ decimal_suffix decimal)

abbrev pub integer_prefix : ℕ → Text → Option ℕ → Text
integer_prefix n letter decimal = prefix_of (number_text n) letter decimal

unfoldable pub integer_item : Option ℕ → Text → Option Item
unfolding match_integer pad_two
integer_item removed name = elim (match_integer name) [
  | none ↦ none
  | some (n, letter, decimal, slug) ↦
      if is_above removed n
      then some (
        n,
        or_zero decimal,
        record {
          from = name;
          to = prefix_of (less_one n) letter decimal ++ (b'-' ∷ slug);
          old_id = integer_prefix n letter decimal;
          new_id = prefix_of (less_one n) letter decimal;
        },
      )
      else none
]

-- `.map(…).filter(…)`
abbrev pub items_of : (Text → Option Item) → List Text → List Item
items_of f [] = []
items_of f (n ∷ ns) = elim (f n) [ none ↦ items_of f ns | some x ↦ x ∷ items_of f ns ]

-- `f.includes(oldPhaseId)`, then `f.replace(oldPhaseId, newPhaseId)`
abbrev pub decimal_file : Rename → Text → Option Text
decimal_file r f = replace_first r.old_id r.new_id f

-- `f.startsWith(oldPrefix)`, then `newPrefix + f.slice(oldPrefix.length)`
abbrev pub integer_file : Rename → Text → Option Text
integer_file r f = elim (text_behind r.old_id f) [
  | none ↦ none
  | some rest ↦ some (r.new_id ++ rest)
]

module _ (locale : Text → Text → Ordering) where
  abbrev pub sorted_names : List Dir → List Text
  sorted_names dirs = sort_phases locale (names_of dirs)

  unfoldable pub decimal_renames : DecimalPattern → Text → Option ℕ → List Dir → List Rename
  unfolding decimal_item sort_phases
  decimal_renames special base removed dirs =
      renames_of (sort_items (items_of (decimal_item special base removed) (sorted_names dirs)))

  unfoldable pub integer_renames : Option ℕ → List Dir → List Rename
  unfolding integer_item sort_phases
  integer_renames removed dirs =
      renames_of (sort_items (items_of (integer_item removed) (sorted_names dirs)))

  unfoldable pub rename_decimal_phases : DecimalPattern → Text → Option ℕ → List Dir → Renamed
  unfolding decimal_renames rename_all replace_first
  rename_decimal_phases special base removed dirs =
      rename_all decimal_file (decimal_renames special base removed dirs) dirs

  unfoldable pub rename_integer_phases : Option ℕ → List Dir → Renamed
  unfolding integer_renames rename_all text_behind
  rename_integer_phases removed dirs = rename_all integer_file (integer_renames removed dirs) dirs
