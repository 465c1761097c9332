-- ===== src/Cli/Pick.antt =====
-- `extractField` of gsd-tools.cjs and what `--pick` prints of a command's output. A string is read
-- by its characters; the names that every value inherits are left out.
use Prim.Native.Char.{code}
use Prim.Native.String
use aegis_workers.Base.{
  ℕ, zero, suc, ◌+◌, ◌-◌, ◌*◌, String, Bool, true, false, ◌||◌, ◌&&◌, Option, none, some, List, [],
  ◌∷◌, ◌==◌, ◌===◌, if◌then◌else◌, Text, codes, is_digit, split, show, ltb, leb,
}
use aegis_workers.Json.{
  Json, Items, null, num, str, arr, obj, nil, cons, get_member, own_members, Parsed, parsed,
  invalid,
}
use aegis_workers.Security.JsonSafety.{units}
use aegis_workers.Models.{string_of}

-- `-?\d+]` up to the end, with the digits read so far
abbrev read_digits : Bool → ℕ → Text → Option (Bool × ℕ)
read_digits seen n [] = none
read_digits seen n (c ∷ s) =
    let rest = read_digits true (n * 10 + (c - b'0')) s in
    if is_digit c
    then rest
    else if seen
    then (if c == b']' then elim s [ [] ↦ some (false, n) | d ∷ t ↦ none ] else none)
    else none

abbrev negate : Option (Bool × ℕ) → Option (Bool × ℕ)
negate none = none
negate (some (b, n)) = some (true, n)

abbrev read_index : Text → Option (Bool × ℕ)
read_index [] = none
read_index (c ∷ s) =
    if c == b'-' then negate (read_digits false 0 s) else read_digits false 0 (c ∷ s)

-- The index behind `[`
abbrev bracket : String → Option (Bool × ℕ)
bracket String.[] = none
bracket (String.◌∷◌ c s) = if code c == b'[' then read_index (codes s) else none

abbrev is_line_end : ℕ → Bool
is_line_end c = c == 10 || c == 13 || c == 0x2028 || c == 0x2029

abbrev onto_key : String → Option (String × Bool × ℕ) → Option (String × Bool × ℕ)
onto_key c none = none
onto_key c (some (key, negative, n)) = some (String.◌++◌ c key, negative, n)

-- `/^(.+?)\[(-?\d+)]$/`: the key, and the index with its sign
unfoldable pub bracket_match : String → Option (String × Bool × ℕ)
bracket_match String.[] = none
bracket_match (String.◌∷◌ c s) =
    let head = String.◌∷◌ c String.[] in
    let longer = onto_key head (bracket_match s) in
    if is_line_end (code c)
    then none
    else elim (bracket s) [ some (negative, n) ↦ some (head, negative, n) | none ↦ longer ]

abbrev pub count_items : Items → ℕ
count_items nil = 0
count_items (cons v vs) = suc (count_items vs)

-- `current[name]`
unfoldable pub property : String → Json → Option Json
unfolding units
property name (obj ms) = get_member name ms
property name (arr vs) =
    if name === "length"
    then some (num (show (count_items vs)))
    else get_member name (own_members (some (arr vs)))
property name (str s) =
    if name === "length"
    then some (num (show (units (codes s))))
    else get_member name (own_members (some (str s)))
property name v = none

abbrev pub item_at : ℕ → Items → Option Json
item_at i nil = none
item_at zero (cons v vs) = some v
item_at (suc i) (cons v vs) = item_at i vs

-- `index < 0 ? current[current.length + index] : current[index]`
abbrev indexed : Bool → ℕ → Option Json → Option Json
indexed negative n (some (arr vs)) =
    if negative && ltb 0 n
    then (if leb n (count_items vs) then item_at (count_items vs - n) vs else none)
    else item_at n vs
indexed negative n v = none

abbrev step : String → Json → Option Json
step part v = elim (bracket_match part) [
  | none ↦ property part v
  | some (key, negative, n) ↦ indexed negative n (property key v)
]

-- The loop over the parts of the path
unfoldable pub extract_parts : List String → Option Json → Option Json
unfolding bracket_match property
extract_parts [] current = current
extract_parts (part ∷ parts) none = none
extract_parts (part ∷ parts) (some null) = none
extract_parts (part ∷ parts) (some v) = extract_parts parts (step part v)

unfoldable pub extract_field : Json → String → Option Json
unfolding extract_parts
extract_field v path = extract_parts (split b'.' path) (some v)

abbrev printed : Option Json → String
printed none = ""
printed (some null) = ""
printed (some v) = string_of v

-- What is printed for a captured output, given how its JSON text parses.
unfoldable pub pick_output : String → String → Parsed → String
unfolding extract_field
pick_output path captured (invalid message) = captured
pick_output path captured (parsed v) = printed (extract_field v path)
