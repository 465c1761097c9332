-- ===== src/State.antt =====
-- The fields of STATE.md: `stateExtractField`, `stateReplaceField` and its fallback of state.cjs, and
-- `state update` and `state patch`, which change them. A field stands as `**Name:** value`, or as
-- `Name: value` at the start of a line. Letters of a name other than a to z are compared as they are.
pub mod Laws
pub mod Shares
pub mod Replace
pub mod Commands
pub mod Advance
pub mod Write
use aegis_workers.Base.{
  ℕ, Bool, true, false, ◌&&◌, ◌||◌, not, any, Option, none, some, List, [], ◌∷◌, ◌++◌, ◌==◌,
  if◌then◌else◌, Text, codes, is_space, to_upper,
}
use aegis_workers.Phase.Renumber.{is_plain_char}

-- The text that a name matches without regard to case, and what follows
unfoldable pub match_name : Text → Text → Option (Text × Text)
match_name [] s = some ([], s)
match_name (p ∷ ps) [] = none
match_name (p ∷ ps) (c ∷ s) =
    let rest = match_name ps s in
    if to_upper p == to_upper c
    then elim rest [ none ↦ none | some (m, t) ↦ some (c ∷ m, t) ]
    else none

-- `\s*` takes all white space, line ends too.
unfoldable pub spaces : Text → Text
spaces [] = []
spaces (c ∷ s) = let more = spaces s in if is_space c then c ∷ more else []

unfoldable pub behind_spaces : Text → Text
behind_spaces [] = []
behind_spaces (c ∷ s) = let rest = behind_spaces s in if is_space c then rest else c ∷ s

-- `.*`: the rest of the line, and what follows it
unfoldable pub line_of : Text → Text
line_of [] = []
line_of (c ∷ s) = let more = line_of s in if is_plain_char c then c ∷ more else []

unfoldable pub behind_line : Text → Text
behind_line [] = []
behind_line (c ∷ s) = let rest = behind_line s in if is_plain_char c then rest else c ∷ s

abbrev onto_trimmed : ℕ → Text → Text
onto_trimmed c [] = if is_space c then [] else c ∷ []
onto_trimmed c (d ∷ s) = c ∷ d ∷ s

unfoldable pub trim_last : Text → Text
trim_last [] = []
trim_last (c ∷ s) = onto_trimmed c (trim_last s)

-- The group of `\s*(.+)`, trimmed: behind the white space a line begins; where only white space is
-- left, the match gives back a part of a line of it, which is trimmed to nothing.
unfoldable pub value_of : Text → Option Text
unfolding behind_spaces line_of trim_last
value_of s = elim (behind_spaces s) [
  | [] ↦ if any is_plain_char s then some [] else none
  | c ∷ t ↦ some (trim_last (line_of (c ∷ t)))
]

-- A pattern for a field: its name with what stands around it, and whether `^` precedes it
pub record Key : Type 0 where
  pub name : Text
  pub anchored : Bool

abbrev pub bold : Text → Key
bold field = record { name = codes "**" ++ (field ++ codes ":**"); anchored = false }

abbrev pub plain : Text → Key
plain field = record { name = field ++ codes ":"; anchored = true }

-- The match of the name at a position; the flag says that a line starts there.
abbrev pub match_key : Key → Bool → Text → Option (Text × Text)
match_key k start s = if not k.anchored || start then match_name k.name s else none

abbrev pub found_value : (Text → Option Text) → Option (Text × Text) → Option Text
found_value value none = none
found_value value (some (m, rest)) = value rest

abbrev first_of {ℓ} : {A : Type ℓ} → Option A → Option A → Option A
first_of (some x) later = some x
first_of none later = later

-- `content.match(pattern)`: the first position that matches; `value` is what the pattern has behind
-- the name.
unfoldable pub find_value : (Text → Option Text) → Key → Bool → Text → Option Text
unfolding match_name
find_value value k start [] = found_value value (match_key k start [])
find_value value k start (c ∷ s) =
    let later = find_value value k (not (is_plain_char c)) s in
    first_of (found_value value (match_key k start (c ∷ s))) later

unfoldable pub state_extract_field : Text → Text → Option Text
unfolding find_value value_of
state_extract_field content field =
    first_of (find_value value_of (bold field) true content)
      (find_value value_of (plain field) true content)

-- The new value in the place of the line behind the white space
abbrev pub with_value : Text → Text × Text → Text
with_value value (m, rest) = m ++ (spaces rest ++ (value ++ behind_line (behind_spaces rest)))

abbrev onto {ℓ} : {A : Type ℓ} → A → Option (List A) → Option (List A)
onto c none = none
onto c (some s) = some (c ∷ s)

abbrev changed : Text → Option (Text × Text) → Option Text
changed value none = none
changed value (some r) = some (with_value value r)

-- `content.replace(pattern, …)`; none where the pattern does not match
unfoldable pub replace_value : Key → Text → Bool → Text → Option Text
unfolding match_name spaces behind_spaces behind_line
replace_value k value start [] = changed value (match_key k start [])
replace_value k value start (c ∷ s) =
    let later = replace_value k value (not (is_plain_char c)) s in
    first_of (changed value (match_key k start (c ∷ s))) (onto c later)

abbrev is_found : Option (Text × Text) → Bool
is_found none = false
is_found (some r) = true

-- `pattern.test(content)`
unfoldable pub has_key : Key → Bool → Text → Bool
unfolding match_name
has_key k start [] = is_found (match_key k start [])
has_key k start (c ∷ s) =
    let later = has_key k (not (is_plain_char c)) s in is_found (match_key k start (c ∷ s)) || later

unfoldable pub state_replace_field : Text → Text → Text → Option Text
unfolding replace_value has_key
state_replace_field content field value =
    if has_key (bold field) true content
    then replace_value (bold field) value true content
    else if has_key (plain field) true content
    then replace_value (plain field) value true content
    else none

-- `if (result) return result`: a text that is empty counts as no result.
abbrev truthy_text : Option Text → Option Text
truthy_text none = none
truthy_text (some []) = none
truthy_text (some (c ∷ s)) = some (c ∷ s)

abbrev or_text : Option Text → Text → Text
or_text none s = s
or_text (some t) s = t

abbrev second_try : Text → Text → Option Text → Option Text
second_try content value none = none
second_try content value (some []) = none
second_try content value (some (c ∷ name)) =
    truthy_text (state_replace_field content (c ∷ name) value)

unfoldable pub state_replace_field_with_fallback : Text → Text → Option Text → Text → Text
unfolding state_replace_field
state_replace_field_with_fallback content primary fallback value =
    let first = truthy_text (state_replace_field content primary value) in
    or_text (first_of first (second_try content value fallback)) content
