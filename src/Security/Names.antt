-- ===== src/Security/Names.antt =====
-- `validatePhaseNumber`, `validateFieldName` and `validateShellArg` of security.cjs on texts. An
-- argument that is no string is `none`.
pub mod Laws
use aegis_workers.Base.{
  ℕ, ◌+◌, Bool, true, false, ◌||◌, ◌&&◌, not, Option, none, some, List, [], ◌∷◌, ◌++◌, ◌==◌,
  if◌then◌else◌, leb, ltb, Text, is_digit, is_letter, is_alnum, is_space, all, any, length,
}
use aegis_workers.Security.JsonSafety.{units}

-- `s.trim()`
unfoldable pub trim_left : Text → Text
trim_left [] = []
trim_left (c ∷ s) = let rest = trim_left s in if is_space c then rest else c ∷ s

abbrev keep_end : ℕ → Text → Text
keep_end c [] = if is_space c then [] else c ∷ []
keep_end c (d ∷ s) = c ∷ d ∷ s

unfoldable pub trim_right : Text → Text
trim_right [] = []
trim_right (c ∷ s) = keep_end c (trim_right s)

unfoldable pub trim_text : Text → Text
unfolding trim_left trim_right
trim_text s = trim_right (trim_left s)

-- The parts of a text between the characters `sep`
abbrev pub onto_head : ℕ → List Text → List Text
onto_head c [] = (c ∷ []) ∷ []
onto_head c (p ∷ ps) = (c ∷ p) ∷ ps

unfoldable pub parts : ℕ → Text → List Text
parts sep [] = [] ∷ []
parts sep (c ∷ s) = if c == sep then [] ∷ parts sep s else onto_head c (parts sep s)

-- Between `lo` and `hi` digits
abbrev pub is_number : ℕ → ℕ → Text → Bool
is_number lo hi run = all is_digit run && (leb lo (length run) && leb (length run) hi)

-- `\d{1,4}[A-Z]?` with either case: the digits, then at most a letter at the end
unfoldable pub is_major : ℕ → Text → Bool
is_major n [] = leb 1 n && leb n 4
is_major n (c ∷ []) =
    if is_digit c then leb 1 (n + 1) && leb (n + 1) 4 else is_letter c && (leb 1 n && leb n 4)
is_major n (c ∷ d ∷ s) = is_digit c && is_major (n + 1) (d ∷ s)

abbrev numeric_parts : List Text → Bool
numeric_parts [] = false
numeric_parts (p ∷ ps) = is_major 0 p && all (is_number 1 3) ps

-- `/^\d{1,4}[A-Z]?(?:\.\d{1,3})*$/i`
unfoldable pub is_numeric_phase : Text → Bool
unfolding is_major parts
is_numeric_phase s = numeric_parts (parts b'.' s)

abbrev pub is_word : Text → Bool
is_word [] = false
is_word (c ∷ s) = all is_alnum (c ∷ s)

abbrev pub is_project : Text → Bool
is_project [] = false
is_project (c ∷ s) = is_letter c && all is_alnum s

abbrev custom_parts : List Text → Bool
custom_parts [] = false
custom_parts (p ∷ ps) = is_project p && (all is_word ps && (leb 1 (length ps) && leb (length ps) 4))

-- `/^[A-Z][A-Z0-9]*(?:-[A-Z0-9]+){1,4}$/i`
unfoldable pub is_custom_phase : Text → Bool
unfolding parts
is_custom_phase s = custom_parts (parts b'-' s)

pub data Verdict : Type 0 where
  valid : Text → Verdict
  missing : Verdict
  invalid : Text → Verdict

-- What `validatePhaseNumber` says of the trimmed text
abbrev pub judge_phase : Text → Verdict
judge_phase t =
    if is_numeric_phase t
    then valid t
    else if is_custom_phase t && leb (units t) 30
    then valid t
    else invalid t

unfoldable pub validate_phase_number : Option Text → Verdict
unfolding is_numeric_phase is_custom_phase trim_text units
validate_phase_number none = missing
validate_phase_number (some []) = missing
validate_phase_number (some (c ∷ s)) = judge_phase (trim_text (c ∷ s))

-- `[A-Za-z0-9 _.\-/]`
abbrev pub is_field_char : ℕ → Bool
is_field_char c = is_alnum c || c == b' ' || c == b'_' || c == b'.' || c == b'-' || c == b'/'

-- `/^[A-Za-z][A-Za-z0-9 _.\-/]{0,60}$/`
unfoldable pub is_field_name : Text → Bool
is_field_name [] = false
is_field_name (c ∷ s) = is_letter c && (all is_field_char s && leb (length s) 60)

unfoldable pub validate_field_name : Option Text → Verdict
unfolding is_field_name
validate_field_name none = missing
validate_field_name (some []) = missing
validate_field_name (some (c ∷ s)) =
    if is_field_name (c ∷ s) then valid (c ∷ s) else invalid (c ∷ s)

-- `/\$\(/`
unfoldable pub has_dollar_paren : Text → Bool
has_dollar_paren [] = false
has_dollar_paren (c ∷ []) = false
has_dollar_paren (c ∷ d ∷ s) = (c == b'$' && d == b'(') || has_dollar_paren (d ∷ s)

pub data ShellArg : Type 0 where
  accepted : Text → ShellArg
  empty null_byte substitution : ShellArg

-- The tests on an argument that is not empty
unfoldable pub judge_arg : Text → ShellArg
judge_arg v =
    if any (λ x. x == 0) v
    then null_byte
    else if any (λ x. x == b'$' || x == b'`') v && (has_dollar_paren v || any (λ x. x == b'`') v)
    then substitution
    else accepted v

-- The errors that are thrown are results here.
unfoldable pub validate_shell_arg : Option Text → ShellArg
unfolding judge_arg has_dollar_paren
validate_shell_arg none = empty
validate_shell_arg (some []) = empty
validate_shell_arg (some (c ∷ s)) = judge_arg (c ∷ s)
