-- ===== src/Config/Values.antt =====
-- How `cmdConfigSet` of config.cjs reads a value from the command line, with `isNaN` and `Number` on
-- strings. A number is kept as `JSON.stringify` writes it. The integers that JavaScript holds
-- exactly are computed; the shortest decimal text of another number is a parameter.
use aegis_workers.Base.{
  ℕ, ◌+◌, ◌-◌, ◌*◌, ◌<>◌, length, digits_value, number_text, String, Bool, true, false, ◌||◌, ◌&&◌,
  not, Option, none, some, [], ◌∷◌, ◌===◌, ◌==◌, if◌then◌else◌, Text, codes, all, is_digit, leb,
  starts_with, trim, text_eq,
}
use aegis_workers.Json.{Json, null, bool, num, str, Parsed, parsed, invalid}

-- The text behind the digits at its start
abbrev skip_digits : Text → Text
skip_digits [] = []
skip_digits (c ∷ s) = let rest = skip_digits s in if is_digit c then rest else c ∷ s

abbrev starts_digit : Text → Bool
starts_digit [] = false
starts_digit (c ∷ s) = is_digit c

-- Digits up to the end, at least one
abbrev only_digits : Text → Bool
only_digits [] = false
only_digits (c ∷ s) = all is_digit (c ∷ s)

-- `[+-]?` and digits up to the end
abbrev signed_digits : Text → Bool
signed_digits [] = false
signed_digits (c ∷ s) = if c == b'+' || c == b'-' then only_digits s else only_digits (c ∷ s)

-- An exponent, or the end
abbrev exponent : Text → Bool
exponent [] = true
exponent (c ∷ s) = (c == b'e' || c == b'E') && signed_digits s

-- Behind the integer digits: a fraction and an exponent
abbrev fraction : Text → Bool
fraction [] = true
fraction (c ∷ s) = if c == b'.' then exponent (skip_digits s) else exponent (c ∷ s)

-- A number without sign; without integer digits it wants a digit behind the point.
abbrev unsigned : Text → Bool
unsigned [] = false
unsigned (c ∷ s) =
    if is_digit c
    then fraction (skip_digits (c ∷ s))
    else if c == b'.'
    then starts_digit s && exponent (skip_digits s)
    else text_eq (c ∷ s) (codes "Infinity")

abbrev decimal : Text → Bool
decimal [] = false
decimal (c ∷ s) = if c == b'+' || c == b'-' then unsigned s else unsigned (c ∷ s)

abbrev is_hex : ℕ → Bool
is_hex c = is_digit c || (leb b'a' c && leb c b'f') || (leb b'A' c && leb c b'F')

abbrev some_of : (ℕ → Bool) → Text → Bool
some_of p [] = false
some_of p (c ∷ s) = all p (c ∷ s)

-- `0x…`, `0o…` and `0b…`, or a decimal number
abbrev is_number_text : Text → Bool
is_number_text [] = true
is_number_text (z ∷ []) = decimal (z ∷ [])
is_number_text (z ∷ x ∷ s) =
    if z == b'0' && (x == b'x' || x == b'X')
    then some_of is_hex s
    else if z == b'0' && (x == b'o' || x == b'O')
    then some_of (λ c. leb b'0' c && leb c b'7') s
    else if z == b'0' && (x == b'b' || x == b'B')
    then some_of (λ c. leb b'0' c && leb c b'1') s
    else decimal (z ∷ x ∷ s)

-- `!isNaN(value)`: white space around the number is allowed, and blank text is 0.
unfoldable pub is_numeric : String → Bool
is_numeric s = is_number_text (codes (trim s))

-- The digits of a number, as a string
abbrev digit_string : ℕ → String
digit_string c =
    if c == b'0'
    then "0"
    else if c == b'1'
    then "1"
    else if c == b'2'
    then "2"
    else if c == b'3'
    then "3"
    else if c == b'4'
    then "4"
    else if c == b'5'
    then "5"
    else if c == b'6'
    then "6"
    else if c == b'7'
    then "7"
    else if c == b'8'
    then "8"
    else "9"

abbrev digits_string : Text → String
digits_string [] = ""
digits_string (c ∷ s) = digit_string c <> digits_string s

-- Digits of a value that JavaScript holds exactly: fifteen at most
abbrev whole_value : Text → Option ℕ
whole_value s = if only_digits s && leb (length s) 15 then some (digits_value 0 s) else none

abbrev hex_value : ℕ → ℕ
hex_value c = if is_digit c then c - b'0' else if leb c b'F' then c - b'A' + 10 else c - b'a' + 10

abbrev radix_value : (radix value : ℕ) → Text → ℕ
radix_value radix n [] = n
radix_value radix n (c ∷ s) = radix_value radix (n * radix + hex_value c) s

-- At most `Number.MAX_SAFE_INTEGER`
abbrev exact : ℕ → Option ℕ
exact n = if leb n 9007199254740991 then some n else none

abbrev radix_number : Text → Option ℕ
radix_number (z ∷ x ∷ s) =
    if z == b'0' && (x == b'x' || x == b'X')
    then exact (radix_value 16 0 s)
    else if z == b'0' && (x == b'o' || x == b'O')
    then exact (radix_value 8 0 s)
    else if z == b'0' && (x == b'b' || x == b'B')
    then exact (radix_value 2 0 s)
    else whole_value (z ∷ x ∷ s)
radix_number s = whole_value s

-- A negative number; that of zero is written without the sign.
abbrev minus : ℕ → String
minus n = if n == 0 then "0" else "-" <> digits_string (number_text n)

abbrev written : (ℕ → String) → Option ℕ → Option String
written f none = none
written f (some n) = some (f n)

-- An integer that is held exactly, as it is written; blank text is 0.
unfoldable pub integer_text : Text → Option String
unfolding number_text
integer_text [] = some "0"
integer_text (c ∷ s) =
    if c == b'-'
    then written minus (whole_value s)
    else if c == b'+'
    then written (λ n. digits_string (number_text n)) (whole_value s)
    else written (λ n. digits_string (number_text n)) (radix_number (c ∷ s))

abbrev is_infinity : Text → Bool
is_infinity [] = false
is_infinity (c ∷ s) = text_eq (if c == b'+' || c == b'-' then s else c ∷ s) (codes "Infinity")

abbrev json_number : Option String → Json
json_number none = null
json_number (some s) = num s

-- `JSON.stringify(Number(value))` of a numeric text. `float` gives it for a number that is no such
-- integer, and nothing for one that is too large and so infinite; `JSON.stringify` writes null then.
unfoldable pub number_json : (float : String → Option String) → String → Json
unfolding integer_text
number_json float s =
    let text = codes (trim s) in
    if is_infinity text
    then null
    else elim (integer_text text) [ some t ↦ num t | none ↦ json_number (float s) ]

abbrev json_or_text : String → Parsed → Json
json_or_text s (parsed v) = v
json_or_text s (invalid e) = str s

-- A missing value stays undefined.
unfoldable pub parse_value :
    (float : String → Option String) → (String → Parsed) → Option String → Option Json
unfolding is_numeric number_json
parse_value float parse none = none
parse_value float parse (some s) =
    if s === "true"
    then some (bool true)
    else if s === "false"
    then some (bool false)
    else if is_numeric s && not (s === "")
    then some (number_json float s)
    else if starts_with s "[" || starts_with s "{"
    then some (json_or_text s (parse s))
    else some (str s)
