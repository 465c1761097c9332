-- ===== src/Cli/Number.antt =====
-- `parseInt(s, 10)`: white space, a sign, and the digits in front of the first other character.
use aegis_workers.Base.{
  ℕ, ◌+◌, ◌-◌, ◌*◌, String, Bool, true, false, Option, none, some, [], ◌∷◌, ◌==◌, if◌then◌else◌,
  Text, codes, is_digit, trim_start,
}

-- A number of JavaScript that `parseInt` can return: a sign and a size.
pub data Number : Type 0 where
  nan : Number
  int : (negative : Bool) → ℕ → Number

-- The digits read so far; `none` before the first.
unfoldable pub scan_digits : Option ℕ → Text → Option ℕ
scan_digits acc [] = acc
scan_digits acc (c ∷ s) =
    let more = scan_digits (some (elim acc [ none ↦ 0 | some n ↦ n ] * 10 + (c - b'0'))) s in
    if is_digit c then more else acc

abbrev signed : Bool → Option ℕ → Number
signed negative none = nan
signed negative (some n) = int negative n

abbrev pub scan_sign : Text → Number
scan_sign [] = nan
scan_sign (c ∷ s) =
    if c == b'-'
    then signed true (scan_digits none s)
    else if c == b'+'
    then signed false (scan_digits none s)
    else signed false (scan_digits none (c ∷ s))

-- `parseInt(undefined, 10)` is NaN too.
unfoldable pub parse_int : Option String → Number
unfolding scan_digits
parse_int none = nan
parse_int (some s) = scan_sign (codes (trim_start s))
