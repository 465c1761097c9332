-- ===== src/Phase/Number.antt =====
-- `normalizePhaseName` and `comparePhaseNum` of core.cjs on texts: `12`, `12A`, `12A.1.2`.
-- Numbers are exact: the digits of an identifier are taken to spell less than 2^53.
pub mod Laws
pub mod Normalize
use Prim.Native.Nat.{compare, Ordering, lt, eq, gt}
use aegis_workers.Base.{
  digits_value, ℕ, ◌+◌, ◌-◌, ◌*◌, Bool, true, false, Option, none, some, List, [], ◌∷◌, ◌++◌, ◌==◌,
  if◌then◌else◌, Text, is_digit, is_letter, to_upper,
}

-- The groups of `/^(\d+)([A-Z])?((?:\.\d+)*)/i`: the digits, the letter, and the digits of each
-- decimal segment.
pub record Parts : Type 0 where
  pub digits : Text
  pub letter : Option ℕ
  pub segments : List Text

-- The longest run of digits, and what follows
unfoldable pub span_digits : Text → Text × Text
span_digits [] = ([], [])
span_digits (c ∷ s) =
    let (run, rest) = span_digits s in if is_digit c then (c ∷ run, rest) else ([], c ∷ s)

-- A segment that has a digit, in front of the others
abbrev closed : Text → List Text → List Text
closed [] more = []
closed (d ∷ run) more = (d ∷ run) ∷ more

-- Behind a point, with the digits read so far. A point with no digit behind it ends the match.
unfoldable pub read_segment : Text → Text → List Text
read_segment run [] = closed run []
read_segment run (c ∷ s) =
    let longer = read_segment (run ++ c ∷ []) s in
    let others = read_segment [] s in
    if is_digit c then longer else if c == b'.' then closed run others else closed run []

-- `((?:\.\d+)*)`
unfoldable pub read_segments : Text → List Text
unfolding read_segment
read_segments [] = []
read_segments (c ∷ s) = if c == b'.' then read_segment [] s else []

unfoldable pub with_letter : Text → Text → Parts
unfolding read_segments
with_letter digits [] = record { digits = digits; letter = none; segments = [] }
with_letter digits (c ∷ s) =
    if is_letter c
    then record { digits = digits; letter = some c; segments = read_segments s }
    else record { digits = digits; letter = none; segments = read_segments (c ∷ s) }

abbrev pub parts_of : Text × Text → Option Parts
parts_of ([], rest) = none
parts_of (d ∷ run, rest) = some (with_letter (d ∷ run) rest)

-- `String(phase).match(…)`
unfoldable pub match_phase : Text → Option Parts
unfolding span_digits with_letter
match_phase s = parts_of (span_digits s)

-- `padStart(2, '0')`
unfoldable pub pad_two : Text → Text
pad_two [] = b'0' ∷ b'0' ∷ []
pad_two (c ∷ []) = b'0' ∷ c ∷ []
pad_two s = s

abbrev upper_letter : Option ℕ → Text
upper_letter none = []
upper_letter (some c) = to_upper c ∷ []

-- The third group as it stands in the text
unfoldable pub decimal_text : List Text → Text
decimal_text [] = []
decimal_text (run ∷ more) = b'.' ∷ (run ++ decimal_text more)

abbrev pub print_parts : Parts → Text
print_parts p = pad_two p.digits ++ (upper_letter p.letter ++ decimal_text p.segments)

unfoldable pub normalize_phase_name : Text → Text
unfolding pad_two decimal_text
normalize_phase_name s = elim (match_phase s) [ none ↦ s | some p ↦ print_parts p ]

abbrev pub values : List Text → List ℕ
values [] = []
values (run ∷ more) = digits_value 0 run ∷ values more

-- The sign of the number that a comparison returns: that of the first which is not 0.
abbrev pub then_by : Ordering → Ordering → Ordering
then_by eq o = o
then_by lt o = lt
then_by gt o = gt

-- No letter sorts before a letter.
unfoldable pub compare_letter : Option ℕ → Option ℕ → Ordering
compare_letter none none = eq
compare_letter none (some d) = lt
compare_letter (some c) none = gt
compare_letter (some c) (some d) = compare (to_upper c) (to_upper d)

-- The loop over the segments, where a missing one counts as 0
unfoldable pub compare_padded : List ℕ → List ℕ → Ordering
compare_padded [] [] = eq
compare_padded [] (b ∷ bs) = then_by (compare 0 b) (compare_padded [] bs)
compare_padded (a ∷ l) [] = then_by (compare a 0) (compare_padded l [])
compare_padded (a ∷ l) (b ∷ bs) = then_by (compare a b) (compare_padded l bs)

-- No segments sort before any.
unfoldable pub compare_segments : List ℕ → List ℕ → Ordering
unfolding compare_padded
compare_segments [] [] = eq
compare_segments [] (b ∷ bs) = lt
compare_segments (a ∷ l) [] = gt
compare_segments (a ∷ l) (b ∷ bs) = compare_padded (a ∷ l) (b ∷ bs)

abbrev pub compare_parts : Parts → Parts → Ordering
compare_parts p q = then_by (compare (digits_value 0 p.digits) (digits_value 0 q.digits)) (
    then_by (compare_letter p.letter q.letter)
      (compare_segments (values p.segments) (values q.segments)))

-- The comparison of two matches, with the sign of `localeCompare` where one is missing
abbrev pub compare_matched : Ordering → Option Parts → Option Parts → Ordering
compare_matched o (some p) (some q) = compare_parts p q
compare_matched o _ _ = o

-- `localeCompare`, whose order depends on the system's language, is a parameter.
unfoldable pub compare_phase_num : (Text → Text → Ordering) → Text → Text → Ordering
compare_phase_num locale a b = compare_matched (locale a b) (match_phase a) (match_phase b)
