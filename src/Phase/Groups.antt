-- ===== src/Phase/Groups.antt =====
-- The number and the name in the name of a phase's directory: the two patterns of `searchPhaseInDir`
-- of core.cjs.
use aegis_workers.Base.{
  ℕ, Bool, true, false, ◌&&◌, Option, none, some, [], ◌∷◌, ◌++◌, ◌==◌, if◌then◌else◌, Text,
  is_digit, is_letter, is_alnum,
}
use aegis_workers.Phase.Number.{span_digits}
use aegis_workers.State.{line_of}

-- `(?:\.\d+)*`: the segments, and what follows; the text behind a point is passed on with the digits
-- read behind it.
abbrev push : ℕ → Text × Text → Text × Text
push c (run, rest) = (c ∷ run, rest)

unfoldable pub span_segments : (behind_point : Bool) → Text → Text × Text
span_segments p [] = ([], [])
span_segments true (c ∷ s) =
    let more = span_segments false s in if is_digit c then push c more else ([], c ∷ s)
span_segments false (c ∷ []) = if is_digit c then (c ∷ [], []) else ([], c ∷ [])
span_segments false (c ∷ d ∷ s) =
    let more = span_segments false (d ∷ s) in
    let segment = span_segments true (d ∷ s) in
    if is_digit c
    then push c more
    else if c == b'.' && is_digit d
    then push c segment
    else ([], c ∷ d ∷ s)

-- `-?`
abbrev without_dash : Text → Text
without_dash [] = []
without_dash (c ∷ s) = if c == b'-' then s else c ∷ s

-- The segments behind the digits and the letter; a segment begins with a point.
abbrev segments_at : Text → Text × Text
segments_at [] = ([], [])
segments_at (c ∷ s) =
    let more = span_segments false (c ∷ s) in if c == b'.' then more else ([], c ∷ s)

abbrev numbered : Text → Text × Text → Text × Text
numbered front (segments, rest) = (front ++ segments, line_of (without_dash rest))

abbrev behind_letter : Text → Text → Text × Text
behind_letter digits [] = numbered digits ([], [])
behind_letter digits (c ∷ s) =
    if is_letter c
    then numbered (digits ++ (c ∷ [])) (segments_at s)
    else numbered digits (segments_at (c ∷ s))

abbrev number_groups : Text × Text → Option (Text × Text)
number_groups ([], rest) = none
number_groups (d ∷ digits, rest) = some (behind_letter (d ∷ digits) rest)

-- `/^(\d+[A-Z]?(?:\.\d+)*)-?(.*)/i`
unfoldable pub match_numbered : Text → Option (Text × Text)
unfolding span_digits span_segments line_of
match_numbered name = number_groups (span_digits name)

abbrev longer : ℕ → Option (Text × Text) → Option (Text × Text)
longer c none = none
longer c (some (front, rest)) = some (c ∷ front, rest)

abbrev or_split : Option (Text × Text) → Text → Option (Text × Text)
or_split (some r) rest = some r
or_split none [] = none
or_split none (c ∷ s) = some ([], c ∷ s)

-- `[A-Z0-9]*(?:-[A-Z0-9]+)*-(.+)`: the longest front, so a later dash is tried first. The flag says
-- that a letter or a digit stands before.
unfoldable pub last_split : Bool → Text → Option (Text × Text)
last_split after [] = none
last_split after (c ∷ s) =
    let word = longer c (last_split true s) in
    let dash = or_split (longer c (last_split false s)) (line_of s) in
    if is_alnum c then word else if c == b'-' && after then dash else none

-- `/^([A-Z][A-Z0-9]*(?:-[A-Z0-9]+)*)-(.+)/i`
abbrev match_custom : Text → Option (Text × Text)
match_custom [] = none
match_custom (c ∷ s) = let more = longer c (last_split true s) in if is_letter c then more else none

abbrev some_text : Text → Option Text
some_text [] = none
some_text (c ∷ s) = some (c ∷ s)

-- The number and the name of a directory
unfoldable pub number_and_name : Text → Text × Option Text
unfolding match_numbered last_split
number_and_name name = elim (match_numbered name) [
  | some (number, rest) ↦ (number, some_text rest)
  | none ↦ elim (match_custom name) [
    | some (number, rest) ↦ (number, some_text rest)
    | none ↦ (name, none)
  ]
]
