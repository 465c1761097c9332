-- ===== src/State/Advance.antt =====
-- `cmdStateAdvancePlan` of state.cjs, with `updateCurrentPositionFields`, on the text of STATE.md up
-- to `writeStateMd`. The date is a parameter.
use aegis_workers.Base.{
  ℕ, ◌+◌, ◌-◌, ◌*◌, Bool, true, false, ◌||◌, ◌&&◌, not, Option, none, some, [], ◌∷◌, ◌++◌, ◌==◌,
  if◌then◌else◌, leb, Text, codes, begins, drop, length, is_digit, digits_value, number_text,
}
use aegis_workers.Cli.Number.{Number, nan, int}
use aegis_workers.Phase.Number.{span_digits}
use aegis_workers.Phase.Renumber.{is_plain_char}
use aegis_workers.Phase.Insert.{number_at, printed_successor}
use aegis_workers.State.{
  match_name, spaces, behind_spaces, line_of, behind_line, state_extract_field, state_replace_field,
  state_replace_field_with_fallback,
}
use aegis_workers.State.Commands.{until_heading}

-- What a match gives to a replacement: its groups, itself, and the text around it
pub record Match : Type 0 where
  pub first_group : Text
  pub second_group : Text
  pub groups : ℕ
  pub whole : Text
  pub left : Text
  pub right : Text

abbrev group : Match → ℕ → Text
group m n = if n == 1 then m.first_group else m.second_group

abbrev is_group : Match → ℕ → Bool
is_group m n = leb 1 n && leb n m.groups

-- What a dollar and one more character stand for in a replacement; none for themselves
abbrev special : Match → ℕ → Option Text
special m c =
    if c == b'$'
    then some (b'$' ∷ [])
    else if c == b'&'
    then some m.whole
    else if c == b'`'
    then some m.left
    else if c == b'\''
    then some m.right
    else if is_digit c && is_group m (c - b'0')
    then some (group m (c - b'0'))
    else none

abbrev prefer : Option Text → Text → Text → Text
prefer none rest other = other
prefer (some t) rest other = t ++ rest

-- A replacement text with its dollars put in; a group may have two digits.
unfoldable pub expand : Match → Text → Text
expand m [] = []
expand m (c ∷ []) = c ∷ []
expand m (c ∷ d ∷ []) =
    if c == b'$' then prefer (special m d) [] (c ∷ d ∷ []) else c ∷ expand m (d ∷ [])
expand m (c ∷ d ∷ e ∷ s) =
    let behind_two = expand m s in
    let behind_one = expand m (e ∷ s) in
    let plain_dollar = c ∷ expand m (d ∷ e ∷ s) in
    let two = (d - b'0') * 10 + (e - b'0') in
    if c == b'$'
    then if (is_digit d && is_digit e) && is_group m two
      then group m two ++ behind_two
      else prefer (special m d) behind_one plain_dollar
    else plain_dollar

-- `body.replace(/^Label:.*$/m, value)` at the first line that begins with the label; `match_label`
-- says whether the label is compared without regard to case.
unfoldable pub replace_line : (Text → Option (Text × Text)) → Text → Text → Bool → Text → Text
unfolding expand line_of behind_line
replace_line match_label value before start [] = []
replace_line match_label value before start (c ∷ s) =
    let later = c ∷ replace_line match_label value (before ++ (c ∷ [])) (not (is_plain_char c)) s in
    elim (if start then match_label (c ∷ s) else none) [
      | none ↦ later
      | some (label, rest) ↦
          let m : Match = record {
            first_group = [];
            second_group = [];
            groups = 0;
            whole = label ++ line_of rest;
            left = before;
            right = behind_line rest;
          } in
          expand m value ++ behind_line rest
    ]

abbrev exact_label : Text → Text → Option (Text × Text)
exact_label label s = if begins s label then some (label, drop (length label) s) else none

-- The fields that are given: a status, the last activity and a plan
abbrev put_plan : Option Text → Text → Text
put_plan none body = body
put_plan (some []) body = body
put_plan (some (c ∷ plan)) body =
    replace_line (exact_label (codes "Plan:")) (codes "Plan: " ++ (c ∷ plan)) [] true body

abbrev put_position : Text → Text → Option Text → Text → Text
put_position status today plan body = put_plan plan (
    replace_line (match_name (codes "Last activity:")) (codes "Last activity: " ++ today) [] true
      (replace_line (exact_label (codes "Status:")) (codes "Status: " ++ status) [] true body))

-- `\s*\n`: the white space up to its last line feed, and what follows
abbrev onto_header : ℕ → Option (Text × Text) → Option (Text × Text)
onto_header c none = none
onto_header c (some (header, rest)) = some (c ∷ header, rest)

abbrev or_feed : Option (Text × Text) → ℕ → Text → Option (Text × Text)
or_feed (some r) c s = some r
or_feed none c s = if c == 10 then some (c ∷ [], s) else none

abbrev header_end : Text → Option (Text × Text)
header_end [] = none
header_end (c ∷ s) = let more = onto_header c (header_end s) in or_feed more c s

-- `##\s*Current Position\s*\n`: the header and the rest of the text
abbrev header_at : Text → Option (Text × Text)
header_at s =
    if begins s (codes "##")
    then elim (match_name (codes "Current Position") (behind_spaces (drop 2 s))) [
      | none ↦ none
      | some (name, rest) ↦ elim (header_end (spaces rest)) [
        | none ↦ none
        | some (feed, left) ↦
            some (codes "##" ++ (spaces (drop 2 s) ++ (name ++ feed)), left ++ behind_spaces rest)
      ]
    ]
    else none

-- `updateCurrentPositionFields`: the body of the first section is changed and put in again as a
-- replacement text.
unfoldable pub update_current_position_fields : Text → Text → Option Text → Text → Text → Text
unfolding match_name spaces behind_spaces until_heading replace_line
update_current_position_fields status today plan before [] = []
update_current_position_fields status today plan before (c ∷ s) =
    let later = c ∷ update_current_position_fields status today plan (before ++ (c ∷ [])) s in
    elim (header_at (c ∷ s)) [
      | none ↦ later
      | some (header, rest) ↦
          let body = until_heading rest in
          let right = drop (length body) rest in
          let m : Match = record {
            first_group = header;
            second_group = body;
            groups = 2;
            whole = header ++ body;
            left = before;
            right = right;
          } in
          expand m (header ++ put_position status today plan body) ++ right
    ]

-- `planField.match(/of\s+(\d+)/)`, as a number
abbrev digits_number : Text × Text → Option Number
digits_number ([], rest) = none
digits_number (d ∷ run, rest) = some (int false (digits_value 0 (d ∷ run)))

abbrev spaced_number : Text → Text → Option Number
spaced_number [] rest = none
spaced_number (c ∷ s) rest = digits_number (span_digits rest)

abbrev of_at : Text → Option Number
of_at s =
    if begins s (codes "of")
    then spaced_number (spaces (drop 2 s)) (behind_spaces (drop 2 s))
    else none

unfoldable pub of_number : Text → Number
unfolding span_digits spaces behind_spaces
of_number [] = nan
of_number (c ∷ s) = let later = of_number s in elim (of_at (c ∷ s)) [ none ↦ later | some n ↦ n ]

-- `planField.replace(/^\d+/, String(n))`
abbrev with_number : Text → Text × Text → Text → Text
with_number n ([], rest) field = field
with_number n (d ∷ run, rest) field = n ++ rest

-- `a >= b` on numbers that are not NaN
abbrev pub at_least : Number → Number → Bool
at_least (int false a) (int false b) = leb b a
at_least (int false a) (int true b) = true
at_least (int true a) (int false b) = a == 0 && b == 0
at_least (int true a) (int true b) = leb a b
at_least a b = false

abbrev pub is_nan : Number → Bool
is_nan nan = true
is_nan n = false

-- `${n}`
abbrev printed : Number → Text
printed nan = codes "NaN"
printed (int false n) = number_text n
printed (int true n) = if n == 0 then number_text n else b'-' ∷ number_text n

-- Where the plan's number stands: in fields of its own, or in the field `Plan`
pub record Position : Type 0 where
  pub current : Number
  pub total : Number
  pub compound : Option Text

abbrev truthy_field : Option Text → Option Text
truthy_field (some []) = none
truthy_field s = s

abbrev from_plan : Option Text → Position
from_plan none = record { current = nan; total = nan; compound = none }
from_plan (some plan) = record {
  current = number_at (some plan);
  total = of_number plan;
  compound = some plan;
}

abbrev from_fields : Option Text → Option Text → Option Text → Position
from_fields (some plan) (some total) field = record {
  current = number_at (some plan);
  total = number_at (some total);
  compound = none;
}
from_fields _ _ field = from_plan field

unfoldable pub plan_position : Text → Position
unfolding state_extract_field of_number
plan_position content =
    from_fields (truthy_field (state_extract_field content (codes "Current Plan")))
      (truthy_field (state_extract_field content (codes "Total Plans in Phase")))
      (truthy_field (state_extract_field content (codes "Plan")))

-- `stateReplaceField(…) || content`
abbrev replaced_or : Option Text → Text → Text
replaced_or none content = content
replaced_or (some []) content = content
replaced_or (some (c ∷ s)) content = c ∷ s

-- The status, the last activity and the current position
unfoldable pub close_content : Text → Text → Option Text → Text → Text
unfolding state_replace_field_with_fallback update_current_position_fields
close_content status today plan content = update_current_position_fields status today plan [] (
    state_replace_field_with_fallback
      (state_replace_field_with_fallback content (codes "Status") none status)
      (codes "Last Activity") (some (codes "Last activity")) today)

abbrev last_status : Text
last_status = codes "Phase complete — ready for verification"

-- The text to show, and the content with the new plan
abbrev put_number : Position → Text → Text × Text
put_number p content = elim p.compound [
  | some field ↦
      let shown = with_number (printed_successor p.current) (span_digits field) field in
      (shown, replaced_or (state_replace_field content (codes "Plan") shown) content)
  | none ↦ (
    printed_successor p.current ++ (codes " of " ++ printed p.total),
    replaced_or (state_replace_field content (codes "Current Plan") (printed_successor p.current))
        content,
  )
]

-- The reply, with the content that is handed to `writeStateMd`
pub data AdvanceReply : Type 0 where
  state_missing : AdvanceReply
  unparsed : AdvanceReply
  last_plan : (current_plan total_plans : Number) (content : Text) → AdvanceReply
  advanced :
      (previous_plan : Number) (current_plan : Text) (total_plans : Number) (content : Text)
      → AdvanceReply

abbrev advance : Text → Position → Text → AdvanceReply
advance today p content =
    let (shown, changed) = put_number p content in
    if is_nan p.current || is_nan p.total
    then unparsed
    else if at_least p.current p.total
    then last_plan p.current p.total (close_content last_status today none content)
    else advanced p.current (printed_successor p.current) p.total
        (close_content (codes "Ready to execute") today (some shown) changed)

unfoldable pub cmd_state_advance_plan : Text → Option Text → AdvanceReply
unfolding plan_position close_content state_replace_field span_digits
cmd_state_advance_plan today none = state_missing
cmd_state_advance_plan today (some content) = advance today (plan_position content) content
