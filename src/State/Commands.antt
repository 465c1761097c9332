-- ===== src/State/Commands.antt =====
-- `state get`, `state update` and `state patch` of state.cjs. What the last two hand to
-- `writeStateMd` is the content of the reply; what it adds to the text is not modelled. A section's
-- name that begins with white space is not modelled.
pub mod Laws
use aegis_workers.Base.{
  ℕ, Bool, true, false, ◌||◌, Option, none, some, List, [], ◌∷◌, ◌++◌, ◌==◌, if◌then◌else◌, Text,
  codes, begins, drop, any,
}
use aegis_workers.Security.Names.{Verdict, valid, missing, invalid, validate_field_name}
use aegis_workers.State.{
  match_name, spaces, behind_spaces, line_of, trim_last, bold, plain, has_key, find_value,
  replace_value, first_of,
}

-- `\s*(.*)`, trimmed
unfoldable pub line_value : Text → Option Text
unfolding behind_spaces line_of trim_last
line_value rest = some (trim_last (line_of (behind_spaces rest)))

unfoldable pub state_get_field : Text → Text → Option Text
unfolding find_value line_value
state_get_field content field =
    first_of (find_value line_value (bold field) true content)
      (find_value line_value (plain field) true content)

-- `\s*\n`: what follows the last line feed of the white space
abbrev behind_feed : Text → Option Text
behind_feed [] = none
behind_feed (c ∷ s) = let later = behind_feed s in first_of later (if c == 10 then some s else none)

abbrev body_at : Text → Option Text
body_at rest = elim (behind_feed (spaces rest)) [
  | none ↦ none
  | some left ↦ some (left ++ behind_spaces rest)
]

-- `([\s\S]*?)(?=\n##|$)`
unfoldable pub until_heading : Text → Text
until_heading [] = []
until_heading (c ∷ s) =
    let rest = until_heading s in if begins (c ∷ s) (codes "\n##") then [] else c ∷ rest

abbrev section_at : Text → Text → Option Text
section_at name s =
    if begins s (codes "##")
    then elim (match_name name (behind_spaces (drop 2 s))) [
      | none ↦ none
      | some (m, rest) ↦ body_at rest
    ]
    else none

-- The section of `##\s*name\s*\n`, trimmed
unfoldable pub find_section : Text → Text → Option Text
unfolding match_name spaces behind_spaces until_heading trim_last
find_section name [] = none
find_section name (c ∷ s) =
    let later = find_section name s in
    elim (section_at name (c ∷ s)) [
      | none ↦ later
      | some body ↦ some (trim_last (behind_spaces (until_heading body)))
    ]

pub data GetReply : Type 0 where
  whole : Text → GetReply
  part : Text → GetReply
  not_found : GetReply
  no_state : GetReply

abbrev part_or_missing : Option Text → GetReply
part_or_missing none = not_found
part_or_missing (some s) = part s

-- A file that cannot be read is given as missing.
unfoldable pub cmd_state_get : Option Text → Option Text → GetReply
unfolding state_get_field find_section
cmd_state_get none section = no_state
cmd_state_get (some content) none = whole content
cmd_state_get (some content) (some []) = whole content
cmd_state_get (some content) (some (c ∷ name)) =
    part_or_missing
      (first_of (state_get_field content (c ∷ name)) (find_section (c ∷ name) content))

-- The update that `state update` and `state patch` do for a field
unfoldable pub put_field : Text → Text → Text → Option Text
unfolding has_key replace_value
put_field content field value =
    if has_key (bold field) true content
    then replace_value (bold field) value true content
    else if has_key (plain field) true content
    then replace_value (plain field) value true content
    else none

pub data UpdateReply : Type 0 where
  usage : UpdateReply
  bad_field : UpdateReply
  updated : (content : Text) → UpdateReply
  no_field : UpdateReply
  no_file : UpdateReply

abbrev updated_or : Option Text → UpdateReply
updated_or none = no_field
updated_or (some content) = updated content

abbrev update_file : Option Text → Text → Text → UpdateReply
update_file none field value = no_file
update_file (some content) field value = updated_or (put_field content field value)

unfoldable pub cmd_state_update : Option Text → Option Text → Option Text → UpdateReply
unfolding put_field validate_field_name
cmd_state_update file none value = usage
cmd_state_update file (some []) value = usage
cmd_state_update file (some (c ∷ field)) none = usage
cmd_state_update file (some (c ∷ field)) (some value) =
    elim (validate_field_name (some (c ∷ field))) [
      | valid f ↦ update_file file (c ∷ field) value
      | missing ↦ bad_field
      | invalid f ↦ bad_field
    ]

-- The text after the patches, and the names of the fields that were updated and that failed
pub record Patched : Type 0 where
  pub content : Text
  pub updated_fields : List Text
  pub failed_fields : List Text

unfoldable pub patch_fields : Text → List (Text × Text) → Patched
unfolding put_field
patch_fields content [] = record { content = content; updated_fields = []; failed_fields = [] }
patch_fields content ((field, value) ∷ patches) = elim (put_field content field value) [
  | some new ↦
      let later = patch_fields new patches in
      record {
        content = later.content;
        updated_fields = field ∷ later.updated_fields;
        failed_fields = later.failed_fields;
      }
  | none ↦
      let later = patch_fields content patches in
      record {
        content = later.content;
        updated_fields = later.updated_fields;
        failed_fields = field ∷ later.failed_fields;
      }
]

-- The reply to a patch; the text is written if a field was updated.
pub data PatchReply : Type 0 where
  bad_patch : PatchReply
  no_patch_file : PatchReply
  patched : (updated_fields failed_fields : List Text) → (written : Option Text) → PatchReply

abbrev is_refused : Verdict → Bool
is_refused (valid f) = false
is_refused v = true

abbrev patch_reply : Patched → PatchReply
patch_reply p =
    patched p.updated_fields p.failed_fields
      (elim p.updated_fields [ [] ↦ none | f ∷ fs ↦ some p.content ])

unfoldable pub cmd_state_patch : Option Text → List (Text × Text) → PatchReply
unfolding patch_fields validate_field_name
cmd_state_patch file patches =
    if any (λ p. is_refused (validate_field_name (some p.0))) patches
    then bad_patch
    else elim file [
      | none ↦ no_patch_file
      | some content ↦ patch_reply (patch_fields content patches)
    ]
