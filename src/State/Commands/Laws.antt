-- ===== src/State/Commands/Laws.antt =====
-- `state get` prints what `state update` set.
use aegis_workers.Base.{
  ℕ, ◌≡◌, refl, sym, ap, ◌∙◌, ◌⊎◌, inl, inr, true, false, some, [], ◌∷◌, ◌++◌, Text, Option-cases,
}
use aegis_workers.Security.Names.{Verdict, valid, missing, invalid, validate_field_name}
use aegis_workers.State.{spaces, behind_spaces, behind_line, bold, has_key, state_replace_field}
use aegis_workers.State.Laws.{IsValue, line-with_value}
use aegis_workers.State.Replace.{read_field, read_field-state_replace_field}
use aegis_workers.State.Commands.{
  line_value, state_get_field, part, cmd_state_get, put_field, UpdateReply, usage, bad_field,
  updated, no_field, update_file, cmd_state_update,
}

put_field-state_replace_field :
    (content field value : Text)
    → put_field content field value ≡ state_replace_field content field value
unfolding put_field state_replace_field
put_field-state_replace_field content field value = refl

-- The content of an update
content_of : UpdateReply → Text
content_of (updated content) = content
content_of _ = []

update_file-updated :
    (content field value new : Text)
    → update_file (some content) field value ≡ updated new
    → put_field content field value ≡ some new
unfolding content_of
update_file-updated content field value new e =
    elim (Option-cases (put_field content field value)) [
      | inl f ↦ absurd (differ (rw f at e))
      | inr (t, f) ↦ f ∙ ap (λ x. some x) (ap content_of (rw f at e))
    ]
  where
    differ : no_field ≡ updated new → ⊥
    differ g = cc

cmd_state_update-updated :
    (content field value new : Text)
    → cmd_state_update (some content) (some field) (some value) ≡ updated new
    → update_file (some content) field value ≡ updated new
unfolding cmd_state_update
cmd_state_update-updated content [] value new e = absurd (differ e)
  where
    differ : usage ≡ updated new → ⊥
    differ g = cc
cmd_state_update-updated content (c ∷ field) value new e =
    go (validate_field_name (some (c ∷ field))) e
  where
    go :
        (v : Verdict)
        → elim v as (λ x. UpdateReply) [
          | valid f ↦ update_file (some content) (c ∷ field) value
          | missing ↦ bad_field
          | invalid f ↦ bad_field
        ]
          ≡ updated new
        → update_file (some content) (c ∷ field) value ≡ updated new
    go (valid f) g = g
    go missing g = absurd (differ g)
      where
        differ : bad_field ≡ updated new → ⊥
        differ h = cc
    go (invalid f) g = absurd (differ g)
      where
        differ : bad_field ≡ updated new → ⊥
        differ h = cc

line_value-with_value :
    (rest v : Text)
    → IsValue v
    → line_value (spaces rest ++ (v ++ behind_line (behind_spaces rest))) ≡ some v
unfolding line_value
line_value-with_value rest v h = ap (λ x. some x) (line-with_value rest v h)

-- After an update that was done, the command that prints a field prints the new value of the text
-- that the update hands on, where the value is one line, not empty and trimmed, and where the bold
-- form is the one replaced or is not in the new text. The name of the field is not empty.
pub cmd_state_get-cmd_state_update :
    (content value new : Text) (c : ℕ) (name : Text)
    → IsValue value
    → cmd_state_update (some content) (some (c ∷ name)) (some value) ≡ updated new
    → (has_key (bold (c ∷ name)) true content ≡ true) ⊎ (has_key (bold (c ∷ name)) true new ≡ false)
    → cmd_state_get (some new) (some (c ∷ name)) ≡ part value
unfolding cmd_state_get state_get_field
cmd_state_get-cmd_state_update content value new c name h e k =
    let field = c ∷ name in
    let put =
      update_file-updated content field value new
        (cmd_state_update-updated content field value new e) in
    let replaced : state_replace_field content field value ≡ some new =
      sym (put_field-state_replace_field content field value) ∙ put in
    let read =
      read_field-state_replace_field line_value content field value new (reads h) replaced k in
    rw (read, read_field) refl
  where
    reads :
        IsValue value
        → (rest : Text)
        → line_value (spaces rest ++ (value ++ behind_line (behind_spaces rest))) ≡ some value
    reads i rest = line_value-with_value rest value i
