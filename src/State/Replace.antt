-- ===== src/State/Replace.antt =====
-- The replaced field of STATE.md is found again with its new value.
use aegis_workers.Base.{
  ◌≡◌, refl, sym, ◌∙◌, inl, inr, ◌⊎◌, Bool, true, false, ◌||◌, not, none, some, [], ◌∷◌, ◌++◌, Text,
  Option, Bool-cases, never,
}
use mathlib.Core.Path.{subst}
use aegis_workers.Phase.Renumber.{is_plain_char}
use aegis_workers.State.{
  match_name, spaces, behind_spaces, behind_line, Key, bold, plain, match_key, found_value,
  first_of, find_value, value_of, state_extract_field, with_value, replace_value, has_key,
  state_replace_field,
}
use aegis_workers.State.Laws.{IsValue, value_of-with_value, match_name-again}
use aegis_workers.State.Shares.{
  match_key-cases, match_key-of, match_key-short, Shares-cons, replace_value-cons,
  replace_value-head, replace_value-Shares,
}

-- The value is what stands behind the white space, where it is put in the place of the line there.
abbrev Reads : (Text → Option Text) → Text → Type 0
Reads g v = (rest : Text) → g (spaces rest ++ (v ++ behind_line (behind_spaces rest))) ≡ some v

find_value-here :
    (g : Text → Option Text) (k : Key) (start : Bool) (s v : Text)
    → found_value g (match_key k start s) ≡ some v
    → find_value g k start s ≡ some v
unfolding find_value
find_value-here g k start [] v e = e
find_value-here g k start (c ∷ s) v e = rw e refl

find_value-with_value :
    (g : Text → Option Text) (k : Key) (v : Text) (start : Bool) (s : Text) (r : Text × Text)
    → Reads g v
    → (not k.anchored || start) ≡ true
    → match_name k.name s ≡ some r
    → find_value g k start (with_value v r) ≡ some v
find_value-with_value g k v start s (m, rest) h b e =
    let new = spaces rest ++ (v ++ behind_line (behind_spaces rest)) in
    find_value-here g k start (m ++ new) v (
      rw (match_key-of k start (m ++ new) (m, new) b (match_name-again k.name s m rest new e))
        (h rest))

find_value-replace_value :
    (g : Text → Option Text) (k : Key) (v : Text) (start : Bool) (s t : Text)
    → Reads g v
    → replace_value k v start s ≡ some t
    → find_value g k start t ≡ some v
unfolding replace_value find_value
find_value-replace_value g k v start [] t h f = elim (match_key-cases k start []) [
  | inl e ↦ absurd (never (rw e at f))
  | inr (r, (b, e)) ↦
      subst (λ x. find_value g k start x ≡ some v)
        (sym (replace_value-head k v start [] t r (match_key-of k start [] r b e) f))
        (find_value-with_value g k v start [] r h b e)
]
find_value-replace_value g k v start (c ∷ s) t h f = elim (match_key-cases k start (c ∷ s)) [
  | inl e ↦
      let (u, (p, same)) = replace_value-cons k v start c s t e f in
      let shares = replace_value-Shares k v (not (is_plain_char c)) s u p in
      subst (λ x. find_value g k start x ≡ some v) same
        (rw
          (match_key-short k start (c ∷ s) (c ∷ u) (Shares-cons k.name s u c shares) e, find_value)
          (find_value-replace_value g k v (not (is_plain_char c)) s u h p))
  | inr (r, (b, e)) ↦
      subst (λ x. find_value g k start x ≡ some v)
        (sym (replace_value-head k v start (c ∷ s) t r (match_key-of k start (c ∷ s) r b e) f))
        (find_value-with_value g k v start (c ∷ s) r h b e)
]

find_value-none :
    (g : Text → Option Text) (k : Key) (start : Bool) (s : Text)
    → has_key k start s ≡ false
    → find_value g k start s ≡ none
unfolding has_key find_value
find_value-none g k start [] e = elim (match_key-cases k start []) [
  | inl f ↦ rw f refl
  | inr (r, (b, f)) ↦ absurd (found (rw (match_key-of k start [] r b f) at e))
]
  where
    found : true ≡ false → ⊥
    found q = cc
find_value-none g k start (c ∷ s) e = elim (match_key-cases k start (c ∷ s)) [
  | inl f ↦
      rw (f, find_value) (find_value-none g k (not (is_plain_char c)) s (rw (f, has_key) at e))
  | inr (r, (b, f)) ↦ absurd (found (rw (match_key-of k start (c ∷ s) r b f, has_key) at e))
]
  where
    found : true ≡ false → ⊥
    found q = cc

-- A field as the bold form gives it, else as the plain form does
abbrev pub read_field : (Text → Option Text) → Text → Text → Option Text
read_field g content field =
    first_of (find_value g (bold field) true content) (find_value g (plain field) true content)

pub read_field-state_replace_field :
    (g : Text → Option Text) (content field value new : Text)
    → Reads g value
    → state_replace_field content field value ≡ some new
    → (has_key (bold field) true content ≡ true) ⊎ (has_key (bold field) true new ≡ false)
    → read_field g new field ≡ some value
unfolding state_replace_field
read_field-state_replace_field g content field value new h e c =
    elim (Bool-cases (has_key (bold field) true content)) [
      | inl f ↦
          rw (find_value-replace_value g (bold field) value true content new h (rw f at e)) refl
      | inr f ↦ elim (Bool-cases (has_key (plain field) true content)) [
        | inr p ↦ absurd (never (rw p at (rw f at e)))
        | inl p ↦
            let absent : has_key (bold field) true new ≡ false = elim c [
              | inl a ↦ absurd (both (sym a ∙ f))
              | inr a ↦ a
            ] in
            rw
              (
                find_value-none g (bold field) true new absent,
                find_value-replace_value g (plain field) value true content new h
                    (rw p at (rw f at e)),
              )
              refl
      ]
    ]
  where
    both : true ≡ false → ⊥
    both g = cc

-- A field that is replaced is read back with its new value, where the value is one line, not empty
-- and trimmed, and where the bold form is the one replaced or is not in the new text.
pub state_extract_field-state_replace_field :
    (content field value new : Text)
    → IsValue value
    → state_replace_field content field value ≡ some new
    → (has_key (bold field) true content ≡ true) ⊎ (has_key (bold field) true new ≡ false)
    → state_extract_field new field ≡ some value
unfolding state_extract_field
state_extract_field-state_replace_field content field value new h =
    read_field-state_replace_field value_of content field value new
      (λ rest. value_of-with_value rest value h)
