-- ===== src/Phase/Renumber/Items.antt =====
-- The new name of a phase's directory.
use aegis_workers.Base.{
  ℕ, ◌-◌, ◌≡◌, refl, sym, ap, ◌∙◌, inl, inr, true, none, some, [], ◌∷◌, ◌++◌, append_assoc,
  append-nil, if◌then◌else◌, ◌==◌, false, ltb, Text, All, all_of_All, Bool-cases, digits_value,
  number_text, number_text-All, number_text-ne-nil, digits_value-number_text, arith,
}
use aegis_workers.Phase.Number.{pad_two}
use aegis_workers.Phase.Number.Normalize.{IsRun, span_digits-append, pad_two-IsRun}
use aegis_workers.Phase.Renumber.{
  DecimalPattern, is_plain_base, plain_decimal, text_behind, is_plain_char, slug_behind,
  decimal_and_slug, integer_groups, match_decimal, decimal_id, decimal_item, match_integer,
  integer_prefix, integer_item,
}
use aegis_workers.Phase.Renumber.Names.{renumber}

-- What stands behind the dash of a directory's name: one line that is not empty
abbrev pub IsSlug : Text → Type 0
IsSlug slug = (slug ≡ [] → ⊥) × All (λ c. is_plain_char c ≡ true) slug

text_behind_self : (p s : Text) → text_behind p (p ++ s) ≡ some s
unfolding text_behind
text_behind_self [] s = refl
text_behind_self (c ∷ p) s = rw (text_behind_self p s) (ground arith)

slug_behind_dash : (slug : Text) → IsSlug slug → slug_behind (b'-' ∷ slug) ≡ some slug
slug_behind_dash [] h = absurd (h.0 refl)
slug_behind_dash (c ∷ s) (n, h) = rw (all_of_All is_plain_char (c ∷ s) h) refl

match_decimal_id :
    (special : DecimalPattern) (base run slug : Text)
    → is_plain_base base ≡ true
    → IsRun run
    → IsSlug slug
    → match_decimal special base ((base ++ (b'.' ∷ [])) ++ (run ++ (b'-' ∷ slug)))
      ≡ some (digits_value 0 run, slug)
unfolding match_decimal
match_decimal_id special base [] slug plain h k = absurd (h.0 refl)
match_decimal_id special base (d ∷ run) slug plain (n, h) k =
    rw
      (
        plain,
        match_decimal,
        text_behind_self (base ++ (b'.' ∷ [])) ((d ∷ run) ++ (b'-' ∷ slug)),
        plain_decimal,
        span_digits-append (d ∷ run) (b'-' ∷ slug) h refl,
      )
      (rw (slug_behind_dash slug k, decimal_and_slug) refl)

pub match_integer_of :
    (run slug : Text)
    → IsRun run
    → IsSlug slug
    → match_integer (run ++ (b'-' ∷ slug)) ≡ some (digits_value 0 run, [], none, slug)
unfolding match_integer
match_integer_of [] slug h k = absurd (h.0 refl)
match_integer_of (d ∷ run) slug (n, h) k =
    rw (span_digits-append (d ∷ run) (b'-' ∷ slug) h refl, match_integer)
      (rw (slug_behind_dash slug k, integer_groups) refl)

pub digits_value-pad_two : (run : Text) → digits_value 0 (pad_two run) ≡ digits_value 0 run
unfolding pad_two
digits_value-pad_two [] = refl
digits_value-pad_two (c ∷ []) = refl
digits_value-pad_two (c ∷ d ∷ run) = refl

-- The directory of a decimal phase, and that of an integer phase, has the number less one if its
-- number is above the removed one, and the same name if not. The slug is one line, not empty,
-- the integer phase has no letter and no decimal, and what stands before the decimal has no
-- character that is special in a pattern, but for points.
pub renumber_lem :
    (special : DecimalPattern) (base slug : Text) (removed n : ℕ)
    → is_plain_base base ≡ true
    → IsSlug slug
    → (renumber (decimal_item special base (some removed)) (decimal_id base n ++ (b'-' ∷ slug))
        ≡ decimal_id base (if ltb removed n then n - 1 else n) ++ (b'-' ∷ slug))
      × (renumber (integer_item (some removed)) (integer_prefix n [] none ++ (b'-' ∷ slug))
          ≡ integer_prefix (if ltb removed n then n - 1 else n) [] none ++ (b'-' ∷ slug))
unfolding decimal_item integer_item
renumber_lem special base slug removed n plain h = (decimal_name, integer_name)
  where
    less_one-above : ltb removed n ≡ true → (n == 0) ≡ false
    less_one-above e = ground arith

    run : IsRun (number_text n)
    run = (number_text-ne-nil n, number_text-All n)

    name :
        decimal_id base n ++ (b'-' ∷ slug)
        ≡ (base ++ (b'.' ∷ [])) ++ (number_text n ++ (b'-' ∷ slug))
    name =
        append_assoc base (b'.' ∷ number_text n) (b'-' ∷ slug)
        ∙ sym (append_assoc base (b'.' ∷ []) (number_text n ++ (b'-' ∷ slug)))

    groups : match_decimal special base (decimal_id base n ++ (b'-' ∷ slug)) ≡ some (n, slug)
    groups =
        ap (match_decimal special base) name
        ∙ match_decimal_id special base (number_text n) slug plain run h
        ∙ ap (λ m. some (m, slug)) (digits_value-number_text n)

    decimal_name :
        renumber (decimal_item special base (some removed)) (decimal_id base n ++ (b'-' ∷ slug))
        ≡ decimal_id base (if ltb removed n then n - 1 else n) ++ (b'-' ∷ slug)
    decimal_name = elim (Bool-cases (ltb removed n)) [
      | inl e ↦ rw (groups, decimal_item, renumber) (rw (e, less_one-above e) refl)
      | inr e ↦ rw (groups, decimal_item, renumber) (rw e refl)
    ]

    groups_of_integer :
        match_integer (integer_prefix n [] none ++ (b'-' ∷ slug)) ≡ some (n, [], none, slug)
    groups_of_integer =
        ap (λ t. match_integer (t ++ (b'-' ∷ slug))) (append-nil (pad_two (number_text n)))
        ∙ match_integer_of (pad_two (number_text n)) slug (pad_two-IsRun (number_text n) run) h
        ∙ ap (λ m. some (m, [], none, slug))
            (digits_value-pad_two (number_text n) ∙ digits_value-number_text n)

    integer_name :
        renumber (integer_item (some removed)) (integer_prefix n [] none ++ (b'-' ∷ slug))
        ≡ integer_prefix (if ltb removed n then n - 1 else n) [] none ++ (b'-' ∷ slug)
    integer_name = elim (Bool-cases (ltb removed n)) [
      | inl e ↦ rw (groups_of_integer, integer_item, renumber) (rw (e, less_one-above e) refl)
      | inr e ↦ rw (groups_of_integer, integer_item, renumber) (rw e refl)
    ]
