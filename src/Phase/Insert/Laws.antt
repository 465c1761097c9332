-- ===== src/Phase/Insert/Laws.antt =====
-- The directory that `cmdPhaseInsert` makes is a new one, and its slug is plain.
use aegis_workers.Base.{
  ◌≤◌, ◌<◌, ◌≡◌, refl, inl, inr, ◌⊎◌, Bool, true, false, ◌&&◌, not, some, List, [], ◌∷◌, ◌++◌, ◌==◌,
  if◌then◌else◌, Text, is_digit, All, Bool-cases, Option-cases, some-inj, digits_value, number_text,
  number_text-All, number_text-ne-nil, digits_value-number_text, arith,
}
use mathlib.Core.Path.{subst}
use aegis_workers.Phase.Number.{span_digits}
use aegis_workers.Phase.Renumber.{is_plain_base}
use aegis_workers.Phase.Renumber.Steps.{In}
use aegis_workers.Phase.Insert.{
  RunPattern, plain_run, behind_base, decimal_run, decimal_runs, max_value, insert_decimal,
  insert_dir, is_slug_char, dashes, without_first, without_last, onto_end, generate_slug,
}

behind_base_self : (base s : Text) → behind_base base (base ++ (b'.' ∷ s)) ≡ some s
unfolding behind_base
behind_base_self [] s = refl
behind_base_self (b ∷ base) s = ground (arith, behind_base_self base s)

span_digits-dash :
    (run slug : Text)
    → All (λ c. is_digit c ≡ true) run
    → span_digits (run ++ (b'-' ∷ slug)) ≡ (run, b'-' ∷ slug)
unfolding span_digits
span_digits-dash [] slug h = refl
span_digits-dash (c ∷ run) slug (e, h) = rw (e, span_digits-dash run slug h) refl

decimal_run-of :
    (special : RunPattern) (base run slug : Text)
    → is_plain_base base ≡ true
    → All (λ c. is_digit c ≡ true) run
    → (run ≡ [] → ⊥)
    → decimal_run special base (base ++ (b'.' ∷ (run ++ (b'-' ∷ slug)))) ≡ some run
unfolding decimal_run
decimal_run-of special base [] slug plain h k = absurd (k refl)
decimal_run-of special base (d ∷ run) slug plain h k =
    rw
      (
        plain,
        decimal_run,
        behind_base_self base ((d ∷ run) ++ (b'-' ∷ slug)),
        plain_run,
        span_digits-dash (d ∷ run) slug h,
      )
      refl

max_value-In :
    (special : RunPattern) (base name run : Text) (dirs : List Text)
    → decimal_run special base name ≡ some run
    → In name dirs
    → digits_value 0 run ≤ max_value (decimal_runs special base dirs)
unfolding decimal_runs
max_value-In special base name run [] e i = absurd i
max_value-In special base name run (d ∷ dirs) e (inl p) =
    rw (subst (λ m. decimal_run special base m ≡ some run) p e, decimal_runs) (ground arith)
max_value-In special base name run (d ∷ dirs) e (inr i) =
    let rest = max_value-In special base name run dirs e i in
    elim (Option-cases (decimal_run special base d)) [
      | inl f ↦ rw (f, decimal_runs) rest
      | inr (x, f) ↦ rw (f, decimal_runs) (ground (arith, rest))
    ]

insert_decimal-above :
    (special : RunPattern) (base : Text) (dirs : List Text)
    → max_value (decimal_runs special base dirs) < insert_decimal special base dirs
unfolding insert_decimal
insert_decimal-above special base dirs = ground arith

-- No directory of `phases/` has the name that an insertion makes, whatever the slug and the
-- directories are, if the base has no character that is special in a pattern, but for points.
pub insert_dir-fresh :
    (special : RunPattern) (base slug : Text) (dirs : List Text)
    → is_plain_base base ≡ true
    → In (insert_dir special base slug dirs) dirs
    → ⊥
unfolding insert_dir
insert_dir-fresh special base slug dirs plain i =
    let n = insert_decimal special base dirs in
    let run =
      decimal_run-of special base (number_text n) slug plain (number_text-All n)
        (number_text-ne-nil n) in
    let bound =
      max_value-In special base (insert_dir special base slug dirs) (number_text n) dirs run i in
    let value = digits_value-number_text n in
    let above = insert_decimal-above special base dirs in omega arith

-- Words of small letters and digits with one dash between two; the first argument says whether
-- a word must begin.
abbrev pub are_words : Bool → Text → Bool
are_words start [] = not start
are_words start (c ∷ s) =
    if is_slug_char c then are_words false s else (c == b'-' && (not start && are_words true s))

-- The same, where a dash may stand at the end
abbrev are_parts : Bool → Text → Bool
are_parts start [] = true
are_parts start (c ∷ s) =
    if is_slug_char c then are_parts false s else (c == b'-' && (not start && are_parts true s))

dashes-are_parts : (after : Bool) (s : Text) → are_parts after (dashes after s) ≡ true
unfolding dashes
dashes-are_parts after [] = refl
dashes-are_parts true (c ∷ s) = ground (arith, dashes-are_parts false s, dashes-are_parts true s)
dashes-are_parts false (c ∷ s) = ground (arith, dashes-are_parts false s, dashes-are_parts true s)

without_first-word : (s : Text) → are_parts true s ≡ true → without_first s ≡ s
unfolding without_first
without_first-word [] h = refl
without_first-word (c ∷ s) h = ground arith

without_first-are_parts :
    (s : Text) → are_parts false s ≡ true → are_parts true (without_first s) ≡ true
unfolding without_first
without_first-are_parts [] h = refl
without_first-are_parts (c ∷ s) h = elim (Bool-cases (is_slug_char c)) [
  | inl e ↦ ground arith
  | inr e ↦ ground (arith, without_first-word s)
]

without_last-are_words :
    (start : Bool) (s : Text)
    → are_parts start s ≡ true
    → (without_last s ≡ []) ⊎ (are_words start (without_last s) ≡ true)
unfolding without_last
without_last-are_words start [] h = inl refl
without_last-are_words start (c ∷ s) h = elim (Bool-cases (is_slug_char c)) [
  | inl e ↦ word (without_last s) e (without_last-are_words false s (rw e at h))
  | inr e ↦ dash (without_last s) e (rw e at h) (without_last-are_words true s (ground arith))
]
  where
    word :
        (t : Text)
        → is_slug_char c ≡ true
        → (t ≡ []) ⊎ (are_words false t ≡ true)
        → (onto_end c t ≡ []) ⊎ (are_words start (onto_end c t) ≡ true)
    word [] e k = inr (ground arith)
    word (d ∷ t) e (inl k) = absurd cc
    word (d ∷ t) e (inr k) = inr (rw e k)

    dash :
        (t : Text)
        → is_slug_char c ≡ false
        → (c == b'-' && (not start && are_parts true s)) ≡ true
        → (t ≡ []) ⊎ (are_words true t ≡ true)
        → (onto_end c t ≡ []) ⊎ (are_words start (onto_end c t) ≡ true)
    dash [] e p k = inl (ground arith)
    dash (d ∷ t) e p (inl k) = absurd cc
    dash (d ∷ t) e p (inr k) = inr (rw e (ground arith))

-- A slug that is not empty is words of small letters and digits with one dash between two,
-- whatever the change to small letters gives.
pub generate_slug-are_words :
    (lower : Text → Text) (text slug : Text)
    → generate_slug lower text ≡ some slug
    → (slug ≡ []) ⊎ (are_words true slug ≡ true)
unfolding generate_slug
generate_slug-are_words lower [] slug e = absurd cc
generate_slug-are_words lower (c ∷ s) slug e =
    let t = dashes false (lower (c ∷ s)) in
    subst (λ x. (x ≡ []) ⊎ (are_words true x ≡ true)) (some-inj e)
      (without_last-are_words true (without_first t)
        (without_first-are_parts t (dashes-are_parts false (lower (c ∷ s)))))
