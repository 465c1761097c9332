-- ===== src/Phase/Insert/Next.antt =====
-- The identifiers behind an integer phase in the order that `phase next-decimal` takes them.
use Prim.Native.Nat.{Ordering, compare}
use aegis_workers.Base.{
  true, false, any, ℕ, ◌≤◌, ◌≡◌, ◌≢◌, refl, ap, ◌∙◌, inl, inr, none, some, List, [], ◌∷◌, ◌++◌,
  append-nil, if◌then◌else◌, ltb, Text, All, Bool-cases, Option-cases, digits_value, arith,
}
use aegis_workers.Phase.Number.{
  span_digits, read_segments, match_phase, with_letter, compare_phase_num, compare_segments,
  compare_letter, decimal_text,
}
use aegis_workers.Phase.Number.Normalize.{
  AreDigits, IsRun, read_segments-decimal_text, span_digits-append, span_digits-AreDigits,
}
use aegis_workers.Phase.Directories.{insert_phase, sort_phases}
use aegis_workers.Phase.Renumber.{is_special, is_plain_base}
use aegis_workers.Phase.Insert.{
  RunPattern, plain_run, behind_base, decimal_run, decimal_runs, digits_first, max_value, with_base,
  last_of,
}

plain_run-IsRun : (base name run : Text) → plain_run base name ≡ some run → IsRun run
plain_run-IsRun base name run e = elim (Option-cases (behind_base base name)) [
  | inl f ↦ absurd (never (rw (f, plain_run) at e))
  | inr (rest, f) ↦ go (span_digits rest) (span_digits-AreDigits rest) (rw (f, plain_run) at e)
]
  where
    never : none ≡ some run → ⊥
    never g = cc

    go : (r : Text × Text) → AreDigits r.0 → digits_first r ≡ some run → IsRun run
    go ([], rest) d g = absurd (never g)
    go (c ∷ s, rest) d g = ((λ h. cc), ground arith)

no_special : (base : Text) → AreDigits base → any is_special base ≡ false
no_special [] h = refl
no_special (c ∷ base) (p, h) = ground (arith, no_special base h)

is_plain_base-AreDigits : (base : Text) → AreDigits base → is_plain_base base ≡ true
is_plain_base-AreDigits base h = rw (no_special base h) refl

decimal_run-IsRun :
    (special : RunPattern) (base name run : Text)
    → AreDigits base
    → decimal_run special base name ≡ some run
    → IsRun run
unfolding decimal_run
decimal_run-IsRun special base name run h e =
    plain_run-IsRun base name run (rw (is_plain_base-AreDigits base h, decimal_run) at e)

pub decimal_runs-All :
    (special : RunPattern) (base : Text) (dirs : List Text)
    → AreDigits base
    → All IsRun (decimal_runs special base dirs)
unfolding decimal_runs
decimal_runs-All special base [] h = tt
decimal_runs-All special base (d ∷ dirs) h = elim (Option-cases (decimal_run special base d)) [
  | inl f ↦ rw (f, decimal_runs) (decimal_runs-All special base dirs h)
  | inr (run, f) ↦
      rw (f, decimal_runs)
        (decimal_run-IsRun special base d run h f, decimal_runs-All special base dirs h)
]

match_phase-decimal :
    (base run : Text)
    → IsRun base
    → IsRun run
    → match_phase (base ++ (b'.' ∷ run))
      ≡ some (record { digits = base; letter = none; segments = run ∷ [] })
unfolding match_phase decimal_text with_letter
match_phase-decimal [] run h k = absurd (h.0 refl)
match_phase-decimal (c ∷ base) run (n, h) k =
    let segs : read_segments (b'.' ∷ (run ++ [])) ≡ run ∷ [] =
      read_segments-decimal_text (run ∷ []) (k, tt) in
    rw (match_phase, span_digits-append (c ∷ base) (b'.' ∷ run) h refl)
      (ap (λ l. some (record { digits = c ∷ base; letter = none; segments = l }))
        (rw (append-nil run) at segs))

compare-decimal :
    (locale : Text → Text → Ordering) (base run more : Text)
    → IsRun base
    → IsRun run
    → IsRun more
    → compare_phase_num locale (base ++ (b'.' ∷ run)) (base ++ (b'.' ∷ more))
      ≡ compare (digits_value 0 run) (digits_value 0 more)
unfolding compare_phase_num compare_letter compare_segments
compare-decimal locale base run more h k l =
    rw (match_phase-decimal base run h k, match_phase-decimal base more h l) (ground arith)

-- The runs in the order of their numbers
unfoldable insert_run : Text → List Text → List Text
insert_run x [] = x ∷ []
insert_run x (y ∷ ys) =
    let rest = insert_run x ys in
    if ltb (digits_value 0 y) (digits_value 0 x) then y ∷ rest else x ∷ y ∷ ys

unfoldable pub sort_runs : List Text → List Text
unfolding insert_run
sort_runs [] = []
sort_runs (x ∷ xs) = insert_run x (sort_runs xs)

All-insert_run :
    (P : Text → Type 0) (x : Text) (ys : List Text) → P x → All P ys → All P (insert_run x ys)
unfolding insert_run
All-insert_run P x [] p h = (p, tt)
All-insert_run P x (y ∷ ys) p (q, h) =
    elim (Bool-cases (ltb (digits_value 0 y) (digits_value 0 x))) [
      | inl e ↦ rw e (q, All-insert_run P x ys p h)
      | inr e ↦ rw e (p, (q, h))
    ]

pub All-sort_runs : (P : Text → Type 0) (xs : List Text) → All P xs → All P (sort_runs xs)
unfolding sort_runs
All-sort_runs P [] h = tt
All-sort_runs P (x ∷ xs) (p, h) = All-insert_run P x (sort_runs xs) p (All-sort_runs P xs h)

module _ (locale : Text → Text → Ordering) (base : Text) (numeric : IsRun base) where
  insert_phase-with_base :
      (x : Text) (ys : List Text)
      → IsRun x
      → All IsRun ys
      → insert_phase locale (base ++ (b'.' ∷ x)) (with_base base ys)
        ≡ with_base base (insert_run x ys)
  unfolding insert_phase insert_run
  insert_phase-with_base x [] h k = refl
  insert_phase-with_base x (y ∷ ys) h (i, k) =
      rw (compare-decimal locale base x y numeric h i, insert_phase)
        (ground (arith, insert_phase-with_base x ys h k))

  pub sort_phases-with_base :
      (xs : List Text)
      → All IsRun xs
      → sort_phases locale (with_base base xs) ≡ with_base base (sort_runs xs)
  unfolding sort_phases sort_runs
  sort_phases-with_base [] h = refl
  sort_phases-with_base (x ∷ xs) (p, h) =
      rw (sort_phases-with_base xs h)
        (insert_phase-with_base x (sort_runs xs) p (All-sort_runs IsRun xs h))

abbrev pub last_value : List Text → ℕ
last_value [] = 0
last_value (x ∷ l) = digits_value 0 (last_of x l)

abbrev IsAscending : List Text → Type 0
IsAscending [] = Unit
IsAscending (x ∷ l) = All (λ y. digits_value 0 x ≤ digits_value 0 y) l × IsAscending l

IsAscending-le :
    (x : Text) (l : List Text) → IsAscending (x ∷ l) → digits_value 0 x ≤ last_value (x ∷ l)
IsAscending-le x [] h = omega arith
IsAscending-le x (y ∷ l) ((p, h), k) = ground (arith, IsAscending-le y l k)

All-le :
    (a b : ℕ) (l : List Text)
    → a ≤ b
    → All (λ y. b ≤ digits_value 0 y) l
    → All (λ y. a ≤ digits_value 0 y) l
All-le a b [] h k = tt
All-le a b (y ∷ l) h (p, k) = (omega arith, All-le a b l h k)

insert_run-IsAscending : (x : Text) (l : List Text) → IsAscending l → IsAscending (insert_run x l)
unfolding insert_run
insert_run-IsAscending x [] h = (tt, tt)
insert_run-IsAscending x (y ∷ l) (h, k) =
    elim (Bool-cases (ltb (digits_value 0 y) (digits_value 0 x))) [
      | inl e ↦ rw e (
        All-insert_run (λ z. digits_value 0 y ≤ digits_value 0 z) x l (ground arith) h,
        insert_run-IsAscending x l k,
      )
      | inr e ↦
          let le : digits_value 0 x ≤ digits_value 0 y = ground arith in
          rw e ((le, All-le (digits_value 0 x) (digits_value 0 y) l le h), (h, k))
    ]

sort_runs-IsAscending : (xs : List Text) → IsAscending (sort_runs xs)
unfolding sort_runs
sort_runs-IsAscending [] = tt
sort_runs-IsAscending (x ∷ xs) = insert_run-IsAscending x (sort_runs xs) (sort_runs-IsAscending xs)

last_value-cons : (y : Text) (l : List Text) → l ≢ [] → last_value (y ∷ l) ≡ last_value l
last_value-cons y [] h = absurd (h refl)
last_value-cons y (z ∷ l) h = refl

insert_run-ne-nil : (x : Text) (l : List Text) → insert_run x l ≢ []
unfolding insert_run
insert_run-ne-nil x [] = λ e. cc
insert_run-ne-nil x (y ∷ l) = elim (Bool-cases (ltb (digits_value 0 y) (digits_value 0 x))) [
  | inl e ↦ rw e (λ f. cc)
  | inr e ↦ rw e (λ f. cc)
]

last_value-insert_run :
    (x : Text) (l : List Text)
    → IsAscending l
    → last_value (insert_run x l)
      ≡ (if ltb (last_value l) (digits_value 0 x) then digits_value 0 x else last_value l)
unfolding insert_run
last_value-insert_run x [] h = ground arith
last_value-insert_run x (y ∷ []) h = ground arith
last_value-insert_run x (y ∷ z ∷ l) (h, k) =
    elim (Bool-cases (ltb (digits_value 0 y) (digits_value 0 x))) [
      | inl e ↦ rw e (
          last_value-cons y (insert_run x (z ∷ l)) (insert_run-ne-nil x (z ∷ l))
          ∙ last_value-insert_run x (z ∷ l) k)
      | inr e ↦ rw e (ground (arith, IsAscending-le y (z ∷ l) (h, k)))
    ]

pub last_value-sort_runs : (xs : List Text) → last_value (sort_runs xs) ≡ max_value xs
unfolding sort_runs
last_value-sort_runs [] = refl
last_value-sort_runs (x ∷ xs) =
    last_value-insert_run x (sort_runs xs) (sort_runs-IsAscending xs)
    ∙ rw (last_value-sort_runs xs) refl

pub sort_runs-nil : (xs : List Text) → sort_runs xs ≡ [] → xs ≡ []
unfolding sort_runs
sort_runs-nil [] e = refl
sort_runs-nil (x ∷ xs) e = absurd (insert_run-ne-nil x (sort_runs xs) e)
