-- ===== src/Phase/Number/Normalize.antt =====
-- Normalising an identifier changes its spelling and not its place in the order.
use Prim.Native.Nat.{Ordering}
use mathlib.Core.Path.{subst}
use mathlib.Core.Option.{some-injective}
use aegis_workers.Base.{
  Option-cases, Bool-cases, inl, inr, ℕ, ◌≡◌, ◌≢◌, refl, sym, ◌∙◌, true, false, Option, none, some,
  List, [], ◌∷◌, ◌++◌, append_assoc, append-nil, ◌==◌, arith, Text, is_digit, is_letter, to_upper,
  All, All-append,
}
use aegis_workers.Phase.Number.{
  Parts, span_digits, read_segment, read_segments, with_letter, parts_of, match_phase, pad_two,
  upper_letter, decimal_text, print_parts, normalize_phase_name, digits_value, compare_phase_num,
  compare_parts, compare_letter, closed,
}
use aegis_workers.Phase.Number.Laws.{IsNumeric}

abbrev pub AreDigits : Text → Type 0
AreDigits = All (λ c. is_digit c ≡ true)

-- Digits, at least one
abbrev pub IsRun : Text → Type 0
IsRun run = (run ≢ []) × AreDigits run

-- No digit stands first.
abbrev pub EndsRun : Text → Type 0
EndsRun [] = Unit
EndsRun (c ∷ s) = is_digit c ≡ false

pub span_digits-append :
    (run rest : Text) → AreDigits run → EndsRun rest → span_digits (run ++ rest) ≡ (run, rest)
unfolding span_digits
span_digits-append [] [] h k = refl
span_digits-append [] (c ∷ s) h k = ground arith
span_digits-append (d ∷ run) rest (p, h) k = ground (arith, span_digits-append run rest h k)

pub EndsRun-decimal_text : (segments : List Text) → EndsRun (decimal_text segments)
unfolding decimal_text
EndsRun-decimal_text [] = tt
EndsRun-decimal_text (run ∷ more) = refl

closed_run : (run : Text) (more : List Text) → run ++ [] ≢ [] → closed run more ≡ (run ++ []) ∷ more
closed_run [] more n = absurd (n refl)
closed_run (d ∷ run) more n = rw append-nil

append-ne-nil : (xs : Text) (c : ℕ) (ys : Text) → xs ++ c ∷ ys ≢ []
append-ne-nil [] c ys = cc
append-ne-nil (x ∷ xs) c ys = cc

read_segment-append :
    (acc run : Text) (segments : List Text)
    → AreDigits run
    → All IsRun segments
    → acc ++ run ≢ []
    → read_segment acc (run ++ decimal_text segments) ≡ (acc ++ run) ∷ segments
unfolding read_segment decimal_text
read_segment-append acc [] [] h k n = closed_run acc [] n
read_segment-append acc [] (next ∷ more) h ((m, k), ks) n =
    closed_run acc _ n ∙ rw (read_segment-append [] next more k ks m)
read_segment-append acc (c ∷ run) segments (p, h) k n = rw p (
    read_segment-append (acc ++ c ∷ []) run segments h k (rw (append_assoc acc (c ∷ []) run) n)
    ∙ rw (append_assoc acc (c ∷ []) run))

pub read_segments-decimal_text :
    (segments : List Text) → All IsRun segments → read_segments (decimal_text segments) ≡ segments
unfolding read_segments decimal_text
read_segments-decimal_text [] h = refl
read_segments-decimal_text (run ∷ more) ((n, h), k) = read_segment-append [] run more h k n

-- What a match consists of.
record IsMatch (p : Parts) : Type 0 where
  digits : IsRun p.digits
  letter : (c : ℕ) → p.letter ≡ some c → is_letter c ≡ true
  segments : All IsRun p.segments

closed-All :
    (run : Text) (more : List Text) → AreDigits run → All IsRun more → All IsRun (closed run more)
closed-All [] more h k = tt
closed-All (d ∷ run) more h k = ((cc, h), k)

read_segment-All : (run s : Text) → AreDigits run → All IsRun (read_segment run s)
unfolding read_segment
read_segment-All run [] h = closed-All run [] h tt
read_segment-All run (c ∷ s) h = elim (Bool-cases (is_digit c)) [
  | inl p ↦ rw p (read_segment-All (run ++ c ∷ []) s (All-append _ run (c ∷ []) h (p, tt)))
  | inr p ↦ elim (Bool-cases (c == b'.')) [
    | inl q ↦ rw (p, q) (closed-All run _ h (read_segment-All [] s tt))
    | inr q ↦ rw (p, q) (closed-All run [] h tt)
  ]
]

read_segments-All : (s : Text) → All IsRun (read_segments s)
unfolding read_segments
read_segments-All [] = tt
read_segments-All (c ∷ s) = elim (Bool-cases (c == b'.')) [
  | inl q ↦ rw q (read_segment-All [] s tt)
  | inr q ↦ rw q tt
]

pub span_digits-AreDigits : (s : Text) → AreDigits (span_digits s).0
unfolding span_digits
span_digits-AreDigits [] = tt
span_digits-AreDigits (c ∷ s) = ground (arith, span_digits-AreDigits s)

with_letter-IsMatch : (run rest : Text) → IsRun run → IsMatch (with_letter run rest)
unfolding with_letter
with_letter-IsMatch run [] h = record { digits = h; letter = λ c e. cc; segments = tt }
with_letter-IsMatch run (c ∷ s) h = elim (Bool-cases (is_letter c)) [
  | inl p ↦ rw p (record {
    digits = h;
    letter = λ d e. rw (← some-injective _ _ e) p;
    segments = read_segments-All s;
  })
  | inr p ↦ rw p (record { digits = h; letter = λ d e. cc; segments = read_segments-All (c ∷ s) })
]

match_phase-IsMatch : (s : Text) (p : Parts) → match_phase s ≡ some p → IsMatch p
unfolding match_phase
match_phase-IsMatch s p e = go (span_digits s) (span_digits-AreDigits s) e
  where
    go : (r : Text × Text) → AreDigits r.0 → parts_of r ≡ some p → IsMatch p
    go ([], rest) h e = cc
    go (d ∷ run, rest) h e =
        subst IsMatch (some-injective _ _ e) (with_letter-IsMatch (d ∷ run) rest (cc, h))

pub pad_two-IsRun : (run : Text) → IsRun run → IsRun (pad_two run)
unfolding pad_two
pad_two-IsRun [] h = absurd (h.0 refl)
pad_two-IsRun (c ∷ []) (n, h) = (cc, (refl, h))
pad_two-IsRun (c ∷ d ∷ run) h = h

pub parts_of-run : (run rest : Text) → run ≢ [] → parts_of (run, rest) ≡ some (with_letter run rest)
parts_of-run [] rest n = absurd (n refl)
parts_of-run (d ∷ run) rest n = refl

-- The letter in upper case
abbrev pub upper : Option ℕ → Option ℕ
upper none = none
upper (some c) = some (to_upper c)

EndsRun-letter :
    (letter : Option ℕ) (segments : List Text)
    → ((c : ℕ) → letter ≡ some c → is_letter c ≡ true)
    → EndsRun (upper_letter letter ++ decimal_text segments)
EndsRun-letter none segments h = EndsRun-decimal_text segments
EndsRun-letter (some c) segments h = ground (arith, h c refl)

with_letter-decimal_text :
    (run : Text) (segments : List Text)
    → with_letter run (decimal_text segments)
      ≡ record { digits = run; letter = none; segments = read_segments (decimal_text segments) }
unfolding with_letter decimal_text read_segments
with_letter-decimal_text run [] = refl
with_letter-decimal_text run (next ∷ more) = refl

upper_is_letter : (c : ℕ) → is_letter c ≡ true → is_letter (to_upper c) ≡ true
upper_is_letter c h = ground arith

with_letter-print :
    (run : Text) (letter : Option ℕ) (segments : List Text)
    → ((c : ℕ) → letter ≡ some c → is_letter c ≡ true)
    → All IsRun segments
    → with_letter run (upper_letter letter ++ decimal_text segments)
      ≡ record { digits = run; letter = upper letter; segments = segments }
with_letter-print run none segments h k =
    with_letter-decimal_text run segments ∙ rw (read_segments-decimal_text segments k)
with_letter-print run (some c) segments h k =
    unfold with_letter in
    rw (upper_is_letter c (h c refl)) (rw (read_segments-decimal_text segments k))

match_phase-print_parts :
    (p : Parts)
    → IsMatch p
    → match_phase (print_parts p)
      ≡ some (record { digits = pad_two p.digits; letter = upper p.letter; segments = p.segments })
unfolding match_phase
match_phase-print_parts p m =
    let padded = pad_two-IsRun p.digits m.digits in
    rw (
      span_digits-append (pad_two p.digits) _ padded.1
          (EndsRun-letter p.letter p.segments m.letter),
      parts_of-run (pad_two p.digits) _ padded.0,
      with_letter-print (pad_two p.digits) p.letter p.segments m.letter m.segments,
    )

digits_value-pad_two : (run : Text) → run ≢ [] → digits_value 0 (pad_two run) ≡ digits_value 0 run
unfolding pad_two
digits_value-pad_two [] n = absurd (n refl)
digits_value-pad_two (c ∷ []) n = omega arith
digits_value-pad_two (c ∷ d ∷ run) n = refl

pad_two_twice : (run : Text) → pad_two (pad_two run) ≡ pad_two run
unfolding pad_two
pad_two_twice [] = refl
pad_two_twice (c ∷ []) = refl
pad_two_twice (c ∷ d ∷ run) = refl

upper_letter-upper : (x : Option ℕ) → upper_letter (upper x) ≡ upper_letter x
upper_letter-upper none = refl
upper_letter-upper (some c) = ground arith

compare_letter-upper : (x y : Option ℕ) → compare_letter (upper x) y ≡ compare_letter x y
unfolding compare_letter
compare_letter-upper none y = refl
compare_letter-upper (some c) none = refl
compare_letter-upper (some c) (some d) = ground arith

-- The parts of a normalised identifier
abbrev normal : Parts → Parts
normal p = record { digits = pad_two p.digits; letter = upper p.letter; segments = p.segments }

print_parts-normal : (p : Parts) → print_parts (normal p) ≡ print_parts p
print_parts-normal p = rw (pad_two_twice p.digits, upper_letter-upper p.letter)

compare_parts-normal : (p q : Parts) → IsMatch p → compare_parts (normal p) q ≡ compare_parts p q
compare_parts-normal p q m =
    rw (digits_value-pad_two p.digits m.digits.0, compare_letter-upper p.letter q.letter)

kept : (s : Text) → match_phase s ≡ none → normalize_phase_name s ≡ s
unfolding normalize_phase_name
kept s e = rw (e, normalize_phase_name)

normalized :
    (s : Text) (p : Parts)
    → match_phase s ≡ some p
    → (normalize_phase_name s ≡ print_parts p)
      × (match_phase (normalize_phase_name s) ≡ some (normal p))
unfolding normalize_phase_name
normalized s p e =
    rw (e, normalize_phase_name) (refl, match_phase-print_parts p (match_phase-IsMatch s p e))

-- Normalising twice changes nothing more, on every text.
pub normalize_phase_name_idempotent :
    (s : Text) → normalize_phase_name (normalize_phase_name s) ≡ normalize_phase_name s
normalize_phase_name_idempotent s = elim (Option-cases (match_phase s)) [
  | inl e ↦ let same = kept s e in rw (same) same
  | inr (p, e) ↦
      let (once, again) = normalized s p e in
      (normalized (normalize_phase_name s) (normal p) again).0 ∙ print_parts-normal p ∙ sym once
]

-- A normalised identifier compares as the identifier itself, where both sides begin with a digit.
pub compare_phase_num-normalize :
    (locale : Text → Text → Ordering) (a b : Text)
    → IsNumeric a
    → IsNumeric b
    → compare_phase_num locale (normalize_phase_name a) b ≡ compare_phase_num locale a b
unfolding compare_phase_num
compare_phase_num-normalize locale a b h k = elim (Option-cases (match_phase a)) [
  | inl e ↦ absurd (h e)
  | inr (p, e) ↦ elim (Option-cases (match_phase b)) [
    | inl f ↦ absurd (k f)
    | inr (q, f) ↦
        rw (e, f, (normalized a p e).1) (compare_parts-normal p q (match_phase-IsMatch a p e))
  ]
]
