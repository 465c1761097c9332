-- ===== src/Phase/Insert/Agree.antt =====
-- `phase next-decimal` and `phase insert` count the same way behind an integer phase.
use Prim.Native.Nat.{Ordering}
use aegis_workers.Base.{
  ℕ, ◌+◌, ◌-◌, ◌*◌, ◌≡◌, refl, ap, ◌∙◌, false, some, List, [], ◌∷◌, ◌++◌, Text, All, digits_value,
  number_text, arith,
}
use aegis_workers.Cli.Number.{int, scan_digits}
use aegis_workers.Phase.Number.Normalize.{AreDigits, IsRun}
use aegis_workers.Phase.Insert.{
  RunPattern, decimal_runs, max_value, insert_decimal, with_base, last_of, decimal_behind,
  number_at, next_decimal,
}
use aegis_workers.Markdown.Lines.{cons-ne-nil}
use aegis_workers.Phase.Insert.Next.{
  sort_runs-nil, decimal_runs-All, sort_runs, All-sort_runs, last_value, sort_phases-with_base,
  last_value-sort_runs,
}
use aegis_workers.Security.Names.{parts}

parts-run : (run : Text) → AreDigits run → parts b'.' run ≡ run ∷ []
unfolding parts
parts-run [] h = refl
parts-run (c ∷ run) (p, h) = rw (parts-run run h) (ground arith)

parts-decimal :
    (base run : Text)
    → AreDigits base
    → AreDigits run
    → parts b'.' (base ++ (b'.' ∷ run)) ≡ base ∷ run ∷ []
unfolding parts
parts-decimal [] run h k = rw (parts-run run k) refl
parts-decimal (c ∷ base) run (p, h) k = rw (parts-decimal base run h k) (ground arith)

scan_digits-run :
    (n : ℕ) (run : Text) → AreDigits run → scan_digits (some n) run ≡ some (digits_value n run)
unfolding scan_digits
scan_digits-run n [] h = refl
scan_digits-run n (c ∷ run) (p, h) = rw p (scan_digits-run (n * 10 + (c - b'0')) run h)

pub number_at-run : (run : Text) → IsRun run → number_at (some run) ≡ int false (digits_value 0 run)
unfolding scan_digits
number_at-run [] h = absurd (h.0 refl)
number_at-run (c ∷ run) (n, (p, h)) = ground (arith, scan_digits-run (0 * 10 + (c - b'0')) run h)

last_of-with_base :
    (base x : Text) (l : List Text)
    → last_of (base ++ (b'.' ∷ x)) (with_base base l) ≡ base ++ (b'.' ∷ last_of x l)
last_of-with_base base x [] = refl
last_of-with_base base x (y ∷ l) = last_of-with_base base y l

last_of-All : (P : Text → Type 0) (x : Text) (l : List Text) → All P (x ∷ l) → P (last_of x l)
last_of-All P x [] (p, h) = p
last_of-All P x (y ∷ l) (p, h) = last_of-All P y l h

decimal_behind-with_base :
    (base x : Text) (l : List Text)
    → IsRun base
    → All IsRun (x ∷ l)
    → decimal_behind base (with_base base (x ∷ l))
      ≡ base ++ (b'.' ∷ number_text (last_value (x ∷ l) + 1))
unfolding decimal_behind
decimal_behind-with_base base x l h k =
    let run = last_of-All IsRun x l k in
    rw
      (
        last_of-with_base base x l,
        decimal_behind,
        parts-decimal base (last_of x l) h.1 run.1,
        number_at-run (last_of x l) run,
      )
      refl

sorted_next :
    (base : Text) (runs sorted : List Text)
    → IsRun base
    → All IsRun sorted
    → last_value sorted ≡ max_value runs
    → (runs ≡ [] → sorted ≡ [])
    → (sorted ≡ [] → runs ≡ [])
    → decimal_behind base (with_base base sorted)
      ≡ base
        ++ (b'.' ∷ number_text (elim runs [ [] ↦ 1 | run ∷ more ↦ max_value (run ∷ more) + 1 ]))
unfolding decimal_behind number_text
sorted_next base [] [] h k e f g = refl
sorted_next base (x ∷ l) [] h k e f g = absurd (cons-ne-nil (g refl))
sorted_next base [] (y ∷ ys) h k e f g = absurd (cons-ne-nil (f refl))
sorted_next base (x ∷ l) (y ∷ ys) h k e f g =
    decimal_behind-with_base base y ys h k ∙ ap (λ n. base ++ (b'.' ∷ number_text (n + 1))) e

-- Behind an integer phase, `phase next-decimal` prints the number that `phase insert` gives to the
-- new phase. An integer phase is digits only.
pub next_decimal-insert_decimal :
    (special : RunPattern) (locale : Text → Text → Ordering) (base : Text) (dirs : List Text)
    → IsRun base
    → (next_decimal special locale base (some dirs)).next
      ≡ base ++ (b'.' ∷ number_text (insert_decimal special base dirs))
unfolding next_decimal insert_decimal sort_runs
next_decimal-insert_decimal special locale base dirs h =
    let runs = decimal_runs special base dirs in
    let all_runs = decimal_runs-All special base dirs h.1 in
    rw (sort_phases-with_base locale base h runs all_runs) (
      sorted_next base runs (sort_runs runs) h (All-sort_runs IsRun runs all_runs)
        (last_value-sort_runs runs) (λ e. rw (e, sort_runs) refl) (sort_runs-nil runs))
