-- ===== src/Base/Digits.antt =====
-- `String(n)` as a list of character codes, and reading it back.
use Prim.Native.Nat.{ℕ, zero, suc, ◌+◌, ◌-◌, ◌*◌, ◌/◌, ◌%◌, ◌<◌}
use mathlib.Core.Path.{◌≡◌, ◌∙◌, ap}
use mathlib.Core.Logic.{◌≢◌, inl, inr}
use mathlib.Core.Bool.{true}
use mathlib.Core.List.{[], ◌∷◌}
use native.Mathlib.Omega.{arith}
use aegis_workers.Base.Tests.{◌==◌, if◌then◌else◌, Bool-cases}
use aegis_workers.Base.Lists.{All}
use aegis_workers.Base.Chars.{Text, is_digit}

-- The digits of `n` in front of `acc`; fuel above `n` is enough, since `n / 10` is less than `n`.
digits_from : ℕ → ℕ → Text → Text
digits_from zero n acc = acc
digits_from (suc fuel) n acc =
    let longer = (b'0' + n % 10) ∷ acc in
    let rest = digits_from fuel (n / 10) longer in if n / 10 == 0 then longer else rest

unfoldable pub number_text : ℕ → Text
unfolding digits_from
number_text n = digits_from (suc n) n []

-- `parseInt(digits, 10)` on a run of digits, behind the number `n`
abbrev pub digits_value : ℕ → Text → ℕ
digits_value n [] = n
digits_value n (c ∷ s) = digits_value (n * 10 + (c - b'0')) s

digits_value_last :
    (n : ℕ) (acc : Text) → digits_value (n / 10) ((b'0' + n % 10) ∷ acc) ≡ digits_value n acc
digits_value_last n acc = ground arith

digits_value-digits_from :
    (fuel n : ℕ) (acc : Text)
    → n < fuel
    → digits_value 0 (digits_from fuel n acc) ≡ digits_value n acc
unfolding digits_from
digits_value-digits_from zero n acc h = absurd (omega arith)
digits_value-digits_from (suc fuel) n acc h = elim (Bool-cases (n / 10 == 0)) [
  | inl last ↦ rw last (ap (λ m. digits_value m acc) (ground arith))
  | inr more ↦ rw more (
      digits_value-digits_from fuel (n / 10) ((b'0' + n % 10) ∷ acc) (ground arith)
      ∙ digits_value_last n acc)
]

-- The printed digits are read back as the number.
pub digits_value-number_text : (n : ℕ) → digits_value 0 (number_text n) ≡ n
unfolding number_text
digits_value-number_text n = digits_value-digits_from (suc n) n [] (omega arith)

digits_from-All :
    (fuel n : ℕ) (acc : Text)
    → All (λ c. is_digit c ≡ true) acc
    → All (λ c. is_digit c ≡ true) (digits_from fuel n acc)
unfolding digits_from
digits_from-All zero n acc h = h
digits_from-All (suc fuel) n acc h =
    let digit : is_digit (b'0' + n % 10) ≡ true = ground arith in
    elim (Bool-cases (n / 10 == 0)) [
      | inl last ↦ rw last (digit, h)
      | inr more ↦ rw more (digits_from-All fuel (n / 10) ((b'0' + n % 10) ∷ acc) (digit, h))
    ]

pub number_text-All : (n : ℕ) → All (λ c. is_digit c ≡ true) (number_text n)
unfolding number_text
number_text-All n = digits_from-All (suc n) n [] tt

digits_from-ne-nil : (fuel n c : ℕ) (acc : Text) → digits_from fuel n (c ∷ acc) ≢ []
unfolding digits_from
digits_from-ne-nil zero n c acc = λ e. cc
digits_from-ne-nil (suc fuel) n c acc = elim (Bool-cases (n / 10 == 0)) [
  | inl last ↦ rw last (λ e. cc)
  | inr more ↦ rw more (digits_from-ne-nil fuel (n / 10) (b'0' + n % 10) (c ∷ acc))
]

pub number_text-ne-nil : (n : ℕ) → number_text n ≢ []
unfolding number_text digits_from
number_text-ne-nil n = elim (Bool-cases (n / 10 == 0)) [
  | inl last ↦ rw last (λ e. cc)
  | inr more ↦ rw more (digits_from-ne-nil n (n / 10) (b'0' + n % 10) [])
]
