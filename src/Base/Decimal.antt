-- ===== src/Base/Decimal.antt =====
-- `String(n)` for a natural number.
use Prim.Native.Nat.{ℕ, zero, suc, ◌/◌, ◌%◌}
use Prim.Native.String
use Prim.Native.String.{String}
use aegis_workers.Base.Tests.{◌==◌, if◌then◌else◌}

digit : ℕ → String
digit zero = "0"
digit (suc zero) = "1"
digit (suc (suc zero)) = "2"
digit (suc (suc (suc zero))) = "3"
digit (suc (suc (suc (suc zero)))) = "4"
digit (suc (suc (suc (suc (suc zero))))) = "5"
digit (suc (suc (suc (suc (suc (suc zero)))))) = "6"
digit (suc (suc (suc (suc (suc (suc (suc zero))))))) = "7"
digit (suc (suc (suc (suc (suc (suc (suc (suc zero)))))))) = "8"
digit n = "9"

-- The digits of `n` in front of `acc`; fuel `n + 1` is enough, since `n / 10` is less than `n`.
show_from : ℕ → ℕ → String → String
show_from zero n acc = acc
show_from (suc fuel) n acc =
    let longer = String.◌++◌ (digit (n % 10)) acc in
    let rest = show_from fuel (n / 10) longer in if n / 10 == 0 then longer else rest

unfoldable pub show : ℕ → String
unfolding show_from digit
show n = show_from (suc n) n ""
