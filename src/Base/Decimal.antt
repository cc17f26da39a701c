-- ===== src/Base/Decimal.antt =====
-- Decimal digits: what `to_string` writes for an integer, and the value of a run of digits.
use Prim.Native.Nat.{ℕ, zero, suc, ◌+◌, ◌-◌, ◌*◌, ◌/◌, ◌%◌}
use mathlib.Core.Bool.{true, false}
use mathlib.Core.List.{[], ◌∷◌}
use online_dsl_forge.Base.Tests.{ltb}
use online_dsl_forge.Base.Lists.{Text}
use online_dsl_forge.Base.Int.{ℤ, pos, negsuc}

digits_onto : ℕ → ℕ → Text → Text
digits_onto zero n rest = rest
digits_onto (suc fuel) n rest = elim (ltb n 10) [
  | true ↦ (b'0' + n) ∷ rest
  | false ↦ digits_onto fuel (n / 10) ((b'0' + n % 10) ∷ rest)
]

-- A digit takes a step, and a number below ten one step.
unfoldable pub decimal : ℕ → Text
unfolding digits_onto
decimal n = digits_onto (suc n) n []

-- `i64::to_string`.
unfoldable pub int_to_text : ℤ → Text
int_to_text (pos n) = decimal n
int_to_text (negsuc n) = b'-' ∷ decimal (suc n)

-- The value of the digits, behind those that make `acc`.
pub digits_value : ℕ → Text → ℕ
digits_value acc [] = acc
digits_value acc (c ∷ cs) = digits_value (acc * 10 + (c - b'0')) cs
