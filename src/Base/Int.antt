-- ===== src/Base/Int.antt =====
-- `i64`: an integer of either sign, and the bounds of the machine type.
use Prim.Native.Nat.{ℕ, zero, suc, ◌+◌, ◌-◌, ◌*◌, ◌/◌, ◌%◌, ◌^◌, ◌≤◌}
use mathlib.Core.Bool.{Bool, false, not, ◌||◌}
use mathlib.Core.Option.{Option, none, some}
use online_dsl_forge.Base.Tests.{leb, ◌==◌, if◌then◌else◌}

-- `negsuc n` is -(n + 1).
pub data ℤ : Type 0 where
  pos : ℕ → ℤ
  negsuc : ℕ → ℤ

abbrev pub i64_max : ℕ
i64_max = 2 ^ 63 - 1

-- `negsuc n` is at least `i64::MIN` when `n` is at most `i64::MAX`.
abbrev pub IsI64 : ℤ → Type 0
IsI64 (pos n) = n ≤ i64_max
IsI64 (negsuc n) = n ≤ i64_max

abbrev pub is_i64 : ℤ → Bool
is_i64 (pos n) = leb n i64_max
is_i64 (negsuc n) = leb n i64_max

abbrev pub int_eq : ℤ → ℤ → Bool
int_eq (pos m) (pos n) = m == n
int_eq (negsuc m) (negsuc n) = m == n
int_eq _ _ = false

abbrev pub is_zero_int : ℤ → Bool
is_zero_int (pos n) = n == 0
is_zero_int (negsuc n) = false

-- `neg_of n` is -n.
abbrev pub neg_of : ℕ → ℤ
neg_of zero = pos 0
neg_of (suc n) = negsuc n

abbrev pub negate : ℤ → ℤ
negate (pos n) = neg_of n
negate (negsuc n) = pos (suc n)

-- `difference m n` is m - n.
abbrev pub difference : ℕ → ℕ → ℤ
difference m n = if leb n m then pos (m - n) else neg_of (n - m)

infixl 60 ◌+ℤ◌
abbrev pub ◌+ℤ◌ : ℤ → ℤ → ℤ
pos m +ℤ pos n = pos (m + n)
pos m +ℤ negsuc n = difference m (suc n)
negsuc m +ℤ pos n = difference n (suc m)
negsuc m +ℤ negsuc n = negsuc (suc (m + n))

infixl 70 ◌*ℤ◌
abbrev pub ◌*ℤ◌ : ℤ → ℤ → ℤ
pos m *ℤ pos n = pos (m * n)
pos m *ℤ negsuc n = neg_of (m * suc n)
negsuc m *ℤ pos n = neg_of (suc m * n)
negsuc m *ℤ negsuc n = pos (suc m * suc n)

-- Division rounds to zero, and the remainder has the sign of the dividend.
abbrev pub quotient : ℤ → ℤ → ℤ
quotient (pos m) (pos n) = pos (m / n)
quotient (pos m) (negsuc n) = neg_of (m / suc n)
quotient (negsuc m) (pos n) = neg_of (suc m / n)
quotient (negsuc m) (negsuc n) = pos (suc m / suc n)

abbrev pub magnitude : ℤ → ℕ
magnitude (pos n) = n
magnitude (negsuc n) = suc n

abbrev pub remainder : ℤ → ℤ → ℤ
remainder (pos m) n = pos (m % magnitude n)
remainder (negsuc m) n = neg_of (suc m % magnitude n)

-- The checked operations of `i64`: a result out of range, and a division by zero, is `None`. The
-- remainder fails where the division overflows.
abbrev pub in_range : ℤ → Option ℤ
in_range n = if is_i64 n then some n else none

abbrev pub checked_int_add : ℤ → ℤ → Option ℤ
checked_int_add a b = in_range (a +ℤ b)

abbrev pub checked_int_sub : ℤ → ℤ → Option ℤ
checked_int_sub a b = in_range (a +ℤ negate b)

abbrev pub checked_int_mul : ℤ → ℤ → Option ℤ
checked_int_mul a b = in_range (a *ℤ b)

abbrev pub checked_int_neg : ℤ → Option ℤ
checked_int_neg a = in_range (negate a)

abbrev pub checked_int_div : ℤ → ℤ → Option ℤ
checked_int_div a b = if is_zero_int b then none else in_range (quotient a b)

abbrev pub checked_int_rem : ℤ → ℤ → Option ℤ
checked_int_rem a b =
    if is_zero_int b || not (is_i64 (quotient a b)) then none else some (remainder a b)
