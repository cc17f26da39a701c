-- ===== src/Base/Usize.antt =====
-- `usize` on a 64-bit target: a plain number, with the checked and saturating operations.
use Prim.Native.Nat.{ℕ, ◌+◌, ◌-◌, ◌*◌, ◌^◌, ◌≤◌, ◌<◌, min}
use mathlib.Core.Path.{◌≡◌}
use native.Mathlib.Omega.{arith}
use mathlib.Core.Option.{Option, none, some}
use online_dsl_forge.Base.Tests.{leb, if◌then◌else◌}

abbrev pub usize_max : ℕ
usize_max = 2 ^ 64 - 1

abbrev pub checked_add : ℕ → ℕ → Option ℕ
checked_add a b = if leb (a + b) usize_max then some (a + b) else none

abbrev pub checked_mul : ℕ → ℕ → Option ℕ
checked_mul a b = if leb (a * b) usize_max then some (a * b) else none

abbrev pub saturating_add : ℕ → ℕ → ℕ
saturating_add a b = min (a + b) usize_max

pub checked_add-eq-none : (a b : ℕ) → checked_add a b ≡ none → usize_max < a + b
checked_add-eq-none a b h = ground arith

pub checked_add-eq-some : (a b : ℕ) {c : ℕ} → checked_add a b ≡ some c → c ≡ a + b
checked_add-eq-some a b h = ground arith

pub checked_add-le : (a b : ℕ) {c : ℕ} → checked_add a b ≡ some c → c ≤ usize_max
checked_add-le a b h = ground arith

pub checked_add_fits : (a b : ℕ) → a + b ≤ usize_max → checked_add a b ≡ some (a + b)
checked_add_fits a b h = ground arith

pub checked_mul-eq-some : (a b : ℕ) {c : ℕ} → checked_mul a b ≡ some c → c ≡ a * b
checked_mul-eq-some a b h = ground arith
