-- ===== src/Runtime/Operators.antt =====
-- source/src/runtime/operators.rs: the built-in operators on values.
use online_dsl_forge.Base.{
  ◌>>=◌, ◌>>◌, ℕ, Bool, true, false, not, ◌&&◌, ◌||◌, [], ◌∷◌, ◌++◌, Text, Option, none, some,
  Result, ok, err, fail_if, ok_or, ltb, ◌==◌, if◌then◌else◌, text_eq, byte_length,
}
use online_dsl_forge.Base.Usize.{checked_add}
use online_dsl_forge.Base.Int.{
  ℤ, checked_int_add, checked_int_sub, checked_int_mul, checked_int_div, checked_int_rem,
  is_zero_int, int_eq,
}
use online_dsl_forge.Syntax.{
  SourceSpan, BinaryOp, add, sub, mul, div, rem, lt, le, gt, ge, F64, is_finite,
}
use online_dsl_forge.Value.{
  Values, Entries, no_items, first, no_entries, entry, Value, type_name, is_number,
}
use online_dsl_forge.Runtime.{
  EvalError, eval_error, EvalMessage, expected_bool, binary_type, float_addition_not_finite,
  string_counter_overflowed, addition_overflowed, division_by_zero, arithmetic_overflowed,
  string_byte_limit, internal_arithmetic, float_arithmetic_not_finite,
}

-- The arithmetic and the comparisons of `f64`.
pub record FloatOps : Type 0 where
  pub plus : F64 → F64 → F64
  pub minus : F64 → F64 → F64
  pub times : F64 → F64 → F64
  pub divide : F64 → F64 → F64
  pub remainder : F64 → F64 → F64
  pub negate : F64 → F64
  pub of_int : ℤ → F64
  pub less : F64 → F64 → Bool
  pub equal : F64 → F64 → Bool
  pub is_zero : F64 → Bool

-- `<` on `str`: the UTF-8 bytes are in the order of the code points.
unfoldable pub text_less : Text → Text → Bool
text_less a [] = false
text_less [] (d ∷ b) = true
text_less (c ∷ a) (d ∷ b) = ltb c d || (c == d && text_less a b)

unfoldable pub expect_bool : Value → SourceSpan → Result EvalError Bool
expect_bool (Value.bool b) span = ok b
expect_bool v span = err (eval_error (expected_bool (type_name v)) span)

unfoldable pub type_error : BinaryOp → Value → Value → SourceSpan → Result EvalError Value
type_error op l r span = err (eval_error (binary_type op (type_name l) (type_name r)) span)

unfoldable pub finite_float : F64 → EvalMessage → SourceSpan → Result EvalError Value
finite_float x message span =
    fail_if (not (is_finite x)) (eval_error message span) >> ok (Value.float x)

-- `matches!(op, BinaryOp::Div | BinaryOp::Rem)`.
abbrev pub is_division : BinaryOp → Bool
is_division div = true
is_division rem = true
is_division _ = false

abbrev pub int_result : ℤ → BinaryOp → ℤ → Option ℤ
int_result l sub r = checked_int_sub l r
int_result l mul r = checked_int_mul l r
int_result l div r = checked_int_div l r
int_result l rem r = checked_int_rem l r
int_result l _ r = none

unfoldable pub int_arithmetic : ℤ → BinaryOp → ℤ → SourceSpan → Result EvalError Value
int_arithmetic l op r span = do
  fail_if (is_division op && is_zero_int r) (eval_error division_by_zero span)
  n ← ok_or (int_result l op r) (eval_error arithmetic_overflowed span)
  ok (Value.int n)

module _ (f64 : FloatOps) where
  unfoldable pub number_as_f64 : Value → F64
  number_as_f64 (Value.int n) = f64.of_int n
  number_as_f64 (Value.float x) = x
  number_as_f64 _ = 0

  -- Two numbers, not both integers.
  unfoldable pub add_numbers : Value → Value → SourceSpan → Result EvalError Value
  add_numbers l r span =
      if is_number l && is_number r
      then finite_float (f64.plus (number_as_f64 l) (number_as_f64 r)) float_addition_not_finite
          span
      else type_error add l r span

  unfoldable pub add_strings : Text → Text → SourceSpan → ℕ → Result EvalError Value
  add_strings l r span max_string_bytes = do
    bytes ←
        ok_or (checked_add (byte_length l) (byte_length r))
          (eval_error string_counter_overflowed span)
    fail_if (ltb max_string_bytes bytes) (eval_error string_byte_limit span)
    ok (Value.string (l ++ r))

  unfoldable pub add_values : Value → Value → SourceSpan → ℕ → Result EvalError Value
  add_values (Value.int l) (Value.int r) span max_string_bytes = do
    n ← ok_or (checked_int_add l r) (eval_error addition_overflowed span)
    ok (Value.int n)
  add_values (Value.string l) (Value.string r) span max_string_bytes =
      add_strings l r span max_string_bytes
  add_values l r span max_string_bytes = add_numbers l r span

  abbrev pub float_result : F64 → BinaryOp → F64 → Option F64
  float_result l sub r = some (f64.minus l r)
  float_result l mul r = some (f64.times l r)
  float_result l div r = some (f64.divide l r)
  float_result l rem r = some (f64.remainder l r)
  float_result l _ r = none

  unfoldable pub float_arithmetic : F64 → BinaryOp → F64 → SourceSpan → Result EvalError Value
  float_arithmetic l op r span = do
    fail_if (is_division op && f64.is_zero r) (eval_error division_by_zero span)
    x ← ok_or (float_result l op r) (eval_error internal_arithmetic span)
    finite_float x float_arithmetic_not_finite span

  unfoldable pub numeric_arithmetic : Value → BinaryOp → Value → SourceSpan → Result EvalError Value
  numeric_arithmetic (Value.int l) op (Value.int r) span = int_arithmetic l op r span
  numeric_arithmetic l op r span =
      if is_number l && is_number r
      then float_arithmetic (number_as_f64 l) op (number_as_f64 r) span
      else type_error op l r span

  unfoldable pub compare_f64 : F64 → BinaryOp → F64 → Bool
  compare_f64 l lt r = f64.less l r
  compare_f64 l le r = f64.less l r || f64.equal l r
  compare_f64 l gt r = f64.less r l
  compare_f64 l ge r = f64.less r l || f64.equal r l
  compare_f64 l _ r = false

  unfoldable pub compare_order : Text → BinaryOp → Text → Bool
  compare_order l lt r = text_less l r
  compare_order l le r = not (text_less r l)
  compare_order l gt r = text_less r l
  compare_order l ge r = not (text_less l r)
  compare_order l _ r = false

  unfoldable pub compare_values : Value → BinaryOp → Value → SourceSpan → Result EvalError Value
  compare_values (Value.string l) op (Value.string r) span = ok (Value.bool (compare_order l op r))
  compare_values l op r span =
      if is_number l && is_number r
      then ok (Value.bool (compare_f64 (number_as_f64 l) op (number_as_f64 r)))
      else type_error op l r span

  -- `==` on values, as derived.
  unfoldable mutual
    pub value_eq : Value → Value → Bool
    value_eq Value.null Value.null = true
    value_eq (Value.bool true) (Value.bool b) = b
    value_eq (Value.bool false) (Value.bool b) = not b
    value_eq (Value.int m) (Value.int n) = int_eq m n
    value_eq (Value.float x) (Value.float y) = f64.equal x y
    value_eq (Value.string s) (Value.string t) = text_eq s t
    value_eq (Value.array vs) (Value.array ws) = items_eq vs ws
    value_eq (Value.object es) (Value.object fs) = entries_eq es fs
    value_eq _ _ = false

    items_eq : Values → Values → Bool
    items_eq no_items no_items = true
    items_eq (first v vs) (first w ws) = value_eq v w && items_eq vs ws
    items_eq _ _ = false

    entries_eq : Entries → Entries → Bool
    entries_eq no_entries no_entries = true
    entries_eq (entry k v es) (entry l w fs) = text_eq k l && value_eq v w && entries_eq es fs
    entries_eq _ _ = false
