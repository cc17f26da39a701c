-- ===== src/Runtime/Returns.antt =====
-- The operators and the ticket check always return.
use online_dsl_forge.Base.{
  ℕ, Bool, true, false, not, ◌&&◌, ◌≢◌, refl, Text, Option, none, some, Result, ok, err,
  out_of_fuel, Ends, Ends-fail_if, Ends-ok_or, accepts, refuses, if◌then◌else◌, text_eq, ◌==◌,
  fail_if, byte_length, ltb,
}
use online_dsl_forge.Base.Int.{ℤ, is_zero_int, checked_int_add, checked_int_neg}
use online_dsl_forge.Syntax.{SourceSpan, UnaryOp, BinaryOp, F64, is_finite}
use online_dsl_forge.Value.{Value, is_number}
use online_dsl_forge.Runtime.{EvalError, EvalMessage, EvalLimits, RuntimeResourceLimits}
use online_dsl_forge.Runtime.Operators.{
  FloatOps, expect_bool, finite_float, int_arithmetic, add_numbers, add_values, float_arithmetic,
  numeric_arithmetic, compare_values, is_division, type_error, add_strings, int_result,
  float_result,
}
use online_dsl_forge.Verified.{CapabilityKind, CapabilityTicket}
use online_dsl_forge.Runtime.Registry.{at_span, RuntimeContext}
use online_dsl_forge.Runtime.Evaluator.{
  eval_builtin_binary, require_dispatch_ticket, kind_eq, builtin_unary,
}
use online_dsl_forge.Base.Usize.{checked_add}

-- A run that ends, whatever it returns.
abbrev pub Returns {ℓ} : {A : Type ℓ} → Result EvalError A → Type ℓ
Returns = Ends λ _. Unit {0}

pub returns_lem {ℓ} : {A : Type ℓ} (r : Result EvalError A) → r ≢ out_of_fuel → Returns r
returns_lem (ok a) h = accepts tt
returns_lem (err e) h = refuses tt
returns_lem out_of_fuel h = absurd (h refl)

pub fail_if-Returns : (b : Bool) (e : EvalError) → Returns (fail_if b e)
fail_if-Returns true e = refuses tt
fail_if-Returns false e = accepts tt

if-Returns {ℓ} :
    {A : Type ℓ} (b : Bool) {r s : Result EvalError A}
    → Returns r
    → Returns s
    → Returns (if b then r else s)
if-Returns true h g = h
if-Returns false h g = g

pub at_span-Returns {ℓ} :
    {A : Type ℓ} (span : SourceSpan) {r : Result EvalError A}
    → r ≢ out_of_fuel
    → Returns (at_span span r)
at_span-Returns span {r = ok a} h = accepts tt
at_span-Returns span {r = err e} h = refuses tt
at_span-Returns span {r = out_of_fuel} h = absurd (h refl)

pub expect_bool-Returns : (v : Value) (span : SourceSpan) → Returns (expect_bool v span)
unfolding expect_bool
expect_bool-Returns (Value.bool b) span = accepts tt
expect_bool-Returns _ span = refuses tt

finite_float-Returns :
    (x : F64) (m : EvalMessage) (span : SourceSpan) → Returns (finite_float x m span)
unfolding finite_float
finite_float-Returns x m span = Ends-fail_if (not (is_finite x)) _ λ _. accepts tt

int_arithmetic-Returns :
    (l r : ℤ) (op : BinaryOp) (span : SourceSpan) → Returns (int_arithmetic l op r span)
unfolding int_arithmetic
int_arithmetic-Returns l r op span =
    Ends-fail_if (is_division op && is_zero_int r) _
      λ _. Ends-ok_or (int_result l op r) _ λ n _. accepts tt

module _ (f64 : FloatOps) (span : SourceSpan) where
  add_numbers-Returns : (l r : Value) → Returns (add_numbers f64 l r span)
  unfolding add_numbers type_error
  add_numbers-Returns l r =
      if-Returns (is_number l && is_number r) (finite_float-Returns _ _ span) (refuses tt)

  add_values-Returns : (l r : Value) (bytes : ℕ) → Returns (add_values f64 l r span bytes)
  unfolding add_values add_strings
  add_values-Returns (Value.int l) (Value.int r) bytes =
      Ends-ok_or (checked_int_add l r) _ λ n _. accepts tt
  add_values-Returns (Value.string l) (Value.string r) bytes =
      Ends-ok_or (checked_add (byte_length l) (byte_length r)) _
        λ n _. Ends-fail_if (ltb bytes n) _ λ _. accepts tt
  add_values-Returns l r bytes = add_numbers-Returns l r

  float_arithmetic-Returns :
      (l r : F64) (op : BinaryOp) → Returns (float_arithmetic f64 l op r span)
  unfolding float_arithmetic
  float_arithmetic-Returns l r op =
      Ends-fail_if (is_division op && f64.is_zero r) _
        λ _. Ends-ok_or (float_result f64 l op r) _ λ x _. finite_float-Returns x _ span

  numeric_arithmetic-Returns :
      (l r : Value) (op : BinaryOp) → Returns (numeric_arithmetic f64 l op r span)
  unfolding numeric_arithmetic type_error
  numeric_arithmetic-Returns (Value.int l) (Value.int r) op = int_arithmetic-Returns l r op span
  numeric_arithmetic-Returns l r op =
      if-Returns (is_number l && is_number r) (float_arithmetic-Returns _ _ op) (refuses tt)

  compare_values-Returns : (l r : Value) (op : BinaryOp) → Returns (compare_values f64 l op r span)
  unfolding compare_values type_error
  compare_values-Returns (Value.string l) (Value.string r) op = accepts tt
  compare_values-Returns l r op = if-Returns (is_number l && is_number r) (accepts tt) (refuses tt)

  pub builtin_unary-Returns :
      (context : RuntimeContext) (limits : EvalLimits) (resources : RuntimeResourceLimits)
      (op : UnaryOp) (v : Value)
      → Returns (builtin_unary f64 context limits resources op v span)
  builtin_unary-Returns context limits resources UnaryOp.not (Value.bool b) = accepts tt
  builtin_unary-Returns context limits resources UnaryOp.neg (Value.int n) =
      Ends-ok_or (checked_int_neg n) _ λ m _. accepts tt
  builtin_unary-Returns context limits resources UnaryOp.neg (Value.float x) = accepts tt
  builtin_unary-Returns context limits resources op v = refuses tt

  pub eval_builtin_binary-Returns :
      (context : RuntimeContext) (limits : EvalLimits) (resources : RuntimeResourceLimits)
      (l : Value) (op : BinaryOp) (r : Value)
      → Returns (eval_builtin_binary f64 context limits resources l op r span)
  unfolding eval_builtin_binary
  eval_builtin_binary-Returns context limits resources l BinaryOp.eq r = accepts tt
  eval_builtin_binary-Returns context limits resources l BinaryOp.ne r = accepts tt
  eval_builtin_binary-Returns context limits resources l BinaryOp.add r =
      add_values-Returns l r limits.max_string_bytes
  eval_builtin_binary-Returns context limits resources l BinaryOp.sub r =
      numeric_arithmetic-Returns l r BinaryOp.sub
  eval_builtin_binary-Returns context limits resources l BinaryOp.mul r =
      numeric_arithmetic-Returns l r BinaryOp.mul
  eval_builtin_binary-Returns context limits resources l BinaryOp.div r =
      numeric_arithmetic-Returns l r BinaryOp.div
  eval_builtin_binary-Returns context limits resources l BinaryOp.rem r =
      numeric_arithmetic-Returns l r BinaryOp.rem
  eval_builtin_binary-Returns context limits resources l BinaryOp.lt r =
      compare_values-Returns l r BinaryOp.lt
  eval_builtin_binary-Returns context limits resources l BinaryOp.le r =
      compare_values-Returns l r BinaryOp.le
  eval_builtin_binary-Returns context limits resources l BinaryOp.gt r =
      compare_values-Returns l r BinaryOp.gt
  eval_builtin_binary-Returns context limits resources l BinaryOp.ge r =
      compare_values-Returns l r BinaryOp.ge
  eval_builtin_binary-Returns context limits resources l BinaryOp.and r = refuses tt
  eval_builtin_binary-Returns context limits resources l BinaryOp.or r = refuses tt

pub require_dispatch_ticket-Returns :
    (ticket : Option CapabilityTicket) (kind : CapabilityKind) (name : Text) (arity : ℕ)
    (m : EvalMessage) (span : SourceSpan)
    → Returns (require_dispatch_ticket ticket kind name arity m span)
unfolding require_dispatch_ticket
require_dispatch_ticket-Returns none kind name arity m span = refuses tt
require_dispatch_ticket-Returns (some t) kind name arity m span =
    if-Returns (kind_eq t.kind kind && text_eq t.name name && t.arity == arity) (accepts tt)
      (refuses tt)
