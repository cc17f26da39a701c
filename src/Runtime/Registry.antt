-- ===== src/Runtime/Registry.antt =====
-- source/src/runtime.rs and context.rs: the handlers that a host registers, and what they are given.
-- A handler's only effect on the evaluation is what it charges: it returns the processed bytes.
use online_dsl_forge.Base.{
  ◌>>=◌, ◌>>◌, ℕ, List, [], ◌∷◌, Text, Option, none, some, Result, ok, err, out_of_fuel, fail_if,
  ok_or, ltb, ◌==◌, if◌then◌else◌, text_eq, length,
}
use online_dsl_forge.Base.Usize.{checked_add}
use online_dsl_forge.Syntax.{SourceSpan, UnaryOp, BinaryOp}
use online_dsl_forge.Value.{Value}
use online_dsl_forge.Schema.{CapabilityMeta}
use online_dsl_forge.Runtime.{
  EvalError, eval_error, string_byte_limit, work_counter_overflowed, unknown_function,
  unknown_method, work_byte_limit, function_arity, method_arity,
}

-- `RuntimeCallContext`, its profile and regex cache aside.
pub record RuntimeCallContext : Type 0 where
  pub processed_bytes : ℕ
  pub max_total_bytes : ℕ
  pub max_string_bytes : ℕ
  pub span : SourceSpan

unfoldable pub ensure_string_bytes : RuntimeCallContext → ℕ → Result EvalError (Unit {0})
ensure_string_bytes context bytes =
    fail_if (ltb context.max_string_bytes bytes) (eval_error string_byte_limit context.span)

unfoldable pub charge_work : RuntimeCallContext → ℕ → Result EvalError RuntimeCallContext
charge_work context bytes = do
  processed ←
      ok_or (checked_add context.processed_bytes bytes)
        (eval_error work_counter_overflowed context.span)
  fail_if (ltb context.max_total_bytes processed) (eval_error work_byte_limit context.span)
  ok (record context { processed_bytes = processed })

abbrev pub FunctionHandler : Type 0
FunctionHandler = RuntimeCallContext → List Value → Result EvalError (Value × ℕ)

abbrev pub MethodHandler : Type 0
MethodHandler = RuntimeCallContext → Value → List Value → Result EvalError (Value × ℕ)

abbrev pub UnaryHandler : Type 0
UnaryHandler = Value → Result EvalError Value

abbrev pub BinaryHandler : Type 0
BinaryHandler = Value → Value → Result EvalError Value

pub record FunctionEntry : Type 0 where
  pub arity : ℕ
  pub capability : CapabilityMeta
  pub handler : FunctionHandler

pub record MethodEntry : Type 0 where
  pub arity : ℕ
  pub capability : CapabilityMeta
  pub handler : MethodHandler

pub record UnaryEntry : Type 0 where
  pub capability : CapabilityMeta
  pub handler : UnaryHandler

pub record BinaryEntry : Type 0 where
  pub capability : CapabilityMeta
  pub handler : BinaryHandler

pub record DynamicRegistry : Type 0 where
  pub functions : List (Text × List FunctionEntry)
  pub methods : List (Text × List MethodEntry)
  pub unary_ops : UnaryOp → Option UnaryEntry
  pub binary_ops : BinaryOp → Option BinaryEntry

-- `BTreeMap::get`.
unfoldable pub get {ℓ} : {A : Type ℓ} → Text → List (Text × A) → Option A
get name [] = none
get name ((key, a) ∷ rest) = if text_eq key name then some a else get name rest

unfoldable pub find_function : ℕ → List FunctionEntry → Option FunctionEntry
find_function n [] = none
find_function n (e ∷ es) = if e.arity == n then some e else find_function n es

unfoldable pub find_method : ℕ → List MethodEntry → Option MethodEntry
find_method n [] = none
find_method n (e ∷ es) = if e.arity == n then some e else find_method n es

-- `map_err(|error| EvalError { span, ..error })`.
abbrev pub at_span {ℓ} : {A : Type ℓ} → SourceSpan → Result EvalError A → Result EvalError A
at_span span (ok a) = ok a
at_span span (err e) = err (record e { span = span })
at_span span out_of_fuel = out_of_fuel

unfoldable pub call_function :
    DynamicRegistry
    → RuntimeCallContext
    → Text
    → List Value
    → SourceSpan
    → Result EvalError (Value × ℕ)
call_function registry context name args span = do
  entries ← ok_or (get name registry.functions) (eval_error (unknown_function name) span)
  entry ←
      ok_or (find_function (length args) entries)
        (eval_error (function_arity name (length args)) span)
  at_span span (entry.handler context args)

unfoldable pub call_method :
    DynamicRegistry
    → RuntimeCallContext
    → Value
    → Text
    → List Value
    → SourceSpan
    → Result EvalError (Value × ℕ)
call_method registry context receiver name args span = do
  entries ← ok_or (get name registry.methods) (eval_error (unknown_method name) span)
  entry ←
      ok_or (find_method (length args) entries) (eval_error (method_arity name (length args)) span)
  at_span span (entry.handler context receiver args)

-- The variables and the registry of a host.
pub record RuntimeContext : Type 0 where
  pub get_variable : Text → Option Value
  pub get_variable_borrowed : Text → Option Value
  pub registry : DynamicRegistry
