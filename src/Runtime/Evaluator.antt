-- ===== src/Runtime/Evaluator.antt =====
-- source/src/runtime/evaluator.rs: the evaluator, under its step, depth and byte limits.
use online_dsl_forge.Base.{
  ℕ, ◌+◌, Bool, true, false, not, ◌&&◌, List, [], ◌∷◌, Text, Option, none, some, Result, ok, err,
  ◌>>=◌ as ◌>>=ᴿ◌, ◌>>◌ as ◌>>ᴿ◌, fail_if, ok_or, ltb, ◌==◌, if◌then◌else◌, text_eq, length,
  byte_length,
}
use online_dsl_forge.Base.Usize.{checked_add}
use online_dsl_forge.Base.Int.{checked_int_neg}
use online_dsl_forge.Syntax.{SourceSpan, UnaryOp, BinaryOp, unary_as_str, binary_as_str}
use online_dsl_forge.Value.{
  Value, Values, Entries, no_items, first, no_entries, entry, ValueMetrics, type_name,
}
use online_dsl_forge.Verified.{
  CapabilityKind, CapabilityTicket, VerifiedExpression, VerifiedExprKind, VerifiedExpressions,
  verified, no_args, arg, args_len,
}
use online_dsl_forge.Runtime.{
  EvalError, eval_error, EvalMessage, EvalLimits, RuntimeResourceLimits, validate_value,
  ticket_mismatch, step_counter_overflowed, total_counter_overflowed, string_byte_limit,
  unknown_variable, missing_member, negation_overflowed, depth_limit, array_item_limit, step_limit,
  total_byte_limit, cannot_read_member, unary_type, unresolved_function, wrong_arity,
  internal_boolean, unresolved_method, unresolved_unary, unresolved_binary,
}
use online_dsl_forge.Runtime.Operators.{
  FloatOps, value_eq, expect_bool, add_values, numeric_arithmetic, compare_values,
}
use online_dsl_forge.Runtime.Registry.{
  RuntimeContext, RuntimeCallContext, at_span, call_function, call_method,
}

-- The names that a call binds. A later parameter of the same name wins, as in `collect`.
abbrev pub Frame : Type 0
Frame = List (Text × Value)

unfoldable pub frame_get : Text → Frame → Option Value
frame_get name [] = none
frame_get name ((key, v) ∷ rest) = elim (frame_get name rest) [
  | some w ↦ some w
  | none ↦ if text_eq key name then some v else none
]

-- The frames, the last pushed first.
unfoldable pub local_value : Text → List Frame → Option Value
local_value name [] = none
local_value name (frame ∷ frames) = elim (frame_get name frame) [
  | some v ↦ some v
  | none ↦ local_value name frames
]

unfoldable pub zip : List Text → List Value → Frame
zip [] vs = []
zip (p ∷ ps) [] = []
zip (p ∷ ps) (v ∷ vs) = (p, v) ∷ zip ps vs

abbrev pub to_values : List Value → Values
to_values [] = no_items
to_values (v ∷ vs) = first v (to_values vs)

unfoldable pub member_of : Text → Entries → Option Value
member_of name no_entries = none
member_of name (entry key v rest) = if text_eq key name then some v else member_of name rest

-- `Vec::pop`, its result dropped.
abbrev pub pop : List Frame → List Frame
pop [] = []
pop (frame ∷ frames) = frames

-- What changes during an evaluation.
pub record EvalState : Type 0 where
  pub processed_bytes : ℕ
  pub steps : ℕ
  pub locals : List Frame

-- A failure gives the state up.
abbrev pub Eval {ℓ} : Type ℓ → Type ℓ
Eval A = EvalState → Result EvalError (A × EvalState)

module _ {ℓ κ} {A : Type ℓ} {B : Type κ} where
  infixl 5 ◌>>=◌ ◌>>◌
  abbrev pub ◌>>=◌ : Eval A → (A → Eval B) → Eval B
  ◌>>=◌ m f σ = ◌>>=ᴿ◌ (m σ) λ (a, σ'). f a σ'

  abbrev pub ◌>>◌ : Eval A → Eval B → Eval B
  m >> k = m >>= λ _. k

-- A computation that does not touch the state.
abbrev pub lift {ℓ} : {A : Type ℓ} → Result EvalError A → Eval A
lift r σ = r >>=ᴿ λ a. ok (a, σ)

abbrev pub kind_eq : CapabilityKind → CapabilityKind → Bool
kind_eq CapabilityKind.function CapabilityKind.function = true
kind_eq CapabilityKind.method CapabilityKind.method = true
kind_eq CapabilityKind.unary_op CapabilityKind.unary_op = true
kind_eq CapabilityKind.binary_op CapabilityKind.binary_op = true
kind_eq _ _ = false

unfoldable pub require_dispatch_ticket :
    Option CapabilityTicket
    → CapabilityKind
    → Text
    → ℕ
    → EvalMessage
    → SourceSpan
    → Result EvalError (Unit {0})
require_dispatch_ticket none kind name arity unresolved span = err (eval_error unresolved span)
require_dispatch_ticket (some ticket) kind name arity unresolved span =
    if kind_eq ticket.kind kind && text_eq ticket.name name && ticket.arity == arity
    then ok tt
    else err (eval_error ticket_mismatch span)

module _ (f64 : FloatOps) (context : RuntimeContext) (limits : EvalLimits)
    (resource_limits : RuntimeResourceLimits) where
  unfoldable pub step : SourceSpan → Eval (Unit {0})
  step span σ =
      ok_or (checked_add σ.steps 1) (eval_error step_counter_overflowed span) >>=ᴿ λ steps.
      fail_if (ltb limits.max_steps steps) (eval_error step_limit span)
      >>ᴿ ok (tt, record σ { steps = steps })

  unfoldable pub charge : ValueMetrics → SourceSpan → Eval (Unit {0})
  charge metrics span σ =
      ok_or (checked_add σ.processed_bytes metrics.bytes) (eval_error total_counter_overflowed span)
      >>=ᴿ λ processed.
          fail_if (ltb resource_limits.max_total_value_bytes processed)
            (eval_error total_byte_limit span)
          >>ᴿ ok (tt, record σ { processed_bytes = processed })

  unfoldable pub admit : Value → SourceSpan → Eval Value
  admit value span σ =
      validate_value resource_limits (some limits.max_string_bytes) span value >>=ᴿ λ metrics.
      charge metrics span σ >>=ᴿ λ (_, σ'). ok (value, σ')

  -- The value is cloned behind the same two checks.
  unfoldable pub clone_admitted : Value → SourceSpan → Eval Value
  clone_admitted = admit

  unfoldable pub checked_string : Text → SourceSpan → Eval Value
  checked_string value span σ =
      fail_if (ltb limits.max_string_bytes (byte_length value)) (eval_error string_byte_limit span)
      >>ᴿ admit (Value.string value) span σ

  -- The host's variable, borrowed if it can be.
  unfoldable pub eval_variable : Text → SourceSpan → Eval Value
  eval_variable name span = elim (context.get_variable_borrowed name) [
    | some v ↦ clone_admitted v span
    | none ↦ elim (context.get_variable name) [
      | some v ↦ admit v span
      | none ↦ λ σ. err (eval_error (unknown_variable name) span)
    ]
  ]

  unfoldable pub eval_identifier : Text → SourceSpan → Eval Value
  eval_identifier name span σ = elim (local_value name σ.locals) [
    | some v ↦ clone_admitted v span σ
    | none ↦ eval_variable name span σ
  ]

  unfoldable pub eval_member : Value → Text → SourceSpan → Eval Value
  eval_member (Value.object entries) name span σ =
      ok_or (member_of name entries) (eval_error (missing_member name) span) >>=ᴿ λ v.
      clone_admitted v span σ
  eval_member other name span σ = err (eval_error (cannot_read_member name (type_name other)) span)

  abbrev pub builtin_unary : UnaryOp → Value → SourceSpan → Result EvalError Value
  builtin_unary UnaryOp.not (Value.bool b) span = ok (Value.bool (not b))
  builtin_unary UnaryOp.neg (Value.int n) span =
      ok_or (checked_int_neg n) (eval_error negation_overflowed span) >>=ᴿ λ m. ok (Value.int m)
  builtin_unary UnaryOp.neg (Value.float x) span = ok (Value.float (f64.negate x))
  builtin_unary op value span = err (eval_error (unary_type op (type_name value)) span)

  unfoldable pub unary_result : UnaryOp → Value → SourceSpan → Result EvalError Value
  unary_result op value span = elim (context.registry.unary_ops op) [
    | some registered ↦ at_span span (registered.handler value)
    | none ↦ builtin_unary op value span
  ]

  unfoldable pub eval_unary : UnaryOp → Value → SourceSpan → Eval Value
  eval_unary op value span = lift (unary_result op value span) >>= λ result. admit result span

  unfoldable pub eval_builtin_binary :
      Value → BinaryOp → Value → SourceSpan → Result EvalError Value
  eval_builtin_binary l BinaryOp.eq r span = ok (Value.bool (value_eq f64 l r))
  eval_builtin_binary l BinaryOp.ne r span = ok (Value.bool (not (value_eq f64 l r)))
  eval_builtin_binary l BinaryOp.add r span = add_values f64 l r span limits.max_string_bytes
  eval_builtin_binary l BinaryOp.sub r span = numeric_arithmetic f64 l BinaryOp.sub r span
  eval_builtin_binary l BinaryOp.mul r span = numeric_arithmetic f64 l BinaryOp.mul r span
  eval_builtin_binary l BinaryOp.div r span = numeric_arithmetic f64 l BinaryOp.div r span
  eval_builtin_binary l BinaryOp.rem r span = numeric_arithmetic f64 l BinaryOp.rem r span
  eval_builtin_binary l BinaryOp.lt r span = compare_values f64 l BinaryOp.lt r span
  eval_builtin_binary l BinaryOp.le r span = compare_values f64 l BinaryOp.le r span
  eval_builtin_binary l BinaryOp.gt r span = compare_values f64 l BinaryOp.gt r span
  eval_builtin_binary l BinaryOp.ge r span = compare_values f64 l BinaryOp.ge r span
  eval_builtin_binary l _ r span = err (eval_error internal_boolean span)

  unfoldable pub binary_result : Value → BinaryOp → Value → SourceSpan → Result EvalError Value
  binary_result l op r span = elim (context.registry.binary_ops op) [
    | some registered ↦ at_span span (registered.handler l r)
    | none ↦ eval_builtin_binary l op r span
  ]

  -- `eval_binary` behind the left operand; `right` evaluates the right one.
  unfoldable pub eval_operator : Value → BinaryOp → Eval Value → SourceSpan → Eval Value
  eval_operator l BinaryOp.and right span = lift (expect_bool l span) >>= λ b. elim b [
    | false ↦ admit (Value.bool false) span
    | true ↦ right >>= λ r. lift (expect_bool r span) >>= λ b'. admit (Value.bool b') span
  ]
  eval_operator l BinaryOp.or right span = lift (expect_bool l span) >>= λ b. elim b [
    | true ↦ admit (Value.bool true) span
    | false ↦ right >>= λ r. lift (expect_bool r span) >>= λ b'. admit (Value.bool b') span
  ]
  eval_operator l op right span =
      right >>= λ r. lift (binary_result l op r span) >>= λ result. admit result span

  abbrev pub call_context : SourceSpan → EvalState → RuntimeCallContext
  call_context span σ = record {
    processed_bytes = σ.processed_bytes;
    max_total_bytes = resource_limits.max_total_value_bytes;
    max_string_bytes = limits.max_string_bytes;
    span = span;
  }

  -- A call of a handler, which may have charged bytes.
  abbrev pub dispatch :
      (RuntimeCallContext → Result EvalError (Value × ℕ)) → SourceSpan → Eval Value
  dispatch call span σ = call (call_context span σ) >>=ᴿ λ (v, processed).
      admit v span (record σ { processed_bytes = processed })

  -- The body runs with one more frame, which is dropped behind it.
  abbrev pub with_frame : Frame → Eval Value → Eval Value
  with_frame frame body σ = body (record σ { locals = frame ∷ σ.locals }) >>=ᴿ λ (v, σ').
      ok (v, record σ' { locals = pop σ'.locals })

  abbrev pub enter : SourceSpan → ℕ → Eval (Unit {0})
  enter span depth =
      step span >> lift (fail_if (ltb limits.max_depth depth) (eval_error depth_limit span))

  unfoldable mutual
    pub eval : VerifiedExpression → ℕ → Eval Value
    eval (verified kind span ticket) depth = enter span depth >> eval_kind kind span ticket depth

    pub eval_kind : VerifiedExprKind → SourceSpan → Option CapabilityTicket → ℕ → Eval Value
    eval_kind VerifiedExprKind.null span ticket depth = admit Value.null span
    eval_kind (VerifiedExprKind.bool b) span ticket depth = admit (Value.bool b) span
    eval_kind (VerifiedExprKind.int n) span ticket depth = admit (Value.int n) span
    eval_kind (VerifiedExprKind.float x) span ticket depth = admit (Value.float x) span
    eval_kind (VerifiedExprKind.string t) span ticket depth = checked_string t span
    eval_kind (VerifiedExprKind.array items) span ticket depth =
        lift
          (fail_if (ltb limits.max_array_items (args_len items)) (eval_error array_item_limit span))
        >> (eval_args items depth >>= λ vs. admit (Value.array (to_values vs)) span)
    eval_kind (VerifiedExprKind.identifier name) span ticket depth = eval_identifier name span
    eval_kind (VerifiedExprKind.member receiver name) span ticket depth =
        eval receiver (depth + 1) >>= λ v. eval_member v name span
    eval_kind (VerifiedExprKind.function_call name args) span ticket depth =
        lift (
          require_dispatch_ticket ticket CapabilityKind.function name (args_len args)
            unresolved_function span)
        >> (eval_args args depth >>= λ vs.
            dispatch (λ c. call_function context.registry c name vs span) span)
    eval_kind (VerifiedExprKind.expression_function_call name params args body) span ticket depth =
        lift (
          fail_if (not (length params == args_len args))
            (eval_error (wrong_arity name (length params) (args_len args)) span))
        >> (eval_args args depth >>= λ vs. with_frame (zip params vs) (eval body (depth + 1)))
    eval_kind (VerifiedExprKind.method_call receiver name args) span ticket depth =
        lift (
          require_dispatch_ticket ticket CapabilityKind.method name (args_len args)
            unresolved_method span)
        >> (eval receiver (depth + 1) >>= λ v. eval_args args depth >>= λ vs.
            dispatch (λ c. call_method context.registry c v name vs span) span)
    eval_kind (VerifiedExprKind.unary op e) span ticket depth =
        lift (
          require_dispatch_ticket ticket CapabilityKind.unary_op (unary_as_str op) 1
            unresolved_unary span)
        >> (eval e (depth + 1) >>= λ v. eval_unary op v span)
    eval_kind (VerifiedExprKind.binary l op r) span ticket depth =
        lift (
          require_dispatch_ticket ticket CapabilityKind.binary_op (binary_as_str op) 2
            unresolved_binary span)
        >> (eval l (depth + 1) >>= λ v. eval_operator v op (eval r (depth + 1)) span)

    pub eval_args : VerifiedExpressions → ℕ → Eval (List Value)
    eval_args no_args depth σ = ok ([], σ)
    eval_args (arg e es) depth σ =
        (eval e (depth + 1) >>= λ v. eval_args es depth >>= λ vs. λ σ'. ok (v ∷ vs, σ')) σ

  -- `evaluate`, on the program's root.
  unfoldable pub evaluate : VerifiedExpression → Result EvalError Value
  evaluate root =
      eval root 0 (record { processed_bytes = 0; steps = 0; locals = [] }) >>=ᴿ λ (v, _). ok v
