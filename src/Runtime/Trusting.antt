-- ===== src/Runtime/Trusting.antt =====
-- The evaluator without its checks of tickets and of arities, as a reference for the evaluator on
-- expressions that have their tickets.
use online_dsl_forge.Base.{ℕ, ◌+◌, List, [], ◌∷◌, ok, fail_if, ltb}
use online_dsl_forge.Syntax.{SourceSpan}
use online_dsl_forge.Value.{Value}
use online_dsl_forge.Verified.{
  VerifiedExpression, VerifiedExprKind, VerifiedExpressions, verified, no_args, arg, args_len,
}
use online_dsl_forge.Runtime.{EvalLimits, RuntimeResourceLimits, eval_error, array_item_limit}
use online_dsl_forge.Runtime.Operators.{FloatOps}
use online_dsl_forge.Runtime.Registry.{RuntimeContext, call_function, call_method}
use online_dsl_forge.Runtime.Evaluator.{
  Eval, ◌>>=◌, ◌>>◌, lift, enter, dispatch, with_frame, admit, checked_string, eval_identifier,
  eval_member, eval_unary, eval_operator, to_values, zip,
}

module _ (f64 : FloatOps) (context : RuntimeContext) (limits : EvalLimits)
    (resources : RuntimeResourceLimits) where
  unfoldable mutual
    pub trusting : VerifiedExpression → ℕ → Eval Value
    trusting (verified kind span ticket) depth =
        enter f64 context limits resources span depth >> trusting_kind kind span depth

    pub trusting_kind : VerifiedExprKind → SourceSpan → ℕ → Eval Value
    trusting_kind VerifiedExprKind.null span depth =
        admit f64 context limits resources Value.null span
    trusting_kind (VerifiedExprKind.bool b) span depth =
        admit f64 context limits resources (Value.bool b) span
    trusting_kind (VerifiedExprKind.int n) span depth =
        admit f64 context limits resources (Value.int n) span
    trusting_kind (VerifiedExprKind.float x) span depth =
        admit f64 context limits resources (Value.float x) span
    trusting_kind (VerifiedExprKind.string t) span depth =
        checked_string f64 context limits resources t span
    trusting_kind (VerifiedExprKind.array items) span depth =
        lift
          (fail_if (ltb limits.max_array_items (args_len items)) (eval_error array_item_limit span))
        >> (trusting_args items depth >>= λ vs.
            admit f64 context limits resources (Value.array (to_values vs)) span)
    trusting_kind (VerifiedExprKind.identifier name) span depth =
        eval_identifier f64 context limits resources name span
    trusting_kind (VerifiedExprKind.member receiver name) span depth =
        trusting receiver (depth + 1) >>= λ v. eval_member f64 context limits resources v name span
    trusting_kind (VerifiedExprKind.function_call name args) span depth =
        trusting_args args depth >>= λ vs.
        dispatch f64 context limits resources (λ c. call_function context.registry c name vs span)
          span
    trusting_kind (VerifiedExprKind.expression_function_call name params args body) span depth =
        trusting_args args depth >>= λ vs.
        with_frame f64 context limits resources (zip params vs) (trusting body (depth + 1))
    trusting_kind (VerifiedExprKind.method_call receiver name args) span depth =
        trusting receiver (depth + 1) >>= λ v. trusting_args args depth >>= λ vs.
        dispatch f64 context limits resources (λ c. call_method context.registry c v name vs span)
          span
    trusting_kind (VerifiedExprKind.unary op e) span depth =
        trusting e (depth + 1) >>= λ v. eval_unary f64 context limits resources op v span
    trusting_kind (VerifiedExprKind.binary l op r) span depth = trusting l (depth + 1) >>= λ v.
        eval_operator f64 context limits resources v op (trusting r (depth + 1)) span

    pub trusting_args : VerifiedExpressions → ℕ → Eval (List Value)
    trusting_args no_args depth σ = ok ([], σ)
    trusting_args (arg e es) depth σ =
        (trusting e (depth + 1) >>= λ v. trusting_args es depth >>= λ vs. λ σ'. ok (v ∷ vs, σ')) σ
