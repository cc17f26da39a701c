-- ===== src/Runtime/Soundness.antt =====
-- An evaluation ends; its result is admitted and paid for, and it stays within the budgets.
use online_dsl_forge.Base.{
  ℕ, ◌+◌, ◌≤◌, true, not, ◌==◌, ◌∷◌, ◌≡◌, arith, Option, some, ltb, Ends, Ends-bind, accepts,
  Verdict-map, length,
}
use online_dsl_forge.Syntax.{SourceSpan, unary_as_str, binary_as_str}
use online_dsl_forge.Value.{Value}
use online_dsl_forge.Value.Measure.{value_bytes, value_metrics, is_plain}
use online_dsl_forge.Verified.{
  VerifiedExpression, VerifiedExprKind, VerifiedExpressions, verified, no_args, arg, size,
  kind_size, args_size, args_len, CapabilityKind, CapabilityTicket,
}
use online_dsl_forge.Runtime.{
  EvalLimits, RuntimeResourceLimits, eval_error, array_item_limit, unresolved_function, wrong_arity,
  unresolved_method, unresolved_unary, unresolved_binary,
}
use online_dsl_forge.Runtime.Charges.{AreUsize, AreWithin}
use online_dsl_forge.Runtime.Operators.{FloatOps}
use online_dsl_forge.Runtime.Registry.{RuntimeContext}
use online_dsl_forge.Runtime.Evaluator.{EvalState, eval, eval_kind, eval_args, zip}
use online_dsl_forge.Runtime.Honest.{IsHonest, call_function-Charges, call_method-Charges}
use online_dsl_forge.Runtime.Parts.{
  State, Going, Done, enter-Going, after, admit-Done, string-Done, identifier-Done, member-Done,
  dispatch-Done, frame-Done, unary-Done, operator-Done, stay,
}
use online_dsl_forge.Runtime.Metering.{Moves-trans, lift-Returns}
use online_dsl_forge.Runtime.Returns.{fail_if-Returns, require_dispatch_ticket-Returns}

module _ (f64 : FloatOps) (context : RuntimeContext) (limits : EvalLimits)
    (resources : RuntimeResourceLimits) (usize : AreUsize resources)
    (honest : IsHonest context.registry) where
  abbrev pub StateTs : EvalState → Type 0
  StateTs = State f64 context limits resources usize honest

  abbrev pub GoingTs : ℕ → EvalState → EvalState → Type 0
  GoingTs = Going f64 context limits resources usize honest

  abbrev pub DoneTs : ℕ → EvalState → Value × EvalState → Type 0
  DoneTs = Done f64 context limits resources usize honest

  mutual
    unfolding eval size

    pub eval-Done :
        (e : VerifiedExpression) (depth : ℕ) (σ : EvalState)
        → StateTs σ
        → Ends (DoneTs (size e) σ) (eval f64 context limits resources e depth σ)
    eval-Done (verified k span ticket) depth σ state =
        Ends-bind (enter-Going f64 context limits resources usize honest span depth σ state)
          λ (_, σ') m.
            after f64 context limits resources usize honest (omega arith) m
              (kind-Done k span ticket depth σ' m.state)

    kind-Done :
        (k : VerifiedExprKind) (span : SourceSpan) (ticket : Option CapabilityTicket) (depth : ℕ)
        (σ : EvalState)
        → StateTs σ
        → Ends
            (DoneTs (kind_size k) σ)
            (eval_kind f64 context limits resources k span ticket depth σ)
    kind-Done VerifiedExprKind.null span ticket depth σ state =
        admit-Done f64 context limits resources usize honest Value.null span σ state
    kind-Done (VerifiedExprKind.bool b) span ticket depth σ state =
        admit-Done f64 context limits resources usize honest (Value.bool b) span σ state
    kind-Done (VerifiedExprKind.int n) span ticket depth σ state =
        admit-Done f64 context limits resources usize honest (Value.int n) span σ state
    kind-Done (VerifiedExprKind.float x) span ticket depth σ state =
        admit-Done f64 context limits resources usize honest (Value.float x) span σ state
    kind-Done (VerifiedExprKind.string t) span ticket depth σ state =
        string-Done f64 context limits resources usize honest t span σ state
    kind-Done (VerifiedExprKind.identifier name) span ticket depth σ state =
        identifier-Done f64 context limits resources usize honest name span σ state
    kind-Done (VerifiedExprKind.array items) span ticket depth σ state =
        Ends-bind
          (lift-Returns f64 context limits resources usize _ σ (
            fail_if-Returns (ltb limits.max_array_items (args_len items))
              (eval_error array_item_limit span)))
          λ (_, σ₀) same. rw same (
            Ends-bind (args-Going items depth σ state) λ (vs, σ') m.
              after f64 context limits resources usize honest (omega arith) m
                (admit-Done f64 context limits resources usize honest _ span σ' m.state))
    kind-Done (VerifiedExprKind.member receiver name) span ticket depth σ state =
        Ends-bind (eval-Done receiver (depth + 1) σ state) λ (v, σ') e.
          after f64 context limits resources usize honest (omega arith) e.moves
            (member-Done f64 context limits resources usize honest v name span σ' e.moves.state)
    kind-Done (VerifiedExprKind.function_call name args) span ticket depth σ state =
        Ends-bind
          (lift-Returns f64 context limits resources usize _ σ (
            require_dispatch_ticket-Returns ticket CapabilityKind.function name (args_len args)
              unresolved_function span))
          λ (_, σ₀) same. rw same (
            Ends-bind (args-Going args depth σ state) λ (vs, σ') m.
              after f64 context limits resources usize honest (omega arith) m (
                dispatch-Done f64 context limits resources usize honest _ span σ' m.state
                  λ c fits. call_function-Charges context.registry honest c name vs span fits))
    kind-Done (VerifiedExprKind.expression_function_call name params args body) span ticket depth σ
          state =
        Ends-bind
          (lift-Returns f64 context limits resources usize _ σ (
            fail_if-Returns (not (length params == args_len args))
              (eval_error (wrong_arity name (length params) (args_len args)) span)))
          λ (_, σ₀) same. rw same (
            Ends-bind (args-Going args depth σ state) λ (vs, σ') m.
              after f64 context limits resources usize honest (omega arith) m (
                frame-Done f64 context limits resources usize honest (zip params vs)
                  (eval f64 context limits resources body (depth + 1)) (size body) σ' m.state
                  (eval-Done body (depth + 1) (record σ' { locals = zip params vs ∷ σ'.locals })
                    (record { steps_fit = m.state.steps_fit; affordable = m.state.affordable }))))
    kind-Done (VerifiedExprKind.method_call receiver name args) span ticket depth σ state =
        Ends-bind
          (lift-Returns f64 context limits resources usize _ σ (
            require_dispatch_ticket-Returns ticket CapabilityKind.method name (args_len args)
              unresolved_method span))
          λ (_, σ₀) same. rw same (
            Ends-bind (eval-Done receiver (depth + 1) σ state) λ (v, σ') e.
              Ends-bind (args-Going args depth σ' e.moves.state) λ (vs, σ'') m.
                after f64 context limits resources usize honest {a = size receiver + args_size args}
                  (omega arith)
                  (Moves-trans f64 context limits resources usize (omega arith) e.moves m)
                  (dispatch-Done f64 context limits resources usize honest _ span σ'' m.state
                    λ c fits. call_method-Charges context.registry honest c v name vs span fits))
    kind-Done (VerifiedExprKind.unary op e) span ticket depth σ state =
        Ends-bind
          (lift-Returns f64 context limits resources usize _ σ (
            require_dispatch_ticket-Returns ticket CapabilityKind.unary_op (unary_as_str op) 1
              unresolved_unary span))
          λ (_, σ₀) same. rw same (
            Ends-bind (eval-Done e (depth + 1) σ state) λ (v, σ') d.
              after f64 context limits resources usize honest (omega arith) d.moves
                (unary-Done f64 context limits resources usize honest op v span σ' d.moves.state))
    kind-Done (VerifiedExprKind.binary l op r) span ticket depth σ state =
        Ends-bind
          (lift-Returns f64 context limits resources usize _ σ (
            require_dispatch_ticket-Returns ticket CapabilityKind.binary_op (binary_as_str op) 2
              unresolved_binary span))
          λ (_, σ₀) same. rw same (
            Ends-bind (eval-Done l (depth + 1) σ state) λ (v, σ') d.
              after f64 context limits resources usize honest (omega arith) d.moves (
                operator-Done f64 context limits resources usize honest v op _ (size r) span σ'
                  d.moves.state (eval-Done r (depth + 1) σ' d.moves.state)))

    args-Going :
        (es : VerifiedExpressions) (depth : ℕ) (σ : EvalState)
        → StateTs σ
        → Ends
            (λ r. GoingTs (args_size es) σ r.1)
            (eval_args f64 context limits resources es depth σ)
    args-Going no_args depth σ state =
        accepts (stay f64 context limits resources usize honest σ state)
    args-Going (arg e es) depth σ state = Ends-bind (eval-Done e (depth + 1) σ state) λ (v, σ') d.
        Ends-bind (args-Going es depth σ' d.moves.state) λ (vs, σ'') m.
          accepts (Moves-trans f64 context limits resources usize (omega arith) d.moves m)

-- With handlers that only charge work and return, and limits that a `usize` holds: from a state
-- within its budgets, evaluating an expression never runs out of fuel. If it returns a value, the
-- value passes the check of its graph and its bytes are charged; the steps and the charged bytes are
-- within their limits, no more steps were made than the expression has nodes, and the local
-- variables are as before.
pub eval-Ends :
    (f64 : FloatOps) (context : RuntimeContext) (limits : EvalLimits)
    (resources : RuntimeResourceLimits) (e : VerifiedExpression) (depth : ℕ) (σ : EvalState)
    → AreUsize resources
    → IsHonest context.registry
    → σ.steps ≤ limits.max_steps
    → σ.processed_bytes ≤ resources.max_total_value_bytes
    → Ends
        (λ (r : Value × EvalState).
          (is_plain (some limits.max_string_bytes) r.0 ≡ true)
          × AreWithin resources (value_metrics r.0)
          × (σ.processed_bytes + value_bytes r.0 ≤ r.1.processed_bytes)
          × (r.1.processed_bytes ≤ resources.max_total_value_bytes)
          × (r.1.steps ≤ limits.max_steps)
          × (r.1.steps ≤ σ.steps + size e)
          × (r.1.locals ≡ σ.locals))
        (eval f64 context limits resources e depth σ)
eval-Ends f64 context limits resources e depth σ usize honest steps bytes =
    Verdict-map
      (λ r d. (
        d.admitted.plain, d.admitted.within, d.paid, d.moves.state.affordable,
        d.moves.state.steps_fit, d.moves.few_steps, d.moves.same_locals,
      ))
      (λ b. b)
      (eval-Done f64 context limits resources usize honest e depth σ
        (record { steps_fit = steps; affordable = bytes }))
