-- ===== src/Analyzer/Evaluated.antt =====
-- An analyzed program is evaluated without an error of its tickets or arities.
use online_dsl_forge.Base.{
  ◌≡◌, refl, ◌∙◌, ap, ℕ, ◌+◌, Bool, true, false, not, ◌∷◌, Text, Option, some, Result, ok, fail_if,
  ltb, ==_iff, text_eq_iff, length, inl, inr, Ends, Ends-map, ◌≤◌, arith,
}
use online_dsl_forge.Syntax.{SourceSpan, AstExpression, unary_as_str, binary_as_str}
use online_dsl_forge.Value.{Value}
use online_dsl_forge.Verified.{
  VerifiedExpression, VerifiedExprKind, VerifiedExpressions, CapabilityKind, CapabilityTicket,
  verified, no_args, arg, args_len,
}
use online_dsl_forge.Runtime.{
  EvalLimits, RuntimeResourceLimits, EvalMessage, EvalError, eval_error, array_item_limit,
  unresolved_function, wrong_arity, unresolved_method, unresolved_unary, unresolved_binary,
}
use online_dsl_forge.Runtime.Operators.{FloatOps}
use online_dsl_forge.Runtime.Registry.{RuntimeContext, call_function, call_method}
use online_dsl_forge.Runtime.Evaluator.{
  Eval, EvalState, ◌>>=◌, ◌>>◌, lift, enter, eval, eval_kind, eval_args, dispatch, with_frame,
  admit, require_dispatch_ticket, kind_eq, to_values, eval_member, zip, eval_unary, eval_operator,
}
use online_dsl_forge.Runtime.Trusting.{trusting, trusting_kind, trusting_args}
use online_dsl_forge.Runtime.Tickets.{ticket_of}
use online_dsl_forge.Schema.{RuntimeSchema, RegexFlavor}
use online_dsl_forge.Analyzer.{CompileOptions, Analyzer}
use online_dsl_forge.Analyzer.Program.{analyze, VerifiedProgram}
use online_dsl_forge.Analyzer.Verified.{analyze-IsVerified}
use online_dsl_forge.Analyzer.Tickets.{IsTicketed, AreTicketed, AllTicketed, Grants, HasTicket}
use online_dsl_forge.Runtime.Charges.{AreUsize}
use online_dsl_forge.Runtime.Honest.{IsHonest}
use online_dsl_forge.Runtime.Soundness.{eval-Ends}

kind_same : (k : CapabilityKind) → kind_eq k k ≡ true
kind_same CapabilityKind.function = refl
kind_same CapabilityKind.method = refl
kind_same CapabilityKind.unary_op = refl
kind_same CapabilityKind.binary_op = refl

-- A ticket that is there passes the check.
required-ok :
    (kind : CapabilityKind) (name : Text) (arity : ℕ) (m : EvalMessage) (span : SourceSpan)
    → require_dispatch_ticket (some (ticket_of kind name arity)) kind name arity m span ≡ ok tt
unfolding require_dispatch_ticket
required-ok kind name arity m span =
    let k = kind_same kind in
    let n = (text_eq_iff name name).1 refl in
    let a = (==_iff arity arity).1 refl in rw (k, n, a) refl

-- A check that passes can be left out.
checked :
    {A : Type 0} {q : Result EvalError (Unit {0})} (k : Eval A) → q ≡ ok tt → (lift q >> k) ≡ k
checked k e = ap (λ q. lift q >> k) e

ticket_checked :
    {A : Type 0} (kind : CapabilityKind) (name : Text) (arity : ℕ) (m : EvalMessage)
    (span : SourceSpan) {ticket : Option CapabilityTicket} (k : Eval A)
    → ticket ≡ some (ticket_of kind name arity)
    → (lift (require_dispatch_ticket ticket kind name arity m span) >> k) ≡ k
ticket_checked kind name arity m span k e = checked k (
    ap (λ t. require_dispatch_ticket t kind name arity m span) e
    ∙ required-ok kind name arity m span)

bind_ext :
    {A B : Type 0} (m : Eval A) (f g : A → Eval B) → ((a : A) → f a ≡ g a) → (m >>= f) ≡ (m >>= g)
bind_ext m f g h = λ i. m >>= λ a. h a i

module _ (f64 : FloatOps) (context : RuntimeContext) (limits : EvalLimits)
    (resources : RuntimeResourceLimits) (options : CompileOptions) (P : CapabilityTicket → Type 0)
    (functions : options.allow_unknown_functions ≡ false)
    (methods : options.allow_unknown_methods ≡ false) where
  granted :
      {optional : Bool} {own : CapabilityTicket} {ticket : Option CapabilityTicket}
      → optional ≡ false
      → Grants options P optional own ticket
      → ticket ≡ some own
  granted off (inl (e, h)) = e
  granted off (inr (e, on)) = cc

  mutual
    unfolding eval trusting IsTicketed

    eval-trusting :
        (e : VerifiedExpression) (depth : ℕ)
        → IsTicketed options P e
        → eval f64 context limits resources e depth ≡ trusting f64 context limits resources e depth
    eval-trusting (verified k s t) depth (h, rest) =
        bind_ext (enter f64 context limits resources s depth) _ _
          λ u. kind-trusting k s t depth h rest

    kind-trusting :
        (k : VerifiedExprKind) (span : SourceSpan) (ticket : Option CapabilityTicket) (depth : ℕ)
        → HasTicket options P k ticket
        → AreTicketed options P k
        → eval_kind f64 context limits resources k span ticket depth
          ≡ trusting_kind f64 context limits resources k span depth
    kind-trusting VerifiedExprKind.null span ticket depth h rest = refl
    kind-trusting (VerifiedExprKind.bool b) span ticket depth h rest = refl
    kind-trusting (VerifiedExprKind.int n) span ticket depth h rest = refl
    kind-trusting (VerifiedExprKind.float x) span ticket depth h rest = refl
    kind-trusting (VerifiedExprKind.string t) span ticket depth h rest = refl
    kind-trusting (VerifiedExprKind.identifier name) span ticket depth h rest = refl
    kind-trusting (VerifiedExprKind.array items) span ticket depth h rest =
        ap
          (λ m.
            lift (
              fail_if (ltb limits.max_array_items (args_len items))
                (eval_error array_item_limit span))
            >> (m >>= λ vs. admit f64 context limits resources (Value.array (to_values vs)) span))
          (args-trusting items depth rest)
    kind-trusting (VerifiedExprKind.member receiver name) span ticket depth h rest =
        ap (λ m. m >>= λ v. eval_member f64 context limits resources v name span)
          (eval-trusting receiver (depth + 1) rest)
    kind-trusting (VerifiedExprKind.function_call name args) span ticket depth h rest =
        ticket_checked CapabilityKind.function name (args_len args) unresolved_function span _
          (granted functions h)
        ∙ ap
            (λ m. m >>= λ vs.
              dispatch f64 context limits resources
                (λ c. call_function context.registry c name vs span) span)
            (args-trusting args depth rest)
    kind-trusting (VerifiedExprKind.expression_function_call name params args body) span ticket
          depth h rest =
        checked _ (
          ap
            (λ b.
              fail_if (not b) (eval_error (wrong_arity name (length params) (args_len args)) span))
            ((==_iff (length params) (args_len args)).1 h))
        ∙ ap
            (λ m. m >>= λ vs.
              with_frame f64 context limits resources (zip params vs)
                (eval f64 context limits resources body (depth + 1)))
            (args-trusting args depth rest.0)
        ∙ bind_ext (trusting_args f64 context limits resources args depth) _ _ λ vs.
          ap (λ m. with_frame f64 context limits resources (zip params vs) m)
            (eval-trusting body (depth + 1) rest.1)
    kind-trusting (VerifiedExprKind.method_call receiver name args) span ticket depth h rest =
        ticket_checked CapabilityKind.method name (args_len args) unresolved_method span _
          (granted methods h)
        ∙ ap
            (λ m. m >>= λ v. eval_args f64 context limits resources args depth >>= λ vs.
              dispatch f64 context limits resources
                (λ c. call_method context.registry c v name vs span) span)
            (eval-trusting receiver (depth + 1) rest.0)
        ∙ bind_ext (trusting f64 context limits resources receiver (depth + 1)) _ _ λ v.
          ap
            (λ m. m >>= λ vs.
              dispatch f64 context limits resources
                (λ c. call_method context.registry c v name vs span) span)
            (args-trusting args depth rest.1)
    kind-trusting (VerifiedExprKind.unary op e) span ticket depth h rest =
        ticket_checked CapabilityKind.unary_op (unary_as_str op) 1 unresolved_unary span _ h.0
        ∙ ap (λ m. m >>= λ v. eval_unary f64 context limits resources op v span)
            (eval-trusting e (depth + 1) rest)
    kind-trusting (VerifiedExprKind.binary l op r) span ticket depth h rest =
        ticket_checked CapabilityKind.binary_op (binary_as_str op) 2 unresolved_binary span _ h.0
        ∙ ap
            (λ m. m >>= λ v.
              eval_operator f64 context limits resources v op
                (eval f64 context limits resources r (depth + 1)) span)
            (eval-trusting l (depth + 1) rest.0)
        ∙ bind_ext (trusting f64 context limits resources l (depth + 1)) _ _ λ v.
          ap (λ m. eval_operator f64 context limits resources v op m span)
            (eval-trusting r (depth + 1) rest.1)

    args-trusting :
        (es : VerifiedExpressions) (depth : ℕ)
        → AllTicketed options P es
        → eval_args f64 context limits resources es depth
          ≡ trusting_args f64 context limits resources es depth
    args-trusting no_args depth h = refl
    args-trusting (arg e es) depth (h, rest) =
        ap
          (λ m σ.
            (m >>= λ v.
            eval_args f64 context limits resources es depth >>= λ vs. λ σ'. ok (v ∷ vs, σ'))
              σ)
          (eval-trusting e (depth + 1) h)
        ∙ ap
            (λ m σ.
              (trusting f64 context limits resources e (depth + 1) >>= λ v.
              m >>= λ vs. λ σ'. ok (v ∷ vs, σ'))
                σ)
            (args-trusting es depth rest)

-- Where the options allow no unknown functions and methods, a program that the analysis returns is
-- evaluated, from any state, exactly as by the evaluator without the checks of tickets and arities.
-- With handlers that only charge work and return, and limits that a usize holds, evaluating it from
-- a state within its budgets ends, and makes at most as many steps as the profile allows nodes.
pub analyze-trusting :
    (f64 : FloatOps) (context : RuntimeContext) (limits : EvalLimits)
    (resources : RuntimeResourceLimits) (compile : RegexFlavor → Text → ℕ → Option Text)
    (analyzer : Analyzer) (schema : RuntimeSchema) (e : AstExpression) (p : VerifiedProgram)
    (depth : ℕ)
    → analyzer.options.allow_unknown_functions ≡ false
    → analyzer.options.allow_unknown_methods ≡ false
    → analyze compile analyzer schema e ≡ ok p
    → (eval f64 context limits resources p.root depth
        ≡ trusting f64 context limits resources p.root depth)
      × ((σ : EvalState)
          → AreUsize resources
          → IsHonest context.registry
          → σ.steps ≤ limits.max_steps
          → σ.processed_bytes ≤ resources.max_total_value_bytes
          → Ends
              (λ (r : Value × EvalState). r.1.steps ≤ σ.steps + analyzer.profile.max_ast_nodes)
              (eval f64 context limits resources p.root depth σ))
analyze-trusting f64 context limits resources compile analyzer schema e p depth functions methods
      h =
    let (_, verified_if, _) = analyze-IsVerified compile analyzer schema e in
    let v = verified_if p h in
    (
      eval-trusting f64 context limits resources analyzer.options _ functions methods p.root depth
          v.ticketed,
      λ σ usize honest steps bytes.
          Ends-map (λ r (_, _, _, _, _, few, _). omega (arith, few, v.small))
            (eval-Ends f64 context limits resources p.root depth σ usize honest steps bytes),
    )
