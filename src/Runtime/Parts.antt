-- ===== src/Runtime/Parts.antt =====
-- The parts of an evaluation, each from a state within the budgets.
use online_dsl_forge.Base.{
  ℕ, ◌+◌, ◌≤◌, Bool, true, false, ◌∷◌, ◌≡◌, refl, ap, arith, Text, Option, none, some, Result, err,
  ltb, Ends, Ends-bind, Ends-fail_if, Ends-ok_or, accepts, refuses, Verdict-map, byte_length,
}
use online_dsl_forge.Syntax.{SourceSpan, UnaryOp, BinaryOp}
use online_dsl_forge.Value.{Value}
use online_dsl_forge.Runtime.{
  EvalError, EvalLimits, RuntimeResourceLimits, eval_error, unknown_variable, depth_limit,
}
use online_dsl_forge.Runtime.Charges.{AreUsize}
use online_dsl_forge.Runtime.Operators.{FloatOps, expect_bool}
use online_dsl_forge.Runtime.Registry.{
  RuntimeContext, RuntimeCallContext, UnaryEntry, BinaryEntry, at_span,
}
use online_dsl_forge.Runtime.Evaluator.{
  lift, ◌>>=◌, EvalState, Eval, admit, Frame, eval_variable, eval_identifier, eval_member,
  unary_result, binary_result, eval_unary, clone_admitted, local_value, member_of, builtin_unary,
  eval_builtin_binary, eval_operator, with_frame, enter, dispatch, pop, call_context,
  checked_string,
}
use online_dsl_forge.Runtime.Honest.{IsHonest, Charges}
use online_dsl_forge.Runtime.Metering.{
  IsState, Moves, Evaluates, Evaluates-trans, admit-Ends, lift-Ends, step-Ends,
}
use online_dsl_forge.Runtime.Returns.{
  Returns, at_span-Returns, builtin_unary-Returns, eval_builtin_binary-Returns, fail_if-Returns,
  expect_bool-Returns,
}

module _ (f64 : FloatOps) (context : RuntimeContext) (limits : EvalLimits)
    (resources : RuntimeResourceLimits) (usize : AreUsize resources)
    (honest : IsHonest context.registry) where
  abbrev pub State : EvalState → Type 0
  State = IsState f64 context limits resources usize

  abbrev pub Going : ℕ → EvalState → EvalState → Type 0
  Going = Moves f64 context limits resources usize

  abbrev pub Done : ℕ → EvalState → Value × EvalState → Type 0
  Done = Evaluates f64 context limits resources usize

  pub after :
      {a b n : ℕ} {σ σ' : EvalState} {r : Result EvalError (Value × EvalState)}
      → a + b ≤ n
      → Going a σ σ'
      → Ends (Done b σ') r
      → Ends (Done n σ) r
  after h m ends =
      Verdict-map (λ r e. Evaluates-trans f64 context limits resources usize h m e) (λ b. b) ends

  pub stay : (σ : EvalState) → State σ → Going 0 σ σ
  stay σ state = record {
    state = state;
    few_steps = omega arith;
    only_charged = omega arith;
    same_locals = refl;
  }

  pub admit-Done :
      (v : Value) (span : SourceSpan) (σ : EvalState)
      → State σ
      → Ends (Done 0 σ) (admit f64 context limits resources v span σ)
  admit-Done = admit-Ends f64 context limits resources usize

  variable-Done :
      (name : Text) (span : SourceSpan) (σ : EvalState)
      → State σ
      → Ends (Done 0 σ) (eval_variable f64 context limits resources name span σ)
  unfolding eval_variable clone_admitted
  variable-Done name span σ state = go (context.get_variable_borrowed name)
    where
      owned : Option Value → Eval Value
      owned (some v) = admit f64 context limits resources v span
      owned none = λ σ. err (eval_error (unknown_variable name) span)

      from_owned : (o : Option Value) → Ends (Done 0 σ) (owned o σ)
      from_owned (some v) = admit-Done v span σ state
      from_owned none = refuses tt

      choose : Option Value → Eval Value
      choose (some v) = admit f64 context limits resources v span
      choose none = owned (context.get_variable name)

      go : (o : Option Value) → Ends (Done 0 σ) (choose o σ)
      go (some v) = admit-Done v span σ state
      go none = from_owned (context.get_variable name)

  pub identifier-Done :
      (name : Text) (span : SourceSpan) (σ : EvalState)
      → State σ
      → Ends (Done 0 σ) (eval_identifier f64 context limits resources name span σ)
  unfolding eval_identifier clone_admitted
  identifier-Done name span σ state = go (local_value name σ.locals)
    where
      go :
          (o : Option Value)
          → Ends (Done 0 σ) (elim o [
            | some v ↦ admit f64 context limits resources v span σ
            | none ↦ eval_variable f64 context limits resources name span σ
          ])
      go (some v) = admit-Done v span σ state
      go none = variable-Done name span σ state

  pub member-Done :
      (v : Value) (name : Text) (span : SourceSpan) (σ : EvalState)
      → State σ
      → Ends (Done 0 σ) (eval_member f64 context limits resources v name span σ)
  unfolding eval_member clone_admitted
  member-Done (Value.object es) name span σ state =
      Ends-ok_or (member_of name es) _ λ v _. admit-Done v span σ state
  member-Done _ name span σ state = refuses tt

  unary_result-Returns :
      (op : UnaryOp) (v : Value) (span : SourceSpan)
      → Returns (unary_result f64 context limits resources op v span)
  unfolding unary_result
  unary_result-Returns op v span = go (context.registry.unary_ops op) refl
    where
      go :
          (o : Option UnaryEntry)
          → context.registry.unary_ops op ≡ o
          → Returns (elim o [
            | some registered ↦ at_span span (registered.handler v)
            | none ↦ builtin_unary f64 context limits resources op v span
          ])
      go (some registered) e = at_span-Returns span (honest.unary_return op e v)
      go none e = builtin_unary-Returns f64 span context limits resources op v

  binary_result-Returns :
      (l : Value) (op : BinaryOp) (r : Value) (span : SourceSpan)
      → Returns (binary_result f64 context limits resources l op r span)
  unfolding binary_result
  binary_result-Returns l op r span = go (context.registry.binary_ops op) refl
    where
      go :
          (o : Option BinaryEntry)
          → context.registry.binary_ops op ≡ o
          → Returns (elim o [
            | some registered ↦ at_span span (registered.handler l r)
            | none ↦ eval_builtin_binary f64 context limits resources l op r span
          ])
      go (some registered) e = at_span-Returns span (honest.binary_return op e l r)
      go none e = eval_builtin_binary-Returns f64 span context limits resources l op r

  pub unary-Done :
      (op : UnaryOp) (v : Value) (span : SourceSpan) (σ : EvalState)
      → State σ
      → Ends (Done 0 σ) (eval_unary f64 context limits resources op v span σ)
  unfolding eval_unary
  unary-Done op v span σ state =
      lift-Ends f64 context limits resources usize _ _ σ (unary_result-Returns op v span)
        λ w. admit-Done w span σ state

  -- `right` evaluates the right operand, in at most `n` steps.
  pub operator-Done :
      (l : Value) (op : BinaryOp) (right : Eval Value) (n : ℕ) (span : SourceSpan) (σ : EvalState)
      → State σ
      → Ends (Done n σ) (right σ)
      → Ends (Done n σ) (eval_operator f64 context limits resources l op right span σ)
  unfolding eval_operator
  operator-Done l op right n span σ state ends = go op
    where
      shortly :
          (b : Bool) → Ends (Done n σ) (admit f64 context limits resources (Value.bool b) span σ)
      shortly b = after (omega arith) (stay σ state) (admit-Done (Value.bool b) span σ state)

      bool_of : Ends (Done n σ) (
          (right >>= λ r.
          lift (expect_bool r span) >>= λ b. admit f64 context limits resources (Value.bool b) span)
            σ)
      bool_of = Ends-bind ends λ (r, σ') e. after (omega arith) e.moves (
          lift-Ends f64 context limits resources usize _ _ σ' (expect_bool-Returns r span)
            λ b. admit-Done (Value.bool b) span σ' e.moves.state)

      both :
          (op : BinaryOp)
          → Ends (Done n σ) (
              (right >>= λ r. lift (binary_result f64 context limits resources l op r span) >>= λ w.
              admit f64 context limits resources w span)
                σ)
      both op = Ends-bind ends λ (r, σ') e. after (omega arith) e.moves (
          lift-Ends f64 context limits resources usize _ _ σ' (binary_result-Returns l op r span)
            λ w. admit-Done w span σ' e.moves.state)

      rest : Eval Value
      rest = right >>= λ r.
          lift (expect_bool r span) >>= λ b. admit f64 context limits resources (Value.bool b) span

      and_case :
          (b : Bool)
          → Ends (Done n σ) (
              (elim b as (λ _. Eval Value) [
                | false ↦ admit f64 context limits resources (Value.bool false) span
                | true ↦ rest
              ])
                σ)
      and_case false = shortly false
      and_case true = bool_of

      or_case :
          (b : Bool)
          → Ends (Done n σ) (
              (elim b as (λ _. Eval Value) [
                | true ↦ admit f64 context limits resources (Value.bool true) span
                | false ↦ rest
              ])
                σ)
      or_case true = shortly true
      or_case false = bool_of

      go :
          (op : BinaryOp)
          → Ends (Done n σ) (eval_operator f64 context limits resources l op right span σ)
      go BinaryOp.and =
          lift-Ends f64 context limits resources usize _ _ σ (expect_bool-Returns l span) and_case
      go BinaryOp.or =
          lift-Ends f64 context limits resources usize _ _ σ (expect_bool-Returns l span) or_case
      go op = both op

  -- A handler charges, and its result is admitted.
  pub dispatch-Done :
      (call : RuntimeCallContext → Result EvalError (Value × ℕ)) (span : SourceSpan) (σ : EvalState)
      → State σ
      → ((c : RuntimeCallContext) → c.processed_bytes ≤ c.max_total_bytes → Charges c (call c))
      → Ends (Done 0 σ) (dispatch f64 context limits resources call span σ)
  dispatch-Done call span σ state charges =
      Ends-bind (charges (call_context f64 context limits resources span σ) state.affordable)
        λ (v, processed) paid.
          let charged : EvalState = record σ { processed_bytes = processed } in
          let moves : Going 0 σ charged = record {
            state = record { steps_fit = state.steps_fit; affordable = paid.1 };
            few_steps = omega arith;
            only_charged = paid.0;
            same_locals = refl;
          } in
          after (omega arith) moves (admit-Done v span charged moves.state)

  -- The frame is gone behind the body.
  pub frame-Done :
      (frame : Frame) (body : Eval Value) (n : ℕ) (σ : EvalState)
      → State σ
      → Ends
          (Done n (record σ { locals = frame ∷ σ.locals }))
          (body (record σ { locals = frame ∷ σ.locals }))
      → Ends (Done n σ) (with_frame f64 context limits resources frame body σ)
  frame-Done frame body n σ state ends = Ends-bind ends λ (v, σ') e. accepts (record {
    moves = record {
      state = record { steps_fit = e.moves.state.steps_fit; affordable = e.moves.state.affordable };
      few_steps = e.moves.few_steps;
      only_charged = e.moves.only_charged;
      same_locals = ap pop e.moves.same_locals;
    };
    admitted = e.admitted;
    paid = e.paid;
  })

  pub enter-Going :
      (span : SourceSpan) (depth : ℕ) (σ : EvalState)
      → State σ
      → Ends (λ r. Going 1 σ r.1) (enter f64 context limits resources span depth σ)
  enter-Going span depth σ state =
      Ends-bind (step-Ends f64 context limits resources usize span σ state) λ (_, σ') m.
        Ends-bind (fail_if-Returns (ltb limits.max_depth depth) (eval_error depth_limit span))
          λ _ _. accepts m

  pub string-Done :
      (t : Text) (span : SourceSpan) (σ : EvalState)
      → State σ
      → Ends (Done 0 σ) (checked_string f64 context limits resources t span σ)
  unfolding checked_string
  string-Done t span σ state =
      Ends-fail_if (ltb limits.max_string_bytes (byte_length t)) _
        λ _. admit-Done (Value.string t) span σ state
