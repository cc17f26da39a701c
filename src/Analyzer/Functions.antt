-- ===== src/Analyzer/Functions.antt =====
-- Expression functions, inlined or called in a frame of their own.
use online_dsl_forge.Base.{
  ◌≡◌, refl, ◌∙◌, sym, ap, ◌+◌, arith, inl, inr, Returns, accepts, Text, ℕ, Option, Returns-bind,
  length, Bool-cases, Option-cases, ◌==◌, Returns-map, ==_iff,
}
use online_dsl_forge.Analyzer.{Analyzer, ExprAnalysis, ExpressionFunctionMode, CompileOptions}
use online_dsl_forge.Analyzer.State.{AnalyzeState, Analyze, drop_top}
use online_dsl_forge.Analyzer.Moves.{Moves, IsFine, Moves-then, Moves-trans}
use online_dsl_forge.Analyzer.Tickets.{IsTicketed, AllTicketed-map}
use online_dsl_forge.Analyzer.Charges.{
  Moves-loud, problem-Loud, loud-Moves, framed-IsFine, framed-Moves, charge_params-Charged,
}
use online_dsl_forge.Verified.{size, args_size}
use online_dsl_forge.Analyzer.Parts.{Inner, Analyzes, Ready, all-Lowered, deeper, Ready-Moves}
use online_dsl_forge.Analyzer.Calls.{host_call-Inner}
use online_dsl_forge.Schema.{
  RegexFlavor, RuntimeSchema, ExpressionFunction, expression_function_for_scope,
}
use online_dsl_forge.Schema.Identified.{AreIdentified}
use online_dsl_forge.Syntax.{AstExpression, SourceSpan, Expressions, len}
use online_dsl_forge.Analyzer.Expressions.{
  analyze_inlined, analyze_framed, function_problem, analyze_inline, analyze_call_frame,
  analyze_expression_function, analyze_function_call, is_active, current_function_scope,
}
use online_dsl_forge.Analyzer.Limits.{charge_params}

-- A complaint stands for any expression.
pub noisy-Inner :
    {options : CompileOptions} {nodes : ℕ} {σ : AnalyzeState} (r : ExprAnalysis × AnalyzeState)
    → ((n : ℕ) → Moves nodes n σ r.1)
    → Inner options nodes σ r
noisy-Inner r m = record {
  paid = size r.0.expr;
  small = omega arith;
  moves = m (size r.0.expr);
  ticketed = λ h. absurd (Moves-loud m h);
}

module _ (compile : RegexFlavor → Text → ℕ → Option Text) (analyzer : Analyzer)
    (schema : RuntimeSchema) (ids : AreIdentified schema) (fuel : ℕ)
    (recurse : AstExpression → ℕ → Analyze ExprAnalysis)
    (rec : Analyzes compile analyzer schema ids fuel recurse) where
  abbrev Yields : AnalyzeState → Analyze ExprAnalysis → Type 0
  Yields σ m = Returns (Inner analyzer.options analyzer.profile.max_ast_nodes σ) (m σ)

  abbrev Start : ℕ → AnalyzeState → Type 0
  Start depth σ = Ready compile analyzer schema ids fuel recurse rec depth σ

  problem-Inner :
      (a : ExprAnalysis) (message : Text) (span : SourceSpan) (σ : AnalyzeState)
      → IsFine analyzer.profile.max_ast_nodes σ
      → Inner analyzer.options analyzer.profile.max_ast_nodes σ
          (a, function_problem compile analyzer schema message span σ)
  problem-Inner a message span σ fine =
      let (q, loud) = problem-Loud schema.expression_function_limits message span σ in
      noisy-Inner (a, function_problem compile analyzer schema message span σ)
        λ n. loud-Moves fine q loud

  inlined-Inner :
      (function : ExpressionFunction) (args : Expressions) (depth : ℕ) (σ : AnalyzeState)
      → IsFine analyzer.profile.max_ast_nodes σ
      → Start depth σ
      → Yields σ (analyze_inlined compile analyzer schema recurse function args depth)
  unfolding analyze_inlined
  inlined-Inner function args depth σ fine (d, f) =
      Returns-bind
        (rec function.expression (depth + 1) _ (framed-IsFine fine) (omega arith, omega arith))
        λ (a, σ') l. accepts (record {
          paid = size a.expr;
          small = omega arith;
          moves =
              framed-Moves (ap drop_top l.moves.same_inline) l.moves.same_local
                (ap drop_top l.moves.same_active) l.moves;
          ticketed = l.ticketed;
        })

  framed-Inner :
      (function : ExpressionFunction) (args : Expressions) (span : SourceSpan) (depth : ℕ)
      (σ : AnalyzeState)
      → IsFine analyzer.profile.max_ast_nodes σ
      → Start depth σ
      → length function.params ≡ len args
      → Yields σ (analyze_framed compile analyzer schema recurse function args span depth)
  unfolding analyze_framed size IsTicketed
  framed-Inner function args span depth σ fine ready arity =
      Returns-bind
        (all-Lowered compile analyzer schema ids fuel recurse rec args depth _ σ fine ready)
        λ (a, σ₁) l.
          let ready₁ = Ready-Moves compile analyzer schema ids fuel recurse rec ready l.moves in
          Returns-bind
            (rec function.expression (depth + 1) _ (framed-IsFine l.moves.fine)
              (deeper compile analyzer schema ids fuel recurse rec σ₁ ready₁))
            λ (b, σ₂) m.
              let back =
                framed-Moves m.moves.same_inline (ap drop_top m.moves.same_local)
                  (ap drop_top m.moves.same_active) m.moves in
              accepts (record {
                paid = args_size a.exprs + size b.expr;
                small = omega arith;
                moves = Moves-then l.moves back;
                ticketed = λ h. (
                  arity ∙ sym l.same_count,
                  (
                    AllTicketed-map analyzer.options (λ t x. m.moves.kept t x) a.exprs
                        (l.ticketed (m.moves.clean h)),
                    m.ticketed h,
                  ),
                );
              })

  inline-Inner :
      (function : ExpressionFunction) (args : Expressions) (span : SourceSpan) (depth : ℕ)
      (σ : AnalyzeState)
      → IsFine analyzer.profile.max_ast_nodes σ
      → Start depth σ
      → Yields σ (analyze_inline compile analyzer schema recurse function args span depth)
  unfolding analyze_inline
  inline-Inner function args span depth σ fine ready =
      elim (Bool-cases (length function.params == len args)) [
        | inr wrong ↦ rw (wrong, analyze_inline) (accepts (problem-Inner _ _ span σ fine))
        | inl same ↦ elim (Bool-cases (is_active compile analyzer schema recurse function σ)) [
          | inl active ↦ rw (same, analyze_inline, active) (accepts (problem-Inner _ _ span σ fine))
          | inr fresh ↦
              rw (same, analyze_inline, fresh) (inlined-Inner function args depth σ fine ready)
        ]
      ]

  call_frame-Inner :
      (function : ExpressionFunction) (args : Expressions) (span : SourceSpan) (depth : ℕ)
      (σ : AnalyzeState)
      → IsFine analyzer.profile.max_ast_nodes σ
      → Start depth σ
      → Yields σ (analyze_call_frame compile analyzer schema recurse function args span depth)
  unfolding analyze_call_frame
  call_frame-Inner function args span depth σ fine ready =
      elim (Bool-cases (length function.params == len args)) [
        | inr wrong ↦ rw (wrong, analyze_call_frame) (accepts (problem-Inner _ _ span σ fine))
        | inl same ↦ elim (charge_params-Charged function.params span σ fine) [
          | inr (refused, m) ↦ rw (same, analyze_call_frame, refused) (accepts (noisy-Inner _ m))
          | inl (charged, m) ↦
              elim (Bool-cases (
                is_active compile analyzer schema recurse function
                  (charge_params function.params span σ).1)) [
                    | inl active ↦
                        rw (same, analyze_call_frame, charged, active)
                          (accepts (
                            after-Moves m (
                              problem-Inner _ _ span (charge_params function.params span σ).1
                                m.fine)))
                    | inr fresh ↦
                        rw (same, analyze_call_frame, charged, fresh)
                          (Returns-map (λ r i. after-Moves m i)
                            (framed-Inner function args span depth
                              (charge_params function.params span σ).1 m.fine
                              (Ready-Moves compile analyzer schema ids fuel recurse rec ready m)
                              ((==_iff (length function.params) (len args)).0 same)))
                  ]
        ]
      ]
    where
      after-Moves :
          {σ' : AnalyzeState} {r : ExprAnalysis × AnalyzeState}
          → Moves analyzer.profile.max_ast_nodes 0 σ σ'
          → Inner analyzer.options analyzer.profile.max_ast_nodes σ' r
          → Inner analyzer.options analyzer.profile.max_ast_nodes σ r
      after-Moves m i = record {
        paid = i.paid;
        small = i.small;
        moves = Moves-trans (omega arith) m i.moves;
        ticketed = i.ticketed;
      }

  pub expression_function-Inner :
      (function : ExpressionFunction) (args : Expressions) (span : SourceSpan) (depth : ℕ)
      (σ : AnalyzeState)
      → IsFine analyzer.profile.max_ast_nodes σ
      → Start depth σ
      → Yields σ
          (analyze_expression_function compile analyzer schema recurse function args span depth)
  unfolding analyze_expression_function
  expression_function-Inner function args span depth σ fine ready =
      go analyzer.expression_function_mode refl
    where
      go :
          (mode : ExpressionFunctionMode)
          → analyzer.expression_function_mode ≡ mode
          → Yields σ
              (analyze_expression_function compile analyzer schema recurse function args span depth)
      go ExpressionFunctionMode.inline e =
          rw (e, analyze_expression_function) (inline-Inner function args span depth σ fine ready)
      go ExpressionFunctionMode.call_frame e =
          rw (e, analyze_expression_function)
            (call_frame-Inner function args span depth σ fine ready)

  pub function_call-Inner :
      (name : Text) (args : Expressions) (span : SourceSpan) (depth : ℕ) (σ : AnalyzeState)
      → IsFine analyzer.profile.max_ast_nodes σ
      → Start depth σ
      → Yields σ (analyze_function_call compile analyzer schema recurse name args span depth)
  unfolding analyze_function_call
  function_call-Inner name args span depth σ fine ready =
      elim (Option-cases (
        expression_function_for_scope schema name
          (current_function_scope compile analyzer schema σ))) [
            | inl e ↦
                rw (e, analyze_function_call)
                  (host_call-Inner compile analyzer schema ids fuel recurse rec name args span depth
                    σ fine ready)
            | inr (function, e) ↦
                rw (e, analyze_function_call)
                  (expression_function-Inner function args span depth σ fine ready)
          ]
