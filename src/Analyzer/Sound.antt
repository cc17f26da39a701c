-- ===== src/Analyzer/Sound.antt =====
-- The analysis of an expression ends.
use online_dsl_forge.Base.{
  ◌≡◌, refl, ◌∙◌, sym, ap, ◌≤◌, arith, [], ◌∷◌, inl, inr, suc, zero, Returns, accepts, Text, ℕ,
  Option, Bool-cases, List, ltb, Option-cases, Returns-bind, ltb→le, length, Returns-map,
}
use online_dsl_forge.Analyzer.{Analyzer, ExprAnalysis}
use online_dsl_forge.Analyzer.State.{AnalyzeState, Analyze, InlineFrame}
use online_dsl_forge.Analyzer.Moves.{
  Quiet, Moves, IsFine, stay, then, IsRequired, Quiet-Moves, complain_if-Quiet, Moves-trans,
  Moves-then,
}
use online_dsl_forge.Analyzer.Tickets.{IsTicketed}
use online_dsl_forge.Verified.{size}
use online_dsl_forge.Analyzer.Parts.{
  Inner, Lowered, Analyzes, Ready, array-Inner, member-Inner, unary-Inner, binary-Inner,
  Ready-Moves,
}
use online_dsl_forge.Analyzer.Calls.{method_call-Inner}
use online_dsl_forge.Analyzer.Functions.{function_call-Inner}
use online_dsl_forge.Schema.{RegexFlavor, RuntimeSchema}
use online_dsl_forge.Schema.Identified.{AreIdentified}
use online_dsl_forge.Syntax.{AstExpression, SourceSpan, ExprKind, span_of, kind_of}
use online_dsl_forge.Analyzer.Expressions.{
  analyze_expression, analyze_identifier, analyze_kind, analyze_charged, analyze_inlining,
  max_depth, local_binding,
}
use online_dsl_forge.Analyzer.Charges.{
  Moves-loud, charge_node-Charged, report_depth_limit-Moves, charge_scalar-Charged, framed-IsFine,
  framed-Moves,
}
use online_dsl_forge.Analyzer.Limits.{charge_node, expression_scalar_bytes}
use online_dsl_forge.Analyzer.Regex.{frame_argument}
use online_dsl_forge.Analyzer.Quiet.{variable_phase-Quiet}

module _ (compile : RegexFlavor → Text → ℕ → Option Text) (analyzer : Analyzer)
    (schema : RuntimeSchema) (ids : AreIdentified schema) where
  abbrev node_limit : ℕ
  node_limit = analyzer.profile.max_ast_nodes

  module _ (fuel : ℕ) (recurse : AstExpression → ℕ → Analyze ExprAnalysis)
      (rec : Analyzes compile analyzer schema ids fuel recurse) where
    abbrev ResultOf : AnalyzeState → Analyze ExprAnalysis → Type 0
    ResultOf σ m = Returns (Inner analyzer.options node_limit σ) (m σ)

    abbrev Start : ℕ → AnalyzeState → Type 0
    Start depth σ = Ready compile analyzer schema ids fuel recurse rec depth σ

    leaf-Inner :
        (a : ExprAnalysis) (σ σ' : AnalyzeState)
        → IsFine node_limit σ
        → Quiet σ σ'
        → size a.expr ≤ 1
        → IsTicketed analyzer.options (IsRequired σ') a.expr
        → Inner analyzer.options node_limit σ (a, σ')
    leaf-Inner a σ σ' fine q small ticketed = record {
      paid = 0;
      small = small;
      moves = Quiet-Moves fine q;
      ticketed = λ h. ticketed;
    }

    identifier-Inner :
        (name : Text) (span : SourceSpan) (σ : AnalyzeState)
        → IsFine node_limit σ
        → Inner analyzer.options node_limit σ
            (analyze_identifier compile analyzer schema name span σ)
    unfolding analyze_identifier size IsTicketed
    identifier-Inner name span σ fine = elim (Option-cases (local_binding name σ.local_bindings)) [
      | inr (binding, e) ↦
          rw (e, analyze_identifier) (leaf-Inner _ σ σ fine (stay σ) (omega arith) (tt, tt))
      | inl e ↦
          rw (e, analyze_identifier)
            (leaf-Inner _ σ _ fine
              (then (complain_if-Quiet _ _ span σ)
                (variable_phase-Quiet analyzer schema name span _))
              (omega arith) (tt, tt))
    ]

    kind-Inner :
        (k : ExprKind) (span : SourceSpan) (depth : ℕ) (σ : AnalyzeState)
        → IsFine node_limit σ
        → Start depth σ
        → ResultOf σ (analyze_kind compile analyzer schema recurse k span depth)
    unfolding analyze_kind size IsTicketed
    kind-Inner ExprKind.null span depth σ fine ready =
        accepts (leaf-Inner _ σ σ fine (stay σ) (omega arith) (tt, tt))
    kind-Inner (ExprKind.bool b) span depth σ fine ready =
        accepts (leaf-Inner _ σ σ fine (stay σ) (omega arith) (tt, tt))
    kind-Inner (ExprKind.int n) span depth σ fine ready =
        accepts (leaf-Inner _ σ σ fine (stay σ) (omega arith) (tt, tt))
    kind-Inner (ExprKind.float x) span depth σ fine ready =
        accepts (leaf-Inner _ σ σ fine (stay σ) (omega arith) (tt, tt))
    kind-Inner (ExprKind.string t) span depth σ fine ready =
        accepts (leaf-Inner _ σ σ fine (stay σ) (omega arith) (tt, tt))
    kind-Inner (ExprKind.identifier name) span depth σ fine ready =
        accepts (identifier-Inner name span σ fine)
    kind-Inner (ExprKind.array items) span depth σ fine ready =
        array-Inner compile analyzer schema ids fuel recurse rec items span depth σ fine ready
    kind-Inner (ExprKind.member receiver name) span depth σ fine ready =
        member-Inner compile analyzer schema ids fuel recurse rec receiver name span depth σ fine
          ready
    kind-Inner (ExprKind.function_call name args) span depth σ fine ready =
        function_call-Inner compile analyzer schema ids fuel recurse rec name args span depth σ fine
          ready
    kind-Inner (ExprKind.method_call receiver name args) span depth σ fine ready =
        method_call-Inner compile analyzer schema ids fuel recurse rec receiver name args span depth
          σ fine ready
    kind-Inner (ExprKind.unary op e) span depth σ fine ready =
        unary-Inner compile analyzer schema ids fuel recurse rec op e span depth σ fine ready
    kind-Inner (ExprKind.binary l op r) span depth σ fine ready =
        binary-Inner compile analyzer schema ids fuel recurse rec l op r span depth σ fine ready

    -- A complaint stands for any expression.
    noisy-Lowered :
        {σ : AnalyzeState} (r : ExprAnalysis × AnalyzeState)
        → ((n : ℕ) → Moves node_limit n σ r.1)
        → Lowered analyzer.options node_limit σ r
    noisy-Lowered r m = record {
      moves = m (size r.0.expr);
      ticketed = λ h. absurd (Moves-loud m h);
    }

    charged-Lowered :
        (e : AstExpression) (depth : ℕ) (σ : AnalyzeState)
        → IsFine node_limit σ
        → Start depth σ
        → Returns
            (Lowered analyzer.options node_limit σ)
            (analyze_charged compile analyzer schema recurse e depth σ)
    unfolding analyze_charged
    charged-Lowered e depth σ fine ready = elim (charge_node-Charged (span_of e) σ fine) [
      | inr (refused, m) ↦ rw (refused, analyze_charged) (accepts (noisy-Lowered _ m))
      | inl (charged, m) ↦
          let σ₁ = (charge_node node_limit (span_of e) σ).1 in
          elim (charge_scalar-Charged (expression_scalar_bytes (kind_of e)) (span_of e) σ₁ m.fine) [
            | inr (refused, n) ↦
                rw (charged, analyze_charged, refused)
                  (accepts (noisy-Lowered _ λ k. Moves-trans (omega arith) m (n k)))
            | inl (paid, n) ↦
                rw (charged, analyze_charged, paid)
                  (Returns-map
                    (λ r i. record {
                      moves = Moves-trans (omega (arith, i.small)) m (Moves-then n i.moves);
                      ticketed = i.ticketed;
                    })
                    (kind-Inner (kind_of e) (span_of e) depth _ n.fine (
                      Ready-Moves compile analyzer schema ids fuel recurse rec
                        (Ready-Moves compile analyzer schema ids fuel recurse rec ready m) n)))
          ]
    ]

    inlining-Lowered :
        (e : AstExpression) (depth : ℕ) (frames : List InlineFrame) (σ : AnalyzeState)
        → IsFine node_limit σ
        → Start depth σ
        → σ.inline_bindings ≡ frames
        → Returns
            (Lowered analyzer.options node_limit σ)
            (analyze_inlining compile analyzer schema recurse e depth frames σ)
    unfolding analyze_inlining
    inlining-Lowered e depth [] σ fine ready same = charged-Lowered e depth σ fine ready
    inlining-Lowered e depth (frame ∷ frames) σ fine ready same =
        elim (Option-cases (frame_argument e frame)) [
          | inl h ↦ rw (h, analyze_inlining) (charged-Lowered e depth σ fine ready)
          | inr (binding, h) ↦
              rw (h, analyze_inlining)
                (Returns-bind
                  (rec binding depth (record σ { inline_bindings = frames }) (framed-IsFine fine)
                    (omega arith, let n = ap length same in omega (arith, n, ready.1)))
                  λ (a, σ') l. accepts (record {
                    moves =
                        framed-Moves (ap (λ fs. frame ∷ fs) l.moves.same_inline ∙ sym same)
                          l.moves.same_local l.moves.same_active l.moves;
                    ticketed = l.ticketed;
                  }))
        ]

  pub expression-Lowered :
      (fuel : ℕ)
      → Analyzes compile analyzer schema ids fuel (analyze_expression compile analyzer schema fuel)
  unfolding analyze_expression
  expression-Lowered zero e depth σ fine fueled = absurd (omega (arith, fueled.0, fueled.1))
  expression-Lowered (suc fuel) e depth σ fine fueled =
      elim (Bool-cases (ltb (max_depth compile analyzer schema) depth)) [
        | inl deep ↦
            rw (deep, analyze_expression)
              (accepts (record {
                moves = report_depth_limit-Moves _ (span_of e) σ fine;
                ticketed =
                    λ h. absurd (Moves-loud (λ n. report_depth_limit-Moves n (span_of e) σ fine) h);
              }))
        | inr fits ↦
            rw (fits, analyze_expression)
              (inlining-Lowered fuel (analyze_expression compile analyzer schema fuel)
                (expression-Lowered fuel) e depth σ.inline_bindings σ fine
                (ltb→le _ _ fits, fueled.1) refl)
      ]
