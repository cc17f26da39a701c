-- ===== src/Analyzer/Lowering.antt =====
-- source/src/sema/analyzer/limits.rs, `preflight_lowering`: the nodes and bytes of the lowered
-- program are counted before it is built.
use online_dsl_forge.Base.{
  ◌>>=◌ as ◌>>=ᴿ◌, zero, suc, none, some, [], ◌∷◌, ℕ, List, Bool, true, false, Text, Option, ok,
  out_of_fuel, ltb, ◌==◌, byte_length, length,
}
use online_dsl_forge.Analyzer.{Analyzer, ExpressionFunctionMode}
use online_dsl_forge.Analyzer.State.{AnalyzeState, Analyze, InlineFrame, FunctionKey}
use online_dsl_forge.Analyzer.Limits.{
  within, expression_scalar_bytes, max_lowered_scalar_bytes, report_depth_limit, report_node_limit,
  report_scalar_byte_limit,
}
use online_dsl_forge.Analyzer.Expressions.{max_depth, enough_fuel, key_eq, function_key}
use online_dsl_forge.Analyzer.Regex.{frame_argument}
use online_dsl_forge.Schema.{
  RegexFlavor, RuntimeSchema, ExpressionFunction, ExpressionFunctionScope,
  expression_function_for_scope,
}
use online_dsl_forge.Syntax.{
  AstExpression, Expressions, ExprKind, SourceSpan, cons, kind_of, span_of, nil, len,
}
use online_dsl_forge.Base.Usize.{checked_add}
use online_dsl_forge.Map.{contains_key}

pub record Counts : Type 0 where
  pub nodes : ℕ
  pub scalar_bytes : ℕ

-- A count goes on, or was refused.
abbrev pub Count : Type 0
Count = Counts → Analyze (Bool × Counts)

abbrev pub refuse : (AnalyzeState → AnalyzeState) → Count
refuse report counts σ = ok ((false, counts), report σ)

abbrev pub accept : Count
accept counts σ = ok ((true, counts), σ)

-- The second count if the first goes on.
unfoldable pub both : Count → Count → Count
both m k counts σ = ◌>>=ᴿ◌ (m counts σ) λ ((accepted, counts'), σ'). elim accepted [
  | false ↦ ok ((false, counts'), σ')
  | true ↦ k counts' σ'
]

unfoldable pub charge_preflight_scalar_bytes : ℕ → SourceSpan → Count
charge_preflight_scalar_bytes bytes span counts σ =
    elim (within counts.scalar_bytes bytes max_lowered_scalar_bytes) [
      | none ↦ refuse (report_scalar_byte_limit span) counts σ
      | some next ↦ accept (record counts { scalar_bytes = next }) σ
    ]

unfoldable pub charge_preflight_node : ℕ → SourceSpan → Count
charge_preflight_node max_ast_nodes span counts σ = elim (within counts.nodes 1 max_ast_nodes) [
  | none ↦ refuse (report_node_limit span) counts σ
  | some next ↦ accept (record counts { nodes = next }) σ
]

-- `params.iter().all(|param| self.charge_preflight_scalar_bytes(...))`.
unfoldable pub charge_preflight_params : List Text → SourceSpan → Count
charge_preflight_params [] span = accept
charge_preflight_params (p ∷ ps) span =
    both (charge_preflight_scalar_bytes (byte_length p) span) (charge_preflight_params ps span)

-- `active.last()`, whose first entry is the last here.
abbrev pub scope_of : List FunctionKey → ExpressionFunctionScope → ExpressionFunctionScope
scope_of [] scope = scope
scope_of ((scope', name) ∷ active) scope = scope'

module _ (compile : RegexFlavor → Text → ℕ → Option Text) (analyzer : Analyzer)
    (schema : RuntimeSchema) where
  module _ (recurse : AstExpression → ℕ → List InlineFrame → List FunctionKey → Count) where
    unfoldable pub count_all : Expressions → ℕ → List InlineFrame → List FunctionKey → Count
    count_all nil depth bindings active = accept
    count_all (cons e es) depth bindings active =
        both (recurse e depth bindings active) (count_all es depth bindings active)

    -- The body behind the arguments, or with them for its parameters.
    unfoldable pub count_body :
        ExpressionFunction
        → Expressions
        → SourceSpan
        → ℕ
        → List InlineFrame
        → List FunctionKey
        → Count
    count_body function args span depth bindings active = elim analyzer.expression_function_mode [
      | ExpressionFunctionMode.call_frame ↦ both (charge_preflight_params function.params span) (
          both (count_all args depth bindings active)
            (recurse function.expression depth bindings (function_key function ∷ active)))
      | ExpressionFunctionMode.inline ↦
          recurse function.expression depth ((function.params, args) ∷ bindings)
            (function_key function ∷ active)
    ]

    unfoldable pub count_call :
        Text → Expressions → SourceSpan → ℕ → List InlineFrame → List FunctionKey → Count
    count_call name args span depth bindings active =
        elim (expression_function_for_scope schema name
          (scope_of active analyzer.expression_function_scope)) [
            | none ↦ count_all args depth bindings active
            | some function ↦ elim (length function.params == len args) [
              | false ↦ accept
              | true ↦ elim (contains_key key_eq (function_key function) active) [
                | true ↦ accept
                | false ↦ count_body function args span depth bindings active
              ]
            ]
          ]

    -- The match of `count_lowered`.
    unfoldable pub count_kind :
        ExprKind → SourceSpan → ℕ → List InlineFrame → List FunctionKey → Count
    count_kind (ExprKind.array items) span depth bindings active =
        count_all items depth bindings active
    count_kind (ExprKind.member receiver name) span depth bindings active =
        recurse receiver depth bindings active
    count_kind (ExprKind.unary op e) span depth bindings active = recurse e depth bindings active
    count_kind (ExprKind.function_call name args) span depth bindings active =
        count_call name args span depth bindings active
    count_kind (ExprKind.method_call receiver name args) span depth bindings active =
        both (recurse receiver depth bindings active) (count_all args depth bindings active)
    count_kind (ExprKind.binary l op r) span depth bindings active =
        both (recurse l depth bindings active) (recurse r depth bindings active)
    count_kind _ span depth bindings active = accept

    unfoldable pub count_charged : AstExpression → ℕ → List InlineFrame → List FunctionKey → Count
    count_charged e depth bindings active =
        both (charge_preflight_scalar_bytes (expression_scalar_bytes (kind_of e)) (span_of e)) (
          both (charge_preflight_node analyzer.profile.max_ast_nodes (span_of e))
            (elim (checked_add depth 1) [
              | none ↦ refuse (report_depth_limit (span_of e))
              | some child_depth ↦ count_kind (kind_of e) (span_of e) child_depth bindings active
            ]))

    -- In the inline mode the argument of a parameter is counted without the last frame.
    unfoldable pub count_inlining : AstExpression → ℕ → List InlineFrame → List FunctionKey → Count
    count_inlining e depth [] active = count_charged e depth [] active
    count_inlining e depth (frame ∷ frames) active = elim analyzer.expression_function_mode [
      | ExpressionFunctionMode.call_frame ↦ count_charged e depth (frame ∷ frames) active
      | ExpressionFunctionMode.inline ↦ elim (frame_argument e frame) [
        | none ↦ count_charged e depth (frame ∷ frames) active
        | some argument ↦ recurse argument depth frames active
      ]
    ]

  unfoldable pub count_lowered : ℕ → AstExpression → ℕ → List InlineFrame → List FunctionKey → Count
  count_lowered zero e depth bindings active = λ counts σ. out_of_fuel
  count_lowered (suc fuel) e depth bindings active =
      let rest = count_inlining (count_lowered fuel) e depth bindings active in
      elim (ltb (max_depth compile analyzer schema) depth) [
        | true ↦ refuse (report_depth_limit (span_of e))
        | false ↦ rest
      ]

  unfoldable pub preflight_lowering : AstExpression → Analyze Bool
  preflight_lowering e σ =
      ◌>>=ᴿ◌
        (count_lowered (enough_fuel compile analyzer schema) e 0 [] []
          (record { nodes = 0; scalar_bytes = 0 }) σ)
        λ ((accepted, counts), σ'). ok (accepted, σ')
