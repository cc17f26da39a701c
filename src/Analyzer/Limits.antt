-- ===== src/Analyzer/Limits.antt =====
-- source/src/sema/analyzer/limits.rs: the limits on the nodes and scalar bytes of the lowered program.
use online_dsl_forge.Base.{
  none, some, ℕ, List, ◌*◌, byte_length, Option, Bool, Text, false, true, if◌then◌else◌, ◌∷◌, [],
  codes, ltb,
}
use online_dsl_forge.Analyzer.State.{AnalyzeState, complain}
use online_dsl_forge.Syntax.{ExprKind, SourceSpan}
use online_dsl_forge.Base.Usize.{checked_add}

abbrev pub max_lowered_scalar_bytes : ℕ
max_lowered_scalar_bytes = 64 * 1024 * 1024

unfoldable pub expression_scalar_bytes : ExprKind → ℕ
expression_scalar_bytes (ExprKind.string value) = byte_length value
expression_scalar_bytes (ExprKind.identifier name) = byte_length name
expression_scalar_bytes (ExprKind.member receiver name) = byte_length name
expression_scalar_bytes (ExprKind.function_call name args) = byte_length name
expression_scalar_bytes (ExprKind.method_call receiver name args) = byte_length name
expression_scalar_bytes _ = 0

unfoldable pub report_node_limit : SourceSpan → AnalyzeState → AnalyzeState
report_node_limit span σ = elim σ.node_limit_reported [
  | true ↦ σ
  | false ↦ record (complain (codes "AST node limit exceeded") span σ) {
    node_limit_reported = true;
  }
]

unfoldable pub report_depth_limit : SourceSpan → AnalyzeState → AnalyzeState
report_depth_limit span σ = elim σ.depth_limit_reported [
  | true ↦ σ
  | false ↦ record (complain (codes "semantic call depth limit exceeded") span σ) {
    depth_limit_reported = true;
  }
]

unfoldable pub report_scalar_byte_limit : SourceSpan → AnalyzeState → AnalyzeState
report_scalar_byte_limit span σ = elim σ.scalar_byte_limit_reported [
  | true ↦ σ
  | false ↦ record (complain (codes "lowered scalar byte limit exceeded") span σ) {
    scalar_byte_limit_reported = true;
  }
]

-- A counter with more added, if it is within its limit.
abbrev pub within : ℕ → ℕ → ℕ → Option ℕ
within counter more limit = elim (checked_add counter more) [
  | none ↦ none
  | some sum ↦ if ltb limit sum then none else some sum
]

unfoldable pub charge_node : ℕ → SourceSpan → AnalyzeState → Bool × AnalyzeState
charge_node max_ast_nodes span σ = elim (within σ.lowered_nodes 1 max_ast_nodes) [
  | none ↦ (false, report_node_limit span σ)
  | some nodes ↦ (true, record σ { lowered_nodes = nodes })
]

unfoldable pub charge_lowered_scalar_bytes : ℕ → SourceSpan → AnalyzeState → Bool × AnalyzeState
charge_lowered_scalar_bytes bytes span σ =
    elim (within σ.lowered_scalar_bytes bytes max_lowered_scalar_bytes) [
      | none ↦ (false, report_scalar_byte_limit span σ)
      | some total ↦ (true, record σ { lowered_scalar_bytes = total })
    ]

-- `params.iter().all(|param| self.charge_lowered_scalar_bytes(param.len(), span))`.
unfoldable pub charge_params : List Text → SourceSpan → AnalyzeState → Bool × AnalyzeState
charge_params [] span σ = (true, σ)
charge_params (p ∷ ps) span σ =
    let charged = charge_lowered_scalar_bytes (byte_length p) span σ in
    elim charged.0 [ false ↦ (false, charged.1) | true ↦ charge_params ps span charged.1 ]
