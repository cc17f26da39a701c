-- ===== src/Analyzer/Dialect.antt =====
-- source/src/sema/dialect.rs and analyzer/support.rs: walks over an expression on an explicit stack.
use online_dsl_forge.Base.{
  zero, suc, none, some, [], ◌∷◌, ◌++◌, Text, List, ℕ, Result, Bool, Option, true, codes,
  out_of_fuel, false, ok, if◌then◌else◌,
}
use online_dsl_forge.Analyzer.{ExpressionDialect}
use online_dsl_forge.Validation.{push_all}
use online_dsl_forge.Syntax.{
  ExprKind, AstExpression, BinaryOp, UnaryOp, SourceSpan, DiagnosticReport, Diagnostic, len,
  kind_of, span_of, binary_as_str,
}
use online_dsl_forge.Syntax.Measure.{node_count}
use online_dsl_forge.Schema.Functions.{say}

-- The children on the stack, the first on top.
unfoldable pub push_children : ExprKind → List AstExpression → List AstExpression
push_children (ExprKind.array items) stack = push_all items stack
push_children (ExprKind.member receiver name) stack = receiver ∷ stack
push_children (ExprKind.function_call name args) stack = push_all args stack
push_children (ExprKind.method_call receiver name args) stack = receiver ∷ push_all args stack
push_children (ExprKind.unary op e) stack = e ∷ stack
push_children (ExprKind.binary l op r) stack = l ∷ r ∷ stack
push_children _ stack = stack

-- `while let Some(expression) = stack.pop()`, with what a visit does to `acc`.
unfoldable pub walk {ℓ} :
    {A : Type ℓ} → (AstExpression → A → A) → ℕ → List AstExpression → A → Result DiagnosticReport A
walk visit zero stack acc = out_of_fuel
walk visit (suc fuel) [] acc = ok acc
walk visit (suc fuel) (e ∷ stack) acc =
    walk visit fuel (push_children (kind_of e) stack) (visit e acc)

-- A round for each node, and one more.
unfoldable pub walk_all {ℓ} :
    {A : Type ℓ} → (AstExpression → A → A) → AstExpression → A → Result DiagnosticReport A
walk_all visit e acc = walk visit (suc (node_count e)) (e ∷ []) acc

abbrev pub is_excluded : BinaryOp → Bool
is_excluded BinaryOp.sub = true
is_excluded BinaryOp.mul = true
is_excluded BinaryOp.div = true
is_excluded BinaryOp.rem = true
is_excluded _ = false

-- What OxiRule V1 says of a node.
unfoldable pub oxirule_problem : ExprKind → Option Text
oxirule_problem (ExprKind.float value) = some (codes "OxiRule V1 does not support float literals")
oxirule_problem (ExprKind.array items) = some (codes "OxiRule V1 does not support array literals")
oxirule_problem (ExprKind.unary UnaryOp.neg e) =
    some (codes "OxiRule V1 does not support unary numeric negation")
oxirule_problem (ExprKind.binary l op r) =
    if is_excluded op
    then some (codes "OxiRule V1 does not support operator " ++ binary_as_str op)
    else none
oxirule_problem _ = none

unfoldable pub visit_oxirule : AstExpression → List Diagnostic → List Diagnostic
visit_oxirule e diagnostics = elim (oxirule_problem (kind_of e)) [
  | none ↦ diagnostics
  | some problem ↦ diagnostics ++ say problem (span_of e) ∷ []
]

unfoldable pub validate_oxirule_v1 :
    AstExpression → List Diagnostic → Result DiagnosticReport (List Diagnostic)
validate_oxirule_v1 e diagnostics = walk_all visit_oxirule e diagnostics

unfoldable pub validate_dialect :
    ExpressionDialect → AstExpression → List Diagnostic → Result DiagnosticReport (List Diagnostic)
validate_dialect ExpressionDialect.generic e diagnostics = ok diagnostics
validate_dialect ExpressionDialect.oxi_rule_v1 e diagnostics = validate_oxirule_v1 e diagnostics

pub record FunctionCallSite : Type 0 where
  pub name : Text
  pub arity : ℕ
  pub span : SourceSpan

-- `collect_function_calls`.
abbrev pub call_sites : ExprKind → SourceSpan → List FunctionCallSite
call_sites (ExprKind.function_call name args) span =
    record { name = name; arity = len args; span = span } ∷ []
call_sites _ span = []

abbrev pub visit_call : AstExpression → List FunctionCallSite → List FunctionCallSite
visit_call e calls = calls ++ call_sites (kind_of e) (span_of e)

unfoldable pub function_calls : AstExpression → Result DiagnosticReport (List FunctionCallSite)
function_calls e = walk_all visit_call e []
