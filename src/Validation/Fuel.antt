-- ===== src/Validation/Fuel.antt =====
-- `validate_ast_syntax` has enough rounds, whatever the limit is.
use online_dsl_forge.Base.{
  ℕ, zero, suc, ◌+◌, ◌<◌, ◌≡◌, [], ◌∷◌, arith, Ends, Ends-bind, Ends-fail_if, Ends-ok_or, accepts,
  List, Text, not, ltb,
}
use online_dsl_forge.Syntax.{AstExpression, ExprKind, SourceSpan, is_finite}
use online_dsl_forge.Validation.{
  AstSyntaxMetrics, NameKind, charge_scalar, charge_name, validate_name, validate_step,
  validate_loop, validate_ast_syntax, is_valid_identifier,
}
use online_dsl_forge.Validation.Correct.{pending_nodes, push_all_lem}
use online_dsl_forge.Syntax.Measure.{kind_nodes, node_count}
use online_dsl_forge.Base.Usize.{checked_add}

scalar-Ends :
    (m : AstSyntaxMetrics) (bytes limit : ℕ) (span : SourceSpan)
    → Ends (λ _. Unit {0}) (charge_scalar m bytes limit span)
unfolding charge_scalar
scalar-Ends m bytes limit span =
    Ends-ok_or (checked_add m.scalar_bytes bytes) _
      λ total _. Ends-fail_if (ltb limit total) _ λ _. accepts tt

name-Ends :
    (m : AstSyntaxMetrics) (limit : ℕ) (name : Text) (kind : NameKind) (span : SourceSpan)
    → Ends (λ _. Unit {0}) (charge_name m limit name kind span)
unfolding charge_name validate_name
name-Ends m limit name kind span =
    Ends-bind (scalar-Ends m _ limit span)
      λ m' _. Ends-fail_if (not (is_valid_identifier name)) _ λ _. accepts tt

step-Ends :
    (limit : ℕ) (k : ExprKind) (s : SourceSpan) (pending : List AstExpression)
    (m : AstSyntaxMetrics)
    → Ends
        (λ w. pending_nodes w.pending ≡ kind_nodes k + pending_nodes pending)
        (validate_step limit k s pending m)
unfolding validate_step pending_nodes node_count
step-Ends limit (ExprKind.string t) s pending m =
    Ends-bind (scalar-Ends m _ limit s) λ m' _. accepts (omega arith)
step-Ends limit (ExprKind.identifier name) s pending m =
    Ends-bind (name-Ends m limit name NameKind.identifier s) λ m' _. accepts (omega arith)
step-Ends limit (ExprKind.member r name) s pending m =
    Ends-bind (name-Ends m limit name NameKind.member s) λ m' _. accepts (omega arith)
step-Ends limit (ExprKind.function_call name args) s pending m =
    Ends-bind (name-Ends m limit name NameKind.function s)
      λ m' _. accepts ((push_all_lem args pending).0)
step-Ends limit (ExprKind.method_call r name args) s pending m =
    Ends-bind (name-Ends m limit name NameKind.method s)
      λ m' _. accepts (let e = (push_all_lem args pending).0 in omega (arith, e))
step-Ends limit (ExprKind.array items) s pending m = accepts ((push_all_lem items pending).0)
step-Ends limit (ExprKind.unary op e) s pending m = accepts (omega arith)
step-Ends limit (ExprKind.binary l op r) s pending m = accepts (omega arith)
step-Ends limit (ExprKind.float x) s pending m =
    Ends-fail_if (not (is_finite x)) _ λ _. accepts (omega arith)
step-Ends limit ExprKind.null s pending m = accepts (omega arith)
step-Ends limit (ExprKind.bool b) s pending m = accepts (omega arith)
step-Ends limit (ExprKind.int n) s pending m = accepts (omega arith)

loop-Ends :
    (limit fuel : ℕ) (pending : List AstExpression) (m : AstSyntaxMetrics)
    → pending_nodes pending < fuel
    → Ends (λ _. Unit {0}) (validate_loop limit fuel pending m)
unfolding validate_loop pending_nodes node_count
loop-Ends limit zero pending m lt = absurd (omega (arith, lt))
loop-Ends limit (suc fuel) [] m lt = accepts tt
loop-Ends limit (suc fuel) (AstExpression.ast k s ∷ pending) m lt =
    Ends-bind (step-Ends limit k s pending m)
      λ w same. loop-Ends limit fuel w.pending w.metrics (omega (arith, lt, same))

pub validate_ast_syntax-Ends :
    (e : AstExpression) (limit : ℕ) → Ends (λ _. Unit {0}) (validate_ast_syntax e limit)
unfolding validate_ast_syntax pending_nodes
validate_ast_syntax-Ends e limit = loop-Ends limit _ (e ∷ []) _ (omega arith)
