-- ===== src/Analyzer/Tests.antt =====
-- Runs of the analysis, and its theorems applied to concrete inputs.
use online_dsl_forge.Base.{
  ◌≡◌, ◌≢◌, refl, [], ◌∷◌, true, ok, err, out_of_fuel, none, Text, codes, ℕ, Option, ◌↔◌, false,
  List,
}
use online_dsl_forge.Base.Int.{pos}
use online_dsl_forge.Analyzer.{new_analyzer, ExpressionDialect}
use online_dsl_forge.Analyzer.Program.{analyze, VerifiedProgram}
use online_dsl_forge.Analyzer.Verified.{IsVerified, analyze-IsVerified}
use online_dsl_forge.Analyzer.Dialect.{validate_dialect}
use online_dsl_forge.Analyzer.Walks.{is_oxirule, validate_dialect-finds}
use online_dsl_forge.Schema.{
  RuntimeSchema, RegexFlavor, ExpressionFunction, ExpressionFunctionScope,
}
use online_dsl_forge.Schema.Builders.{new_schema, add_function, store_function}
use online_dsl_forge.Profile.{generic_safe_profile}
use online_dsl_forge.Syntax.{
  UnaryOp, AstExpression, ast, ExprKind, cons, nil, BinaryOp, default_span, DiagnosticReport,
  Diagnostic,
}

-- Every pattern compiles.
abbrev accepting : RegexFlavor → Text → ℕ → Option Text
accepting flavor pattern limit = none

abbrev at : ExprKind → AstExpression
at k = ast k default_span

-- `double(x) = x + x`.
abbrev double : ExpressionFunction
double = record {
  name = codes "double";
  params = codes "x" ∷ [];
  expression = at (
      ExprKind.binary (at (ExprKind.identifier (codes "x"))) BinaryOp.add
        (at (ExprKind.identifier (codes "x"))));
  scope = ExpressionFunctionScope.global;
}

abbrev sample : RuntimeSchema
sample = store_function double (add_function (codes "f") 1 new_schema)

-- `f(double(1))`.
abbrev call : AstExpression
call = at (
    ExprKind.function_call (codes "f") (
      cons (at (ExprKind.function_call (codes "double") (cons (at (ExprKind.int (pos 1))) nil)))
        nil))

analyze-IsVerified_example :
    (analyze accepting (new_analyzer generic_safe_profile) sample call ≢ out_of_fuel)
    × ((p : VerifiedProgram)
        → analyze accepting (new_analyzer generic_safe_profile) sample call ≡ ok p
        → IsVerified (new_analyzer generic_safe_profile) call p)
    × ((report : DiagnosticReport)
        → analyze accepting (new_analyzer generic_safe_profile) sample call ≡ err report
        → report.diagnostics ≢ [])
analyze-IsVerified_example =
    analyze-IsVerified accepting (new_analyzer generic_safe_profile) sample call

validate_dialect-finds_example :
    (found : List Diagnostic) × (validate_dialect ExpressionDialect.oxi_rule_v1 call [] ≡ ok found)
    × ((found ≡ []) ↔ (is_oxirule call ≡ true))
validate_dialect-finds_example = validate_dialect-finds call

call_accepted : is_oxirule call ≡ true
unfolding is_oxirule
call_accepted = refl

-- `-1` is refused.
negative_refused : is_oxirule (at (ExprKind.unary UnaryOp.neg (at (ExprKind.int (pos 1))))) ≡ false
unfolding is_oxirule
negative_refused = refl
