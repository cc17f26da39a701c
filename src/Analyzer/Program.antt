-- ===== src/Analyzer/Program.antt =====
-- source/src/sema/analyzer.rs, `Analyzer::analyze`: a program is verified.
use online_dsl_forge.Base.{
  none, some, [], ◌∷◌, ◌++◌, ◌-◌, ℕ, List, Bool, true, false, not, Text, Option, Result, ok, err,
  out_of_fuel, fail_if, ◌>>=◌, ◌>>◌, codes, ltb, leb, length, max, ◌&&◌, ◌||◌, suc, zero,
}
use online_dsl_forge.Analyzer.{Analyzer, ExprAnalysis, RegexLiteral, CompileOptions, new_analyzer}
use online_dsl_forge.Analyzer.State.{AnalyzeState, new_state, complain_if, RegexKey}
use online_dsl_forge.Analyzer.Limits.{max_lowered_scalar_bytes}
use online_dsl_forge.Analyzer.Expressions.{analyze_expression, enough_fuel, max_depth}
use online_dsl_forge.Analyzer.Checks.{merge_body_access_for_exposed_origin}
use online_dsl_forge.Schema.{
  RegexFlavor, RuntimeSchema, ExpressionFunction, CapabilityMeta, all_functions,
}
use online_dsl_forge.Syntax.{AstExpression, Diagnostic, DiagnosticReport, SourceSpan, span_of}
use online_dsl_forge.Profile.{
  SecurityProfile, SecurityProfileId, BodyNeedSummary, allows, reads_payload, generic_safe_profile,
}
use online_dsl_forge.Verified.{VerifiedExpression, CapabilityTicket}
use online_dsl_forge.Schema.Functions.{rename_message, validated_expression_function_diagnostics}
use online_dsl_forge.Base.Usize.{saturating_add}
use online_dsl_forge.Preflight.{AstMetrics, preflight_ast}
use online_dsl_forge.Analyzer.Dialect.{validate_dialect}
use online_dsl_forge.Schema.Integrity.{validate_integrity}
use online_dsl_forge.Validation.{validate_ast_syntax}
use online_dsl_forge.Analyzer.Graph.{validate_function_graph}
use online_dsl_forge.Analyzer.Lowering.{preflight_lowering}

pub record VerifiedProgram : Type 0 where
  pub ast : AstExpression
  pub root : VerifiedExpression
  pub profile : SecurityProfile
  pub body_need : BodyNeedSummary
  pub static_cost_upper_bound : ℕ
  pub regex_literals : List RegexLiteral
  pub regex_cache : List RegexKey
  pub required_capabilities : List CapabilityTicket
  pub required_capability_metadata : List (CapabilityTicket × CapabilityMeta)

-- `DiagnosticReport::new(diagnostics)` if there are some.
unfoldable pub fail_with : List Diagnostic → Result DiagnosticReport (Unit {0})
fail_with [] = ok tt
fail_with (d ∷ ds) = err (record { diagnostics = d ∷ ds })

-- A diagnostic as a report.
unfoldable pub reported {ℓ} : {A : Type ℓ} → Result Diagnostic A → Result DiagnosticReport A
reported (ok a) = ok a
reported (err d) = err (record { diagnostics = d ∷ [] })
reported out_of_fuel = out_of_fuel

-- What a check that failed has to say.
unfoldable pub diagnostics_of {ℓ} :
    {A : Type ℓ} → Result DiagnosticReport A → Result DiagnosticReport (List Diagnostic)
diagnostics_of (ok a) = ok []
diagnostics_of (err report) = ok report.diagnostics
diagnostics_of out_of_fuel = out_of_fuel

abbrev pub rename_all : List Diagnostic → List Diagnostic
rename_all [] = []
rename_all (d ∷ ds) =
    rename_message (codes "AST scalar byte limit exceeded")
      (codes "lowered scalar byte limit exceeded") d
    ∷ rename_all ds

-- `Iterator::take`.
unfoldable pub take {ℓ} : {A : Type ℓ} → ℕ → List A → List A
take zero xs = []
take (suc n) [] = []
take (suc n) (x ∷ xs) = x ∷ take n xs

abbrev pub is_mitigation_field : SecurityProfileId → Bool
is_mitigation_field SecurityProfileId.mitigation_field = true
is_mitigation_field _ = false

-- The profile has a limit, which the need is not within.
unfoldable pub is_over_limit : Option BodyNeedSummary → BodyNeedSummary → Bool
is_over_limit none need = false
is_over_limit (some limit) need = not (allows limit need)

module _ (compile : RegexFlavor → Text → ℕ → Option Text) (analyzer : Analyzer)
    (schema : RuntimeSchema) where
  unfoldable pub validate_program_bounds : ExprAnalysis → SourceSpan → AnalyzeState → AnalyzeState
  validate_program_bounds a span σ =
      let σ₁ =
        complain_if (ltb analyzer.profile.max_ast_nodes a.nodes) (codes "AST node limit exceeded")
          span σ in
      let σ₂ =
        complain_if (ltb analyzer.profile.max_cost_units a.cost)
          (codes "static cost limit exceeded") span σ₁ in
      let σ₃ =
        complain_if (is_over_limit analyzer.profile.body_access_limit a.body_need)
          (codes "body access limit exceeded by profile") span σ₂ in
      complain_if
        (is_mitigation_field analyzer.profile.id
          && (a.mitigation_payload || reads_payload a.body_need))
        (codes "MitigationField cannot read request, response, or stream body bytes") span σ₃

  abbrev pub preflight_depth : ℕ
  preflight_depth = saturating_add (max_depth compile analyzer schema) 1

  -- The syntax is checked behind a preflight that succeeds.
  unfoldable pub after_preflight :
      Result DiagnosticReport AstMetrics → AstExpression → Result DiagnosticReport (List Diagnostic)
  after_preflight (ok metrics) e = do
    syntax ← diagnostics_of (validate_ast_syntax e max_lowered_scalar_bytes)
    ok (rename_all syntax)
  after_preflight (err report) e = ok report.diagnostics
  after_preflight out_of_fuel e = out_of_fuel

  abbrev pub preflight_expression : AstExpression → Result DiagnosticReport (List Diagnostic)
  preflight_expression e =
      after_preflight (preflight_ast e analyzer.profile.max_ast_nodes preflight_depth) e

  abbrev pub preflight_limit : ℕ
  preflight_limit = max schema.expression_function_limits.max_diagnostics 1

  -- The preflight of the expression functions, until there are enough diagnostics.
  unfoldable pub preflight_functions :
      List ExpressionFunction → List Diagnostic → Result DiagnosticReport (List Diagnostic)
  preflight_functions [] diagnostics = ok diagnostics
  preflight_functions (f ∷ fs) diagnostics =
      ◌>>=◌
        (diagnostics_of (preflight_ast f.expression analyzer.profile.max_ast_nodes preflight_depth))
        λ more.
          let rest =
            preflight_functions fs
              (diagnostics ++ take (preflight_limit - length diagnostics) more) in
          elim (leb preflight_limit (length diagnostics)) [ true ↦ ok diagnostics | false ↦ rest ]

  -- What `analyze` returns for an analysis and the state behind it.
  unfoldable pub finish :
      AstExpression → ExprAnalysis → AnalyzeState → Result DiagnosticReport VerifiedProgram
  finish e analysis σ = do
    let need =
        merge_body_access_for_exposed_origin analyzer schema analysis.body_need analysis.origin
    let bounded = validate_program_bounds (record analysis { body_need = need }) (span_of e) σ
    fail_with bounded.diagnostics
    ok (record {
      ast = e;
      root = analysis.expr;
      profile = analyzer.profile;
      body_need = need;
      static_cost_upper_bound = analysis.cost;
      regex_literals = bounded.regex_literals;
      regex_cache = bounded.regex_cache;
      required_capabilities = bounded.required_capabilities;
      required_capability_metadata = bounded.required_capability_metadata;
    })

  -- The analysis behind the preflight.
  unfoldable pub analyze_admitted : AstExpression → Result DiagnosticReport VerifiedProgram
  analyze_admitted e = do
    diagnostics ← validate_dialect analyzer.dialect e []
    (u, graph) ←
        validate_function_graph compile analyzer schema
          (record new_state { diagnostics = diagnostics })
    (accepted, counted) ← preflight_lowering compile analyzer schema e graph
    fail_if (not accepted) (record { diagnostics = counted.diagnostics })
    (analysis, σ) ←
        analyze_expression compile analyzer schema (enough_fuel compile analyzer schema) e 0 counted
    finish e analysis σ

  unfoldable pub analyze : AstExpression → Result DiagnosticReport VerifiedProgram
  analyze e = do
    reported (validate_integrity schema)
    functions ← validated_expression_function_diagnostics schema
    fail_with functions
    preflight ← preflight_expression e
    diagnostics ← preflight_functions (all_functions schema) preflight
    fail_with diagnostics
    analyze_admitted e

-- `compile_expression`, its wrapper left out.
unfoldable pub compile_expression :
    (RegexFlavor → Text → ℕ → Option Text)
    → AstExpression
    → RuntimeSchema
    → CompileOptions
    → Result DiagnosticReport VerifiedProgram
compile_expression compile e schema options =
    analyze compile (record (new_analyzer generic_safe_profile) { options = options }) schema e
