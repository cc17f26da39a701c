-- ===== src/Analyzer/Verified.antt =====
-- What `Analyzer::analyze` returns.
use online_dsl_forge.Base.{
  ◌>>=◌, ◌≡◌, ◌≢◌, refl, ◌∙◌, sym, ◌≤◌, arith, [], ◌∷◌, true, false, not, ◌&&◌, ◌||◌, Bool, none,
  some, ok, err, out_of_fuel, Result, Ends, Returns, Returns-bind, accepts, refuses, ℕ, Text,
  Option, List, length, inl, inr, ltb, ltb→le, subst, leb, Verdict-ends, ap,
}
use online_dsl_forge.Analyzer.{Analyzer, ExprAnalysis}
use online_dsl_forge.Analyzer.State.{AnalyzeState, new_state, complain_if}
use online_dsl_forge.Analyzer.Moves.{
  Clean, IsFine, Quiet, Quiet-Moves, then, complain_if-Quiet, complain-loud,
}
use online_dsl_forge.Analyzer.Tickets.{IsTicketed, IsTicketed-map}
use online_dsl_forge.Analyzer.Parts.{Lowered}
use online_dsl_forge.Analyzer.Program.{
  VerifiedProgram, fail_with, validate_program_bounds, finish, is_over_limit, is_mitigation_field,
  diagnostics_of, after_preflight, preflight_functions, analyze_admitted, preflight_limit, reported,
  analyze,
}
use online_dsl_forge.Schema.{RegexFlavor, RuntimeSchema, ExpressionFunction, all_functions}
use online_dsl_forge.Syntax.{AstExpression, Diagnostic, DiagnosticReport, SourceSpan, span_of}
use online_dsl_forge.Profile.{SecurityProfileId, BodyNeedSummary, allows, reads_payload}
use online_dsl_forge.Verified.{size}
use online_dsl_forge.Map.{contains_key}
use online_dsl_forge.Analyzer.Checks.{ticket_eq, merge_body_access_for_exposed_origin}
use online_dsl_forge.Preflight.{AstMetrics}
use online_dsl_forge.Schema.Identified.{AreIdentified, validate_integrity-AreIdentified}
use online_dsl_forge.Validation.Fuel.{validate_ast_syntax-Ends}
use online_dsl_forge.Preflight.Fuel.{preflight_ast-Ends}
use online_dsl_forge.Analyzer.Walks.{validate_dialect-Returns}
use online_dsl_forge.Analyzer.Limits.{max_lowered_scalar_bytes}
use online_dsl_forge.Analyzer.Searches.{validate_function_graph-Returns}
use online_dsl_forge.Analyzer.Counted.{preflight_lowering-Returns}
use online_dsl_forge.Analyzer.Sound.{expression-Lowered}
use online_dsl_forge.Analyzer.Charges.{Moves-loud}
use online_dsl_forge.Schema.Integrity.{validate_integrity}
use online_dsl_forge.Schema.Bounds.{validate_integrity-Ends, diagnostics-Returns}

-- A program that keeps to its analyzer's profile, and whose calls have the tickets that it requires.
pub record IsVerified (analyzer : Analyzer) (e : AstExpression) (p : VerifiedProgram) : Type 0 where
  pub same_ast : p.ast ≡ e
  pub same_profile : p.profile ≡ analyzer.profile
  pub small : size p.root ≤ analyzer.profile.max_ast_nodes
  pub cheap : p.static_cost_upper_bound ≤ analyzer.profile.max_cost_units
  pub allowed :
      (limit : BodyNeedSummary)
      → analyzer.profile.body_access_limit ≡ some limit
      → allows limit p.body_need ≡ true
  pub no_payload :
      analyzer.profile.id ≡ SecurityProfileId.mitigation_field → reads_payload p.body_need ≡ false
  pub ticketed :
      IsTicketed analyzer.options
        (λ t. contains_key ticket_eq t p.required_capabilities ≡ true)
        p.root

-- A result that is right, and an error that says something.
pub data Answers {ℓ κ} {A : Type ℓ} (Good : A → Type κ)
    : Result DiagnosticReport A → Type (ℓ ⊔ κ) where
  answers : {a : A} → Good a → Answers Good (ok a)
  reports : {report : DiagnosticReport} → report.diagnostics ≢ [] → Answers Good (err report)

Answers-bind {ℓ κ ι κ'} :
    {A : Type ℓ} {B : Type ι} {P : A → Type κ} {Q : B → Type κ'} {r : Result DiagnosticReport A}
    {f : A → Result DiagnosticReport B}
    → Answers P r
    → ((a : A) → P a → Answers Q (f a))
    → Answers Q (r >>= f)
Answers-bind (answers {a} h) k = k a h
Answers-bind (reports h) k = reports h

Returns-Answers {ℓ κ} :
    {A : Type ℓ} {P : A → Type κ} {r : Result DiagnosticReport A} → Returns P r → Answers P r
Returns-Answers (accepts h) = answers h
Returns-Answers (refuses h) = absurd h

fail_with-Answers : (ds : List Diagnostic) → Answers (λ _. ds ≡ []) (fail_with ds)
unfolding fail_with
fail_with-Answers [] = answers refl
fail_with-Answers (d ∷ ds) = reports (cc)

-- A complaint that is not made.
silent :
    (b : Bool) (message : Text) (span : SourceSpan) (σ : AnalyzeState)
    → Clean (complain_if b message span σ)
    → (b ≡ false) × Clean σ
unfolding complain_if
silent false message span σ h = (refl, h)
silent true message span σ h = absurd (complain-loud message span σ h)

or-false : (a b : Bool) → (a || b) ≡ false → b ≡ false
or-false true b h = cc
or-false false b h = h

not_false : {b : Bool} → not b ≡ false → b ≡ true
not_false {b = true} h = refl
not_false {b = false} h = cc

option_same : {a b : BodyNeedSummary} → some a ≡ some b → a ≡ b
option_same h = cc

over_limit :
    (o : Option BodyNeedSummary) (need limit : BodyNeedSummary)
    → is_over_limit o need ≡ false
    → o ≡ some limit
    → allows limit need ≡ true
unfolding is_over_limit
over_limit none need limit h e = cc
over_limit (some l) need limit h e =
    let q = option_same e in subst (λ x. allows x need ≡ true) q (not_false h)

reported-Answers :
    (r : Result Diagnostic (Unit {0})) {r' : Result Diagnostic (Unit {0})}
    → r ≡ r'
    → Ends (λ _. Unit {0}) r'
    → Answers (λ _. r ≡ ok tt) (reported r)
unfolding reported
reported-Answers (ok tt) same ends = answers refl
reported-Answers (err d) same ends = reports (cc)
reported-Answers out_of_fuel same ends = absurd (Verdict-ends ends (sym same))

module _ (compile : RegexFlavor → Text → ℕ → Option Text) (analyzer : Analyzer)
    (schema : RuntimeSchema) where
  abbrev node_limit : ℕ
  node_limit = analyzer.profile.max_ast_nodes

  bounds-Quiet :
      (a : ExprAnalysis) (span : SourceSpan) (σ : AnalyzeState)
      → Quiet σ (validate_program_bounds compile analyzer schema a span σ)
  unfolding validate_program_bounds
  bounds-Quiet a span σ = then (complain_if-Quiet _ _ span σ) (
      then (complain_if-Quiet _ _ span _)
        (then (complain_if-Quiet _ _ span _) (complain_if-Quiet _ _ span _)))

  -- No complaint means that each bound is kept.
  bounds_kept :
      (a : ExprAnalysis) (span : SourceSpan) (σ : AnalyzeState)
      → Clean (validate_program_bounds compile analyzer schema a span σ)
      → (ltb analyzer.profile.max_cost_units a.cost ≡ false)
        × ((is_over_limit analyzer.profile.body_access_limit a.body_need ≡ false)
            × ((is_mitigation_field analyzer.profile.id
                  && (a.mitigation_payload || reads_payload a.body_need))
                ≡ false))
  unfolding validate_program_bounds
  bounds_kept a span σ h =
      let (mitigation, h₃) = silent _ _ span _ h in
      let (limit, h₂) = silent _ _ span _ h₃ in
      let (cost, h₁) = silent _ _ span _ h₂ in (cost, (limit, mitigation))

  finish-Answers :
      (e : AstExpression) (a : ExprAnalysis) (σ₀ σ : AnalyzeState)
      → Lowered analyzer.options node_limit σ₀ (a, σ)
      → Answers (IsVerified analyzer e) (finish compile analyzer schema e a σ)
  unfolding finish
  finish-Answers e a σ₀ σ lowered =
      let need = merge_body_access_for_exposed_origin analyzer schema a.body_need a.origin in
      let b = record a { body_need = need } in
      let quiet = bounds-Quiet b (span_of e) σ in
      Answers-bind (fail_with-Answers _) λ u clean.
        let (cost, (limit, mitigation)) = bounds_kept b (span_of e) σ clean in
        let before = quiet.clean clean in
        answers (record {
          same_ast = refl;
          same_profile = refl;
          small = omega (arith, lowered.moves.charged before, lowered.moves.fine.fits);
          cheap = ltb→le _ _ cost;
          allowed = λ l h. over_limit analyzer.profile.body_access_limit need l limit h;
          no_payload = λ h. or-false a.mitigation_payload (reads_payload need) (
              subst
                (λ x.
                  (is_mitigation_field x && (a.mitigation_payload || reads_payload need)) ≡ false)
                h mitigation);
          ticketed =
              IsTicketed-map analyzer.options (λ t h. quiet.kept t h) a.expr
                (lowered.ticketed before);
        })

  initial-IsFine :
      (ds : List Diagnostic) → IsFine node_limit (record new_state { diagnostics = ds })
  initial-IsFine ds = record {
    node_unreported = λ h. refl;
    depth_unreported = λ h. refl;
    scalar_unreported = λ h. refl;
    fits = omega arith;
  }

  -- The preflight ends.
  diagnostics_of-Returns {ℓ} :
      {A : Type ℓ} {r : Result DiagnosticReport A}
      → Ends (λ _. Unit {0}) r
      → Returns (λ _. Unit {0}) (diagnostics_of r)
  unfolding diagnostics_of
  diagnostics_of-Returns (accepts h) = accepts tt
  diagnostics_of-Returns (refuses h) = accepts tt

  after_preflight-Returns :
      {r : Result DiagnosticReport AstMetrics} (e : AstExpression)
      → Ends (λ _. Unit {0}) r
      → Returns (λ _. Unit {0}) (after_preflight compile analyzer schema r e)
  unfolding after_preflight
  after_preflight-Returns e (accepts h) =
      Returns-bind (diagnostics_of-Returns (validate_ast_syntax-Ends e max_lowered_scalar_bytes))
        λ ds _. accepts tt
  after_preflight-Returns e (refuses h) = accepts tt

  preflight_functions-Returns :
      (fs : List ExpressionFunction) (ds : List Diagnostic)
      → Returns (λ _. Unit {0}) (preflight_functions compile analyzer schema fs ds)
  unfolding preflight_functions
  preflight_functions-Returns [] ds = accepts tt
  preflight_functions-Returns (f ∷ fs) ds =
      Returns-bind (diagnostics_of-Returns (preflight_ast-Ends f.expression _ _)) λ more _.
        either (leb (preflight_limit compile analyzer schema) (length ds)) (accepts tt)
          (preflight_functions-Returns fs _)
    where
      either :
          (b : Bool) {r s : Result DiagnosticReport (List Diagnostic)}
          → Returns (λ _. Unit {0}) r
          → Returns (λ _. Unit {0}) s
          → Returns (λ _. Unit {0}) (elim b [ true ↦ r | false ↦ s ])
      either true p q = p
      either false p q = q

  admitted-Answers :
      AreIdentified schema
      → (e : AstExpression)
      → Answers (IsVerified analyzer e) (analyze_admitted compile analyzer schema e)
  unfolding analyze_admitted
  admitted-Answers ids e =
      Answers-bind (Returns-Answers (validate_dialect-Returns analyzer.dialect e [])) λ ds _.
        Answers-bind (Returns-Answers (validate_function_graph-Returns compile analyzer schema _))
          λ (u, graph) q.
            let m = Quiet-Moves (initial-IsFine ds) q in
            Answers-bind
              (Returns-Answers (preflight_lowering-Returns compile analyzer schema e graph m.fine))
              λ (accepted, counted) c. elim c [
                | inr (refused, loud) ↦ rw refused (reports (Moves-loud loud))
                | inl (went, quiet) ↦ rw went (
                    Answers-bind
                      (Returns-Answers (
                        expression-Lowered compile analyzer schema ids _ e 0 counted quiet.fine (
                          omega arith,
                          let n = ap length (quiet.same_inline ∙ q.same_inline) in omega (arith, n),
                        )))
                      λ (a, σ) lowered. finish-Answers e a counted σ lowered)
              ]

  analyze-Answers :
      (e : AstExpression) → Answers (IsVerified analyzer e) (analyze compile analyzer schema e)
  unfolding analyze
  analyze-Answers e =
      Answers-bind
        (reported-Answers (validate_integrity schema) refl (validate_integrity-Ends schema))
        λ u intact. Answers-bind (Returns-Answers (diagnostics-Returns schema)) λ functions _.
          Answers-bind (fail_with-Answers functions) λ u' _.
            Answers-bind (Returns-Answers (after_preflight-Returns e (preflight_ast-Ends e _ _)))
              λ preflight _.
                Answers-bind
                  (Returns-Answers (preflight_functions-Returns (all_functions schema) preflight))
                  λ ds _.
                    Answers-bind (fail_with-Answers ds)
                      λ u'' _. admitted-Answers (validate_integrity-AreIdentified schema intact) e

report_same {ℓ} :
    {A : Type ℓ} {a b : DiagnosticReport}
    → ◌≡◌ {A = Result DiagnosticReport A} (err a) (err b)
    → a ≡ b
report_same p = cc

Answers-ends {ℓ κ} :
    {A : Type ℓ} {P : A → Type κ} {r : Result DiagnosticReport A} → Answers P r → r ≢ out_of_fuel
Answers-ends (answers h) = cc
Answers-ends (reports h) = cc

Answers-ok {ℓ κ} :
    {A : Type ℓ} {P : A → Type κ} {r : Result DiagnosticReport A} {a : A}
    → Answers P r
    → r ≡ ok a
    → P a
Answers-ok {P = P} (answers h) e = subst P (cc) h
Answers-ok (reports h) e = cc

Answers-err {ℓ κ} :
    {A : Type ℓ} {P : A → Type κ} {r : Result DiagnosticReport A} {report : DiagnosticReport}
    → Answers P r
    → r ≡ err report
    → report.diagnostics ≢ []
Answers-err (answers h) e = cc
Answers-err {report = report} (reports {report = report'} h) e =
    λ none_left. h (ap (λ x. x.diagnostics) (report_same e) ∙ none_left)

-- For any profile, options, schema and expression the analysis ends. A program that it returns has
-- the expression and the profile; its root has at most as many nodes, and it costs at most as many
-- units, as the profile allows; what it reads of a body is within the profile's limit, and no
-- payload for a mitigation field; each call and operator in it has the ticket of its own kind, name
-- and arity, which is one of the required capabilities (a call of a function or method may have
-- none where the options allow unknown ones), and each expression function has as many arguments
-- as parameters. An error has at least one diagnostic.
pub analyze-IsVerified :
    (compile : RegexFlavor → Text → ℕ → Option Text) (analyzer : Analyzer) (schema : RuntimeSchema)
    (e : AstExpression)
    → (analyze compile analyzer schema e ≢ out_of_fuel)
      × ((p : VerifiedProgram) → analyze compile analyzer schema e ≡ ok p → IsVerified analyzer e p)
      × ((report : DiagnosticReport)
          → analyze compile analyzer schema e ≡ err report
          → report.diagnostics ≢ [])
analyze-IsVerified compile analyzer schema e =
    let answer = analyze-Answers compile analyzer schema e in
    (Answers-ends answer, (λ p h. Answers-ok answer h), λ report h. Answers-err answer h)
