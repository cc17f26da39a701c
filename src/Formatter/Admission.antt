-- ===== src/Formatter/Admission.antt =====
-- `format_expression_with_limits`: admission, then the printed text.
use online_dsl_forge.Base.{
  ◌≤◌, ◌<◌, true, ◌≡◌, ◌≢◌, ◌↔◌, arith, Text, Result, ok, out_of_fuel, Verdict, accepts, refuses,
  Verdict-bind, Verdict-map, Verdict-eq-ok_iff, Verdict-ends, byte_length, map_err,
}
use online_dsl_forge.Base.Usize.{usize_max}
use online_dsl_forge.Syntax.{AstExpression, DiagnosticReport, F64, AstFormatLimits, span_of}
use online_dsl_forge.Syntax.Measure.{node_count, depth}
use online_dsl_forge.Preflight.Correct.{preflight_ast-Verdict}
use online_dsl_forge.Preflight.{AstMetrics}
use online_dsl_forge.Validation.Measure.{is_well_formed, scalar_bytes}
use online_dsl_forge.Validation.Correct.{validate_ast_syntax-Verdict}
use online_dsl_forge.Formatter.{root, rename_report, format_expression_with_limits}
use online_dsl_forge.Formatter.Correct.{format_root-Verdict}
use online_dsl_forge.Formatter.Print.{print}

module _ (show_f64 : F64 → Text) (e : AstExpression) (limits : AstFormatLimits) where
  -- What the formatter demands of an expression.
  pub record IsAdmitted : Type 0 where
    pub nodes_fit : node_count e ≤ limits.max_nodes
    pub depth_fits : depth e ≤ limits.max_depth
    pub well_formed : is_well_formed e ≡ true
    pub scalars_fit : scalar_bytes e ≤ limits.max_output_bytes
    pub output_fits : byte_length (print show_f64 e 0 root) ≤ limits.max_output_bytes

  map_err-Verdict :
      {P : AstMetrics → Type 0} {Bad : Type 0} {r : Result DiagnosticReport AstMetrics}
      → Verdict P Bad r
      → Verdict P Bad (map_err rename_report r)
  map_err-Verdict (accepts h) = accepts h
  map_err-Verdict (refuses b) = refuses b

  format_expression_with_limits-Verdict :
      limits.max_nodes ≤ usize_max
      → limits.max_depth < usize_max
      → limits.max_output_bytes ≤ usize_max
      → Verdict
          (λ t. (t ≡ print show_f64 e 0 root) × IsAdmitted)
          (¬ IsAdmitted)
          (format_expression_with_limits show_f64 e limits)
  unfolding format_expression_with_limits
  format_expression_with_limits-Verdict hn hd ho =
      Verdict-bind (map_err-Verdict (preflight_ast-Verdict _ _ hn hd e)) (λ b a. omega (arith, a))
        λ m (_, fits).
          Verdict-bind (validate_ast_syntax-Verdict _ ho e)
            (λ b a. ground (arith, a.well_formed, a.scalars_fit))
            λ m' (_, valid).
              Verdict-map
                (λ t (q, out). (
                  q,
                  record {
                    nodes_fit = fits.0;
                    depth_fits = fits.1;
                    well_formed = valid.0;
                    scalars_fit = valid.1;
                    output_fits = out;
                  },
                ))
                (λ b a. omega (arith, a.output_fits))
                (format_root-Verdict limits.max_output_bytes (span_of e) ho show_f64 e)

-- For limits that a `usize` holds (a depth limit below the maximum), formatting never runs out of
-- fuel, and it succeeds exactly when the expression is within the node and depth limits, has
-- valid names and finite floats only, and its names and strings, and its canonical text, are
-- within the byte limit; the result is then the canonical text of the recursive printer.
pub format_expression_with_limits-eq-ok_iff :
    (show_f64 : F64 → Text) (e : AstExpression) (limits : AstFormatLimits) (t : Text)
    → limits.max_nodes ≤ usize_max
    → limits.max_depth < usize_max
    → limits.max_output_bytes ≤ usize_max
    → ((format_expression_with_limits show_f64 e limits ≡ ok t)
        ↔ ((t ≡ print show_f64 e 0 root) × IsAdmitted show_f64 e limits))
      × (format_expression_with_limits show_f64 e limits ≢ out_of_fuel)
format_expression_with_limits-eq-ok_iff show_f64 e limits t hn hd ho =
    let verdict = format_expression_with_limits-Verdict show_f64 e limits hn hd ho in
    (Verdict-eq-ok_iff _ verdict (λ good bad. bad good) t, Verdict-ends verdict)
