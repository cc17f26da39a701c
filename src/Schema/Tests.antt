-- ===== src/Schema/Tests.antt =====
-- Runs of the schema's definitions, and its theorems applied to concrete inputs.
use online_dsl_forge.Base.{
  ◌≡◌, refl, [], ◌∷◌, true, ok, List, codes, Bool, ◌&&◌, text_eq, byte_length, arith, Ends,
}
use online_dsl_forge.Schema.{
  RuntimeSchema, ExpressionFunctionScope, CapabilityMeta, ExpressionFunction, unary_operator,
}
use online_dsl_forge.Schema.Functions.{
  validate_functions, no_usage, default_function_limits, validate_signature_parts,
  validate_parameters, valid_function_identifier, charge_signature, charge_body, checked_charge,
  add_lengths,
}
use online_dsl_forge.Schema.Integrity.{validate_integrity, identity_matches, regex_args_fit}
use online_dsl_forge.Schema.Identified.{AreIdentified, validate_integrity-AreIdentified}
use online_dsl_forge.Schema.Builders.{
  new_schema, add_scoped_expression_function, add_method_capability, add_variable, add_method,
  collect_expression_function_params, admit_expression_function, or_rejected, charge_existing,
  charge_parameters, other_functions, add_variable_meta, add_signature, store_function,
  push_expression_function_diagnostic, add_unary_operator_capability, method_capability,
}
use online_dsl_forge.Schema.Presets.{
  waf_schema, add_methods, add_waf_body_paths, waf_regex_methods, waf_body_methods,
}
use online_dsl_forge.Schema.Built.{Built, Built-validate_integrity}
use online_dsl_forge.Syntax.{AstExpression, ast, ExprKind, BinaryOp, default_span, UnaryOp}
use online_dsl_forge.Verified.{CapabilityKind}
use online_dsl_forge.Runtime.Tickets.{and_both}
use online_dsl_forge.Preflight.{
  preflight_ast, preflight_loop, preflight_step, child_count, push_children,
}
use online_dsl_forge.Validation.{
  validate_ast_syntax, validate_loop, validate_step, is_valid_identifier, starts_word, all_word,
  is_word, is_reserved_identifier, charge_name, charge_scalar, validate_name,
}
use online_dsl_forge.Map.{insert, text_lt, lookup, contains_key}
use online_dsl_forge.Validation.Measure.{scalar_bytes, call_count}
use online_dsl_forge.Syntax.{unary_as_str}
use online_dsl_forge.Syntax.Measure.{node_count}
use online_dsl_forge.Schema.Diagnostics.{
  total_bytes, AreBounded, longest, PushedOr, push_expression_function_diagnostic-AreBounded,
}
use online_dsl_forge.Schema.Answered.{IsAnswered}
use online_dsl_forge.Schema.Totals.{
  usage_of, IsWithin, total, AreBodies, texts_bytes, validate_functions-usage,
}

-- `x + x`.
abbrev body : AstExpression
body =
    ast
      (ExprKind.binary (ast (ExprKind.identifier (codes "x")) default_span) BinaryOp.add
        (ast (ExprKind.identifier (codes "x")) default_span))
      default_span

-- All are methods under their own name and arity.
all_named : List CapabilityMeta → Bool
all_named [] = true
all_named (c ∷ cs) = identity_matches c CapabilityKind.method c.name c.arity && all_named cs

methods-Built :
    {s : RuntimeSchema} (cs : List CapabilityMeta)
    → all_named cs ≡ true
    → Built s
    → Built (add_methods cs s)
unfolding all_named add_methods
methods-Built {s = s} [] h b = b
methods-Built {s = s} (c ∷ cs) h b =
    let (named, rest) =
      and_both (identity_matches c CapabilityKind.method c.name c.arity) (all_named cs) h in
    methods-Built {s = add_method_capability c s} cs rest (Built.method b c named)

paths-Built : {s : RuntimeSchema} → Built s → Built (add_waf_body_paths s)
unfolding add_waf_body_paths
paths-Built b =
    Built.body_path
      (Built.body_path
        (Built.body_path
          (Built.body_path
            (Built.body_path
              (Built.body_path
                (Built.body_path (Built.body_path (Built.body_path b _ _ _) _ _ _) _ _ _) _ _ _)
              _ _ _)
            _ _ _)
          _ _ _)
        _ _ _)
      _ _ _

waf_schema-Built : Built waf_schema
unfolding waf_schema all_named identity_matches regex_args_fit text_eq
waf_schema-Built = methods-Built waf_regex_methods refl (
    methods-Built waf_body_methods refl
      (paths-Built (Built.variable (Built.variable (Built.variable Built.empty _) _) _)))

abbrev base : RuntimeSchema
base =
    record (add_unary_operator_capability (unary_operator UnaryOp.not)
      (add_variable (codes "Request") (add_method (codes "scan") 1 new_schema))) {
        expression_function_limits = record default_function_limits { max_functions = 2 };
      }

abbrev double : ExpressionFunction
double = record {
  name = codes "double";
  params = codes "x" ∷ [];
  expression = body;
  scope = ExpressionFunctionScope.global;
}

-- `RuntimeSchema::waf` passes the check.
waf_validated : validate_integrity waf_schema ≡ ok tt
waf_validated = (Built-validate_integrity waf_schema-Built double).0

validate_integrity-AreIdentified_example : AreIdentified waf_schema
validate_integrity-AreIdentified_example =
    validate_integrity-AreIdentified waf_schema (waf_validated)

double_added :
    add_scoped_expression_function ExpressionFunctionScope.global double.name double.params body
      base
    ≡ ok (store_function double base)
unfolding add_unary_operator_capability add_scoped_expression_function
    collect_expression_function_params admit_expression_function or_rejected charge_existing
    charge_parameters validate_signature_parts validate_parameters valid_function_identifier
    validate_functions charge_signature charge_body checked_charge add_lengths other_functions
    preflight_ast preflight_loop preflight_step validate_ast_syntax validate_loop validate_step
    add_variable_meta add_method_capability add_signature insert text_eq text_lt lookup contains_key
    byte_length is_valid_identifier starts_word all_word is_word is_reserved_identifier child_count
    node_count push_children charge_name charge_scalar validate_name
double_added = refl

base-Built : Built base
unfolding identity_matches regex_args_fit text_eq contains_key unary_as_str
base-Built =
    Built.limits
      (Built.unary
        (Built.variable (Built.method Built.empty (method_capability (codes "scan") 1) refl) _)
        (unary_operator UnaryOp.not) refl refl)
      _

doubled-Built : Built (store_function double base)
doubled-Built =
    Built.expression_function base-Built double.scope double.name double.params body double_added

-- The same function in the local scope, on top of an operator, limits and the global function.
abbrev local_double : ExpressionFunction
local_double = record double { scope = ExpressionFunctionScope.local }

Built-validate_integrity_example :
    (validate_integrity (store_function double base) ≡ ok tt)
    × ((s' : RuntimeSchema) × (add_scoped_expression_function ExpressionFunctionScope.local
            (codes "double")
            (codes "x" ∷ [])
            body
            (store_function double base)
          ≡ ok s')
        × IsAnswered (store_function double base) local_double s'
        × (validate_integrity s' ≡ ok tt))
Built-validate_integrity_example = Built-validate_integrity doubled-Built local_double

validate_functions-usage_example :
    Ends
      (λ u.
        (u ≡ usage_of (double ∷ []))
        × IsWithin default_function_limits (usage_of (double ∷ []))
        × AreBodies default_function_limits (double ∷ []))
      (validate_functions default_function_limits (double ∷ []) no_usage)
validate_functions-usage_example =
    validate_functions-usage default_function_limits (double ∷ []) (omega arith) (omega arith)

-- `double` is one function of one parameter, 7 bytes of names, 3 nodes, 2 bytes and no call.
double_usage : usage_of (double ∷ []) ≡ record {
  functions = 1;
  parameters = 1;
  name_bytes = 7;
  body_nodes = 3;
  body_scalar_bytes = 2;
  call_edges = 0;
}
unfolding total texts_bytes node_count scalar_bytes call_count byte_length
double_usage = refl

none_kept : AreBounded default_function_limits []
unfolding total_bytes longest
none_kept = record { few = omega arith; small = omega arith; short = omega arith }

push_expression_function_diagnostic-AreBounded_example :
    AreBounded default_function_limits
      (push_expression_function_diagnostic
        (codes "bad")
        default_span
        new_schema).expression_function_diagnostics
    × PushedOr
        (codes "bad")
        default_span
        new_schema
        (push_expression_function_diagnostic (codes "bad") default_span new_schema)
push_expression_function_diagnostic-AreBounded_example =
    push_expression_function_diagnostic-AreBounded (codes "bad") default_span new_schema none_kept
