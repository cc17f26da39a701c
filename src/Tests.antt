-- ===== src/Tests.antt =====
-- Runs of the definitions, and the theorems applied to concrete inputs.
use online_dsl_forge.Schema.Integrity.{
  validate_capability as check_capability, validate_integrity, validate_variables,
  validate_capability_map, validate_signatures, identity_matches, regex_args_fit,
  validate_operator_map, validate_expression_functions,
}
use online_dsl_forge.Analyzer.Checks.{
  validate_capability as analyze_capability, validate_call, validate_capability_phase,
  require_capability, merge_body_access_for_exposed_origin,
}
use online_dsl_forge.Validation.{
  validate_loop as check_loop, validate_step, charge_name, charge_scalar, validate_name,
  is_valid_identifier, starts_word, all_word, is_word, is_reserved_identifier,
}
use online_dsl_forge.Validation.{push_all}
use online_dsl_forge.Schema.{is_available_in, CapabilityMeta}
use online_dsl_forge.Analyzer.Program.{
  finish, reported, fail_with, after_preflight, diagnostics_of, preflight_functions,
  analyze_admitted, validate_program_bounds, is_over_limit,
}
use online_dsl_forge.Preflight.{push_children, preflight_loop, preflight_step, child_count}
use online_dsl_forge.Value.{Value, ValueMetrics, entry, first, no_items, no_entries}
use online_dsl_forge.Value.Measure.{value_metrics, value_bytes, is_plain, value_nodes}
use online_dsl_forge.Runtime.Evaluator.{
  EvalState, eval, step, local_value, frame_get, eval_identifier, eval_variable, clone_admitted,
  admit, charge, require_dispatch_ticket,
}
use online_dsl_forge.Runtime.Registry.{
  get, RuntimeCallContext, FunctionHandler, charge_work, RuntimeContext, call_function,
  find_function, DynamicRegistry,
}
use online_dsl_forge.Runtime.{
  validate_value, default_resource_limits, validate_loop, default_eval_limits, enter_value,
  charge_bytes, checked_value_metric, visit_value, eval_error, missing_capability,
}
use online_dsl_forge.Verified.{
  VerifiedExprKind, VerifiedExpression, verified, size, arg, no_args, CapabilityKind,
  CapabilityTicket,
}
use online_dsl_forge.Base.Int.{pos}
use online_dsl_forge.Base.{
  text_eq, Ends-bind, refl, some, [], ◌∷◌, accepts, false, ◌>>=◌, Result, Text, codes, none, Option,
  ok, ◌≡◌, arith, byte_length, Ends, ◌⊎◌, List, true, ◌≤◌, ◌↔◌, ◌≢◌, err, out_of_fuel, min, ◌+◌, ℕ,
  inl,
}
use online_dsl_forge.Formatter.{root}
use online_dsl_forge.Syntax.Measure.{node_count, depth}
use online_dsl_forge.Validation.Measure.{scalar_bytes, call_count, is_well_formed}
use online_dsl_forge.Syntax.{
  DiagnosticReport, F64, default_format_limits, default_parse_limits, AstExpression, ast, ExprKind,
  default_span, nil, cons, UnaryOp, BinaryOp, Diagnostic,
}
use online_dsl_forge.Parser.Grammar.{parse_expression, parse_expression_with_limits}
use online_dsl_forge.Parser.Bounds.{IsWithin, parse_expression_with_limits-Ends}
use online_dsl_forge.Formatter.{format_expression_with_limits}
use online_dsl_forge.Lexer.{Token}
use online_dsl_forge.Formatter.Print.{print}
use online_dsl_forge.Validation.{AstSyntaxMetrics, validate_ast_syntax}
use online_dsl_forge.Preflight.{AstMetrics, preflight_ast}
use online_dsl_forge.Lexer.Scan.{tokenize_with_limits}
use online_dsl_forge.Formatter.Admission.{IsAdmitted, format_expression_with_limits-eq-ok_iff}
use online_dsl_forge.Base.Usize.{usize_max}
use online_dsl_forge.Preflight.Correct.{preflight_ast-eq-ok_iff}
use online_dsl_forge.Lexer.Bounds.{AreTokens, AreDiagnostics, tokenize_with_limits_ends}
use online_dsl_forge.Validation.Correct.{validate_ast_syntax-eq-ok_iff}
use online_dsl_forge.Runtime.Operators.{FloatOps}
use online_dsl_forge.Runtime.Charges.{AreUsize, AreWithin}
use online_dsl_forge.Runtime.Honest.{IsHonest, Charges, charge_work-Ends}
use online_dsl_forge.Runtime.Tickets.{ticket_of, capability_of, eval-ticket}
use online_dsl_forge.Runtime.Admission.{validate_value-eq-ok_iff}
use online_dsl_forge.Runtime.Soundness.{eval-Ends}
use online_dsl_forge.Schema.{
  RuntimeSchema, RegexFlavor, expression_function_for_scope, signature_accepts,
  signature_capability, is_available_in,
}
use online_dsl_forge.Analyzer.Program.{VerifiedProgram, analyze}
use online_dsl_forge.Schema.Builders.{
  add_function, new_schema, function_capability, add_function_capability, add_signature,
}
use online_dsl_forge.Profile.{
  generic_safe_profile, all, BodyAccess, active_phase, merge, reads_payload,
}
use online_dsl_forge.Analyzer.{new_analyzer}
use online_dsl_forge.Map.{insert, lookup, contains_key, insert_key, text_lt}
use online_dsl_forge.Schema.Functions.{
  validated_expression_function_diagnostics, retain_error, retain_all, validate_functions,
}
use online_dsl_forge.Analyzer.Dialect.{validate_dialect}
use online_dsl_forge.Analyzer.Graph.{
  validate_function_graph, validate_functions_dialect, validate_function_cycles, by_key,
  adjacency_of, search_all,
}
use online_dsl_forge.Analyzer.Lowering.{
  preflight_lowering, count_lowered, count_inlining, count_charged, both,
  charge_preflight_scalar_bytes, charge_preflight_node, count_kind, count_call, count_all,
}
use online_dsl_forge.Analyzer.Limits.{
  expression_scalar_bytes, charge_node, charge_lowered_scalar_bytes,
}
use online_dsl_forge.Analyzer.Expressions.{
  analyze_expression, analyze_inlining, analyze_charged, analyze_kind, analyze_function_call,
  analyze_host_call, call_host, analyze_all, current_function_scope,
}
use online_dsl_forge.Analyzer.State.{complain_if}
use online_dsl_forge.Analyzer.Regex.{validate_regex_args}
use online_dsl_forge.Runtime.Trusting.{trusting}
use online_dsl_forge.Analyzer.Evaluated.{analyze-trusting}
use online_dsl_forge.Runtime.Capabilities.{
  capability_of_kind, verify_runtime_capabilities, capability_for_ticket,
}
use online_dsl_forge.Runtime.Provided.{
  AreProvided, IsFirstGap, verify_runtime_capabilities-eq-ok_iff,
  verify_runtime_capabilities-eq-err_iff,
}
use online_dsl_forge.Runtime.Registration.{
  register_function_capability_with_context, register_method_capability_with_context, push_at,
  add_named, add_function_entries, add_method_entries, add_unary_operators, add_binary_operators,
  schema,
}
use online_dsl_forge.Runtime.Registered.{
  or_else, offered, register-admitted, register-capability_for_ticket,
}

abbrev no_f64 : Text → Option F64
no_f64 t = none

abbrev show_f64 : F64 → Text
show_f64 x = codes "1.5"

abbrev source_text : Text
source_text = codes "1+2 * 3== 7 ||false && f ( x , !y.z('a\\n',[1,2]) ) // c"

abbrev at_start : ExprKind → AstExpression
at_start k = ast k default_span

-- `-(a + f("b")).c`
abbrev sample : AstExpression
sample = at_start (
    ExprKind.unary UnaryOp.neg (
      at_start (
        ExprKind.member
          (at_start (
            ExprKind.binary (at_start (ExprKind.identifier (codes "a"))) BinaryOp.add (
              at_start (
                ExprKind.function_call (codes "f")
                  (cons (at_start (ExprKind.string (codes "b"))) nil)))))
          (codes "c"))))

-- Parsed and printed again.
abbrev reformat : Text → Result DiagnosticReport Text
reformat t = parse_expression no_f64 t >>= λ e.
    format_expression_with_limits show_f64 e default_format_limits

parse_expression_with_limits-Ends_example :
    Ends
      (IsWithin default_parse_limits)
      (parse_expression_with_limits no_f64 source_text default_parse_limits)
parse_expression_with_limits-Ends_example =
    parse_expression_with_limits-Ends no_f64 source_text default_parse_limits

tokenize_with_limits_ends_example :
    ((ts : List Token) × (tokenize_with_limits no_f64 source_text default_parse_limits ≡ ok ts)
      × AreTokens (byte_length source_text) default_parse_limits ts)
    ⊎ ((ds : List Diagnostic) × (tokenize_with_limits no_f64 source_text default_parse_limits
          ≡ err ds)
        × AreDiagnostics default_parse_limits ds)
tokenize_with_limits_ends_example =
    tokenize_with_limits_ends no_f64 source_text default_parse_limits

format_expression_with_limits-eq-ok_iff_example :
    ((format_expression_with_limits show_f64 sample default_format_limits
        ≡ ok (codes "-(a + f(\"b\")).c"))
      ↔ ((codes "-(a + f(\"b\")).c" ≡ print show_f64 sample 0 root)
          × IsAdmitted show_f64 sample default_format_limits))
    × (format_expression_with_limits show_f64 sample default_format_limits ≢ out_of_fuel)
format_expression_with_limits-eq-ok_iff_example =
    format_expression_with_limits-eq-ok_iff show_f64 sample default_format_limits
      (codes "-(a + f(\"b\")).c") (omega arith) (omega arith) (omega arith)

abbrev sample_syntax : AstSyntaxMetrics
sample_syntax = record { scalar_bytes = 4; function_calls = 1 }

validate_ast_syntax-eq-ok_iff_example :
    ((validate_ast_syntax sample 4 ≡ ok sample_syntax) ↔ (
      (sample_syntax ≡ record {
        scalar_bytes = scalar_bytes sample;
        function_calls = min (call_count sample) usize_max;
      })
      × ((is_well_formed sample ≡ true) × (scalar_bytes sample ≤ 4))))
    × (validate_ast_syntax sample 4 ≢ out_of_fuel)
validate_ast_syntax-eq-ok_iff_example =
    validate_ast_syntax-eq-ok_iff sample 4 sample_syntax (omega arith)

abbrev sample_metrics : AstMetrics
sample_metrics = record { nodes = 6; depth = 5 }

preflight_ast-eq-ok_iff_example :
    ((preflight_ast sample 6 5 ≡ ok sample_metrics) ↔ (
      (sample_metrics ≡ record { nodes = node_count sample; depth = depth sample })
      × ((node_count sample ≤ 6) × (depth sample ≤ 5))))
    × (preflight_ast sample 6 5 ≢ out_of_fuel)
preflight_ast-eq-ok_iff_example =
    preflight_ast-eq-ok_iff sample 6 5 sample_metrics (omega arith) (omega arith)

-- Floats are not computed here.
abbrev no_floats : FloatOps
no_floats = record {
  plus = λ x y. x;
  minus = λ x y. x;
  times = λ x y. x;
  divide = λ x y. x;
  remainder = λ x y. x;
  negate = λ x. x;
  of_int = λ n. 0;
  less = λ x y. false;
  equal = λ x y. false;
  is_zero = λ x. false;
}

abbrev sample_value : Value
sample_value = Value.object (
    entry (codes "k") (Value.array (first (Value.string (codes "ab")) (first Value.null no_items)))
      no_entries)

abbrev sample_value_metrics : ValueMetrics
sample_value_metrics = record { depth = 3; nodes = 4; items = 3; bytes = 7 }

resources_AreUsize : AreUsize default_resource_limits
resources_AreUsize = record {
  nodes_usize = omega arith;
  items_usize = omega arith;
  bytes_usize = omega arith;
}

validate_value-eq-ok_iff_example :
    ((validate_value default_resource_limits (some 2) default_span sample_value
        ≡ ok sample_value_metrics)
      ↔ ((sample_value_metrics ≡ value_metrics sample_value)
          × ((is_plain (some 2) sample_value ≡ true)
              × AreWithin default_resource_limits (value_metrics sample_value))))
    × (validate_value default_resource_limits (some 2) default_span sample_value ≢ out_of_fuel)
validate_value-eq-ok_iff_example =
    validate_value-eq-ok_iff sample_value default_resource_limits (some 2) default_span
      sample_value_metrics resources_AreUsize

-- A handler that charges a byte and says yes.
abbrev yes : FunctionHandler
yes call args = charge_work call 1 >>= λ charged. ok (Value.bool true, charged.processed_bytes)

yes-Charges :
    (call : RuntimeCallContext) (args : List Value)
    → call.processed_bytes ≤ call.max_total_bytes
    → Charges call (yes call args)
yes-Charges call args fits =
    Ends-bind (charge_work-Ends call 1) λ charged (sum, short). accepts (omega arith, short)

abbrev host : RuntimeContext
host = record {
  get_variable = λ name. none;
  get_variable_borrowed = λ name. some (Value.int (pos 41));
  registry = record {
    functions =
        (
          codes "f",
          record { arity = 1; capability = function_capability (codes "f") 1; handler = yes } ∷ [],
        )
        ∷ [];
    methods = [];
    unary_ops = λ op. none;
    binary_ops = λ op. none;
  };
}

host_IsHonest : IsHonest host.registry
host_IsHonest = record {
  functions_charge = ((yes-Charges, tt), tt);
  methods_charge = tt;
  unary_return = λ op e v. cc;
  binary_return = λ op e v w. cc;
}

abbrev no_ticket : VerifiedExprKind → VerifiedExpression
no_ticket kind = verified kind default_span none

abbrev call_kind : VerifiedExprKind
call_kind =
    VerifiedExprKind.function_call (codes "f")
      (arg (no_ticket (VerifiedExprKind.identifier (codes "x"))) no_args)

abbrev call_ticket : CapabilityTicket
call_ticket = ticket_of CapabilityKind.function (codes "f") 1

-- `f(x)`
abbrev call : VerifiedExpression
call = verified call_kind default_span (some call_ticket)

abbrev fresh : EvalState
fresh = record { processed_bytes = 0; steps = 0; locals = [] }

eval-Ends_example :
    Ends
      (λ (r : Value × EvalState).
        (is_plain (some 65_536) r.0 ≡ true)
        × AreWithin default_resource_limits (value_metrics r.0)
        × (0 + value_bytes r.0 ≤ r.1.processed_bytes)
        × (r.1.processed_bytes ≤ 67_108_864)
        × (r.1.steps ≤ 10_000)
        × (r.1.steps ≤ 0 + size call)
        × (r.1.locals ≡ []))
      (eval no_floats host default_eval_limits default_resource_limits call 0 fresh)
eval-Ends_example =
    eval-Ends no_floats host default_eval_limits default_resource_limits call 0 fresh
      resources_AreUsize host_IsHonest (omega arith) (omega arith)

abbrev called : Value × EvalState
called = (Value.bool true, record { processed_bytes = 3; steps = 2; locals = [] })

call_runs : eval no_floats host default_eval_limits default_resource_limits call 0 fresh ≡ ok called
unfolding eval step local_value frame_get eval_identifier eval_variable clone_admitted admit charge
    validate_value validate_loop enter_value charge_bytes checked_value_metric visit_value
    value_nodes require_dispatch_ticket call_function get find_function charge_work text_eq
call_runs = refl

call_capability : capability_of call_kind ≡ some call_ticket
unfolding capability_of
call_capability = refl

eval-ticket_example : Path (Option CapabilityTicket) (some call_ticket) (some call_ticket)
eval-ticket_example =
    eval-ticket no_floats host default_eval_limits default_resource_limits call_kind default_span
      (some call_ticket) 0 fresh called call_ticket call_runs call_capability

-- The host declares `f`, and `f(1)` is analyzed.
abbrev declared : RuntimeSchema
declared = add_function (codes "f") 1 new_schema

abbrev one : VerifiedExpression
one = verified (VerifiedExprKind.int (pos 1)) default_span none

abbrev f_ticket : CapabilityTicket
f_ticket = record { kind = CapabilityKind.function; name = codes "f"; arity = 1 }

abbrev analyzed_call : AstExpression
analyzed_call =
    ast (ExprKind.function_call (codes "f") (cons (ast (ExprKind.int (pos 1)) default_span) nil))
      default_span

abbrev analyzed : VerifiedProgram
analyzed = record {
  ast = analyzed_call;
  root =
      verified (VerifiedExprKind.function_call (codes "f") (arg one no_args)) default_span
        (some f_ticket);
  profile = generic_safe_profile;
  body_need = all BodyAccess.none;
  static_cost_upper_bound = 2;
  regex_literals = [];
  regex_cache = [];
  required_capabilities = f_ticket ∷ [];
  required_capability_metadata = (f_ticket, function_capability (codes "f") 1) ∷ [];
}

abbrev accepting : RegexFlavor → Text → ℕ → Option Text
accepting flavor pattern limit = none

analyzes :
    analyze accepting (new_analyzer generic_safe_profile) declared analyzed_call ≡ ok analyzed
unfolding analyze push_all reported validate_integrity validate_variables add_function_capability
    validate_capability_map add_signature insert validate_signatures lookup check_capability
    identity_matches text_eq regex_args_fit validate_operator_map validate_expression_functions
    validated_expression_function_diagnostics retain_error retain_all validate_functions fail_with
    after_preflight preflight_ast preflight_loop preflight_step child_count push_children node_count
    diagnostics_of validate_ast_syntax check_loop validate_step charge_name charge_scalar
    validate_name is_valid_identifier starts_word all_word is_word is_reserved_identifier
    byte_length contains_key preflight_functions analyze_admitted validate_dialect
    validate_function_graph validate_functions_dialect validate_function_cycles by_key adjacency_of
    search_all preflight_lowering count_lowered count_inlining count_charged both
    charge_preflight_scalar_bytes charge_preflight_node expression_scalar_bytes count_kind
    count_call count_all expression_function_for_scope analyze_expression analyze_inlining
    analyze_charged charge_node charge_lowered_scalar_bytes analyze_kind analyze_function_call
    analyze_host_call call_host analyze_all current_function_scope signature_accepts
    signature_capability validate_call analyze_capability validate_capability_phase active_phase
    complain_if require_capability insert_key validate_regex_args finish
    merge_body_access_for_exposed_origin validate_program_bounds is_over_limit merge reads_payload
    is_available_in
analyzes = refl

analyze-trusting_example :
    (eval no_floats host default_eval_limits default_resource_limits analyzed.root 0
      ≡ trusting no_floats host default_eval_limits default_resource_limits analyzed.root 0)
    × ((σ : EvalState)
        → AreUsize default_resource_limits
        → IsHonest host.registry
        → σ.steps ≤ 10_000
        → σ.processed_bytes ≤ 67_108_864
        → Ends
            (λ (r : Value × EvalState). r.1.steps ≤ σ.steps + 4096)
            (eval no_floats host default_eval_limits default_resource_limits analyzed.root 0 σ))
analyze-trusting_example =
    analyze-trusting no_floats host default_eval_limits default_resource_limits accepting
      (new_analyzer generic_safe_profile) declared analyzed_call analyzed 0 refl refl analyzes

-- The host provides what the program was analyzed with, and a host without the function does not.
analyzed_provided : AreProvided host.registry analyzed.required_capability_metadata
unfolding capability_of_kind get find_function text_eq
analyzed_provided = (refl, tt)

abbrev empty_registry : DynamicRegistry
empty_registry = record {
  functions = [];
  methods = [];
  unary_ops = λ op. none;
  binary_ops = λ op. none;
}

verify_runtime_capabilities-eq-ok_iff_example :
    (verify_runtime_capabilities analyzed host.registry ≡ ok tt)
    ↔ AreProvided host.registry analyzed.required_capability_metadata
verify_runtime_capabilities-eq-ok_iff_example =
    verify_runtime_capabilities-eq-ok_iff analyzed host.registry

verify_runtime_capabilities-eq-err_iff_example :
    (verify_runtime_capabilities analyzed empty_registry
      ≡ err (eval_error (missing_capability f_ticket) default_span))
    ↔ IsFirstGap empty_registry default_span
        (eval_error (missing_capability f_ticket) default_span)
        analyzed.required_capability_metadata
verify_runtime_capabilities-eq-err_iff_example =
    verify_runtime_capabilities-eq-err_iff analyzed empty_registry
      (eval_error (missing_capability f_ticket) default_span)

f_missing :
    IsFirstGap empty_registry default_span
      (eval_error (missing_capability f_ticket) default_span)
      analyzed.required_capability_metadata
unfolding capability_of_kind get
f_missing = inl (λ e. cc, refl)

register-capability_for_ticket_example :
    (capability_for_ticket
        (register_function_capability_with_context
          (function_capability (codes "f") 1)
          yes
          empty_registry)
        f_ticket
      ≡ or_else
          (capability_for_ticket empty_registry f_ticket)
          (offered CapabilityKind.function (function_capability (codes "f") 1) f_ticket))
    × (capability_for_ticket
          (register_method_capability_with_context
            (function_capability (codes "f") 1)
            (λ call v args. yes call args)
            empty_registry)
          f_ticket
        ≡ or_else
            (capability_for_ticket empty_registry f_ticket)
            (offered CapabilityKind.method (function_capability (codes "f") 1) f_ticket))
register-capability_for_ticket_example =
    register-capability_for_ticket (function_capability (codes "f") 1) yes
      (λ call v args. yes call args) empty_registry f_ticket

analyzed_admitted : verify_runtime_capabilities analyzed host.registry ≡ ok tt
analyzed_admitted =
    (verify_runtime_capabilities-eq-ok_iff analyzed host.registry).1 analyzed_provided

register-admitted_example :
    (verify_runtime_capabilities analyzed (
        register_function_capability_with_context
          (function_capability (codes "f") 2)
          yes
          host.registry)
      ≡ ok tt)
    × (verify_runtime_capabilities analyzed (
          register_method_capability_with_context
            (function_capability (codes "f") 2)
            (λ call v args. yes call args)
            host.registry)
        ≡ ok tt)
register-admitted_example =
    register-admitted analyzed (function_capability (codes "f") 2) yes
      (λ call v args. yes call args) host.registry analyzed_admitted

-- A second registration under the same name and arity: calls find the first, the schema the second.
abbrev pure_f : CapabilityMeta
pure_f = record (function_capability (codes "f") 1) { side_effect_free = false }

abbrev twice : DynamicRegistry
twice = register_function_capability_with_context pure_f yes (
    register_function_capability_with_context (function_capability (codes "f") 1) yes
      empty_registry)

first_answers : capability_for_ticket twice f_ticket ≡ some (function_capability (codes "f") 1)
unfolding capability_of_kind register_function_capability_with_context push_at insert get text_eq
    text_lt find_function
first_answers = refl

last_declared : lookup text_eq (codes "f") (schema twice).functions ≡ some ((1, pure_f) ∷ [])
unfolding register_function_capability_with_context push_at insert get text_eq text_lt add_named
    add_function_entries add_method_entries add_function_capability add_signature lookup
    add_unary_operators add_binary_operators
last_declared = refl
