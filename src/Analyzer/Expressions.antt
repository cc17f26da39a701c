-- ===== src/Analyzer/Expressions.antt =====
-- source/src/sema/analyzer.rs and analyzer/functions.rs: an expression is lowered to its verified form.
use online_dsl_forge.Base.{
  none, some, [], ◌∷◌, ◌++◌, ℕ, Option, Text, List, Bool, codes, byte_length, false, min, ◌*◌,
  text_eq, ◌&&◌, leb, ltb, ◌+◌, out_of_fuel, length, not, ok, suc, ◌==◌, ◌||◌, true, zero,
}
use online_dsl_forge.Analyzer.{
  ExpressionFunctionMode, Analyzer, LocalBinding, ArgsAnalysis, ExprAnalysis, leaf, member_origin,
  no_need, unticketed, verified, root, null_leaf, is_mitigation_payload_boundary, from_analysis,
  ObjectOrigin,
}
use online_dsl_forge.Analyzer.State.{
  AnalyzeState, ◌>>=◌, ◌>>◌, Analyze, complain_if, complain, FunctionKey, InlineFrame, pure, act,
  drop_top,
}
use online_dsl_forge.Schema.{
  ExpressionFunction, ExpressionFunctionLimits, RegexFlavor, CapabilityMeta, RuntimeSchema,
  static_cost, ExpressionFunctionScope, ticket, unary_operator_capability,
  binary_operator_capability, expression_function_for_scope, has_variable, unary_operator,
  binary_operator, signature_accepts, signature_capability,
}
use online_dsl_forge.Base.Usize.{checked_add, usize_max, saturating_add}
use online_dsl_forge.Syntax.{
  Diagnostic, SourceSpan, AstExpression, Expressions, UnaryOp, BinaryOp, ExprKind, span_of, cons,
  len, kind_of, nil,
}
use online_dsl_forge.Verified.{CapabilityTicket, no_args, VerifiedExprKind, arg}
use online_dsl_forge.Map.{lookup, insert, contains_key, text_lt}
use online_dsl_forge.Schema.Integrity.{scope_eq}
use online_dsl_forge.Schema.Functions.{
  bounded_diagnostic_message, diagnostic_name, diagnostic_limit, diagnostic_byte_limit,
  diagnostic_budget_exceeded,
}
use online_dsl_forge.Syntax.Messages.{message_text}
use online_dsl_forge.Base.Decimal.{decimal}
use online_dsl_forge.Analyzer.Checks.{
  validate_variable_phase, body_need_for_consumed_analysis, merge_body_access_for_path,
  validate_origin_phase, validate_call, merge_body_access_for_origin, require_capability,
  validate_capability, merge_body_access_for_method,
}
use online_dsl_forge.Profile.{BodyNeedSummary, merge}
use online_dsl_forge.Analyzer.Limits.{
  charge_node, charge_lowered_scalar_bytes, charge_params, expression_scalar_bytes,
  report_depth_limit,
}
use online_dsl_forge.Analyzer.Regex.{frame_argument, validate_regex_args}

-- `checked_add` twice, with the maximum for an overflow.
abbrev pub sum_or_max : ℕ → ℕ → ℕ → ℕ
sum_or_max a b c = elim (checked_add a b) [
  | none ↦ usize_max
  | some ab ↦ elim (checked_add ab c) [ none ↦ usize_max | some abc ↦ abc ]
]

abbrev pub cost_of : Option CapabilityMeta → ℕ
cost_of none = 1
cost_of (some c) = static_cost c.cost

abbrev pub ticket_of_capability : Option CapabilityMeta → Option CapabilityTicket
ticket_of_capability none = none
ticket_of_capability (some c) = some (ticket c)

abbrev pub or_capability : Option CapabilityMeta → CapabilityMeta → CapabilityMeta
or_capability none c = c
or_capability (some c) other = c

unfoldable pub local_binding : Text → List (List (Text × LocalBinding)) → Option LocalBinding
local_binding name [] = none
local_binding name (frame ∷ frames) = elim (lookup text_eq name frame) [
  | some binding ↦ some binding
  | none ↦ local_binding name frames
]

-- `zip` and `collect` into a map.
unfoldable pub bind_params :
    List Text → List LocalBinding → List (Text × LocalBinding) → List (Text × LocalBinding)
bind_params [] bindings frame = frame
bind_params (p ∷ ps) [] frame = frame
bind_params (p ∷ ps) (b ∷ bs) frame = bind_params ps bs (insert text_eq text_lt p b frame)

abbrev pub no_arguments : ℕ → ℕ → ArgsAnalysis
no_arguments nodes cost = record {
  exprs = no_args;
  bindings = [];
  body_need = no_need;
  consumed_body_need = no_need;
  mitigation_payload = false;
  nodes = nodes;
  cost = cost;
}

abbrev pub key_eq : FunctionKey → FunctionKey → Bool
key_eq a b = scope_eq a.0 b.0 && text_eq a.1 b.1

abbrev pub function_key : ExpressionFunction → FunctionKey
function_key function = (function.scope, function.name)

-- `retained_bytes`.
unfoldable pub retained_bytes : ℕ → List Diagnostic → Option ℕ
retained_bytes total [] = some total
retained_bytes total (d ∷ ds) = elim (checked_add total (byte_length (message_text d.message))) [
  | none ↦ none
  | some sum ↦ retained_bytes sum ds
]

unfoldable pub fits_in : Option ℕ → ℕ → ℕ → Bool
fits_in none more limit = false
fits_in (some total) more limit = elim (checked_add total more) [
  | none ↦ false
  | some sum ↦ leb sum limit
]

-- The budget is only reported where there is no other diagnostic.
unfoldable pub report_budget : List Diagnostic → SourceSpan → AnalyzeState → AnalyzeState
report_budget [] span σ = complain diagnostic_budget_exceeded span σ
report_budget (d ∷ ds) span σ = σ

unfoldable pub push_function_diagnostic :
    ExpressionFunctionLimits → Text → SourceSpan → AnalyzeState → AnalyzeState
push_function_diagnostic limits message span σ =
    let bounded = bounded_diagnostic_message message in
    elim (ltb (length σ.diagnostics) (diagnostic_limit limits)
      && fits_in (retained_bytes 0 σ.diagnostics) (byte_length bounded)
          (diagnostic_byte_limit limits)) [
            | true ↦ complain bounded span σ
            | false ↦ report_budget σ.diagnostics span σ
          ]

abbrev pub wrong_arity_text : Text → ℕ → Text
wrong_arity_text name arity =
    codes "function "
    ++ diagnostic_name name
    ++ codes " does not accept "
    ++ decimal arity
    ++ codes " arguments"

abbrev pub recursive_text : Text → Text
recursive_text name = codes "recursive expression function " ++ diagnostic_name name

module _ (compile : RegexFlavor → Text → ℕ → Option Text) (analyzer : Analyzer)
    (schema : RuntimeSchema) where
  unfoldable pub current_function_scope : AnalyzeState → ExpressionFunctionScope
  current_function_scope σ = elim σ.active_functions [
    | [] ↦ analyzer.expression_function_scope
    | ◌∷◌ key keys ↦ key.0
  ]

  abbrev pub function_problem : Text → SourceSpan → AnalyzeState → AnalyzeState
  function_problem message span σ =
      push_function_diagnostic schema.expression_function_limits message span σ

  -- An identifier that a call frame binds.
  abbrev pub analyze_local : Text → LocalBinding → SourceSpan → ExprAnalysis
  analyze_local name binding span =
      record (leaf (unticketed (VerifiedExprKind.identifier name) span) binding.origin) {
        path = binding.path;
        mitigation_payload = binding.mitigation_payload;
        body_need = merge_body_access_for_path analyzer schema no_need binding.path;
      }

  abbrev pub analyze_global : Text → SourceSpan → ExprAnalysis
  analyze_global name span =
      record (leaf (unticketed (VerifiedExprKind.identifier name) span) (root name)) {
        path = some (name ∷ []);
        body_need = merge_body_access_for_path analyzer schema no_need (some (name ∷ []));
      }

  unfoldable pub analyze_identifier : Text → SourceSpan → AnalyzeState → ExprAnalysis × AnalyzeState
  analyze_identifier name span σ = elim (local_binding name σ.local_bindings) [
    | some binding ↦ (analyze_local name binding span, σ)
    | none ↦ (
      analyze_global name span,
      validate_variable_phase analyzer schema name span (
          complain_if
            (not analyzer.options.allow_unknown_variables && not (has_variable schema name))
            (codes "unknown variable " ++ name) span σ),
    )
  ]

  abbrev pub longer_path : Option (List Text) → Text → Option (List Text)
  longer_path none name = none
  longer_path (some path) name = some (path ++ name ∷ [])

  abbrev pub origin_of_member : Option ObjectOrigin → Text → Option ObjectOrigin
  origin_of_member none name = none
  origin_of_member (some origin) name = member_origin origin name

  abbrev pub is_boundary : Option ObjectOrigin → Bool
  is_boundary none = false
  is_boundary (some origin) = is_mitigation_payload_boundary origin

  -- What a member adds to its receiver.
  abbrev pub member_of_analysis : ExprAnalysis → Text → SourceSpan → ExprAnalysis
  member_of_analysis receiver name span =
      let path = longer_path receiver.path name in
      let origin = origin_of_member receiver.origin name in
      record {
        expr = unticketed (VerifiedExprKind.member receiver.expr name) span;
        origin = origin;
        path = path;
        body_need =
            merge_body_access_for_path analyzer schema
              (merge_body_access_for_origin analyzer schema receiver.body_need receiver.origin name)
              path;
        mitigation_payload = receiver.mitigation_payload || is_boundary origin;
        nodes = saturating_add receiver.nodes 1;
        cost = saturating_add receiver.cost 1;
      }

  abbrev pub when_capable :
      Option CapabilityMeta
      → (CapabilityMeta → AnalyzeState → AnalyzeState)
      → AnalyzeState
      → AnalyzeState
  when_capable none f σ = σ
  when_capable (some c) f σ = f c σ

  -- `consumed_body_need` of an analysis.
  abbrev pub consumed : ExprAnalysis → BodyNeedSummary
  consumed a = body_need_for_consumed_analysis analyzer schema a.body_need a.origin

  -- The analysis of a subexpression is `recurse`, which `analyze_expression` passes on.
  module _ (recurse : AstExpression → ℕ → Analyze ExprAnalysis) where
    -- The closure of `analyze_args`; `acc` has what it merged before, and the list is built behind it.
    unfoldable pub analyze_all : Expressions → ℕ → ArgsAnalysis → Analyze ArgsAnalysis
    analyze_all nil depth acc = pure (record acc { exprs = no_args; bindings = [] })
    analyze_all (cons e es) depth acc = do
      a ← recurse e (depth + 1)
      rest ← analyze_all es depth (record acc {
        body_need = merge acc.body_need a.body_need;
        consumed_body_need = merge acc.consumed_body_need (consumed a);
        mitigation_payload = acc.mitigation_payload || a.mitigation_payload;
        nodes = saturating_add acc.nodes a.nodes;
        cost = saturating_add acc.cost a.cost;
      })
      pure (record rest {
        exprs = arg a.expr rest.exprs;
        bindings = from_analysis a ∷ rest.bindings;
      })

    abbrev pub analyze_args : Expressions → ℕ → Analyze ArgsAnalysis
    analyze_args args depth = analyze_all args depth (no_arguments 0 0)

    unfoldable pub analyze_array : Expressions → SourceSpan → ℕ → Analyze ExprAnalysis
    analyze_array items span depth = do
      args ← analyze_all items depth (no_arguments 1 1)
      pure (record (leaf (unticketed (VerifiedExprKind.array args.exprs) span) none) {
        body_need = args.consumed_body_need;
        mitigation_payload = args.mitigation_payload;
        nodes = args.nodes;
        cost = args.cost;
      })

    unfoldable pub analyze_member : AstExpression → Text → SourceSpan → ℕ → Analyze ExprAnalysis
    analyze_member receiver name span depth = do
      a ← recurse receiver (depth + 1)
      let result = member_of_analysis a name span
      act (validate_origin_phase analyzer schema result.origin span)
      pure result

    abbrev pub call_analysis :
        VerifiedExprKind
        → Option CapabilityMeta
        → SourceSpan
        → BodyNeedSummary
        → Bool
        → ℕ
        → ℕ
        → ExprAnalysis
    call_analysis kind capability span need payload nodes cost = record {
      expr = verified kind span (ticket_of_capability capability);
      origin = none;
      path = none;
      body_need = need;
      mitigation_payload = payload;
      nodes = nodes;
      cost = cost;
    }

    -- A call of a host function that was validated.
    unfoldable pub call_host :
        Option CapabilityMeta → Text → Expressions → SourceSpan → ℕ → Analyze ExprAnalysis
    call_host capability name args span depth = do
      act (
          when_capable capability λ c σ. require_capability c (
            validate_regex_args compile analyzer c.regex_args args span
              (validate_capability analyzer schema c span σ)))
      a ← analyze_args args depth
      pure (
          call_analysis (VerifiedExprKind.function_call name a.exprs) capability span
            a.consumed_body_need a.mitigation_payload (saturating_add a.nodes 1)
            (saturating_add a.cost (cost_of capability)))

    unfoldable pub analyze_host_call : Text → Expressions → SourceSpan → ℕ → Analyze ExprAnalysis
    analyze_host_call name args span depth = do
      capability ← λ σ. ok (
          validate_call analyzer schema (codes "function") name (len args)
            (signature_accepts schema.functions name (len args))
            (signature_capability schema.functions name (len args))
            analyzer.options.allow_unknown_functions span σ)
      call_host capability name args span depth

    abbrev pub method_need :
        Option CapabilityMeta → BodyNeedSummary → Option ObjectOrigin → BodyNeedSummary
    method_need none need origin = need
    method_need (some c) need origin = merge_body_access_for_method analyzer schema need origin c

    -- A method call that was validated, behind its receiver.
    unfoldable pub call_host_method :
        Option CapabilityMeta
        → ExprAnalysis
        → Text
        → Expressions
        → SourceSpan
        → ℕ
        → Analyze ExprAnalysis
    call_host_method capability r name args span depth = do
      act (
          when_capable capability
            λ c σ. validate_regex_args compile analyzer c.regex_args args span σ)
      a ← analyze_args args depth
      act (
          when_capable capability
            λ c σ. require_capability c (validate_capability analyzer schema c span σ))
      pure (
          call_analysis (VerifiedExprKind.method_call r.expr name a.exprs) capability span
            (method_need capability (merge (consumed r) a.consumed_body_need) r.origin)
            (r.mitigation_payload || a.mitigation_payload) (sum_or_max r.nodes a.nodes 1)
            (sum_or_max r.cost a.cost (cost_of capability)))

    unfoldable pub analyze_method_call :
        AstExpression → Text → Expressions → SourceSpan → ℕ → Analyze ExprAnalysis
    analyze_method_call receiver name args span depth = do
      r ← recurse receiver (depth + 1)
      capability ← λ σ. ok (
          validate_call analyzer schema (codes "method") name (len args)
            (signature_accepts schema.methods name (len args))
            (signature_capability schema.methods name (len args))
            analyzer.options.allow_unknown_methods span σ)
      call_host_method capability r name args span depth

    unfoldable pub analyze_unary : UnaryOp → AstExpression → SourceSpan → ℕ → Analyze ExprAnalysis
    analyze_unary op e span depth = do
      a ← recurse e (depth + 1)
      let c = or_capability (unary_operator_capability schema op) (unary_operator op)
      act (λ σ. require_capability c (validate_capability analyzer schema c span σ))
      pure (
          call_analysis (VerifiedExprKind.unary op a.expr) (some c) span (consumed a)
            a.mitigation_payload (saturating_add a.nodes 1)
            (saturating_add a.cost (static_cost c.cost)))

    unfoldable pub analyze_binary :
        AstExpression → BinaryOp → AstExpression → SourceSpan → ℕ → Analyze ExprAnalysis
    analyze_binary left op right span depth = do
      l ← recurse left (depth + 1)
      r ← recurse right (depth + 1)
      let c = or_capability (binary_operator_capability schema op) (binary_operator op)
      act (λ σ. require_capability c (validate_capability analyzer schema c span σ))
      pure (
          call_analysis (VerifiedExprKind.binary l.expr op r.expr) (some c) span
            (merge (consumed l) (consumed r)) (l.mitigation_payload || r.mitigation_payload)
            (sum_or_max l.nodes r.nodes 1) (sum_or_max l.cost r.cost (static_cost c.cost)))

    -- The body with the arguments for the parameters.
    unfoldable pub analyze_inlined : ExpressionFunction → Expressions → ℕ → Analyze ExprAnalysis
    analyze_inlined function args depth = do
      act (λ σ. record σ {
        active_functions = function_key function ∷ σ.active_functions;
        inline_bindings = (function.params, args) ∷ σ.inline_bindings;
      })
      a ← recurse function.expression (depth + 1)
      act (λ σ. record σ {
        active_functions = drop_top σ.active_functions;
        inline_bindings = drop_top σ.inline_bindings;
      })
      pure (record a { cost = saturating_add a.cost 1; nodes = saturating_add a.nodes 1 })

    -- The body under a frame with what the arguments are.
    unfoldable pub analyze_framed :
        ExpressionFunction → Expressions → SourceSpan → ℕ → Analyze ExprAnalysis
    analyze_framed function args span depth = do
      a ← analyze_args args depth
      act (λ σ. record σ {
        active_functions = function_key function ∷ σ.active_functions;
        local_bindings = bind_params function.params a.bindings [] ∷ σ.local_bindings;
      })
      body ← recurse function.expression (depth + 1)
      act (λ σ. record σ {
        active_functions = drop_top σ.active_functions;
        local_bindings = drop_top σ.local_bindings;
      })
      pure (record {
        expr =
            unticketed
              (VerifiedExprKind.expression_function_call function.name function.params a.exprs
                body.expr)
              span;
        origin = body.origin;
        path = body.path;
        body_need = merge a.body_need body.body_need;
        mitigation_payload = a.mitigation_payload || body.mitigation_payload;
        nodes = sum_or_max a.nodes body.nodes 1;
        cost = sum_or_max a.cost body.cost 1;
      })

    abbrev pub is_active : ExpressionFunction → AnalyzeState → Bool
    is_active function σ = contains_key key_eq (function_key function) σ.active_functions

    unfoldable pub analyze_inline :
        ExpressionFunction → Expressions → SourceSpan → ℕ → Analyze ExprAnalysis
    analyze_inline function args span depth σ = elim (length function.params == len args) [
      | false ↦ ok (
        leaf (unticketed (VerifiedExprKind.function_call function.name no_args) span) none,
        function_problem (wrong_arity_text function.name (len args)) span σ,
      )
      | true ↦ elim (is_active function σ) [
        | true ↦ ok (null_leaf span, function_problem (recursive_text function.name) span σ)
        | false ↦ analyze_inlined function args depth σ
      ]
    ]

    unfoldable pub analyze_call_frame :
        ExpressionFunction → Expressions → SourceSpan → ℕ → Analyze ExprAnalysis
    analyze_call_frame function args span depth σ = elim (length function.params == len args) [
      | false ↦ ok (
        leaf
            (unticketed
              (VerifiedExprKind.expression_function_call function.name function.params no_args
                (unticketed VerifiedExprKind.null span))
              span)
            none,
        function_problem (wrong_arity_text function.name (len args)) span σ,
      )
      | true ↦
          let charged = charge_params function.params span σ in
          elim charged.0 [
            | false ↦ ok (null_leaf span, charged.1)
            | true ↦ elim (is_active function charged.1) [
              | true ↦
                  ok
                    (null_leaf span, function_problem (recursive_text function.name) span charged.1)
              | false ↦ analyze_framed function args span depth charged.1
            ]
          ]
    ]

    unfoldable pub analyze_expression_function :
        ExpressionFunction → Expressions → SourceSpan → ℕ → Analyze ExprAnalysis
    analyze_expression_function function args span depth = elim analyzer.expression_function_mode [
      | ExpressionFunctionMode.inline ↦ analyze_inline function args span depth
      | ExpressionFunctionMode.call_frame ↦ analyze_call_frame function args span depth
    ]

    unfoldable pub analyze_function_call :
        Text → Expressions → SourceSpan → ℕ → Analyze ExprAnalysis
    analyze_function_call name args span depth σ =
        elim (expression_function_for_scope schema name (current_function_scope σ)) [
          | some function ↦ analyze_expression_function function args span depth σ
          | none ↦ analyze_host_call name args span depth σ
        ]

    abbrev pub lowered : VerifiedExprKind → SourceSpan → Analyze ExprAnalysis
    lowered kind span = pure (leaf (unticketed kind span) none)

    -- The match of `analyze_expression`.
    unfoldable pub analyze_kind : ExprKind → SourceSpan → ℕ → Analyze ExprAnalysis
    analyze_kind ExprKind.null span depth = lowered VerifiedExprKind.null span
    analyze_kind (ExprKind.bool value) span depth = lowered (VerifiedExprKind.bool value) span
    analyze_kind (ExprKind.int value) span depth = lowered (VerifiedExprKind.int value) span
    analyze_kind (ExprKind.float value) span depth = lowered (VerifiedExprKind.float value) span
    analyze_kind (ExprKind.string value) span depth = lowered (VerifiedExprKind.string value) span
    analyze_kind (ExprKind.identifier name) span depth = λ σ. ok (analyze_identifier name span σ)
    analyze_kind (ExprKind.array items) span depth = analyze_array items span depth
    analyze_kind (ExprKind.member receiver name) span depth =
        analyze_member receiver name span depth
    analyze_kind (ExprKind.function_call name args) span depth =
        analyze_function_call name args span depth
    analyze_kind (ExprKind.method_call receiver name args) span depth =
        analyze_method_call receiver name args span depth
    analyze_kind (ExprKind.unary op e) span depth = analyze_unary op e span depth
    analyze_kind (ExprKind.binary l op r) span depth = analyze_binary l op r span depth

    -- `analyze_expression` behind its depth check and the inline bindings.
    unfoldable pub analyze_charged : AstExpression → ℕ → Analyze ExprAnalysis
    analyze_charged e depth σ =
        let node = charge_node analyzer.profile.max_ast_nodes (span_of e) σ in
        elim node.0 [
          | false ↦ ok (null_leaf (span_of e), node.1)
          | true ↦
              let bytes =
                charge_lowered_scalar_bytes (expression_scalar_bytes (kind_of e)) (span_of e)
                  node.1 in
              elim bytes.0 [
                | false ↦ ok (null_leaf (span_of e), bytes.1)
                | true ↦ analyze_kind (kind_of e) (span_of e) depth bytes.1
              ]
        ]

    -- The binding of an identifier is analyzed without the last frame.
    unfoldable pub analyze_inlining : AstExpression → ℕ → List InlineFrame → Analyze ExprAnalysis
    analyze_inlining e depth [] = analyze_charged e depth
    analyze_inlining e depth (frame ∷ frames) = elim (frame_argument e frame) [
      | none ↦ analyze_charged e depth
      | some binding ↦ do
        act (λ σ. record σ { inline_bindings = frames })
        a ← recurse binding depth
        act (λ σ. record σ { inline_bindings = frame ∷ σ.inline_bindings })
        pure a
    ]

  abbrev pub max_depth : ℕ
  max_depth = min analyzer.profile.max_call_depth 128

  -- A call deeper, or with one frame less, takes fuel.
  unfoldable pub analyze_expression : ℕ → AstExpression → ℕ → Analyze ExprAnalysis
  analyze_expression zero e depth σ = out_of_fuel
  analyze_expression (suc fuel) e depth σ = elim (ltb max_depth depth) [
    | true ↦ ok (null_leaf (span_of e), report_depth_limit (span_of e) σ)
    | false ↦ analyze_inlining (analyze_expression fuel) e depth σ.inline_bindings σ
  ]

  -- A level takes two: its depth grows by one, and so may the frames.
  abbrev pub enough_fuel : ℕ
  enough_fuel = 2 * (max_depth + 2)
