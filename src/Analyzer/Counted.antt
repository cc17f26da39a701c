-- ===== src/Analyzer/Counted.antt =====
-- The count of the lowered program ends, and refuses a program only with a diagnostic.
use online_dsl_forge.Base.{
  ◌≡◌, refl, ◌≤◌, ◌+◌, ◌*◌, ◌-◌, arith, [], ◌∷◌, true, false, inl, inr, suc, zero, Returns, accepts,
  ◌⊎◌, Bool, Text, ℕ, Option, List, Returns-bind, Returns-map, length, Bool-cases, Option-cases,
  ◌==◌, byte_length, ltb, ltb→le,
}
use online_dsl_forge.Analyzer.{Analyzer, ExpressionFunctionMode}
use online_dsl_forge.Analyzer.State.{AnalyzeState, InlineFrame, FunctionKey}
use online_dsl_forge.Analyzer.Moves.{Moves, IsFine, stay, Quiet-Moves, Moves-trans}
use online_dsl_forge.Analyzer.Charges.{
  report_node_limit-Moves, report_depth_limit-Moves, report_scalar_byte_limit-Moves,
}
use online_dsl_forge.Analyzer.Lowering.{
  Counts, Count, accept, both, refuse, charge_preflight_scalar_bytes, charge_preflight_node,
  charge_preflight_params, count_all, count_body, count_call, count_kind, count_charged,
  count_inlining, count_lowered, preflight_lowering, scope_of,
}
use online_dsl_forge.Schema.{
  RegexFlavor, RuntimeSchema, ExpressionFunction, expression_function_for_scope,
}
use online_dsl_forge.Syntax.{
  AstExpression, Expressions, ExprKind, SourceSpan, cons, nil, len, span_of, kind_of,
}
use online_dsl_forge.Analyzer.Limits.{
  report_depth_limit, within, max_lowered_scalar_bytes, report_node_limit, report_scalar_byte_limit,
}
use online_dsl_forge.Map.{contains_key}
use online_dsl_forge.Analyzer.Expressions.{key_eq, max_depth, function_key, enough_fuel}
use online_dsl_forge.Analyzer.Regex.{frame_argument}
use online_dsl_forge.Base.Usize.{checked_add}

-- Accepted without a change that matters, or refused with a complaint.
abbrev pub IsCounted : ℕ → AnalyzeState → (Bool × Counts) × AnalyzeState → Type 0
IsCounted max_nodes σ r =
    ((r.0.0 ≡ true) × Moves max_nodes 0 σ r.1)
    ⊎ ((r.0.0 ≡ false) × ((n : ℕ) → Moves max_nodes n σ r.1))

abbrev pub Counting : ℕ → Count → Type 0
Counting max_nodes m =
    (counts : Counts) (σ : AnalyzeState)
    → IsFine max_nodes σ
    → Returns (IsCounted max_nodes σ) (m counts σ)

module _ {max_nodes : ℕ} where
  accept-Counting : Counting max_nodes accept
  accept-Counting counts σ fine = accepts (inl (refl, Quiet-Moves fine (stay σ)))

  refuse-Counting :
      (report : AnalyzeState → AnalyzeState)
      → ((n : ℕ) (σ : AnalyzeState) → IsFine max_nodes σ → Moves max_nodes n σ (report σ))
      → Counting max_nodes (refuse report)
  refuse-Counting report m counts σ fine = accepts (inr (refl, λ n. m n σ fine))

  both-Counting :
      {m k : Count} → Counting max_nodes m → Counting max_nodes k → Counting max_nodes (both m k)
  unfolding both
  both-Counting {m} {k} first second counts σ fine =
      Returns-bind (first counts σ fine) λ ((accepted, counts'), σ') c. elim c [
        | inr (refused, loud) ↦ rw refused (accepts (inr (refl, loud)))
        | inl (went, quiet) ↦ rw went (
            Returns-map
              (λ r d. elim d [
                | inl (went', quiet') ↦ inl (went', Moves-trans (omega arith) quiet quiet')
                | inr (refused', loud') ↦
                    inr (refused', λ n. Moves-trans (omega arith) quiet (loud' n))
              ])
              (second counts' σ' quiet.fine))
      ]

  scalar-Counting :
      (bytes : ℕ) (span : SourceSpan)
      → Counting max_nodes (charge_preflight_scalar_bytes bytes span)
  unfolding charge_preflight_scalar_bytes
  scalar-Counting bytes span counts σ fine =
      elim (Option-cases (within counts.scalar_bytes bytes max_lowered_scalar_bytes)) [
        | inl e ↦
            rw (e, charge_preflight_scalar_bytes)
              (refuse-Counting (report_scalar_byte_limit span)
                (λ n τ f. report_scalar_byte_limit-Moves n span τ f) counts σ fine)
        | inr (next, e) ↦ rw (e, charge_preflight_scalar_bytes) (accept-Counting _ σ fine)
      ]

  node-Counting :
      (limit : ℕ) (span : SourceSpan) → Counting max_nodes (charge_preflight_node limit span)
  unfolding charge_preflight_node
  node-Counting limit span counts σ fine = elim (Option-cases (within counts.nodes 1 limit)) [
    | inl e ↦
        rw (e, charge_preflight_node)
          (refuse-Counting (report_node_limit span) (λ n τ f. report_node_limit-Moves n span τ f)
            counts σ fine)
    | inr (next, e) ↦ rw (e, charge_preflight_node) (accept-Counting _ σ fine)
  ]

  depth-Counting : (span : SourceSpan) → Counting max_nodes (refuse (report_depth_limit span))
  depth-Counting span =
      refuse-Counting (report_depth_limit span) (λ n τ f. report_depth_limit-Moves n span τ f)

  params-Counting :
      (params : List Text) (span : SourceSpan)
      → Counting max_nodes (charge_preflight_params params span)
  unfolding charge_preflight_params
  params-Counting [] span = accept-Counting
  params-Counting (p ∷ ps) span =
      both-Counting (scalar-Counting (byte_length p) span) (params-Counting ps span)

module _ (compile : RegexFlavor → Text → ℕ → Option Text) (analyzer : Analyzer)
    (schema : RuntimeSchema) where
  abbrev node_limit : ℕ
  node_limit = analyzer.profile.max_ast_nodes

  abbrev Recursion : Type 0
  Recursion = AstExpression → ℕ → List InlineFrame → List FunctionKey → Count

  -- With this fuel, at this depth and with these frames, a count ends.
  abbrev CountsAll : ℕ → Recursion → Type 0
  CountsAll fuel recurse =
      (e : AstExpression) (depth : ℕ) (bindings : List InlineFrame) (active : List FunctionKey)
      → depth ≤ max_depth compile analyzer schema + 1
      → length bindings + 2 * (max_depth compile analyzer schema + 2 - depth) ≤ fuel
      → Counting node_limit (recurse e depth bindings active)

  module _ (fuel : ℕ) (recurse : Recursion) (rec : CountsAll fuel recurse) where
    -- The children stand one level deeper.
    abbrev Child : ℕ → List InlineFrame → Type 0
    Child depth bindings =
        (depth ≤ max_depth compile analyzer schema + 1)
        × (length bindings + 2 * (max_depth compile analyzer schema + 2 - depth) + 1 ≤ fuel)

    Child-Counting :
        (e : AstExpression) (depth : ℕ) (bindings : List InlineFrame) (active : List FunctionKey)
        → Child depth bindings
        → Counting node_limit (recurse e depth bindings active)
    Child-Counting e depth bindings active (d, f) = rec e depth bindings active d (omega (arith, f))

    all-Counting :
        (es : Expressions) (depth : ℕ) (bindings : List InlineFrame) (active : List FunctionKey)
        → Child depth bindings
        → Counting node_limit (count_all compile analyzer schema recurse es depth bindings active)
    unfolding count_all
    all-Counting nil depth bindings active ready = accept-Counting
    all-Counting (cons e es) depth bindings active ready =
        both-Counting (Child-Counting e depth bindings active ready)
          (all-Counting es depth bindings active ready)

    body-Counting :
        (function : ExpressionFunction) (args : Expressions) (span : SourceSpan) (depth : ℕ)
        (bindings : List InlineFrame) (active : List FunctionKey)
        → Child depth bindings
        → Counting node_limit
            (count_body compile analyzer schema recurse function args span depth bindings active)
    unfolding count_body
    body-Counting function args span depth bindings active ready =
        go analyzer.expression_function_mode refl
      where
        go :
            (mode : ExpressionFunctionMode)
            → analyzer.expression_function_mode ≡ mode
            → Counting node_limit (
                count_body compile analyzer schema recurse function args span depth bindings active)
        go ExpressionFunctionMode.inline e =
            rw (e, count_body)
              (rec function.expression depth ((function.params, args) ∷ bindings) _ ready.0
                (omega (arith, ready.1)))
        go ExpressionFunctionMode.call_frame e =
            rw (e, count_body)
              (both-Counting (params-Counting function.params span) (
                both-Counting (all-Counting args depth bindings active ready)
                  (Child-Counting function.expression depth bindings _ ready)))

    call-Counting :
        (name : Text) (args : Expressions) (span : SourceSpan) (depth : ℕ)
        (bindings : List InlineFrame) (active : List FunctionKey)
        → Child depth bindings
        → Counting node_limit
            (count_call compile analyzer schema recurse name args span depth bindings active)
    unfolding count_call
    call-Counting name args span depth bindings active ready =
        elim (Option-cases (
          expression_function_for_scope schema name
            (scope_of active analyzer.expression_function_scope))) [
              | inl e ↦ rw (e, count_call) (all-Counting args depth bindings active ready)
              | inr (function, e) ↦ elim (Bool-cases (length function.params == len args)) [
                | inr wrong ↦ rw (e, count_call, wrong) accept-Counting
                | inl same ↦
                    elim (Bool-cases (contains_key key_eq (function_key function) active)) [
                      | inl on ↦ rw (e, count_call, same, on) accept-Counting
                      | inr off ↦
                          rw (e, count_call, same, off)
                            (body-Counting function args span depth bindings active ready)
                    ]
              ]
            ]

    kind-Counting :
        (k : ExprKind) (span : SourceSpan) (depth : ℕ) (bindings : List InlineFrame)
        (active : List FunctionKey)
        → Child depth bindings
        → Counting node_limit
            (count_kind compile analyzer schema recurse k span depth bindings active)
    unfolding count_kind
    kind-Counting ExprKind.null span depth bindings active ready = accept-Counting
    kind-Counting (ExprKind.bool b) span depth bindings active ready = accept-Counting
    kind-Counting (ExprKind.int n) span depth bindings active ready = accept-Counting
    kind-Counting (ExprKind.float x) span depth bindings active ready = accept-Counting
    kind-Counting (ExprKind.string t) span depth bindings active ready = accept-Counting
    kind-Counting (ExprKind.identifier name) span depth bindings active ready = accept-Counting
    kind-Counting (ExprKind.array items) span depth bindings active ready =
        all-Counting items depth bindings active ready
    kind-Counting (ExprKind.member receiver name) span depth bindings active ready =
        Child-Counting receiver depth bindings active ready
    kind-Counting (ExprKind.unary op e) span depth bindings active ready =
        Child-Counting e depth bindings active ready
    kind-Counting (ExprKind.function_call name args) span depth bindings active ready =
        call-Counting name args span depth bindings active ready
    kind-Counting (ExprKind.method_call receiver name args) span depth bindings active ready =
        both-Counting (Child-Counting receiver depth bindings active ready)
          (all-Counting args depth bindings active ready)
    kind-Counting (ExprKind.binary l op r) span depth bindings active ready =
        both-Counting (Child-Counting l depth bindings active ready)
          (Child-Counting r depth bindings active ready)

    charged-Counting :
        (e : AstExpression) (depth : ℕ) (bindings : List InlineFrame) (active : List FunctionKey)
        → depth ≤ max_depth compile analyzer schema
        → length bindings + 2 * (max_depth compile analyzer schema + 2 - depth) ≤ suc fuel
        → Counting node_limit
            (count_charged compile analyzer schema recurse e depth bindings active)
    unfolding count_charged
    charged-Counting e depth bindings active d f = both-Counting (scalar-Counting _ (span_of e)) (
        both-Counting (node-Counting node_limit (span_of e))
          (elim (Option-cases (checked_add depth 1)) [
            | inl h ↦ rw (h, count_charged) (depth-Counting (span_of e))
            | inr (child_depth, h) ↦
                let s : child_depth ≡ depth + 1 = ground arith in
                rw (h, count_charged)
                  (kind-Counting (kind_of e) (span_of e) child_depth bindings active
                    (omega (arith, s), omega (arith, s)))
          ]))

    inlining-Counting :
        (e : AstExpression) (depth : ℕ) (bindings : List InlineFrame) (active : List FunctionKey)
        → depth ≤ max_depth compile analyzer schema
        → length bindings + 2 * (max_depth compile analyzer schema + 2 - depth) ≤ suc fuel
        → Counting node_limit
            (count_inlining compile analyzer schema recurse e depth bindings active)
    unfolding count_inlining
    inlining-Counting e depth [] active d f = charged-Counting e depth [] active d f
    inlining-Counting e depth (frame ∷ frames) active d f =
        go analyzer.expression_function_mode refl
      where
        go :
            (mode : ExpressionFunctionMode)
            → analyzer.expression_function_mode ≡ mode
            → Counting node_limit
                (count_inlining compile analyzer schema recurse e depth (frame ∷ frames) active)
        go ExpressionFunctionMode.call_frame m =
            rw (m, count_inlining) (charged-Counting e depth (frame ∷ frames) active d f)
        go ExpressionFunctionMode.inline m = elim (Option-cases (frame_argument e frame)) [
          | inl h ↦ rw (m, count_inlining, h) (charged-Counting e depth (frame ∷ frames) active d f)
          | inr (argument, h) ↦
              rw (m, count_inlining, h)
                (rec argument depth frames active (omega arith) (omega (arith, f)))
        ]

  lowered-Counting : (fuel : ℕ) → CountsAll fuel (count_lowered compile analyzer schema fuel)
  unfolding count_lowered
  lowered-Counting zero e depth bindings active d f = absurd (omega (arith, d, f))
  lowered-Counting (suc fuel) e depth bindings active d f =
      elim (Bool-cases (ltb (max_depth compile analyzer schema) depth)) [
        | inl deep ↦ rw (deep, count_lowered) (depth-Counting (span_of e))
        | inr fits ↦
            rw (fits, count_lowered)
              (inlining-Counting fuel (count_lowered compile analyzer schema fuel)
                (lowered-Counting fuel) e depth bindings active (ltb→le _ _ fits) f)
      ]

  -- Refused with a complaint, or accepted.
  abbrev pub IsPreflighted : AnalyzeState → Bool × AnalyzeState → Type 0
  IsPreflighted σ r =
      ((r.0 ≡ true) × Moves node_limit 0 σ r.1)
      ⊎ ((r.0 ≡ false) × ((n : ℕ) → Moves node_limit n σ r.1))

  pub preflight_lowering-Returns :
      (e : AstExpression) (σ : AnalyzeState)
      → IsFine node_limit σ
      → Returns (IsPreflighted σ) (preflight_lowering compile analyzer schema e σ)
  unfolding preflight_lowering
  preflight_lowering-Returns e σ fine =
      Returns-bind
        (lowered-Counting (enough_fuel compile analyzer schema) e 0 [] [] (omega arith)
          (omega arith) _ σ fine)
        λ ((accepted, counts), σ') c. accepts c
