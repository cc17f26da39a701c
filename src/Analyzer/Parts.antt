-- ===== src/Analyzer/Parts.antt =====
-- Each part of the analysis ends, charges for the nodes that it makes and gives the calls their tickets.
use online_dsl_forge.Base.{
  ◌≡◌, refl, ap, subst, ◌≤◌, ◌+◌, ◌*◌, ◌-◌, arith, none, some, suc, Returns, accepts, ℕ, Text,
  Option, length, Returns-bind,
}
use online_dsl_forge.Analyzer.{Analyzer, ExprAnalysis, CompileOptions, ArgsAnalysis}
use online_dsl_forge.Analyzer.State.{AnalyzeState, Analyze}
use online_dsl_forge.Analyzer.Moves.{
  Quiet, Moves, Clean, IsFine, stay, then, IsRequired, Quiet-Moves, Moves-trans, Moves-then,
}
use online_dsl_forge.Analyzer.Tickets.{IsTicketed, AllTicketed, IsTicketed-map}
use online_dsl_forge.Runtime.Tickets.{ticket_of}
use online_dsl_forge.Verified.{size, args_size, args_len, CapabilityKind, CapabilityTicket}
use online_dsl_forge.Schema.{
  RegexFlavor, RuntimeSchema, CapabilityMeta, unary_operator_capability, binary_operator_capability,
  ticket, unary_operator, binary_operator,
}
use online_dsl_forge.Schema.Identified.{AreIdentified}
use online_dsl_forge.Syntax.{
  AstExpression, Expressions, len, cons, nil, SourceSpan, UnaryOp, BinaryOp, unary_as_str,
  binary_as_str,
}
use online_dsl_forge.Analyzer.Expressions.{
  analyze_all, max_depth, analyze_array, analyze_member, analyze_unary, analyze_binary,
  origin_of_member, or_capability,
}
use online_dsl_forge.Analyzer.Quiet.{
  origin_phase-Quiet, capability-Quiet, require-Quiet, require-IsRequired,
}
use online_dsl_forge.Analyzer.Checks.{require_capability, validate_capability}

-- What an analysis that started in `σ` returns.
pub record Lowered (options : CompileOptions) (max_nodes : ℕ) (σ : AnalyzeState)
    (r : ExprAnalysis × AnalyzeState) : Type 0 where
  pub moves : Moves max_nodes (size r.0.expr) σ r.1
  pub ticketed : Clean r.1 → IsTicketed options (IsRequired r.1) r.0.expr

-- The same behind the charge for the outermost node.
pub record Inner (options : CompileOptions) (max_nodes : ℕ) (σ : AnalyzeState)
    (r : ExprAnalysis × AnalyzeState) : Type 0 where
  pub paid : ℕ
  pub small : size r.0.expr ≤ suc paid
  pub moves : Moves max_nodes paid σ r.1
  pub ticketed : Clean r.1 → IsTicketed options (IsRequired r.1) r.0.expr

pub record ListLowered (options : CompileOptions) (max_nodes count : ℕ) (σ : AnalyzeState)
    (r : ArgsAnalysis × AnalyzeState) : Type 0 where
  pub moves : Moves max_nodes (args_size r.0.exprs) σ r.1
  pub ticketed : Clean r.1 → AllTicketed options (IsRequired r.1) r.0.exprs
  pub same_count : args_len r.0.exprs ≡ count

module _ (compile : RegexFlavor → Text → ℕ → Option Text) (analyzer : Analyzer)
    (schema : RuntimeSchema) (ids : AreIdentified schema) where
  abbrev pub max_nodes : ℕ
  max_nodes = analyzer.profile.max_ast_nodes

  -- Fuel for a call at this depth with these frames.
  abbrev pub Fueled : ℕ → ℕ → AnalyzeState → Type 0
  Fueled fuel depth σ =
      (depth ≤ max_depth compile analyzer schema + 1)
      × (length σ.inline_bindings + 2 * (max_depth compile analyzer schema + 2 - depth) ≤ fuel)

  abbrev pub Analyzes : ℕ → (AstExpression → ℕ → Analyze ExprAnalysis) → Type 0
  Analyzes fuel recurse =
      (e : AstExpression) (depth : ℕ) (σ : AnalyzeState)
      → IsFine max_nodes σ
      → Fueled fuel depth σ
      → Returns (Lowered analyzer.options max_nodes σ) (recurse e depth σ)

  module _ (fuel : ℕ) (recurse : AstExpression → ℕ → Analyze ExprAnalysis)
      (rec : Analyzes fuel recurse) where
    -- A call from here is one level deeper.
    abbrev pub Ready : ℕ → AnalyzeState → Type 0
    Ready depth σ =
        (depth ≤ max_depth compile analyzer schema)
        × (length σ.inline_bindings + 2 * (max_depth compile analyzer schema + 2 - depth)
            ≤ suc fuel)

    pub deeper : {depth : ℕ} (σ : AnalyzeState) → Ready depth σ → Fueled fuel (depth + 1) σ
    deeper σ (d, f) = (omega arith, omega arith)

    pub Ready-Moves :
        {depth k : ℕ} {σ σ' : AnalyzeState}
        → Ready depth σ
        → Moves max_nodes k σ σ'
        → Ready depth σ'
    Ready-Moves (d, f) m = (d, let e = ap length m.same_inline in omega (arith, f, e))

    pub Ready-Quiet :
        {depth : ℕ} {σ σ' : AnalyzeState} → Ready depth σ → Quiet σ σ' → Ready depth σ'
    Ready-Quiet (d, f) q = (d, let e = ap length q.same_inline in omega (arith, f, e))

    pub all-Lowered :
        (es : Expressions) (depth : ℕ) (acc : ArgsAnalysis) (σ : AnalyzeState)
        → IsFine max_nodes σ
        → Ready depth σ
        → Returns
            (ListLowered analyzer.options max_nodes (len es) σ)
            (analyze_all compile analyzer schema recurse es depth acc σ)
    unfolding analyze_all args_size AllTicketed
    all-Lowered nil depth acc σ fine ready =
        accepts
          (record { moves = Quiet-Moves fine (stay σ); ticketed = λ h. tt; same_count = refl })
    all-Lowered (cons e es) depth acc σ fine ready =
        Returns-bind (rec e (depth + 1) σ fine (deeper σ ready)) λ (a, σ') l.
          Returns-bind (all-Lowered es depth _ σ' l.moves.fine (Ready-Moves ready l.moves))
            λ (rest, σ'') r. accepts (record {
              moves = Moves-trans (omega arith) l.moves r.moves;
              ticketed = λ h. (
                IsTicketed-map analyzer.options (λ t q. r.moves.kept t q) a.expr
                    (l.ticketed (r.moves.clean h)),
                r.ticketed h,
              );
              same_count = ap suc r.same_count;
            })

    pub array-Inner :
        (items : Expressions) (span : SourceSpan) (depth : ℕ) (σ : AnalyzeState)
        → IsFine max_nodes σ
        → Ready depth σ
        → Returns
            (Inner analyzer.options max_nodes σ)
            (analyze_array compile analyzer schema recurse items span depth σ)
    unfolding analyze_array size IsTicketed
    array-Inner items span depth σ fine ready =
        Returns-bind (all-Lowered items depth _ σ fine ready) λ (args, σ') l. accepts (record {
          paid = args_size args.exprs;
          small = omega arith;
          moves = l.moves;
          ticketed = λ h. (tt, l.ticketed h);
        })

    pub member-Inner :
        (receiver : AstExpression) (name : Text) (span : SourceSpan) (depth : ℕ) (σ : AnalyzeState)
        → IsFine max_nodes σ
        → Ready depth σ
        → Returns
            (Inner analyzer.options max_nodes σ)
            (analyze_member compile analyzer schema recurse receiver name span depth σ)
    unfolding analyze_member size IsTicketed
    member-Inner receiver name span depth σ fine ready =
        Returns-bind (rec receiver (depth + 1) σ fine (deeper σ ready)) λ (a, σ') l.
          let q =
            origin_phase-Quiet analyzer schema
              (origin_of_member compile analyzer schema a.origin name) span σ' in
          accepts (record {
            paid = size a.expr;
            small = omega arith;
            moves = Moves-trans (omega arith) l.moves (Quiet-Moves l.moves.fine q);
            ticketed = λ h. (
              tt,
              IsTicketed-map analyzer.options (λ t r. q.kept t r) a.expr (l.ticketed (q.clean h)),
            );
          })

    pub capability_step-Quiet :
        (c : CapabilityMeta) (span : SourceSpan) (σ : AnalyzeState)
        → Quiet σ (require_capability c (validate_capability analyzer schema c span σ))
    capability_step-Quiet c span σ =
        then (capability-Quiet analyzer schema c span σ) (require-Quiet c _)

    pub capability_step-IsRequired :
        (c : CapabilityMeta) (span : SourceSpan) (σ : AnalyzeState) {own : CapabilityTicket}
        → ticket c ≡ own
        → IsRequired (require_capability c (validate_capability analyzer schema c span σ)) own
    capability_step-IsRequired c span σ e =
        subst (IsRequired (require_capability c (validate_capability analyzer schema c span σ))) e
          (require-IsRequired c (validate_capability analyzer schema c span σ))

    pub unary-Inner :
        (op : UnaryOp) (e : AstExpression) (span : SourceSpan) (depth : ℕ) (σ : AnalyzeState)
        → IsFine max_nodes σ
        → Ready depth σ
        → Returns
            (Inner analyzer.options max_nodes σ)
            (analyze_unary compile analyzer schema recurse op e span depth σ)
    unfolding analyze_unary size IsTicketed
    unary-Inner op e span depth σ fine ready =
        Returns-bind (rec e (depth + 1) σ fine (deeper σ ready)) λ (a, σ') l.
          let c = or_capability (unary_operator_capability schema op) (unary_operator op) in
          let q = capability_step-Quiet c span σ' in
          let own = own_unary (unary_operator_capability schema op) refl in
          accepts (record {
            paid = size a.expr;
            small = omega arith;
            moves = Moves-trans (omega arith) l.moves (Quiet-Moves l.moves.fine q);
            ticketed = λ h. (
              (ap some own, capability_step-IsRequired c span σ' own),
              IsTicketed-map analyzer.options (λ t r. q.kept t r) a.expr (l.ticketed (q.clean h)),
            );
          })
      where
        own_unary :
            (o : Option CapabilityMeta)
            → unary_operator_capability schema op ≡ o
            → ticket (or_capability o (unary_operator op))
              ≡ ticket_of CapabilityKind.unary_op (unary_as_str op) 1
        own_unary none e = refl
        own_unary (some c) e = ids.unary_named op c e

    pub binary-Inner :
        (left : AstExpression) (op : BinaryOp) (right : AstExpression) (span : SourceSpan)
        (depth : ℕ) (σ : AnalyzeState)
        → IsFine max_nodes σ
        → Ready depth σ
        → Returns
            (Inner analyzer.options max_nodes σ)
            (analyze_binary compile analyzer schema recurse left op right span depth σ)
    unfolding analyze_binary size IsTicketed
    binary-Inner left op right span depth σ fine ready =
        Returns-bind (rec left (depth + 1) σ fine (deeper σ ready)) λ (a, σ') l.
          Returns-bind
            (rec right (depth + 1) σ' l.moves.fine (deeper σ' (Ready-Moves ready l.moves)))
            λ (b, σ'') r.
              let c = or_capability (binary_operator_capability schema op) (binary_operator op) in
              let q = capability_step-Quiet c span σ'' in
              let own = own_binary (binary_operator_capability schema op) refl in
              accepts (record {
                paid = size a.expr + size b.expr;
                small = omega arith;
                moves =
                    Moves-trans (omega arith) (Moves-then l.moves r.moves)
                      (Quiet-Moves r.moves.fine q);
                ticketed = λ h. (
                  (ap some own, capability_step-IsRequired c span σ'' own),
                  (
                    IsTicketed-map analyzer.options (λ t x. q.kept t (r.moves.kept t x)) a.expr
                        (l.ticketed (r.moves.clean (q.clean h))),
                    IsTicketed-map analyzer.options (λ t x. q.kept t x) b.expr
                        (r.ticketed (q.clean h)),
                  ),
                );
              })
      where
        own_binary :
            (o : Option CapabilityMeta)
            → binary_operator_capability schema op ≡ o
            → ticket (or_capability o (binary_operator op))
              ≡ ticket_of CapabilityKind.binary_op (binary_as_str op) 2
        own_binary none e = refl
        own_binary (some c) e = ids.binary_named op c e
