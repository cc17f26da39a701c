-- ===== src/Analyzer/Calls.antt =====
-- Calls of the host's functions and methods are given the tickets of what was declared.
use online_dsl_forge.Base.{
  ◌≡◌, refl, ◌∙◌, sym, ap, subst, ◌+◌, arith, true, false, inl, inr, none, some, Returns, accepts,
  Bool, Text, Option, ℕ, not, codes, Returns-bind, Returns-map,
}
use online_dsl_forge.Analyzer.{Analyzer, ExprAnalysis}
use online_dsl_forge.Analyzer.State.{AnalyzeState, Analyze, complain_if}
use online_dsl_forge.Analyzer.Moves.{
  Quiet, Moves, Clean, IsFine, stay, then, IsRequired, complain-loud, complain_if-Quiet,
  Moves-trans, complain-Quiet, Quiet-Moves, Moves-then,
}
use online_dsl_forge.Analyzer.Tickets.{IsTicketed, IsTicketed-map, AllTicketed-map}
use online_dsl_forge.Runtime.Tickets.{ticket_of}
use online_dsl_forge.Verified.{size, args_size, CapabilityTicket, CapabilityKind}
use online_dsl_forge.Analyzer.Parts.{
  Inner, Analyzes, Ready, all-Lowered, deeper, Ready-Moves, Ready-Quiet, capability_step-Quiet,
  capability_step-IsRequired,
}
use online_dsl_forge.Schema.{
  RegexFlavor, CapabilityMeta, RuntimeSchema, ticket, SignatureMatch, signature_accepts,
  signature_capability,
}
use online_dsl_forge.Syntax.{SourceSpan, AstExpression, Expressions, len}
use online_dsl_forge.Analyzer.Checks.{validate_call, validate_capability, require_capability}
use online_dsl_forge.Schema.Identified.{AreIdentified, matches-some}
use online_dsl_forge.Analyzer.Expressions.{
  call_host, analyze_host_call, call_host_method, analyze_method_call,
}
use online_dsl_forge.Analyzer.Quiet.{
  capability-Quiet, regex_args-Quiet, require-Quiet, require-IsRequired,
}
use online_dsl_forge.Analyzer.Regex.{validate_regex_args}

-- The capability is the declared one, or none is needed.
abbrev pub IsCallable : Bool → CapabilityTicket → Option CapabilityMeta → Type 0
IsCallable optional own none = optional ≡ true
IsCallable optional own (some c) = ticket c ≡ own

module _ (compile : RegexFlavor → Text → ℕ → Option Text) (analyzer : Analyzer)
    (schema : RuntimeSchema) where
  complain_if-silent :
      (b : Bool) (message : Text) (span : SourceSpan) (σ : AnalyzeState)
      → Clean (complain_if (not b) message span σ)
      → b ≡ true
  unfolding complain_if
  complain_if-silent true message span σ h = refl
  complain_if-silent false message span σ h = absurd (complain-loud message span σ h)

  pub validate_call-IsCallable :
      (kind name : Text) (arity : ℕ) (m : SignatureMatch) (declared : Option CapabilityMeta)
      (optional : Bool) (span : SourceSpan) (σ : AnalyzeState) (own : CapabilityTicket)
      → (m ≡ SignatureMatch.matches → (c : CapabilityMeta) × (declared ≡ some c) × (ticket c ≡ own))
      → Quiet σ (validate_call analyzer schema kind name arity m declared optional span σ).1
        × (Clean (validate_call analyzer schema kind name arity m declared optional span σ).1
            → IsCallable optional own
                (validate_call analyzer schema kind name arity m declared optional span σ).0)
  unfolding validate_call
  validate_call-IsCallable kind name arity SignatureMatch.matches declared optional span σ own h =
      let (c, found, named) = h refl in
      (stay σ, λ _. subst (IsCallable optional own) (sym found) named)
  validate_call-IsCallable kind name arity SignatureMatch.unknown declared optional span σ own h =
      (complain_if-Quiet (not optional) _ span σ, complain_if-silent optional _ span σ)
  validate_call-IsCallable kind name arity SignatureMatch.arity_mismatch declared optional span σ
        own h =
      (complain-Quiet _ span σ, λ clean. absurd (complain-loud _ span σ clean))

  module _ (ids : AreIdentified schema) (fuel : ℕ)
      (recurse : AstExpression → ℕ → Analyze ExprAnalysis)
      (rec : Analyzes compile analyzer schema ids fuel recurse) where
    abbrev pub node_limit : ℕ
    node_limit = analyzer.profile.max_ast_nodes

    abbrev pub ReadyHere : ℕ → AnalyzeState → Type 0
    ReadyHere = Ready compile analyzer schema ids fuel recurse rec

    abbrev pub Goal : AnalyzeState → Analyze ExprAnalysis → Type 0
    Goal σ m = Returns (Inner analyzer.options node_limit σ) (m σ)

    -- What comes behind a quiet step.
    pub after-Quiet :
        {σ σ' : AnalyzeState} (r : ExprAnalysis × AnalyzeState)
        → IsFine node_limit σ
        → Quiet σ σ'
        → Inner analyzer.options node_limit σ' r
        → Inner analyzer.options node_limit σ r
    after-Quiet r fine q i = record {
      paid = i.paid;
      small = i.small;
      moves = Moves-trans (omega arith) (Quiet-Moves fine q) i.moves;
      ticketed = i.ticketed;
    }

    call_host-Inner :
        (capability : Option CapabilityMeta) (name : Text) (args : Expressions) (span : SourceSpan)
        (depth : ℕ) (σ : AnalyzeState)
        → IsFine node_limit σ
        → ReadyHere depth σ
        → (Clean σ
            → IsCallable analyzer.options.allow_unknown_functions
                (ticket_of CapabilityKind.function name (len args))
                capability)
        → Goal σ (call_host compile analyzer schema recurse capability name args span depth)
    unfolding call_host size IsTicketed
    call_host-Inner none name args span depth σ fine ready callable =
        Returns-bind
          (all-Lowered compile analyzer schema ids fuel recurse rec args depth _ σ fine ready)
          λ (a, σ') l. accepts (record {
            paid = args_size a.exprs;
            small = omega arith;
            moves = l.moves;
            ticketed = λ h. (inr (refl, callable (l.moves.clean h)), l.ticketed h);
          })
    call_host-Inner (some c) name args span depth σ fine ready callable =
        let q₁ = capability-Quiet analyzer schema c span σ in
        let q₂ =
          regex_args-Quiet compile analyzer c.regex_args args span
            (validate_capability analyzer schema c span σ) in
        let before =
          validate_regex_args compile analyzer c.regex_args args span
            (validate_capability analyzer schema c span σ) in
        let q = then (then q₁ q₂) (require-Quiet c before) in
        let m = Quiet-Moves fine q in
        Returns-bind
          (all-Lowered compile analyzer schema ids fuel recurse rec args depth _
            (require_capability c before) m.fine
            (Ready-Quiet compile analyzer schema ids fuel recurse rec ready q))
          λ (a, σ') l. accepts (record {
            paid = args_size a.exprs;
            small = omega arith;
            moves = Moves-trans (omega arith) m l.moves;
            ticketed = λ h.
                let named =
                  callable (q.clean (l.moves.clean h))
                  ∙ sym (ap (ticket_of CapabilityKind.function name) l.same_count) in
                (
                  inl (
                    ap some named,
                    subst (IsRequired σ') named
                        (l.moves.kept (ticket c) (require-IsRequired c before)),
                  ),
                  l.ticketed h,
                );
          })

    pub host_call-Inner :
        (name : Text) (args : Expressions) (span : SourceSpan) (depth : ℕ) (σ : AnalyzeState)
        → IsFine node_limit σ
        → ReadyHere depth σ
        → Goal σ (analyze_host_call compile analyzer schema recurse name args span depth)
    unfolding analyze_host_call
    host_call-Inner name args span depth σ fine ready =
        let (q, callable) =
          validate_call-IsCallable (codes "function") name (len args)
            (signature_accepts schema.functions name (len args))
            (signature_capability schema.functions name (len args))
            analyzer.options.allow_unknown_functions span σ
            (ticket_of CapabilityKind.function name (len args))
            (λ m.
              let (c, found) = matches-some schema.functions name (len args) m in
              (c, found, ids.functions_named name (len args) c found)) in
        Returns-map (λ r i. after-Quiet r fine q i)
          (call_host-Inner _ name args span depth _ (Quiet-Moves fine q).fine
            (Ready-Quiet compile analyzer schema ids fuel recurse rec ready q) callable)

    call_host_method-Inner :
        (capability : Option CapabilityMeta) (r : ExprAnalysis) (name : Text) (args : Expressions)
        (span : SourceSpan) (depth : ℕ) (σ₀ σ : AnalyzeState)
        → Moves node_limit (size r.expr) σ₀ σ
        → (Clean σ → IsTicketed analyzer.options (IsRequired σ) r.expr)
        → ReadyHere depth σ
        → (Clean σ
            → IsCallable analyzer.options.allow_unknown_methods
                (ticket_of CapabilityKind.method name (len args))
                capability)
        → Returns
            (Inner analyzer.options node_limit σ₀)
            (call_host_method compile analyzer schema recurse capability r name args span depth σ)
    unfolding call_host_method size IsTicketed
    call_host_method-Inner none r name args span depth σ₀ σ before ticketed ready callable =
        Returns-bind
          (all-Lowered compile analyzer schema ids fuel recurse rec args depth _ σ before.fine
            ready)
          λ (a, σ') l. accepts (record {
            paid = size r.expr + args_size a.exprs;
            small = omega arith;
            moves = Moves-then before l.moves;
            ticketed = λ h. (
              inr (refl, callable (l.moves.clean h)),
              (
                IsTicketed-map analyzer.options (λ t x. l.moves.kept t x) r.expr
                    (ticketed (l.moves.clean h)),
                l.ticketed h,
              ),
            );
          })
    call_host_method-Inner (some c) r name args span depth σ₀ σ before ticketed ready callable =
        let q₁ = regex_args-Quiet compile analyzer c.regex_args args span σ in
        let σ₁ = validate_regex_args compile analyzer c.regex_args args span σ in
        let m = Quiet-Moves before.fine q₁ in
        Returns-bind
          (all-Lowered compile analyzer schema ids fuel recurse rec args depth _ σ₁ m.fine
            (Ready-Quiet compile analyzer schema ids fuel recurse rec ready q₁))
          λ (a, σ₂) l.
            let q₂ = capability_step-Quiet compile analyzer schema ids fuel recurse rec c span σ₂ in
            accepts (record {
              paid = size r.expr + args_size a.exprs;
              small = omega arith;
              moves =
                  Moves-trans (omega arith) (Moves-then before (Moves-then m l.moves))
                    (Quiet-Moves l.moves.fine q₂);
              ticketed = λ h.
                  let at_args = q₂.clean h in
                  let at_call = q₁.clean (l.moves.clean at_args) in
                  let named =
                    callable at_call
                    ∙ sym (ap (ticket_of CapabilityKind.method name) l.same_count) in
                  (
                    inl (
                      ap some named,
                      capability_step-IsRequired compile analyzer schema ids fuel recurse rec c span
                          σ₂ named,
                    ),
                    (
                      IsTicketed-map analyzer.options
                          (λ t x. q₂.kept t (l.moves.kept t (q₁.kept t x))) r.expr
                          (ticketed at_call),
                      AllTicketed-map analyzer.options (λ t x. q₂.kept t x) a.exprs
                          (l.ticketed at_args),
                    ),
                  );
            })

    pub method_call-Inner :
        (receiver : AstExpression) (name : Text) (args : Expressions) (span : SourceSpan)
        (depth : ℕ) (σ : AnalyzeState)
        → IsFine node_limit σ
        → ReadyHere depth σ
        → Goal σ (analyze_method_call compile analyzer schema recurse receiver name args span depth)
    unfolding analyze_method_call
    method_call-Inner receiver name args span depth σ fine ready =
        Returns-bind
          (rec receiver (depth + 1) σ fine
            (deeper compile analyzer schema ids fuel recurse rec σ ready))
          λ (r, σ') l.
            let (q, callable) =
              validate_call-IsCallable (codes "method") name (len args)
                (signature_accepts schema.methods name (len args))
                (signature_capability schema.methods name (len args))
                analyzer.options.allow_unknown_methods span σ'
                (ticket_of CapabilityKind.method name (len args))
                (λ m.
                  let (c, found) = matches-some schema.methods name (len args) m in
                  (c, found, ids.methods_named name (len args) c found)) in
            call_host_method-Inner _ r name args span depth σ _
              (Moves-trans (omega arith) l.moves (Quiet-Moves l.moves.fine q))
              (λ h.
                IsTicketed-map analyzer.options (λ t x. q.kept t x) r.expr (l.ticketed (q.clean h)))
              (Ready-Quiet compile analyzer schema ids fuel recurse rec
                (Ready-Moves compile analyzer schema ids fuel recurse rec ready l.moves) q)
              callable
