-- ===== src/Analyzer/Charges.antt =====
-- The limits are charged or reported, and diagnostics of expression functions are kept.
use online_dsl_forge.Base.{
  ◌≡◌, refl, ◌≤◌, ◌+◌, arith, [], ◌∷◌, true, false, Bool, inl, inr, some, ℕ, Bool-cases, ◌⊎◌, suc,
  List, Option-cases, Text, byte_length, ltb, length, ◌&&◌,
}
use online_dsl_forge.Analyzer.State.{AnalyzeState, InlineFrame, FunctionKey}
use online_dsl_forge.Analyzer.Limits.{
  within, report_node_limit, report_depth_limit, report_scalar_byte_limit, charge_node,
  charge_lowered_scalar_bytes, charge_params, max_lowered_scalar_bytes,
}
use online_dsl_forge.Analyzer.Moves.{
  Quiet, Moves, Clean, IsFine, stay, IsRequired, complain-loud, Quiet-Moves, Moves-trans,
  complain-Quiet,
}
use online_dsl_forge.Verified.{CapabilityTicket}
use online_dsl_forge.Syntax.{SourceSpan, Diagnostic}
use online_dsl_forge.Analyzer.Expressions.{
  push_function_diagnostic, fits_in, retained_bytes, report_budget,
}
use online_dsl_forge.Schema.{ExpressionFunctionLimits}
use online_dsl_forge.Analyzer.{LocalBinding}
use online_dsl_forge.Schema.Functions.{
  diagnostic_limit, bounded_diagnostic_message, diagnostic_byte_limit,
}

pub within-eq-some :
    (counter more limit : ℕ) {sum : ℕ}
    → within counter more limit ≡ some sum
    → (sum ≡ counter + more) × (sum ≤ limit)
within-eq-some counter more limit h = (ground arith, ground arith)

-- Charged, or refused with a complaint.
abbrev pub Charged : ℕ → ℕ → AnalyzeState → Bool × AnalyzeState → Type 0
Charged max_nodes k σ r =
    ((r.0 ≡ true) × Moves max_nodes k σ r.1) ⊎ ((r.0 ≡ false) × ((n : ℕ) → Moves max_nodes n σ r.1))

bytes-Quiet : (σ : AnalyzeState) {bytes : ℕ} → Quiet σ (record σ { lowered_scalar_bytes = bytes })
bytes-Quiet σ = record {
  clean = λ h. h;
  kept = λ t h. h;
  same_nodes = refl;
  same_node_flag = refl;
  same_depth_flag = refl;
  same_scalar_flag = refl;
  same_inline = refl;
  same_local = refl;
  same_active = refl;
}

module _ {max_nodes : ℕ} where
  -- A complaint is worth any number of nodes.
  noisy-Moves :
      {k : ℕ} {σ σ' : AnalyzeState}
      → IsFine max_nodes σ
      → ¬ Clean σ'
      → σ'.lowered_nodes ≡ σ.lowered_nodes
      → ((t : CapabilityTicket) → IsRequired σ t → IsRequired σ' t)
      → σ'.inline_bindings ≡ σ.inline_bindings
      → σ'.local_bindings ≡ σ.local_bindings
      → σ'.active_functions ≡ σ.active_functions
      → Moves max_nodes k σ σ'
  noisy-Moves fine loud nodes kept inline local active = record {
    fine = record {
      node_unreported = λ h. absurd (loud h);
      depth_unreported = λ h. absurd (loud h);
      scalar_unreported = λ h. absurd (loud h);
      fits = omega (arith, nodes, fine.fits);
    };
    clean = λ h. absurd (loud h);
    charged = λ h. absurd (loud h);
    kept = kept;
    same_inline = inline;
    same_local = local;
    same_active = active;
  }

  pub loud-Moves :
      {k : ℕ} {σ σ' : AnalyzeState}
      → IsFine max_nodes σ
      → Quiet σ σ'
      → ¬ Clean σ'
      → Moves max_nodes k σ σ'
  loud-Moves fine q loud =
      noisy-Moves fine loud q.same_nodes q.kept q.same_inline q.same_local q.same_active

  pub report_node_limit-Moves :
      (k : ℕ) (span : SourceSpan) (σ : AnalyzeState)
      → IsFine max_nodes σ
      → Moves max_nodes k σ (report_node_limit span σ)
  unfolding report_node_limit
  report_node_limit-Moves k span σ fine = elim (Bool-cases σ.node_limit_reported) [
    | inl e ↦
        simp (e, report_node_limit)
          (loud-Moves fine (stay σ) λ h. let f = fine.node_unreported h in cc)
    | inr e ↦
        simp (e, report_node_limit)
          (noisy-Moves fine (complain-loud _ span σ) refl (λ t h. h) refl refl refl)
  ]

  pub report_depth_limit-Moves :
      (k : ℕ) (span : SourceSpan) (σ : AnalyzeState)
      → IsFine max_nodes σ
      → Moves max_nodes k σ (report_depth_limit span σ)
  unfolding report_depth_limit
  report_depth_limit-Moves k span σ fine = elim (Bool-cases σ.depth_limit_reported) [
    | inl e ↦
        simp (e, report_depth_limit)
          (loud-Moves fine (stay σ) λ h. let f = fine.depth_unreported h in cc)
    | inr e ↦
        simp (e, report_depth_limit)
          (noisy-Moves fine (complain-loud _ span σ) refl (λ t h. h) refl refl refl)
  ]

  pub report_scalar_byte_limit-Moves :
      (k : ℕ) (span : SourceSpan) (σ : AnalyzeState)
      → IsFine max_nodes σ
      → Moves max_nodes k σ (report_scalar_byte_limit span σ)
  unfolding report_scalar_byte_limit
  report_scalar_byte_limit-Moves k span σ fine = elim (Bool-cases σ.scalar_byte_limit_reported) [
    | inl e ↦
        simp (e, report_scalar_byte_limit)
          (loud-Moves fine (stay σ) λ h. let f = fine.scalar_unreported h in cc)
    | inr e ↦
        simp (e, report_scalar_byte_limit)
          (noisy-Moves fine (complain-loud _ span σ) refl (λ t h. h) refl refl refl)
  ]

  pub Moves-loud : {σ σ' : AnalyzeState} → ((n : ℕ) → Moves max_nodes n σ σ') → ¬ Clean σ'
  Moves-loud {σ} {σ'} m h = let p = (m (suc σ'.lowered_nodes)).charged h in omega (arith, p)

  pub charge_node-Charged :
      (span : SourceSpan) (σ : AnalyzeState)
      → IsFine max_nodes σ
      → Charged max_nodes 1 σ (charge_node max_nodes span σ)
  unfolding charge_node
  charge_node-Charged span σ fine = elim (Option-cases (within σ.lowered_nodes 1 max_nodes)) [
    | inl e ↦ rw (e, charge_node) (inr (refl, λ n. report_node_limit-Moves n span σ fine))
    | inr (nodes, e) ↦
        rw (e, charge_node)
          (inl (refl, counted nodes (within-eq-some σ.lowered_nodes 1 max_nodes e)))
  ]
    where
      counted :
          (nodes : ℕ)
          → (nodes ≡ σ.lowered_nodes + 1) × (nodes ≤ max_nodes)
          → Moves max_nodes 1 σ (record σ { lowered_nodes = nodes })
      counted nodes (sum, fits) = record {
        fine = record {
          node_unreported = fine.node_unreported;
          depth_unreported = fine.depth_unreported;
          scalar_unreported = fine.scalar_unreported;
          fits = fits;
        };
        clean = λ h. h;
        charged = λ h. omega (arith, sum);
        kept = λ t h. h;
        same_inline = refl;
        same_local = refl;
        same_active = refl;
      }

  pub charge_scalar-Charged :
      (bytes : ℕ) (span : SourceSpan) (σ : AnalyzeState)
      → IsFine max_nodes σ
      → Charged max_nodes 0 σ (charge_lowered_scalar_bytes bytes span σ)
  unfolding charge_lowered_scalar_bytes
  charge_scalar-Charged bytes span σ fine =
      elim (Option-cases (within σ.lowered_scalar_bytes bytes max_lowered_scalar_bytes)) [
        | inl e ↦
            rw (e, charge_lowered_scalar_bytes)
              (inr (refl, λ n. report_scalar_byte_limit-Moves n span σ fine))
        | inr (total, e) ↦
            rw (e, charge_lowered_scalar_bytes) (inl (refl, Quiet-Moves fine (bytes-Quiet σ)))
      ]

  pub charge_params-Charged :
      (params : List Text) (span : SourceSpan) (σ : AnalyzeState)
      → IsFine max_nodes σ
      → Charged max_nodes 0 σ (charge_params params span σ)
  unfolding charge_params
  charge_params-Charged [] span σ fine = inl (refl, Quiet-Moves fine (stay σ))
  charge_params-Charged (p ∷ ps) span σ fine =
      elim (charge_scalar-Charged (byte_length p) span σ fine) [
        | inr (e, m) ↦ rw (e, charge_params) (inr (refl, m))
        | inl (e, m) ↦
            rw (e, charge_params)
              (elim (charge_params-Charged ps span _ m.fine) [
                | inl (e', n) ↦ inl (e', Moves-trans (omega arith) m n)
                | inr (e', n) ↦ inr (e', λ k. Moves-trans (omega arith) m (n k))
              ])
      ]

  -- The stacks are none of the limits' concern.
  pub framed-IsFine :
      {σ : AnalyzeState} {inline : List InlineFrame} {local : List (List (Text × LocalBinding))}
      {active : List FunctionKey}
      → IsFine max_nodes σ
      → IsFine max_nodes
          (record σ { inline_bindings = inline; local_bindings = local; active_functions = active })
  framed-IsFine fine = record {
    node_unreported = fine.node_unreported;
    depth_unreported = fine.depth_unreported;
    scalar_unreported = fine.scalar_unreported;
    fits = fine.fits;
  }

  -- A step on other stacks, which are put back behind it.
  pub framed-Moves :
      {k : ℕ} {σ σ' : AnalyzeState} {inline inline' : List InlineFrame}
      {local local' : List (List (Text × LocalBinding))} {active active' : List FunctionKey}
      → inline' ≡ σ.inline_bindings
      → local' ≡ σ.local_bindings
      → active' ≡ σ.active_functions
      → Moves max_nodes k
          (record σ { inline_bindings = inline; local_bindings = local; active_functions = active })
          σ'
      → Moves max_nodes k σ (record σ' {
        inline_bindings = inline';
        local_bindings = local';
        active_functions = active';
      })
  framed-Moves i l a m = record {
    fine = framed-IsFine m.fine;
    clean = m.clean;
    charged = m.charged;
    kept = m.kept;
    same_inline = i;
    same_local = l;
    same_active = a;
  }

-- A step that complains, or comes behind another complaint.
abbrev pub Loud : AnalyzeState → AnalyzeState → Type 0
Loud σ σ' = Quiet σ σ' × ¬ Clean σ'

branch-Loud :
    (b : Bool) {σ σ' σ'' : AnalyzeState}
    → Loud σ σ'
    → Loud σ σ''
    → Loud σ (elim b [ true ↦ σ' | false ↦ σ'' ])
branch-Loud true p q = p
branch-Loud false p q = q

report_budget-Loud :
    (ds : List Diagnostic) (span : SourceSpan) (σ : AnalyzeState)
    → σ.diagnostics ≡ ds
    → Loud σ (report_budget ds span σ)
unfolding report_budget
report_budget-Loud [] span σ e = (complain-Quiet _ span σ, complain-loud _ span σ)
report_budget-Loud (d ∷ ds) span σ e = (stay σ, λ h. cc)

pub problem-Loud :
    (limits : ExpressionFunctionLimits) (message : Text) (span : SourceSpan) (σ : AnalyzeState)
    → Loud σ (push_function_diagnostic limits message span σ)
unfolding push_function_diagnostic
problem-Loud limits message span σ =
    branch-Loud
      (ltb (length σ.diagnostics) (diagnostic_limit limits)
        && fits_in (retained_bytes 0 σ.diagnostics)
            (byte_length (bounded_diagnostic_message message)) (diagnostic_byte_limit limits))
      (complain-Quiet _ span σ, complain-loud _ span σ)
      (report_budget-Loud σ.diagnostics span σ refl)
