-- ===== src/Analyzer/Moves.antt =====
-- How a step of the analysis changes its state.
use online_dsl_forge.Base.{
  ◌≡◌, refl, ◌∙◌, ◌≤◌, ◌+◌, arith, [], ◌∷◌, ◌++◌, true, false, Bool, List, ℕ, Text, Option,
}
use online_dsl_forge.Analyzer.State.{AnalyzeState, complain, complain_if, RegexKey}
use online_dsl_forge.Map.{contains_key}
use online_dsl_forge.Verified.{CapabilityTicket}
use online_dsl_forge.Syntax.{Diagnostic, SourceSpan}
use online_dsl_forge.Analyzer.Checks.{ticket_eq}
use online_dsl_forge.Analyzer.{RegexLiteral}

-- No diagnostic so far.
abbrev pub Clean : AnalyzeState → Type 0
Clean σ = σ.diagnostics ≡ []

-- A limit is reported only where there is a diagnostic.
pub record IsFine (max_nodes : ℕ) (σ : AnalyzeState) : Type 0 where
  pub node_unreported : Clean σ → σ.node_limit_reported ≡ false
  pub depth_unreported : Clean σ → σ.depth_limit_reported ≡ false
  pub scalar_unreported : Clean σ → σ.scalar_byte_limit_reported ≡ false
  pub fits : σ.lowered_nodes ≤ max_nodes

abbrev pub IsRequired : AnalyzeState → CapabilityTicket → Type 0
IsRequired σ t = contains_key ticket_eq t σ.required_capabilities ≡ true

-- A step that may complain and require, but charges nothing.
pub record Quiet (σ σ' : AnalyzeState) : Type 0 where
  pub clean : Clean σ' → Clean σ
  pub kept : (t : CapabilityTicket) → IsRequired σ t → IsRequired σ' t
  pub same_nodes : σ'.lowered_nodes ≡ σ.lowered_nodes
  pub same_node_flag : σ'.node_limit_reported ≡ σ.node_limit_reported
  pub same_depth_flag : σ'.depth_limit_reported ≡ σ.depth_limit_reported
  pub same_scalar_flag : σ'.scalar_byte_limit_reported ≡ σ.scalar_byte_limit_reported
  pub same_inline : σ'.inline_bindings ≡ σ.inline_bindings
  pub same_local : σ'.local_bindings ≡ σ.local_bindings
  pub same_active : σ'.active_functions ≡ σ.active_functions

-- A step that charges for `size` nodes if there is no diagnostic behind it.
pub record Moves (max_nodes size : ℕ) (σ σ' : AnalyzeState) : Type 0 where
  pub fine : IsFine max_nodes σ'
  pub clean : Clean σ' → Clean σ
  pub charged : Clean σ' → σ.lowered_nodes + size ≤ σ'.lowered_nodes
  pub kept : (t : CapabilityTicket) → IsRequired σ t → IsRequired σ' t
  pub same_inline : σ'.inline_bindings ≡ σ.inline_bindings
  pub same_local : σ'.local_bindings ≡ σ.local_bindings
  pub same_active : σ'.active_functions ≡ σ.active_functions

not-Clean : (ds : List Diagnostic) (d : Diagnostic) → ¬ (ds ++ d ∷ [] ≡ [])
not-Clean [] d h = cc
not-Clean (x ∷ ds) d h = cc

pub complain-loud :
    (message : Text) (span : SourceSpan) (σ : AnalyzeState) → ¬ Clean (complain message span σ)
complain-loud message span σ h = not-Clean σ.diagnostics _ h

pub stay : (σ : AnalyzeState) → Quiet σ σ
stay σ = record {
  clean = λ h. h;
  kept = λ t h. h;
  same_nodes = refl;
  same_node_flag = refl;
  same_depth_flag = refl;
  same_scalar_flag = refl;
  same_inline = refl;
  same_local = refl;
  same_active = refl;
}

pub then : {σ σ' σ'' : AnalyzeState} → Quiet σ σ' → Quiet σ' σ'' → Quiet σ σ''
then a b = record {
  clean = λ h. a.clean (b.clean h);
  kept = λ t h. b.kept t (a.kept t h);
  same_nodes = b.same_nodes ∙ a.same_nodes;
  same_node_flag = b.same_node_flag ∙ a.same_node_flag;
  same_depth_flag = b.same_depth_flag ∙ a.same_depth_flag;
  same_scalar_flag = b.same_scalar_flag ∙ a.same_scalar_flag;
  same_inline = b.same_inline ∙ a.same_inline;
  same_local = b.same_local ∙ a.same_local;
  same_active = b.same_active ∙ a.same_active;
}

pub complain-Quiet :
    (message : Text) (span : SourceSpan) (σ : AnalyzeState) → Quiet σ (complain message span σ)
complain-Quiet message span σ = record {
  clean = λ h. absurd (complain-loud message span σ h);
  kept = λ t h. h;
  same_nodes = refl;
  same_node_flag = refl;
  same_depth_flag = refl;
  same_scalar_flag = refl;
  same_inline = refl;
  same_local = refl;
  same_active = refl;
}

-- The fields of the regex admission are no concern of the rest.
pub regex-Quiet :
    (σ : AnalyzeState) {literals : List RegexLiteral} {cache : List RegexKey}
    {attempts : List (RegexKey × Option Text)} {attempt_count source_bytes : ℕ}
    {count_reported source_reported : Bool}
    → Quiet σ (record σ {
      regex_literals = literals;
      regex_cache = cache;
      regex_attempts = attempts;
      regex_attempt_count = attempt_count;
      regex_source_bytes = source_bytes;
      regex_count_limit_reported = count_reported;
      regex_source_limit_reported = source_reported;
    })
regex-Quiet σ = record {
  clean = λ h. h;
  kept = λ t h. h;
  same_nodes = refl;
  same_node_flag = refl;
  same_depth_flag = refl;
  same_scalar_flag = refl;
  same_inline = refl;
  same_local = refl;
  same_active = refl;
}

pub complain_if-Quiet :
    (b : Bool) (message : Text) (span : SourceSpan) (σ : AnalyzeState)
    → Quiet σ (complain_if b message span σ)
unfolding complain_if
complain_if-Quiet true message span σ = complain-Quiet message span σ
complain_if-Quiet false message span σ = stay σ

pub branch-Quiet :
    (b : Bool) {σ σ' σ'' : AnalyzeState}
    → Quiet σ σ'
    → Quiet σ σ''
    → Quiet σ (elim b [ true ↦ σ' | false ↦ σ'' ])
branch-Quiet true p q = p
branch-Quiet false p q = q

module _ {max_nodes : ℕ} where
  pub Quiet-Moves : {σ σ' : AnalyzeState} → IsFine max_nodes σ → Quiet σ σ' → Moves max_nodes 0 σ σ'
  Quiet-Moves fine q = record {
    fine = record {
      node_unreported = λ h. q.same_node_flag ∙ fine.node_unreported (q.clean h);
      depth_unreported = λ h. q.same_depth_flag ∙ fine.depth_unreported (q.clean h);
      scalar_unreported = λ h. q.same_scalar_flag ∙ fine.scalar_unreported (q.clean h);
      fits = omega (arith, q.same_nodes, fine.fits);
    };
    clean = q.clean;
    charged = λ h. omega (arith, q.same_nodes);
    kept = q.kept;
    same_inline = q.same_inline;
    same_local = q.same_local;
    same_active = q.same_active;
  }

  pub Moves-trans :
      {a b c : ℕ} {σ σ' σ'' : AnalyzeState}
      → c ≤ a + b
      → Moves max_nodes a σ σ'
      → Moves max_nodes b σ' σ''
      → Moves max_nodes c σ σ''
  Moves-trans {a} {b} le m n = record {
    fine = n.fine;
    clean = λ h. m.clean (n.clean h);
    charged = λ h. let p = m.charged (n.clean h) in let q = n.charged h in omega (arith, le, p, q);
    kept = λ t h. n.kept t (m.kept t h);
    same_inline = n.same_inline ∙ m.same_inline;
    same_local = n.same_local ∙ m.same_local;
    same_active = n.same_active ∙ m.same_active;
  }

  pub Moves-then :
      {a b : ℕ} {σ σ' σ'' : AnalyzeState}
      → Moves max_nodes a σ σ'
      → Moves max_nodes b σ' σ''
      → Moves max_nodes (a + b) σ σ''
  Moves-then m n = Moves-trans (omega arith) m n
