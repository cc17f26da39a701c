-- ===== src/Runtime/Metering.antt =====
-- The bookkeeping of an evaluation between its parts.
use online_dsl_forge.Base.{
  ℕ, ◌+◌, ◌≤◌, true, ◌≡◌, ◌∙◌, refl, arith, some, Result, ok, err, out_of_fuel, ltb, ltb→le, Ends,
  Ends-bind, Ends-fail_if, Ends-ok_or, accepts, refuses, Verdict-map, Verdict-ends,
}
use online_dsl_forge.Base.Usize.{checked_add, checked_add-eq-some}
use online_dsl_forge.Runtime.Returns.{Returns}
use online_dsl_forge.Syntax.{SourceSpan}
use online_dsl_forge.Value.{Value, ValueMetrics}
use online_dsl_forge.Value.Measure.{value_bytes, value_metrics, is_plain}
use online_dsl_forge.Runtime.{EvalError, EvalLimits, RuntimeResourceLimits}
use online_dsl_forge.Runtime.Charges.{AreUsize, AreWithin}
use online_dsl_forge.Runtime.Operators.{FloatOps}
use online_dsl_forge.Runtime.Registry.{RuntimeContext}
use online_dsl_forge.Runtime.Evaluator.{EvalState, Eval, ◌>>=◌, lift, admit, charge, step}
use online_dsl_forge.Runtime.Admission.{validate_value-Verdict}

module _ (f64 : FloatOps) (context : RuntimeContext) (limits : EvalLimits)
    (resources : RuntimeResourceLimits) (usize : AreUsize resources) where
  -- A value that passes the check of its graph.
  pub record IsAdmitted (v : Value) : Type 0 where
    pub plain : is_plain (some limits.max_string_bytes) v ≡ true
    pub within : AreWithin resources (value_metrics v)

  pub record IsState (σ : EvalState) : Type 0 where
    pub steps_fit : σ.steps ≤ limits.max_steps
    pub affordable : σ.processed_bytes ≤ resources.max_total_value_bytes

  -- At most `n` steps were made, bytes were only added, and the locals are as before.
  pub record Moves (n : ℕ) (σ σ' : EvalState) : Type 0 where
    pub state : IsState σ'
    pub few_steps : σ'.steps ≤ σ.steps + n
    pub only_charged : σ.processed_bytes ≤ σ'.processed_bytes
    pub same_locals : σ'.locals ≡ σ.locals

  -- The value is admitted, and its bytes are charged.
  pub record Evaluates (n : ℕ) (σ : EvalState) (r : Value × EvalState) : Type 0 where
    pub moves : Moves n σ r.1
    pub admitted : IsAdmitted r.0
    pub paid : σ.processed_bytes + value_bytes r.0 ≤ r.1.processed_bytes

  pub Moves-trans :
      {a b n : ℕ} {σ₁ σ₂ σ₃ : EvalState} → a + b ≤ n → Moves a σ₁ σ₂ → Moves b σ₂ σ₃ → Moves n σ₁ σ₃
  Moves-trans h m₁ m₂ = record {
    state = m₂.state;
    few_steps = omega (arith, m₁.few_steps, m₂.few_steps);
    only_charged = omega (arith, m₁.only_charged, m₂.only_charged);
    same_locals = m₂.same_locals ∙ m₁.same_locals;
  }

  pub Evaluates-trans :
      {a b n : ℕ} {σ₁ σ₂ : EvalState} {r : Value × EvalState}
      → a + b ≤ n
      → Moves a σ₁ σ₂
      → Evaluates b σ₂ r
      → Evaluates n σ₁ r
  Evaluates-trans h m e = record {
    moves = Moves-trans h m e.moves;
    admitted = e.admitted;
    paid = omega (arith, e.paid, m.only_charged);
  }

  pub admit-Ends :
      (v : Value) (span : SourceSpan) (σ : EvalState)
      → IsState σ
      → Ends (Evaluates 0 σ) (admit f64 context limits resources v span σ)
  unfolding admit charge
  admit-Ends v span σ state =
      Ends-bind
        (Verdict-map (λ m h. h) (λ _. tt)
          (validate_value-Verdict resources usize (some limits.max_string_bytes) span v))
        λ metrics (same, (plain, within)). Ends-bind (Ends-charge metrics) λ (_, σ') q.
          let bytes : metrics.bytes ≡ value_bytes v = rw same refl in
          accepts (
            rw q.0 (record {
              moves = record {
                state = record { steps_fit = state.steps_fit; affordable = q.1 };
                few_steps = omega arith;
                only_charged = omega arith;
                same_locals = refl;
              };
              admitted = record { plain = plain; within = within };
              paid = omega arith;
            }))
    where
      Ends-charge :
          (metrics : ValueMetrics)
          → Ends
              (λ r.
                (r.1 ≡ record σ { processed_bytes = σ.processed_bytes + metrics.bytes })
                × (σ.processed_bytes + metrics.bytes ≤ resources.max_total_value_bytes))
              (charge f64 context limits resources metrics span σ)
      Ends-charge metrics =
          Ends-ok_or (checked_add σ.processed_bytes metrics.bytes) _ λ processed e.
            Ends-fail_if (ltb resources.max_total_value_bytes processed) _ λ t. accepts (
              rw (checked_add-eq-some _ _ e) refl,
              omega (arith, ltb→le _ _ t, checked_add-eq-some _ _ e),
            )

  pub step-Ends :
      (span : SourceSpan) (σ : EvalState)
      → IsState σ
      → Ends (λ r. Moves 1 σ r.1) (step f64 context limits resources span σ)
  unfolding step
  step-Ends span σ state = Ends-ok_or (checked_add σ.steps 1) _ λ steps e.
      Ends-fail_if (ltb limits.max_steps steps) _ λ t. accepts (record {
        state = record { steps_fit = ltb→le _ _ t; affordable = state.affordable };
        few_steps = omega (arith, checked_add-eq-some _ _ e);
        only_charged = omega arith;
        same_locals = refl;
      })

  -- A result that does not touch the state, before something that does.
  pub lift-Ends {ℓ} :
      {A : Type ℓ} {B : Type 0} {Q : B × EvalState → Type 0} (r : Result EvalError A)
      (k : A → Eval B) (σ : EvalState)
      → Returns r
      → ((a : A) → Ends Q (k a σ))
      → Ends Q ((lift r >>= k) σ)
  lift-Ends (ok a) k σ ends next = next a
  lift-Ends (err e) k σ ends next = refuses tt
  lift-Ends out_of_fuel k σ ends next = absurd (Verdict-ends ends refl)

  -- A result that does not touch the state.
  pub lift-Returns {ℓ} :
      {A : Type ℓ} (r : Result EvalError A) (σ : EvalState)
      → Returns r
      → Ends (λ (x : A × EvalState). x.1 ≡ σ) (lift r σ)
  lift-Returns (ok a) σ ends = accepts refl
  lift-Returns (err e) σ ends = refuses tt
  lift-Returns out_of_fuel σ ends = absurd (Verdict-ends ends refl)
