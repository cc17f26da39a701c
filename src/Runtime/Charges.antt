-- ===== src/Runtime/Charges.antt =====
-- The charges and reservations of `validate_value`: when each is refused, and what it counts.
use online_dsl_forge.Base.{
  ℕ, ◌+◌, ◌≤◌, ◌<◌, max, ◌≡◌, ◌⊎◌, inl, inr, refl, arith, Option, none, some, ltb, ltb→lt, ltb→le,
  Verdict, accepts, Verdict-fail_if, Verdict-ok_or, Verdict-bind, Verdict-map, byte_length,
  Bool-cases, ◌==◌, ==_iff, Verdict-some, ap, ◌∙◌,
}
use online_dsl_forge.Base.Usize.{usize_max, checked_add, checked_add-eq-none, checked_add-eq-some}
use online_dsl_forge.Syntax.{SourceSpan}
use online_dsl_forge.Value.{Entries, no_entries, entry, ValueMetrics}
use online_dsl_forge.Value.Measure.{key_bytes}
use online_dsl_forge.Runtime.{
  RuntimeResourceLimits, depth_bound, Counter, checked_value_metric, charge_bytes, enter_value,
  byte, node, charge_keys, schedule_children, reserve_value_children, item,
}

-- The limits fit a `usize`.
pub record AreUsize (limits : RuntimeResourceLimits) : Type 0 where
  pub nodes_usize : limits.max_value_nodes ≤ usize_max
  pub items_usize : limits.max_value_items ≤ usize_max
  pub bytes_usize : limits.max_value_bytes ≤ usize_max

-- Metrics within the limits.
pub record AreWithin (limits : RuntimeResourceLimits) (m : ValueMetrics) : Type 0 where
  pub nodes_fit : m.nodes ≤ limits.max_value_nodes
  pub items_fit : m.items ≤ limits.max_value_items
  pub bytes_fit : m.bytes ≤ limits.max_value_bytes
  pub depth_fits : m.depth ≤ depth_bound limits

-- Some measure is beyond its limit.
abbrev pub Exceeds : RuntimeResourceLimits → ValueMetrics → Type 0
Exceeds limits m =
    (limits.max_value_nodes < m.nodes)
    ⊎ ((limits.max_value_items < m.items)
        ⊎ ((limits.max_value_bytes < m.bytes) ⊎ (depth_bound limits < m.depth)))

with_bytes :
    (m : ValueMetrics) {a b : ℕ}
    → a ≡ b
    → Path ValueMetrics (record m { bytes = a }) (record m { bytes = b })
with_bytes m e = ap (λ b. record m { bytes = b }) e

module _ (limits : RuntimeResourceLimits) (usize : AreUsize limits) (max_string : Option ℕ)
    (span : SourceSpan) where
  checked-Verdict :
      (current added limit : ℕ) (counter : Counter)
      → limit ≤ usize_max
      → Verdict
          (λ n. n ≡ current + added)
          (limit < current + added)
          (checked_value_metric limits max_string span current added counter)
  unfolding checked_value_metric
  checked-Verdict current added limit counter h =
      Verdict-some (checked_add current added) _ (λ t. omega (arith, checked_add-eq-none _ _ t))
        λ n e. checked_add-eq-some _ _ e

  pub charge_bytes-Verdict :
      (m : ValueMetrics) (added : ℕ)
      → Verdict
          (λ m'.
            (m' ≡ record m { bytes = m.bytes + added })
            × (m.bytes + added ≤ limits.max_value_bytes))
          (limits.max_value_bytes < m.bytes + added)
          (charge_bytes limits max_string span m added)
  unfolding charge_bytes
  charge_bytes-Verdict m added =
      Verdict-bind (checked-Verdict m.bytes added limits.max_value_bytes byte usize.bytes_usize)
        (λ b. b)
        λ bytes e.
          Verdict-fail_if (ltb limits.max_value_bytes bytes) _ (λ t. omega (arith, ltb→lt _ _ t))
            λ t. accepts (rw e refl, omega (arith, ltb→le _ _ t))

  pub enter_value-Verdict :
      (m : ValueMetrics) (depth : ℕ)
      → AreWithin limits m
      → Verdict
          (λ m'.
            (m' ≡ record m { depth = max m.depth depth; nodes = m.nodes + 1; bytes = m.bytes + 1 })
            × AreWithin limits m')
          (Exceeds limits
            (record m { depth = max m.depth depth; nodes = m.nodes + 1; bytes = m.bytes + 1 }))
          (enter_value limits max_string span m depth)
  unfolding enter_value
  enter_value-Verdict m depth within =
      Verdict-bind (checked-Verdict m.nodes 1 limits.max_value_nodes node usize.nodes_usize) inl
        λ nodes e.
          Verdict-fail_if (ltb limits.max_value_nodes nodes) _
            (λ t. inl (omega (arith, ltb→lt _ _ t)))
            λ t.
              Verdict-bind (charge_bytes-Verdict (record m { nodes = nodes }) 1)
                (λ b. inr (inr (inl b)))
                λ charged (e', fits). rw e' (
                  Verdict-fail_if (ltb (depth_bound limits) (max m.depth depth)) _
                    (λ t'. inr (inr (inr (ltb→lt _ _ t'))))
                    λ t'. accepts (
                      rw e refl,
                      record {
                        nodes_fit = ltb→le _ _ t;
                        items_fit = within.items_fit;
                        bytes_fit = fits;
                        depth_fits = ltb→le _ _ t';
                      },
                    ))

  pub charge_keys-Verdict :
      (es : Entries) (m : ValueMetrics)
      → m.bytes ≤ limits.max_value_bytes
      → Verdict
          (λ m'.
            (m' ≡ record m { bytes = m.bytes + key_bytes es })
            × (m.bytes + key_bytes es ≤ limits.max_value_bytes))
          (limits.max_value_bytes < m.bytes + key_bytes es)
          (charge_keys limits max_string span es m)
  unfolding charge_keys key_bytes
  charge_keys-Verdict no_entries m h = accepts (with_bytes m (omega arith), omega arith)
  charge_keys-Verdict (entry k v es) m h =
      Verdict-bind (charge_bytes-Verdict m (byte_length k)) (λ b. omega arith)
        λ m₁ (e, fits). rw e (
          Verdict-map (λ m₂ (e₂, fits₂). (e₂ ∙ with_bytes m (omega arith), omega arith))
            (λ b. omega arith)
            (charge_keys-Verdict es (record m { bytes = m.bytes + byte_length k }) fits))

  -- What makes it impossible to visit the children.
  abbrev pub Crowded : ValueMetrics → ℕ → ℕ → ℕ → Type 0
  Crowded m pending children depth =
      (depth_bound limits < depth + 1)
      ⊎ ((limits.max_value_nodes < m.nodes + pending + children)
          ⊎ (limits.max_value_bytes < m.bytes + pending + children))

  schedule_children-Verdict :
      (m : ValueMetrics) (pending children depth : ℕ)
      → Verdict
          (λ d. (d ≡ depth + 1))
          (Crowded m pending children depth)
          (schedule_children limits max_string span m pending children depth)
  unfolding schedule_children
  schedule_children-Verdict m pending children depth =
      Verdict-ok_or (checked_add depth 1) _ (λ t. inl (omega (arith, checked_add-eq-none _ _ t)))
        λ d e.
          Verdict-fail_if (ltb (depth_bound limits) d) _
            (λ t. inl (omega (arith, ltb→lt _ _ t, checked_add-eq-some _ _ e)))
            λ _.
              Verdict-bind
                (checked-Verdict m.nodes pending limits.max_value_nodes node usize.nodes_usize)
                (λ b. inr (inl (omega arith)))
                λ n en.
                  Verdict-bind
                    (checked-Verdict n children limits.max_value_nodes node usize.nodes_usize)
                    (λ b. inr (inl (omega arith)))
                    λ n' en'.
                      Verdict-fail_if (ltb limits.max_value_nodes n') _
                        (λ t. inr (inl (omega (arith, ltb→lt _ _ t))))
                        λ _.
                          Verdict-bind
                            (checked-Verdict m.bytes pending limits.max_value_bytes byte
                              usize.bytes_usize)
                            (λ b. inr (inr (omega arith)))
                            λ b eb.
                              Verdict-bind
                                (checked-Verdict b children limits.max_value_bytes byte
                                  usize.bytes_usize)
                                (λ b. inr (inr (omega arith)))
                                λ b' eb'.
                                  Verdict-fail_if (ltb limits.max_value_bytes b') _
                                    (λ t. inr (inr (omega (arith, ltb→lt _ _ t))))
                                    λ _. accepts (checked_add-eq-some _ _ e)

  pub reserve-Verdict :
      (m : ValueMetrics) (pending children depth : ℕ)
      → Verdict
          (λ r.
            (r.1 ≡ record m { items = m.items + children })
            × (m.items + children ≤ limits.max_value_items)
            × (((children ≡ 0) × (r.0 ≡ none)) ⊎ (r.0 ≡ some (depth + 1))))
          ((limits.max_value_items < m.items + children)
            ⊎ ((0 < children) × Crowded m pending children depth))
          (reserve_value_children limits max_string span m pending children depth)
  unfolding reserve_value_children
  reserve-Verdict m pending children depth =
      Verdict-bind (checked-Verdict m.items children limits.max_value_items item usize.items_usize)
        inl
        λ items e.
          Verdict-fail_if (ltb limits.max_value_items items) _
            (λ t. inl (omega (arith, ltb→lt _ _ t)))
            λ t. elim (Bool-cases (children == 0)) [
              | inl z ↦
                  rw z
                    (accepts (rw e refl, omega (arith, ltb→le _ _ t), inl ((==_iff _ _).0 z, refl)))
              | inr z ↦ rw z (
                  Verdict-bind
                    (schedule_children-Verdict (record m { items = items }) pending children depth)
                    (λ b. inr (ground arith, b))
                    λ d ed. accepts (rw e refl, omega (arith, ltb→le _ _ t), inr (ap some ed)))
            ]
