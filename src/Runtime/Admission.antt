-- ===== src/Runtime/Admission.antt =====
-- `validate_value` against the recursive measures of a value.
use online_dsl_forge.Base.{
  ◌-◌, ℕ, zero, suc, ◌+◌, ◌≤◌, ◌<◌, max, Bool, true, false, not, ◌&&◌, [], ◌∷◌, ◌≡◌, ◌≢◌, ◌↔◌, ◌⊎◌,
  inl, inr, refl, arith, Text, Option, ok, out_of_fuel, Verdict, accepts, Verdict-fail_if,
  Verdict-bind, Verdict-map, Verdict-eq-ok_iff, Verdict-ends, byte_length, length, subst, sym, ◌∙◌,
}
use online_dsl_forge.Syntax.{SourceSpan, is_finite}
use online_dsl_forge.Value.{Value, Values, Entries, items_len, entries_len, ValueMetrics}
use online_dsl_forge.Value.Measure.{
  value_nodes, value_depth, value_items, value_bytes, is_plain, key_bytes, exceeds, entries_plain,
  entries_nodes, value_metrics,
}
use online_dsl_forge.Runtime.{
  RuntimeResourceLimits, Stack, Visit, visit_value, push_array, visit, push_object, push_entries,
  validate_loop, validate_value,
}
use online_dsl_forge.Runtime.Pending.{
  pending_nodes, pending_items, pending_bytes, pending_plain, pending_depth, items-len,
  pending-length, push_items-Pushed, Pushed, push_items-empty, entries-len, push_entries-Pushed,
  key_bytes-empty, push_entries-empty, value_depth_pos, value_nodes_pos, value_bytes_pos,
}
use online_dsl_forge.Runtime.Charges.{
  AreUsize, Exceeds, AreWithin, charge_bytes-Verdict, reserve-Verdict, charge_keys-Verdict,
  enter_value-Verdict,
}

-- `t` measures the whole graph; the value `v` at `depth` was entered and `pending` comes behind it.
record Ahead (v : Value) (depth : ℕ) (pending : Stack) (m t : ValueMetrics) : Type 0 where
  nodes_ahead : suc t.nodes ≡ m.nodes + value_nodes v + pending_nodes pending
  items_ahead : t.items ≡ m.items + value_items v + pending_items pending
  bytes_ahead : suc t.bytes ≡ m.bytes + value_bytes v + pending_bytes pending
  depth_ahead : t.depth ≡ max m.depth (max (depth + value_depth v - 1) (pending_depth pending))
  entered : depth ≤ m.depth

not_true : (b : Bool) → not b ≡ true → b ≡ false
not_true b h = ground arith

not_false : (b : Bool) → not b ≡ false → b ≡ true
not_false b h = ground arith

metrics_eq :
    (m t : ValueMetrics)
    → m.nodes ≡ t.nodes
    → m.items ≡ t.items
    → m.bytes ≡ t.bytes
    → m.depth ≡ t.depth
    → m ≡ t
metrics_eq m t n i b d = cc

module _ (limits : RuntimeResourceLimits) (usize : AreUsize limits) (max_string : Option ℕ)
    (span : SourceSpan) where
  -- `t` measures the whole graph, of which `w` has still to visit its pending values.
  record Keeps (t : ValueMetrics) (plain : Bool) (visited : ℕ) (w : Visit) : Type 0 where
    fewer : suc (pending_nodes w.pending) ≡ visited
    nodes_sum : w.metrics.nodes + pending_nodes w.pending ≡ t.nodes
    items_sum : w.metrics.items + pending_items w.pending ≡ t.items
    bytes_sum : w.metrics.bytes + pending_bytes w.pending ≡ t.bytes
    depth_max : max w.metrics.depth (pending_depth w.pending) ≡ t.depth
    same_plain : pending_plain max_string w.pending ≡ plain
    within : AreWithin limits w.metrics

  abbrev Rejects : ValueMetrics → Bool → Type 0
  Rejects t plain = (plain ≡ false) ⊎ Exceeds limits t

  relocate :
      {t : ValueMetrics} {plain : Bool} {visited : ℕ} {p q : Stack} {m : ValueMetrics}
      → p ≡ q
      → Keeps t plain visited (visit p m)
      → Keeps t plain visited (visit q m)
  relocate {t} {plain} {visited} {m} e k = subst (λ r. Keeps t plain visited (visit r m)) e k

  -- A value with nothing in it.
  leaf-Keeps :
      (v : Value) (depth : ℕ) (pending : Stack) (m t : ValueMetrics)
      → Ahead v depth pending m t
      → AreWithin limits m
      → value_nodes v ≡ 1
      → value_items v ≡ 0
      → value_bytes v ≡ 1
      → value_depth v ≡ 1
      → is_plain max_string v ≡ true
      → Keeps t
          (is_plain max_string v && pending_plain max_string pending)
          (value_nodes v + pending_nodes pending)
          (visit pending m)
  leaf-Keeps v depth pending m t a within n i b d q = record {
    fewer = omega arith;
    nodes_sum = omega (arith, a.nodes_ahead);
    items_sum = omega (arith, a.items_ahead);
    bytes_sum = omega (arith, a.bytes_ahead);
    depth_max = omega (arith, a.depth_ahead, a.entered);
    same_plain = rw q refl;
    within = within;
  }

  -- Children were pushed.
  Pushed-Keeps :
      {nodes items bytes deep depth : ℕ} {plain : Bool} {pending after : Stack} (m t : ValueMetrics)
      → Pushed max_string nodes items bytes deep depth plain pending after
      → suc t.nodes ≡ m.nodes + suc nodes + pending_nodes pending
      → t.items ≡ m.items + items + pending_items pending
      → suc t.bytes ≡ m.bytes + suc bytes + pending_bytes pending
      → t.depth ≡ max m.depth (max (depth + suc deep - 1) (pending_depth pending))
      → depth ≤ m.depth
      → AreWithin limits m
      → Keeps t
          (plain && pending_plain max_string pending)
          (suc nodes + pending_nodes pending)
          (visit after m)
  Pushed-Keeps m t p n i b d h within = record {
    fewer = omega (arith, p.nodes_sum);
    nodes_sum = omega (arith, p.nodes_sum);
    items_sum = omega (arith, p.items_sum);
    bytes_sum = omega (arith, p.bytes_sum);
    depth_max = omega (arith, p.depth_max);
    same_plain = p.plain_and;
    within = within;
  }

  string-Verdict :
      (s : Text) (depth : ℕ) (pending : Stack) (m t : ValueMetrics)
      → Ahead (Value.string s) depth pending m t
      → AreWithin limits m
      → Verdict
          (Keeps t
            (is_plain max_string (Value.string s) && pending_plain max_string pending)
            (value_nodes (Value.string s) + pending_nodes pending))
          (Rejects t (is_plain max_string (Value.string s) && pending_plain max_string pending))
          (visit_value limits max_string span (Value.string s) depth pending m)
  unfolding visit_value value_nodes value_items value_bytes value_depth is_plain
  string-Verdict s depth pending m t a within =
      Verdict-fail_if (exceeds max_string (byte_length s)) _ (λ e. inl (rw e refl))
        λ short.
          Verdict-bind (charge_bytes-Verdict limits usize max_string span m (byte_length s))
            (λ b. inr (inr (inr (inl (omega (arith, a.bytes_ahead))))))
            λ m' (e, fits). rw e (
              accepts (record {
                fewer = omega arith;
                nodes_sum = omega (arith, a.nodes_ahead);
                items_sum = omega (arith, a.items_ahead);
                bytes_sum = omega (arith, a.bytes_ahead);
                depth_max = omega (arith, a.depth_ahead, a.entered);
                same_plain = rw short refl;
                within = record {
                  nodes_fit = within.nodes_fit;
                  items_fit = within.items_fit;
                  bytes_fit = fits;
                  depth_fits = within.depth_fits;
                };
              }))

  array-Verdict :
      (vs : Values) (depth : ℕ) (pending : Stack) (m t : ValueMetrics)
      → Ahead (Value.array vs) depth pending m t
      → AreWithin limits m
      → Verdict
          (Keeps t
            (is_plain max_string (Value.array vs) && pending_plain max_string pending)
            (value_nodes (Value.array vs) + pending_nodes pending))
          (Rejects t (is_plain max_string (Value.array vs) && pending_plain max_string pending))
          (visit_value limits max_string span (Value.array vs) depth pending m)
  unfolding visit_value value_nodes value_items value_bytes value_depth is_plain push_array
  array-Verdict vs depth pending m t a within =
      let (len_nodes, len_bytes, deeper) = items-len vs in
      let (few_nodes, few_bytes) = pending-length pending in
      let pushed = push_items-Pushed max_string vs depth pending in
      Verdict-bind
        (reserve-Verdict limits usize max_string span m (length pending) (items_len vs) depth)
        (λ b. inr (elim b [
          | inl full ↦ inr (inl (omega (arith, a.items_ahead)))
          | inr (some_child, inl deep) ↦
              inr (inr (inr (omega (arith, a.depth_ahead, deeper some_child))))
          | inr (some_child, inr (inl crowded)) ↦ inl (omega (arith, a.nodes_ahead))
          | inr (some_child, inr (inr crowded)) ↦ inr (inr (inl (omega (arith, a.bytes_ahead))))
        ]))
        λ (o, m') (e, fits, has). rw e (
          let keeps =
            Pushed-Keeps (record m { items = m.items + items_len vs }) t pushed
              (omega (arith, a.nodes_ahead)) (omega (arith, a.items_ahead))
              (omega (arith, a.bytes_ahead)) (omega (arith, a.depth_ahead)) a.entered
              (record {
                nodes_fit = within.nodes_fit;
                items_fit = fits;
                bytes_fit = within.bytes_fit;
                depth_fits = within.depth_fits;
              }) in
          elim has [
            | inl (empty, childless) ↦
                rw childless
                  (accepts (relocate (push_items-empty vs (depth + 1) pending empty) keeps))
            | inr child ↦ rw child (accepts keeps)
          ])

  object-Verdict :
      (es : Entries) (depth : ℕ) (pending : Stack) (m t : ValueMetrics)
      → Ahead (Value.object es) depth pending m t
      → AreWithin limits m
      → Verdict
          (Keeps t
            (is_plain max_string (Value.object es) && pending_plain max_string pending)
            (value_nodes (Value.object es) + pending_nodes pending))
          (Rejects t (is_plain max_string (Value.object es) && pending_plain max_string pending))
          (visit_value limits max_string span (Value.object es) depth pending m)
  unfolding visit_value value_nodes value_items value_bytes value_depth is_plain push_object
  object-Verdict es depth pending m t a within =
      let (len_nodes, len_bytes, deeper) = entries-len es in
      let (few_nodes, few_bytes) = pending-length pending in
      let pushed = push_entries-Pushed max_string es depth pending in
      let keys = key_bytes-empty es in
      Verdict-bind
        (reserve-Verdict limits usize max_string span m (length pending) (entries_len es) depth)
        (λ b. inr (elim b [
          | inl full ↦ inr (inl (omega (arith, a.items_ahead)))
          | inr (some_child, inl deep) ↦
              inr (inr (inr (omega (arith, a.depth_ahead, deeper some_child))))
          | inr (some_child, inr (inl crowded)) ↦ inl (omega (arith, a.nodes_ahead))
          | inr (some_child, inr (inr crowded)) ↦ inr (inr (inl (omega (arith, a.bytes_ahead))))
        ]))
        λ (o, m') (e, fits, has). rw e (
          let keeps : (bytes : ℕ)
              → bytes ≡ m.bytes + key_bytes es
              → bytes ≤ limits.max_value_bytes
              → Keeps t (entries_plain max_string es && pending_plain max_string pending)
                  (suc (entries_nodes es) + pending_nodes pending)
                  (visit (push_entries es (depth + 1) pending)
                    (record m { items = m.items + entries_len es; bytes = bytes })) =
            λ bytes sum short.
              Pushed-Keeps (record m { items = m.items + entries_len es; bytes = bytes }) t pushed
                (omega (arith, a.nodes_ahead)) (omega (arith, a.items_ahead))
                (omega (arith, a.bytes_ahead)) (omega (arith, a.depth_ahead)) a.entered
                (record {
                  nodes_fit = within.nodes_fit;
                  items_fit = fits;
                  bytes_fit = short;
                  depth_fits = within.depth_fits;
                }) in
          elim has [
            | inl (empty, childless) ↦ rw childless (
                accepts (
                  relocate (push_entries-empty es (depth + 1) pending empty)
                    (keeps m.bytes (omega (arith, keys empty)) within.bytes_fit)))
            | inr child ↦ rw child (
                Verdict-bind
                  (charge_keys-Verdict limits usize max_string span es
                    (record m { items = m.items + entries_len es }) within.bytes_fit)
                  (λ b. inr (inr (inr (inl (omega (arith, a.bytes_ahead))))))
                  λ m'' (e'', short). rw e'' (accepts (keeps (m.bytes + key_bytes es) refl short)))
          ])

  visit_value-Verdict :
      (v : Value) (depth : ℕ) (pending : Stack) (m t : ValueMetrics)
      → Ahead v depth pending m t
      → AreWithin limits m
      → Verdict
          (Keeps t
            (is_plain max_string v && pending_plain max_string pending)
            (value_nodes v + pending_nodes pending))
          (Rejects t (is_plain max_string v && pending_plain max_string pending))
          (visit_value limits max_string span v depth pending m)
  unfolding visit_value value_nodes value_items value_bytes value_depth is_plain
  visit_value-Verdict (Value.string s) depth pending m t a within =
      string-Verdict s depth pending m t a within
  visit_value-Verdict (Value.array vs) depth pending m t a within =
      array-Verdict vs depth pending m t a within
  visit_value-Verdict (Value.object es) depth pending m t a within =
      object-Verdict es depth pending m t a within
  visit_value-Verdict (Value.float x) depth pending m t a within =
      Verdict-fail_if (not (is_finite x)) _ (λ e. inl (rw (not_true _ e) refl))
        λ e. accepts (
          leaf-Keeps (Value.float x) depth pending m t a within refl refl refl refl (not_false _ e))
  visit_value-Verdict Value.null depth pending m t a within =
      accepts (leaf-Keeps Value.null depth pending m t a within refl refl refl refl refl)
  visit_value-Verdict (Value.bool b) depth pending m t a within =
      accepts (leaf-Keeps (Value.bool b) depth pending m t a within refl refl refl refl refl)
  visit_value-Verdict (Value.int n) depth pending m t a within =
      accepts (leaf-Keeps (Value.int n) depth pending m t a within refl refl refl refl refl)

  AreWithin-Exceeds : (m : ValueMetrics) → AreWithin limits m → ¬ Exceeds limits m
  AreWithin-Exceeds m w (inl h) = omega (arith, w.nodes_fit)
  AreWithin-Exceeds m w (inr (inl h)) = omega (arith, w.items_fit)
  AreWithin-Exceeds m w (inr (inr (inl h))) = omega (arith, w.bytes_fit)
  AreWithin-Exceeds m w (inr (inr (inr h))) = omega (arith, w.depth_fits)

  validate_loop-Verdict :
      (fuel : ℕ) (pending : Stack) (m t : ValueMetrics)
      → pending_nodes pending < fuel
      → AreWithin limits m
      → m.nodes + pending_nodes pending ≡ t.nodes
      → m.items + pending_items pending ≡ t.items
      → m.bytes + pending_bytes pending ≡ t.bytes
      → max m.depth (pending_depth pending) ≡ t.depth
      → Verdict
          (λ m'. (m' ≡ t) × ((pending_plain max_string pending ≡ true) × AreWithin limits m'))
          (Rejects t (pending_plain max_string pending))
          (validate_loop limits max_string span fuel pending m)
  unfolding validate_loop pending_nodes pending_items pending_bytes pending_depth pending_plain
  validate_loop-Verdict zero pending m t hf w n i b d = absurd (omega arith)
  validate_loop-Verdict (suc fuel) [] m t hf w n i b d =
      accepts (metrics_eq m t (omega arith) (omega arith) (omega arith) (omega arith), (refl, w))
  validate_loop-Verdict (suc fuel) ((v, depth) ∷ pending) m t hf w n i b d =
      let m₁ : ValueMetrics = record m {
        depth = max m.depth depth;
        nodes = m.nodes + 1;
        bytes = m.bytes + 1;
      } in
      let ahead : Ahead v depth pending m₁ t = record {
        nodes_ahead = omega arith;
        items_ahead = omega arith;
        bytes_ahead = omega arith;
        depth_ahead = omega (arith, value_depth_pos v);
        entered = omega arith;
      } in
      Verdict-bind (enter_value-Verdict limits usize max_string span m depth w)
        (λ e. inr (
          over m₁ e (omega (arith, value_nodes_pos v)) (omega arith)
            (omega (arith, value_bytes_pos v)) (omega (arith, value_depth_pos v))))
        λ entered (e, w₁). rw e (
          Verdict-bind (visit_value-Verdict v depth pending m₁ t ahead (rw e at w₁)) (λ r. r)
            λ next k.
              Verdict-map (λ m' (q, p). (q, (sym k.same_plain ∙ p.0, p.1)))
                (λ r. elim r [ inl h ↦ inl (sym k.same_plain ∙ h) | inr h ↦ inr h ])
                (validate_loop-Verdict fuel next.pending next.metrics t (omega (arith, k.fewer))
                  k.within k.nodes_sum k.items_sum k.bytes_sum k.depth_max))
    where
      over :
          (m₁ : ValueMetrics)
          → Exceeds limits m₁
          → m₁.nodes ≤ t.nodes
          → m₁.items ≤ t.items
          → m₁.bytes ≤ t.bytes
          → m₁.depth ≤ t.depth
          → Exceeds limits t
      over m₁ (inl h) n i b d = inl (omega arith)
      over m₁ (inr (inl h)) n i b d = inr (inl (omega arith))
      over m₁ (inr (inr (inl h))) n i b d = inr (inr (inl (omega arith)))
      over m₁ (inr (inr (inr h))) n i b d = inr (inr (inr (omega arith)))

  pub validate_value-Verdict :
      (v : Value)
      → Verdict
          (λ m.
            (m ≡ value_metrics v)
            × ((is_plain max_string v ≡ true) × AreWithin limits (value_metrics v)))
          (Rejects (value_metrics v) (is_plain max_string v))
          (validate_value limits max_string span v)
  unfolding validate_value pending_nodes pending_items pending_bytes pending_depth pending_plain
  validate_value-Verdict v =
      let alone : (pending_plain max_string ((v, 1) ∷ [])) ≡ is_plain max_string v = ground arith in
      Verdict-map (λ m (e, p). (e, (sym alone ∙ p.0, subst (AreWithin limits) e p.1)))
        (λ r. elim r [ inl h ↦ inl (sym alone ∙ h) | inr h ↦ inr h ])
        (validate_loop-Verdict (suc (value_nodes v)) ((v, 1) ∷ [])
          (record { depth = 0; nodes = 0; items = 0; bytes = 0 }) (value_metrics v) (omega arith)
          (record {
            nodes_fit = omega arith;
            items_fit = omega arith;
            bytes_fit = omega arith;
            depth_fits = omega arith;
          })
          (omega arith) (omega arith) (omega arith) (omega (arith, value_depth_pos v)))

  pub Rejects-admitted :
      (m : ValueMetrics) (plain : Bool) → (plain ≡ true) × AreWithin limits m → ¬ Rejects m plain
  Rejects-admitted m plain h (inl e) = cc
  Rejects-admitted m plain h (inr e) = AreWithin-Exceeds m h.1 e

-- For limits that a `usize` holds, checking a value never runs out of fuel. It succeeds exactly when
-- the value's nodes, items, bytes and depth (at most 128) are within the limits, its floats are
-- finite and its strings are not too long; it then returns those four measures.
pub validate_value-eq-ok_iff :
    (v : Value) (limits : RuntimeResourceLimits) (max_string : Option ℕ) (span : SourceSpan)
    (m : ValueMetrics)
    → AreUsize limits
    → ((validate_value limits max_string span v ≡ ok m) ↔ (
        (m ≡ value_metrics v)
        × ((is_plain max_string v ≡ true) × AreWithin limits (value_metrics v))))
      × (validate_value limits max_string span v ≢ out_of_fuel)
validate_value-eq-ok_iff v limits max_string span m usize =
    let verdict = validate_value-Verdict limits usize max_string span v in
    (
      Verdict-eq-ok_iff _ verdict
          (Rejects-admitted limits usize max_string span (value_metrics v) (is_plain max_string v))
          m,
      Verdict-ends verdict,
    )
