-- ===== src/Runtime/Pending.antt =====
-- The measures of what the traversal of a value has still to visit.
use online_dsl_forge.Base.{
  refl, ℕ, ◌+◌, ◌-◌, ◌≤◌, ◌<◌, max, Bool, true, false, ◌&&◌, [], ◌∷◌, ◌≡◌, arith, Option, length,
}
use online_dsl_forge.Value.{
  Value, Values, Entries, no_items, first, no_entries, entry, items_len, entries_len,
}
use online_dsl_forge.Value.Measure.{
  value_nodes, items_nodes, entries_nodes, value_depth, items_depth, entries_depth, value_items,
  items_items, entries_items, key_bytes, value_bytes, items_bytes, entries_bytes, is_plain,
  items_plain, entries_plain,
}
use online_dsl_forge.Runtime.{Stack, push_items, push_entries}

pub value_nodes_pos : (v : Value) → 0 < value_nodes v
unfolding value_nodes
value_nodes_pos (Value.array vs) = omega arith
value_nodes_pos (Value.object es) = omega arith
value_nodes_pos _ = omega arith

pub value_bytes_pos : (v : Value) → 0 < value_bytes v
unfolding value_bytes
value_bytes_pos (Value.string t) = omega arith
value_bytes_pos (Value.array vs) = omega arith
value_bytes_pos (Value.object es) = omega arith
value_bytes_pos _ = omega arith

pub value_depth_pos : (v : Value) → 0 < value_depth v
unfolding value_depth
value_depth_pos (Value.array vs) = omega arith
value_depth_pos (Value.object es) = omega arith
value_depth_pos _ = omega arith

-- Each child is a node, a byte and a level.
pub items-len :
    (vs : Values)
    → (items_len vs ≤ items_nodes vs)
      × (items_len vs ≤ items_bytes vs)
      × (0 < items_len vs → 0 < items_depth vs)
unfolding value_nodes value_bytes value_depth
items-len no_items = (omega arith, omega arith, λ h. absurd (omega arith))
items-len (first v vs) =
    let ih = items-len vs in
    (
      omega (arith, ih.0, value_nodes_pos v),
      omega (arith, ih.1, value_bytes_pos v),
      λ h. omega (arith, value_depth_pos v),
    )

pub entries-len :
    (es : Entries)
    → (entries_len es ≤ entries_nodes es)
      × (entries_len es ≤ entries_bytes es)
      × (0 < entries_len es → 0 < entries_depth es)
unfolding value_nodes value_bytes value_depth
entries-len no_entries = (omega arith, omega arith, λ h. absurd (omega arith))
entries-len (entry k v es) =
    let ih = entries-len es in
    (
      omega (arith, ih.0, value_nodes_pos v),
      omega (arith, ih.1, value_bytes_pos v),
      λ h. omega (arith, value_depth_pos v),
    )

unfoldable pub pending_nodes : Stack → ℕ
pending_nodes [] = 0
pending_nodes ((v, d) ∷ pending) = value_nodes v + pending_nodes pending

unfoldable pub pending_items : Stack → ℕ
pending_items [] = 0
pending_items ((v, d) ∷ pending) = value_items v + pending_items pending

unfoldable pub pending_bytes : Stack → ℕ
pending_bytes [] = 0
pending_bytes ((v, d) ∷ pending) = value_bytes v + pending_bytes pending

-- A value at depth `d` has its own first level there.
unfoldable pub pending_depth : Stack → ℕ
pending_depth [] = 0
pending_depth ((v, d) ∷ pending) = max (d + value_depth v - 1) (pending_depth pending)

unfoldable pub pending_plain : Option ℕ → Stack → Bool
pending_plain limit [] = true
pending_plain limit ((v, d) ∷ pending) = is_plain limit v && pending_plain limit pending

pub pending-length :
    (pending : Stack)
    → (length pending ≤ pending_nodes pending) × (length pending ≤ pending_bytes pending)
unfolding pending_nodes pending_bytes
pending-length [] = (omega arith, omega arith)
pending-length ((v, d) ∷ pending) =
    let ih = pending-length pending in
    (omega (arith, ih.0, value_nodes_pos v), omega (arith, ih.1, value_bytes_pos v))

and_rest : (a b : Bool) {c : Bool} (d : Bool) → c ≡ (b && d) → (a && c) ≡ ((a && b) && d)
and_rest true b d h = h
and_rest false b d h = refl

-- The walk's measures behind a push of children at depth `d + 1`.
pub record Pushed (limit : Option ℕ) (nodes items bytes deep d : ℕ) (plain : Bool)
    (before after : Stack) : Type 0 where
  pub nodes_sum : pending_nodes after ≡ nodes + pending_nodes before
  pub items_sum : pending_items after ≡ items + pending_items before
  pub bytes_sum : pending_bytes after ≡ bytes + pending_bytes before
  pub depth_max : max d (pending_depth after) ≡ max (d + deep) (pending_depth before)
  pub plain_and : pending_plain limit after ≡ (plain && pending_plain limit before)

pub push_items-Pushed :
    (limit : Option ℕ) (vs : Values) (d : ℕ) (pending : Stack)
    → Pushed limit
        (items_nodes vs)
        (items_items vs)
        (items_bytes vs)
        (items_depth vs)
        d
        (items_plain limit vs)
        pending
        (push_items vs (d + 1) pending)
unfolding push_items value_nodes value_items value_bytes value_depth is_plain pending_nodes
    pending_items pending_bytes pending_depth pending_plain
push_items-Pushed limit no_items d pending = record {
  nodes_sum = omega arith;
  items_sum = omega arith;
  bytes_sum = omega arith;
  depth_max = omega arith;
  plain_and = refl;
}
push_items-Pushed limit (first v vs) d pending =
    let ih = push_items-Pushed limit vs d pending in
    record {
      nodes_sum = omega (arith, ih.nodes_sum);
      items_sum = omega (arith, ih.items_sum);
      bytes_sum = omega (arith, ih.bytes_sum);
      depth_max = omega (arith, ih.depth_max);
      plain_and = and_rest (is_plain limit v) _ _ ih.plain_and;
    }

pub push_entries-Pushed :
    (limit : Option ℕ) (es : Entries) (d : ℕ) (pending : Stack)
    → Pushed limit
        (entries_nodes es)
        (entries_items es)
        (entries_bytes es)
        (entries_depth es)
        d
        (entries_plain limit es)
        pending
        (push_entries es (d + 1) pending)
unfolding push_entries value_nodes value_items value_bytes value_depth is_plain pending_nodes
    pending_items pending_bytes pending_depth pending_plain
push_entries-Pushed limit no_entries d pending = record {
  nodes_sum = omega arith;
  items_sum = omega arith;
  bytes_sum = omega arith;
  depth_max = omega arith;
  plain_and = refl;
}
push_entries-Pushed limit (entry k v es) d pending =
    let ih = push_entries-Pushed limit es d pending in
    record {
      nodes_sum = omega (arith, ih.nodes_sum);
      items_sum = omega (arith, ih.items_sum);
      bytes_sum = omega (arith, ih.bytes_sum);
      depth_max = omega (arith, ih.depth_max);
      plain_and = and_rest (is_plain limit v) _ _ ih.plain_and;
    }

pub push_items-empty :
    (vs : Values) (d : ℕ) (pending : Stack) → items_len vs ≡ 0 → push_items vs d pending ≡ pending
unfolding push_items
push_items-empty no_items d pending h = refl
push_items-empty (first v vs) d pending h = absurd (omega arith)

pub push_entries-empty :
    (es : Entries) (d : ℕ) (pending : Stack)
    → entries_len es ≡ 0
    → push_entries es d pending ≡ pending
unfolding push_entries
push_entries-empty no_entries d pending h = refl
push_entries-empty (entry k v es) d pending h = absurd (omega arith)

pub key_bytes-empty : (es : Entries) → entries_len es ≡ 0 → key_bytes es ≡ 0
unfolding key_bytes
key_bytes-empty no_entries h = refl
key_bytes-empty (entry k v es) h = absurd (omega arith)
