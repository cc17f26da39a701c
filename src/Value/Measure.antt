-- ===== src/Value/Measure.antt =====
-- Reference measures of a value, by recursion on it: what the iterative traversal is held to.
use online_dsl_forge.Base.{
  ℕ, suc, ◌+◌, max, Bool, true, false, not, ◌&&◌, Option, none, some, ltb, byte_length,
}
use online_dsl_forge.Syntax.{is_finite}
use online_dsl_forge.Value.{
  Value, ValueMetrics, Values, Entries, no_items, first, no_entries, entry, items_len, entries_len,
  string, array, object, float,
}

unfoldable mutual
  pub value_nodes : Value → ℕ
  value_nodes (array vs) = suc (items_nodes vs)
  value_nodes (object es) = suc (entries_nodes es)
  value_nodes _ = 1

  pub items_nodes : Values → ℕ
  items_nodes no_items = 0
  items_nodes (first v vs) = value_nodes v + items_nodes vs

  pub entries_nodes : Entries → ℕ
  entries_nodes no_entries = 0
  entries_nodes (entry k v es) = value_nodes v + entries_nodes es

unfoldable mutual
  pub value_depth : Value → ℕ
  value_depth (array vs) = suc (items_depth vs)
  value_depth (object es) = suc (entries_depth es)
  value_depth _ = 1

  pub items_depth : Values → ℕ
  items_depth no_items = 0
  items_depth (first v vs) = max (value_depth v) (items_depth vs)

  pub entries_depth : Entries → ℕ
  entries_depth no_entries = 0
  entries_depth (entry k v es) = max (value_depth v) (entries_depth es)

-- The elements and entries of all arrays and objects.
unfoldable mutual
  pub value_items : Value → ℕ
  value_items (array vs) = items_len vs + items_items vs
  value_items (object es) = entries_len es + entries_items es
  value_items _ = 0

  pub items_items : Values → ℕ
  items_items no_items = 0
  items_items (first v vs) = value_items v + items_items vs

  pub entries_items : Entries → ℕ
  entries_items no_entries = 0
  entries_items (entry k v es) = value_items v + entries_items es

-- The bytes of an object's keys.
unfoldable pub key_bytes : Entries → ℕ
key_bytes no_entries = 0
key_bytes (entry k v es) = byte_length k + key_bytes es

-- A byte for each node, and those of strings and keys.
unfoldable mutual
  pub value_bytes : Value → ℕ
  value_bytes (string t) = suc (byte_length t)
  value_bytes (array vs) = suc (items_bytes vs)
  value_bytes (object es) = suc (key_bytes es + entries_bytes es)
  value_bytes _ = 1

  pub items_bytes : Values → ℕ
  items_bytes no_items = 0
  items_bytes (first v vs) = value_bytes v + items_bytes vs

  pub entries_bytes : Entries → ℕ
  entries_bytes no_entries = 0
  entries_bytes (entry k v es) = value_bytes v + entries_bytes es

-- `limit.is_some_and(|limit| len > limit)`.
abbrev pub exceeds : Option ℕ → ℕ → Bool
exceeds none n = false
exceeds (some limit) n = ltb limit n

-- Every float is finite, and no string (keys aside) is longer than the limit.
unfoldable mutual
  pub is_plain : Option ℕ → Value → Bool
  is_plain limit (float x) = is_finite x
  is_plain limit (string t) = not (exceeds limit (byte_length t))
  is_plain limit (array vs) = items_plain limit vs
  is_plain limit (object es) = entries_plain limit es
  is_plain limit _ = true

  pub items_plain : Option ℕ → Values → Bool
  items_plain limit no_items = true
  items_plain limit (first v vs) = is_plain limit v && items_plain limit vs

  pub entries_plain : Option ℕ → Entries → Bool
  entries_plain limit no_entries = true
  entries_plain limit (entry k v es) = is_plain limit v && entries_plain limit es

abbrev pub value_metrics : Value → ValueMetrics
value_metrics v = record {
  depth = value_depth v;
  nodes = value_nodes v;
  items = value_items v;
  bytes = value_bytes v;
}
