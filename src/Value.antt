-- ===== src/Value.antt =====
-- source/src/value.rs: runtime values, and the metrics of a value graph.
pub mod Measure
use online_dsl_forge.Base.{ℕ, suc, Text, Bool, true, false, ◌*◌}
use online_dsl_forge.Base.Int.{ℤ}
use online_dsl_forge.Syntax.{F64}

-- An object is a `BTreeMap`: its entries in the order of their keys.
mutual
  pub data Value : Type 0 where
    null : Value
    bool : Bool → Value
    int : ℤ → Value
    float : F64 → Value
    string : Text → Value
    array : Values → Value
    object : Entries → Value

  pub data Values : Type 0 where
    no_items : Values
    first : Value → Values → Values

  pub data Entries : Type 0 where
    no_entries : Entries
    entry : Text → Value → Entries → Entries

-- `Vec::len` and `BTreeMap::len`.
abbrev pub items_len : Values → ℕ
items_len no_items = 0
items_len (first v vs) = suc (items_len vs)

abbrev pub entries_len : Entries → ℕ
entries_len no_entries = 0
entries_len (entry k v es) = suc (entries_len es)

pub record ValueMetrics : Type 0 where
  pub depth : ℕ
  pub nodes : ℕ
  pub items : ℕ
  pub bytes : ℕ

abbrev pub max_value_depth : ℕ
max_value_depth = 128

abbrev pub default_max_value_nodes : ℕ
default_max_value_nodes = 262_144

abbrev pub default_max_value_items : ℕ
default_max_value_items = 262_144

abbrev pub default_max_value_bytes : ℕ
default_max_value_bytes = 64 * 1024 * 1024

-- What `type_name` returns.
pub data TypeName : Type 0 where
  null bool int float string array object : TypeName

unfoldable pub type_name : Value → TypeName
type_name Value.null = TypeName.null
type_name (Value.bool b) = TypeName.bool
type_name (Value.int n) = TypeName.int
type_name (Value.float x) = TypeName.float
type_name (Value.string t) = TypeName.string
type_name (Value.array vs) = TypeName.array
type_name (Value.object es) = TypeName.object

unfoldable pub is_number : Value → Bool
is_number (Value.int n) = true
is_number (Value.float x) = true
is_number _ = false
