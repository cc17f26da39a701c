-- ===== src/Runtime.antt =====
-- source/src/runtime.rs: errors, limits, and the check that every value passes on its way in or
-- out of the evaluator. Allocation is taken to succeed.
pub mod Pending
pub mod Charges
pub mod Admission
pub mod Operators
pub mod Registry
pub mod Capabilities
pub mod Provided
pub mod Registration
pub mod Registered
pub mod Evaluator
pub mod Honest
pub mod Metering
pub mod Returns
pub mod Parts
pub mod Soundness
pub mod Trusting
pub mod Tickets
use online_dsl_forge.Base.{
  ◌>>=◌, ◌>>◌, ℕ, zero, suc, ◌*◌, min, max, not, List, [], ◌∷◌, Text, Option, none, some, Result,
  ok, out_of_fuel, fail_if, ok_or, ltb, ◌==◌, if◌then◌else◌, length, byte_length,
}
use online_dsl_forge.Base.Usize.{checked_add}
use online_dsl_forge.Syntax.{SourceSpan, UnaryOp, BinaryOp, is_finite}
use online_dsl_forge.Value.{
  Value, Values, Entries, no_items, first, no_entries, entry, items_len, entries_len, ValueMetrics,
  max_value_depth as hard_max_value_depth, default_max_value_nodes, default_max_value_items,
  default_max_value_bytes, TypeName,
}
use online_dsl_forge.Verified.{CapabilityTicket}
use online_dsl_forge.Value.Measure.{value_nodes, exceeds}

pub data Counter : Type 0 where
  node byte item : Counter

-- The texts of the errors, with what is formatted into them. `reported` is a handler's own.
pub data EvalMessage : Type 0 where
  counter_overflowed : Counter → EvalMessage
  value_depth_counter_overflowed value_node_limit value_byte_limit : EvalMessage
  value_depth_limit value_item_limit string_byte_limit non_finite_float : EvalMessage
  depth_limit step_counter_overflowed step_limit array_item_limit : EvalMessage
  unresolved_function unresolved_method unresolved_unary unresolved_binary : EvalMessage
  ticket_mismatch : EvalMessage
  unknown_variable missing_member unknown_function unknown_method : Text → EvalMessage
  function_arity method_arity : Text → ℕ → EvalMessage
  wrong_arity : Text → ℕ → ℕ → EvalMessage
  cannot_read_member : Text → TypeName → EvalMessage
  negation_overflowed addition_overflowed arithmetic_overflowed : EvalMessage
  division_by_zero float_addition_not_finite float_arithmetic_not_finite : EvalMessage
  string_counter_overflowed internal_arithmetic internal_boolean : EvalMessage
  expected_bool : TypeName → EvalMessage
  unary_type : UnaryOp → TypeName → EvalMessage
  binary_type : BinaryOp → TypeName → TypeName → EvalMessage
  total_counter_overflowed total_byte_limit : EvalMessage
  work_counter_overflowed work_byte_limit : EvalMessage
  missing_capability capability_mismatch : CapabilityTicket → EvalMessage
  reported : Text → EvalMessage

pub record EvalError : Type 0 where
  pub message : EvalMessage
  pub span : SourceSpan

abbrev pub eval_error : EvalMessage → SourceSpan → EvalError
eval_error m s = record { message = m; span = s }

pub record EvalLimits : Type 0 where
  pub max_steps : ℕ
  pub max_depth : ℕ
  pub max_string_bytes : ℕ
  pub max_array_items : ℕ

abbrev pub default_eval_limits : EvalLimits
default_eval_limits = record {
  max_steps = 10_000;
  max_depth = 128;
  max_string_bytes = 64 * 1024;
  max_array_items = 4096;
}

pub record RuntimeResourceLimits : Type 0 where
  pub max_value_depth : ℕ
  pub max_value_nodes : ℕ
  pub max_value_items : ℕ
  pub max_value_bytes : ℕ
  pub max_total_value_bytes : ℕ

abbrev pub default_resource_limits : RuntimeResourceLimits
default_resource_limits = record {
  max_value_depth = hard_max_value_depth;
  max_value_nodes = default_max_value_nodes;
  max_value_items = default_max_value_items;
  max_value_bytes = default_max_value_bytes;
  max_total_value_bytes = 64 * 1024 * 1024;
}

-- `limits.max_value_depth.min(MAX_VALUE_DEPTH)`.
abbrev pub depth_bound : RuntimeResourceLimits → ℕ
depth_bound limits = min limits.max_value_depth hard_max_value_depth

abbrev pub Stack : Type 0
Stack = List (Value × ℕ)

-- `pending.extend(values.iter().rev())` leaves the first child on top.
unfoldable pub push_items : Values → ℕ → Stack → Stack
push_items no_items depth pending = pending
push_items (first v vs) depth pending = (v, depth) ∷ push_items vs depth pending

unfoldable pub push_entries : Entries → ℕ → Stack → Stack
push_entries no_entries depth pending = pending
push_entries (entry k v es) depth pending = (v, depth) ∷ push_entries es depth pending

pub record Visit : Type 0 where
  pub pending : Stack
  pub metrics : ValueMetrics

abbrev pub visit : Stack → ValueMetrics → Visit
visit p m = record { pending = p; metrics = m }

module _ (limits : RuntimeResourceLimits) (max_string : Option ℕ) (span : SourceSpan) where
  unfoldable pub checked_value_metric : ℕ → ℕ → Counter → Result EvalError ℕ
  checked_value_metric current added counter =
      ok_or (checked_add current added) (eval_error (counter_overflowed counter) span)

  -- `checked_value_metric` on the bytes, and the byte limit.
  unfoldable pub charge_bytes : ValueMetrics → ℕ → Result EvalError ValueMetrics
  charge_bytes metrics added = do
    bytes ← checked_value_metric metrics.bytes added byte
    fail_if (ltb limits.max_value_bytes bytes) (eval_error value_byte_limit span)
    ok (record metrics { bytes = bytes })

  -- The loop's body up to the `match`.
  unfoldable pub enter_value : ValueMetrics → ℕ → Result EvalError ValueMetrics
  enter_value metrics depth = do
    nodes ← checked_value_metric metrics.nodes 1 node
    fail_if (ltb limits.max_value_nodes nodes) (eval_error value_node_limit span)
    charged ← charge_bytes (record metrics { nodes = nodes }) 1
    let deepest = max charged.depth depth
    fail_if (ltb (depth_bound limits) deepest) (eval_error value_depth_limit span)
    ok (record charged { depth = deepest })

  -- `reserve_value_children` behind the test that there are children.
  unfoldable pub schedule_children : ValueMetrics → ℕ → ℕ → ℕ → Result EvalError ℕ
  schedule_children metrics pending children depth = do
    child_depth ← ok_or (checked_add depth 1) (eval_error value_depth_counter_overflowed span)
    fail_if (ltb (depth_bound limits) child_depth) (eval_error value_depth_limit span)
    some_scheduled ← checked_value_metric metrics.nodes pending node
    scheduled ← checked_value_metric some_scheduled children node
    fail_if (ltb limits.max_value_nodes scheduled) (eval_error value_node_limit span)
    some_bytes ← checked_value_metric metrics.bytes pending byte
    minimum_bytes ← checked_value_metric some_bytes children byte
    fail_if (ltb limits.max_value_bytes minimum_bytes) (eval_error value_byte_limit span)
    ok child_depth

  -- With no children there is no child depth.
  unfoldable pub reserve_value_children :
      ValueMetrics → ℕ → ℕ → ℕ → Result EvalError (Option ℕ × ValueMetrics)
  reserve_value_children metrics pending children depth = do
    items ← checked_value_metric metrics.items children item
    fail_if (ltb limits.max_value_items items) (eval_error value_item_limit span)
    let counted = record metrics { items = items }
    if children == 0
        then ok (none, counted)
        else (schedule_children counted pending children depth >>= λ d. ok (some d, counted))

  -- The loop over the keys.
  unfoldable pub charge_keys : Entries → ValueMetrics → Result EvalError ValueMetrics
  charge_keys no_entries metrics = ok metrics
  charge_keys (entry k v es) metrics = do
    charged ← charge_bytes metrics (byte_length k)
    charge_keys es charged

  unfoldable pub push_array : Values → Stack → Option ℕ × ValueMetrics → Result EvalError Visit
  push_array vs pending (none, metrics) = ok (visit pending metrics)
  push_array vs pending (some depth, metrics) = ok (visit (push_items vs depth pending) metrics)

  unfoldable pub push_object : Entries → Stack → Option ℕ × ValueMetrics → Result EvalError Visit
  push_object es pending (none, metrics) = ok (visit pending metrics)
  push_object es pending (some depth, metrics) = do
    charged ← charge_keys es metrics
    ok (visit (push_entries es depth pending) charged)

  -- The `match` of the loop.
  unfoldable pub visit_value : Value → ℕ → Stack → ValueMetrics → Result EvalError Visit
  visit_value (Value.string t) depth pending metrics = do
    fail_if (exceeds max_string (byte_length t)) (eval_error string_byte_limit span)
    charged ← charge_bytes metrics (byte_length t)
    ok (visit pending charged)
  visit_value (Value.array vs) depth pending metrics = do
    reserved ← reserve_value_children metrics (length pending) (items_len vs) depth
    push_array vs pending reserved
  visit_value (Value.object es) depth pending metrics = do
    reserved ← reserve_value_children metrics (length pending) (entries_len es) depth
    push_object es pending reserved
  visit_value (Value.float x) depth pending metrics = do
    fail_if (not (is_finite x)) (eval_error non_finite_float span)
    ok (visit pending metrics)
  visit_value _ depth pending metrics = ok (visit pending metrics)

  unfoldable pub validate_loop : ℕ → Stack → ValueMetrics → Result EvalError ValueMetrics
  validate_loop zero pending metrics = out_of_fuel
  validate_loop (suc fuel) [] metrics = ok metrics
  validate_loop (suc fuel) ((value, depth) ∷ pending) metrics = do
    entered ← enter_value metrics depth
    next ← visit_value value depth pending entered
    validate_loop fuel next.pending next.metrics

  -- A round for each node and one more is enough.
  unfoldable pub validate_value : Value → Result EvalError ValueMetrics
  validate_value value =
      validate_loop (suc (value_nodes value)) ((value, 1) ∷ [])
        (record { depth = 0; nodes = 0; items = 0; bytes = 0 })
