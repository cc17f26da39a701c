-- ===== src/Runtime/Capabilities.antt =====
-- source/src/runtime/capability_check.rs, the lookup of runtime.rs that it calls, and the entry point
-- that checks a program against the registry of the host before it is evaluated.
use online_dsl_forge.Runtime.Evaluator.{evaluate}
use online_dsl_forge.Base.{◌>>◌, ◌≡◌}
use native.Mathlib.Decide.{ℕ_discrete}
use online_dsl_forge.Schema.{CapabilityMeta, unary_operator, binary_operator}
use online_dsl_forge.Base.{
  Text, Option, List, ℕ, Result, if◌then◌else◌, none, ◌∷◌, some, text_eq, [], err, ok, codes,
}
use online_dsl_forge.Runtime.Registry.{
  DynamicRegistry, RuntimeContext, FunctionEntry, MethodEntry, get, find_function, find_method,
}
use online_dsl_forge.Verified.{CapabilityKind, CapabilityTicket, VerifiedExpression, verified}
use online_dsl_forge.Analyzer.Program.{VerifiedProgram}
use online_dsl_forge.Runtime.Operators.{FloatOps}
use online_dsl_forge.Syntax.{UnaryOp, BinaryOp, SourceSpan, binary_as_str}
use online_dsl_forge.Runtime.{
  EvalError, EvalLimits, RuntimeResourceLimits, eval_error, missing_capability, capability_mismatch,
}
use online_dsl_forge.Value.{Value}

pub CapabilityMeta-discrete : Discrete CapabilityMeta
CapabilityMeta-discrete = hlevel (ℕ_discrete)

unfoldable pub unary_op_from_name : Text → Option UnaryOp
unary_op_from_name name =
    if text_eq name (codes "!")
    then some UnaryOp.not
    else if text_eq name (codes "-")
    then some UnaryOp.neg
    else none

-- The operators by their names, in the order of the `match`.
unfoldable pub binary_op_named : Text → List BinaryOp → Option BinaryOp
binary_op_named name [] = none
binary_op_named name (op ∷ ops) =
    if text_eq name (binary_as_str op) then some op else binary_op_named name ops

abbrev pub every_binary_op : List BinaryOp
every_binary_op =
    BinaryOp.or ∷ BinaryOp.and ∷ BinaryOp.eq ∷ BinaryOp.ne ∷ BinaryOp.lt ∷ BinaryOp.le ∷ BinaryOp.gt
    ∷ BinaryOp.ge ∷ BinaryOp.add ∷ BinaryOp.sub ∷ BinaryOp.mul ∷ BinaryOp.div ∷ BinaryOp.rem ∷ []

abbrev pub binary_op_from_name : Text → Option BinaryOp
binary_op_from_name name = binary_op_named name every_binary_op

-- The capability of an operator that the host has not registered is that of the language.
abbrev pub unary_capability_of : DynamicRegistry → UnaryOp → CapabilityMeta
unary_capability_of registry op = elim (registry.unary_ops op) [
  | some registered ↦ registered.capability
  | none ↦ unary_operator op
]

abbrev pub binary_capability_of : DynamicRegistry → BinaryOp → CapabilityMeta
binary_capability_of registry op = elim (registry.binary_ops op) [
  | some registered ↦ registered.capability
  | none ↦ binary_operator op
]

abbrev pub function_capability_of : Option FunctionEntry → Option CapabilityMeta
function_capability_of (some f) = some f.capability
function_capability_of none = none

abbrev pub method_capability_of : Option MethodEntry → Option CapabilityMeta
method_capability_of (some m) = some m.capability
method_capability_of none = none

-- The entries of a name, by their arity.
abbrev pub function_found : ℕ → Option (List FunctionEntry) → Option CapabilityMeta
function_found arity (some entries) = function_capability_of (find_function arity entries)
function_found arity none = none

abbrev pub method_found : ℕ → Option (List MethodEntry) → Option CapabilityMeta
method_found arity (some entries) = method_capability_of (find_method arity entries)
method_found arity none = none

unfoldable pub capability_of_kind :
    CapabilityKind → DynamicRegistry → Text → ℕ → Option CapabilityMeta
capability_of_kind CapabilityKind.function registry name arity =
    function_found arity (get name registry.functions)
capability_of_kind CapabilityKind.method registry name arity =
    method_found arity (get name registry.methods)
capability_of_kind CapabilityKind.unary_op registry name arity = elim (unary_op_from_name name) [
  | some op ↦ some (unary_capability_of registry op)
  | none ↦ none
]
capability_of_kind CapabilityKind.binary_op registry name arity = elim (binary_op_from_name name) [
  | some op ↦ some (binary_capability_of registry op)
  | none ↦ none
]

abbrev pub capability_for_ticket : DynamicRegistry → CapabilityTicket → Option CapabilityMeta
capability_for_ticket registry ticket =
    capability_of_kind ticket.kind registry ticket.name ticket.arity

-- The registry's capability is compared with the expected one.
abbrev pub require_same :
    {expected actual : CapabilityMeta}
    → Dec (expected ≡ actual)
    → CapabilityTicket
    → SourceSpan
    → Result EvalError (Unit {0})
require_same (yes same) ticket span = ok tt
require_same (no other) ticket span = err (eval_error (capability_mismatch ticket) span)

-- One round of the loop: what the registry has for a ticket is what the analyzer saw.
unfoldable pub verify_capability :
    Option CapabilityMeta
    → CapabilityTicket
    → CapabilityMeta
    → SourceSpan
    → Result EvalError (Unit {0})
verify_capability none ticket expected span = err (eval_error (missing_capability ticket) span)
verify_capability (some actual) ticket expected span =
    require_same (CapabilityMeta-discrete expected actual) ticket span

unfoldable pub verify_capabilities :
    List (CapabilityTicket × CapabilityMeta)
    → DynamicRegistry
    → SourceSpan
    → Result EvalError (Unit {0})
verify_capabilities [] registry span = ok tt
verify_capabilities ((ticket, expected) ∷ rest) registry span =
    verify_capability (capability_for_ticket registry ticket) ticket expected span
    >> verify_capabilities rest registry span

abbrev pub root_span : VerifiedExpression → SourceSpan
root_span (verified kind span ticket) = span

abbrev pub verify_runtime_capabilities :
    VerifiedProgram → DynamicRegistry → Result EvalError (Unit {0})
verify_runtime_capabilities program registry =
    verify_capabilities program.required_capability_metadata registry (root_span program.root)

-- `evaluate_verified_with_resource_limits`.
abbrev pub evaluate_verified :
    FloatOps
    → VerifiedProgram
    → RuntimeContext
    → EvalLimits
    → RuntimeResourceLimits
    → Result EvalError Value
evaluate_verified f64 program context limits resources =
    verify_runtime_capabilities program context.registry
    >> evaluate f64 context limits resources program.root
