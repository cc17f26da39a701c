-- ===== src/Runtime/Registration.antt =====
use online_dsl_forge.Base.{
  ◌>>=◌, Text, Option, List, ℕ, some, none, text_eq, Result, if◌then◌else◌, ◌∷◌, ◌++◌, Bool, [], ok,
}
use online_dsl_forge.Schema.{CapabilityMeta, unary_operator, binary_operator, RuntimeSchema}
use online_dsl_forge.Runtime.Registry.{
  get, FunctionHandler, MethodHandler, DynamicRegistry, UnaryHandler, BinaryHandler, FunctionEntry,
  MethodEntry, UnaryEntry, BinaryEntry,
}
use online_dsl_forge.Map.{insert, text_lt}
use online_dsl_forge.Value.{Value}
use online_dsl_forge.Runtime.{EvalError}
use online_dsl_forge.Schema.Builders.{
  or_default, function_capability, method_capability, add_function_capability,
  add_method_capability, add_unary_operator_capability, add_binary_operator_capability, new_schema,
}
use online_dsl_forge.Syntax.{UnaryOp, BinaryOp, unary_as_str, binary_as_str}
use online_dsl_forge.Runtime.Capabilities.{unary_op_from_name, binary_op_from_name, every_binary_op}

-- source/src/runtime.rs: the calls by which a host registers its handlers, and the
-- schema that it exports. The operators are in a hash map: here they are visited in a fixed order, but
-- no two of them share a name, so the schema is the same in any.

-- `entry(name).or_default().push(a)`.
unfoldable pub push_at {ℓ} : {A : Type ℓ} → Text → A → List (Text × List A) → List (Text × List A)
push_at name a entries =
    insert text_eq text_lt name (or_default (get name entries) ++ a ∷ []) entries

unfoldable pub register_function_capability_with_context :
    CapabilityMeta → FunctionHandler → DynamicRegistry → DynamicRegistry
register_function_capability_with_context c handler registry = record registry {
  functions =
      push_at c.name (record { arity = c.arity; capability = c; handler = handler })
        registry.functions;
}

-- A handler that is not given the context charges nothing.
abbrev pub register_function_capability :
    CapabilityMeta → (List Value → Result EvalError Value) → DynamicRegistry → DynamicRegistry
register_function_capability c handler =
    register_function_capability_with_context c
      λ context args. handler args >>= λ v. ok (v, context.processed_bytes)

abbrev pub register_function :
    Text → ℕ → (List Value → Result EvalError Value) → DynamicRegistry → DynamicRegistry
register_function name arity handler =
    register_function_capability (function_capability name arity) handler

unfoldable pub register_method_capability_with_context :
    CapabilityMeta → MethodHandler → DynamicRegistry → DynamicRegistry
register_method_capability_with_context c handler registry = record registry {
  methods =
      push_at c.name (record { arity = c.arity; capability = c; handler = handler })
        registry.methods;
}

abbrev pub register_method_capability :
    CapabilityMeta
    → (Value → List Value → Result EvalError Value)
    → DynamicRegistry
    → DynamicRegistry
register_method_capability c handler =
    register_method_capability_with_context c
      λ context receiver args. handler receiver args >>= λ v. ok (v, context.processed_bytes)

abbrev pub register_method :
    Text → ℕ → (Value → List Value → Result EvalError Value) → DynamicRegistry → DynamicRegistry
register_method name arity handler =
    register_method_capability (method_capability name arity) handler

abbrev pub unary_eq : UnaryOp → UnaryOp → Bool
unary_eq a b = text_eq (unary_as_str a) (unary_as_str b)

abbrev pub binary_eq : BinaryOp → BinaryOp → Bool
binary_eq a b = text_eq (binary_as_str a) (binary_as_str b)

-- An operator is found by the name of its capability; another name registers nothing.
unfoldable pub register_unary_operator_capability :
    CapabilityMeta → UnaryHandler → DynamicRegistry → DynamicRegistry
register_unary_operator_capability c handler registry = elim (unary_op_from_name c.name) [
  | some op ↦ record registry {
    unary_ops = λ o.
        if unary_eq o op
        then some (record { capability = c; handler = handler })
        else registry.unary_ops o;
  }
  | none ↦ registry
]

abbrev pub register_unary_operator : UnaryOp → UnaryHandler → DynamicRegistry → DynamicRegistry
register_unary_operator op handler = register_unary_operator_capability (unary_operator op) handler

unfoldable pub register_binary_operator_capability :
    CapabilityMeta → BinaryHandler → DynamicRegistry → DynamicRegistry
register_binary_operator_capability c handler registry = elim (binary_op_from_name c.name) [
  | some op ↦ record registry {
    binary_ops = λ o.
        if binary_eq o op
        then some (record { capability = c; handler = handler })
        else registry.binary_ops o;
  }
  | none ↦ registry
]

abbrev pub register_binary_operator : BinaryOp → BinaryHandler → DynamicRegistry → DynamicRegistry
register_binary_operator op handler =
    register_binary_operator_capability (binary_operator op) handler

unfoldable pub add_function_entries : List FunctionEntry → RuntimeSchema → RuntimeSchema
add_function_entries [] schema = schema
add_function_entries (f ∷ fs) schema =
    add_function_entries fs (add_function_capability f.capability schema)

unfoldable pub add_method_entries : List MethodEntry → RuntimeSchema → RuntimeSchema
add_method_entries [] schema = schema
add_method_entries (m ∷ ms) schema =
    add_method_entries ms (add_method_capability m.capability schema)

-- `for entries in map.values()`.
unfoldable pub add_named {ℓ} :
    {A : Type ℓ}
    → (List A → RuntimeSchema → RuntimeSchema)
    → List (Text × List A)
    → RuntimeSchema
    → RuntimeSchema
add_named add [] schema = schema
add_named add ((name, entries) ∷ rest) schema = add_named add rest (add entries schema)

unfoldable pub add_unary_operators :
    (UnaryOp → Option UnaryEntry) → List UnaryOp → RuntimeSchema → RuntimeSchema
add_unary_operators find [] schema = schema
add_unary_operators find (op ∷ ops) schema = add_unary_operators find ops (elim (find op) [
  | some registered ↦ add_unary_operator_capability registered.capability schema
  | none ↦ schema
])

unfoldable pub add_binary_operators :
    (BinaryOp → Option BinaryEntry) → List BinaryOp → RuntimeSchema → RuntimeSchema
add_binary_operators find [] schema = schema
add_binary_operators find (op ∷ ops) schema = add_binary_operators find ops (elim (find op) [
  | some registered ↦ add_binary_operator_capability registered.capability schema
  | none ↦ schema
])

-- `DynamicRegistry::schema`.
abbrev pub schema : DynamicRegistry → RuntimeSchema
schema registry = add_binary_operators registry.binary_ops every_binary_op (
    add_unary_operators registry.unary_ops (UnaryOp.not ∷ UnaryOp.neg ∷ []) (
      add_named add_method_entries registry.methods
        (add_named add_function_entries registry.functions new_schema)))

abbrev pub register_function_with_context :
    Text → ℕ → FunctionHandler → DynamicRegistry → DynamicRegistry
register_function_with_context name arity handler =
    register_function_capability_with_context (function_capability name arity) handler

abbrev pub register_method_with_context :
    Text → ℕ → MethodHandler → DynamicRegistry → DynamicRegistry
register_method_with_context name arity handler =
    register_method_capability_with_context (method_capability name arity) handler
