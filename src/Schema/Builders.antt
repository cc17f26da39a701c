-- ===== src/Schema/Builders.antt =====
-- source/src/sema/schema.rs and schema/expression_limits.rs: what a host calls to fill a schema.
use online_dsl_forge.Base.{
  ◌>>=◌, ◌>>◌, ok, err, out_of_fuel, Result, ok_or, fail_if, Option, none, some, ℕ, Text, Bool,
  List, text_eq, true, [], false, ◌∷◌, ◌++◌, not, ◌||◌, codes, length, ltb, leb, byte_length,
}
use online_dsl_forge.Syntax.{SourceSpan, AstExpression, Diagnostic, span_of, DiagnosticReport}
use online_dsl_forge.Syntax.Messages.{message_text}
use online_dsl_forge.Profile.{BodyTarget, BodyAccess}
use online_dsl_forge.Map.{lookup, insert, text_lt}
use online_dsl_forge.Verified.{CapabilityKind}
use online_dsl_forge.Schema.{
  RuntimeSchema, VariableMeta, CapabilityMeta, TypeClass, RegexFlavor, Signatures, new_capability,
  ExpressionFunction, ExpressionFunctionScope, ExpressionFunctionDiagnostic,
  ExpressionFunctionLimits, nat_eq, all_functions,
}
use online_dsl_forge.Schema.Functions.{
  default_function_limits, checked_charge, ExpressionFunctionUsage, no_usage, validate_functions,
  validate_signature_parts, valid_function_identifier, bounded_diagnostic_message, diagnostic_limit,
  diagnostic_byte_limit, diagnostic_name, add_lengths, say,
}
use online_dsl_forge.Schema.Integrity.{scope_eq}
use online_dsl_forge.Base.Usize.{checked_add}

-- `RuntimeSchema::new`.
abbrev pub new_schema : RuntimeSchema
new_schema = record {
  variables = [];
  functions = [];
  methods = [];
  unary_ops = [];
  binary_ops = [];
  body_paths = [];
  expression_functions = [];
  local_expression_functions = [];
  expression_function_diagnostics = [];
  expression_function_diagnostics_truncated = false;
  expression_function_limits = default_function_limits;
}

-- `VariableMeta::new`.
abbrev pub new_variable : Text → VariableMeta
new_variable name = record { name = name; type_class = TypeClass.dyn; phases = [] }

-- `CapabilityMeta::function` and `CapabilityMeta::method`.
abbrev pub function_capability : Text → ℕ → CapabilityMeta
function_capability name arity = new_capability name CapabilityKind.function arity

abbrev pub method_capability : Text → ℕ → CapabilityMeta
method_capability name arity = new_capability name CapabilityKind.method arity

abbrev pub with_args : List TypeClass → CapabilityMeta → CapabilityMeta
with_args args c = record c { args = args; arity = length args }

abbrev pub with_body_access : BodyAccess → CapabilityMeta → CapabilityMeta
with_body_access access c = record c { body_access = access }

abbrev pub with_regex_arg : ℕ → RegexFlavor → CapabilityMeta → CapabilityMeta
with_regex_arg index flavor c = record c {
  regex_args = c.regex_args ++ record { index = index; flavor = flavor } ∷ [];
}

unfoldable pub add_variable_meta : VariableMeta → RuntimeSchema → RuntimeSchema
add_variable_meta v schema = record schema {
  variables = insert text_eq text_lt v.name v schema.variables;
}

abbrev pub add_variable : Text → RuntimeSchema → RuntimeSchema
add_variable name schema = add_variable_meta (new_variable name) schema

-- `entry(name).or_default()`.
abbrev pub or_default {ℓ} : {A : Type ℓ} → Option (List A) → List A
or_default none = []
or_default (some entries) = entries

unfoldable pub add_signature : CapabilityMeta → Signatures → Signatures
add_signature c signatures =
    insert text_eq text_lt c.name
      (insert nat_eq ltb c.arity c (or_default (lookup text_eq c.name signatures))) signatures

unfoldable pub add_function_capability : CapabilityMeta → RuntimeSchema → RuntimeSchema
add_function_capability c schema = record schema { functions = add_signature c schema.functions }

abbrev pub add_function : Text → ℕ → RuntimeSchema → RuntimeSchema
add_function name arity schema = add_function_capability (function_capability name arity) schema

unfoldable pub add_method_capability : CapabilityMeta → RuntimeSchema → RuntimeSchema
add_method_capability c schema = record schema { methods = add_signature c schema.methods }

abbrev pub add_method : Text → ℕ → RuntimeSchema → RuntimeSchema
add_method name arity schema = add_method_capability (method_capability name arity) schema

unfoldable pub add_unary_operator_capability : CapabilityMeta → RuntimeSchema → RuntimeSchema
add_unary_operator_capability c schema = record schema {
  unary_ops = insert text_eq text_lt c.name c schema.unary_ops;
}

unfoldable pub add_binary_operator_capability : CapabilityMeta → RuntimeSchema → RuntimeSchema
add_binary_operator_capability c schema = record schema {
  binary_ops = insert text_eq text_lt c.name c schema.binary_ops;
}

unfoldable pub add_body_path : List Text → BodyTarget → BodyAccess → RuntimeSchema → RuntimeSchema
add_body_path path target access schema = record schema {
  body_paths = schema.body_paths ++ record { path = path; target = target; access = access } ∷ [];
}

-- The functions but the one of this scope and name.
unfoldable pub other_functions :
    ExpressionFunctionScope → Text → List ExpressionFunction → List ExpressionFunction
other_functions scope name [] = []
other_functions scope name (f ∷ fs) =
    elim (not (scope_eq f.scope scope) || not (text_eq f.name name)) [
      | true ↦ f ∷ other_functions scope name fs
      | false ↦ other_functions scope name fs
    ]

-- The counters of `collect_expression_function_params` behind the functions that are there.
unfoldable pub charge_existing :
    ExpressionFunctionLimits
    → SourceSpan
    → List ExpressionFunction
    → ExpressionFunctionUsage
    → Result Diagnostic ExpressionFunctionUsage
charge_existing limits span [] usage = ok usage
charge_existing limits span (f ∷ fs) usage = do
  functions ←
      checked_charge usage.functions 1 limits.max_functions
        (codes "expression function count limit exceeded") span
  parameters ←
      checked_charge usage.parameters (length f.params) limits.max_total_parameters
        (codes "expression function parameter limit exceeded") span
  signature_bytes ←
      ok_or (add_lengths (byte_length f.name) f.params)
        (say (codes "expression function name byte counter overflowed") span)
  name_bytes ←
      checked_charge usage.name_bytes signature_bytes limits.max_total_name_bytes
        (codes "expression function name byte limit exceeded") span
  charge_existing limits span fs
      (record usage { functions = functions; parameters = parameters; name_bytes = name_bytes })

unfoldable pub charge_parameters :
    ExpressionFunctionLimits → SourceSpan → List Text → ℕ → ℕ → Result Diagnostic (Unit {0})
charge_parameters limits span [] parameters name_bytes = ok tt
charge_parameters limits span (p ∷ ps) parameters name_bytes = do
  parameters' ←
      checked_charge parameters 1 limits.max_total_parameters
        (codes "expression function parameter limit exceeded") span
  name_bytes' ←
      checked_charge name_bytes (byte_length p) limits.max_total_name_bytes
        (codes "expression function name byte limit exceeded") span
  charge_parameters limits span ps parameters' name_bytes'

-- The allocation of the parameters is left out: they are the list itself.
unfoldable pub collect_expression_function_params :
    RuntimeSchema
    → ExpressionFunctionScope
    → Text
    → List Text
    → SourceSpan
    → Result Diagnostic (Unit {0})
collect_expression_function_params schema scope name params span = do
  let limits = schema.expression_function_limits
  usage ← charge_existing limits span (other_functions scope name (all_functions schema)) no_usage
  functions ←
      checked_charge usage.functions 1 limits.max_functions
        (codes "expression function count limit exceeded") span
  name_bytes ←
      checked_charge usage.name_bytes (byte_length name) limits.max_total_name_bytes
        (codes "expression function name byte limit exceeded") span
  fail_if (not (valid_function_identifier name)) (
      say (codes "function name " ++ diagnostic_name name ++ codes " must be a valid identifier")
        span)
  charge_parameters limits span params usage.parameters name_bytes
  validate_signature_parts name params span

unfoldable pub admit_expression_function :
    RuntimeSchema → ExpressionFunction → Result Diagnostic ExpressionFunctionUsage
admit_expression_function schema candidate =
    validate_functions schema.expression_function_limits
      (other_functions candidate.scope candidate.name (all_functions schema) ++ candidate ∷ [])
      no_usage

-- The bytes of the messages that are kept.
unfoldable pub kept_bytes : ℕ → List ExpressionFunctionDiagnostic → Option ℕ
kept_bytes total [] = some total
kept_bytes total (d ∷ ds) = elim (checked_add total (byte_length d.message)) [
  | none ↦ none
  | some sum ↦ kept_bytes sum ds
]

abbrev pub fits_with : Option ℕ → ℕ → ℕ → Bool
fits_with none more limit = false
fits_with (some total) more limit = elim (checked_add total more) [
  | none ↦ false
  | some sum ↦ leb sum limit
]

unfoldable pub push_expression_function_diagnostic :
    Text → SourceSpan → RuntimeSchema → RuntimeSchema
push_expression_function_diagnostic message span schema =
    let limits = schema.expression_function_limits in
    let bounded = bounded_diagnostic_message message in
    let dropped = record schema { expression_function_diagnostics_truncated = true } in
    elim (leb (diagnostic_limit limits) (length schema.expression_function_diagnostics)) [
      | true ↦ dropped
      | false ↦
          elim (fits_with (kept_bytes 0 schema.expression_function_diagnostics)
            (byte_length bounded) (diagnostic_byte_limit limits)) [
              | true ↦ record schema {
                expression_function_diagnostics =
                    schema.expression_function_diagnostics
                    ++ record { message = bounded; span = span } ∷ [];
              }
              | false ↦ dropped
            ]
    ]

-- `{scope:?}`.
abbrev pub scope_name : ExpressionFunctionScope → Text
scope_name ExpressionFunctionScope.global = codes "Global"
scope_name ExpressionFunctionScope.local = codes "Local"

abbrev pub functions_in : ExpressionFunctionScope → RuntimeSchema → List (Text × ExpressionFunction)
functions_in ExpressionFunctionScope.global schema = schema.expression_functions
functions_in ExpressionFunctionScope.local schema = schema.local_expression_functions

unfoldable pub insert_function : ExpressionFunction → RuntimeSchema → RuntimeSchema
insert_function f schema = elim f.scope [
  | ExpressionFunctionScope.global ↦ record schema {
    expression_functions = insert text_eq text_lt f.name f schema.expression_functions;
  }
  | ExpressionFunctionScope.local ↦ record schema {
    local_expression_functions = insert text_eq text_lt f.name f schema.local_expression_functions;
  }
]

-- The function is accepted, and replaces another one of its name with a diagnostic.
unfoldable pub store_function : ExpressionFunction → RuntimeSchema → RuntimeSchema
store_function f schema =
    let named = add_function f.name (length f.params) schema in
    let noted : RuntimeSchema = elim (lookup text_eq f.name (functions_in f.scope named)) [
      | none ↦ named
      | some other ↦
          push_expression_function_diagnostic
            (codes "duplicate expression function "
              ++ diagnostic_name f.name
              ++ codes " in "
              ++ scope_name f.scope
              ++ codes " scope")
            (span_of f.expression) named
    ] in
    insert_function f noted

-- A diagnostic in place of the function.
unfoldable pub or_rejected {ℓ} :
    {A : Type ℓ}
    → Result Diagnostic A
    → (A → Result DiagnosticReport RuntimeSchema)
    → RuntimeSchema
    → Result DiagnosticReport RuntimeSchema
or_rejected (ok a) k schema = k a
or_rejected (err d) k schema =
    ok (push_expression_function_diagnostic (message_text d.message) d.span schema)
or_rejected out_of_fuel k schema = out_of_fuel

-- The function is dropped with a diagnostic where it is not accepted; it does not fail.
unfoldable pub add_scoped_expression_function :
    ExpressionFunctionScope
    → Text
    → List Text
    → AstExpression
    → RuntimeSchema
    → Result DiagnosticReport RuntimeSchema
add_scoped_expression_function scope name params e schema =
    let f : ExpressionFunction = record {
      name = name;
      params = params;
      expression = e;
      scope = scope;
    } in
    or_rejected (collect_expression_function_params schema scope name params (span_of e))
      (λ u.
        or_rejected (admit_expression_function schema f) (λ usage. ok (store_function f schema))
          schema)
      schema
