-- ===== src/Schema/Bounds.antt =====
-- The checks of the expression functions and of a schema end, whatever the limits are.
use online_dsl_forge.Base.{
  ◌>>◌, fail_if, ◌≡◌, ◌≤◌, ◌+◌, arith, [], ◌∷◌, true, false, not, Bool, Result, Ends, Ends-bind,
  Ends-fail_if, Ends-ok_or, Returns, accepts, refuses, ℕ, Text, List, length, ltb, ltb→le,
  byte_length, Returns-bind, text_eq, codes,
}
use online_dsl_forge.Base.Usize.{checked_add, checked_add-eq-some}
use online_dsl_forge.Verified.{CapabilityKind}
use online_dsl_forge.Schema.Integrity.{
  Checked, validate_integrity, validate_variables, validate_capability, validate_signatures,
  validate_capability_map, validate_operator_map, validate_expression_functions, binary_names,
}
use online_dsl_forge.Schema.{
  RuntimeSchema, VariableMeta, CapabilityMeta, Signatures, ExpressionFunctionScope,
  ExpressionFunction, ExpressionFunctionLimits, all_functions,
}
use online_dsl_forge.Schema.Functions.{
  checked_charge, validate_parameters, validate_signature_parts, charge_signature, charge_body,
  validate_functions, ExpressionFunctionUsage, first_error, retain_error, no_usage, Retained,
  validated_expression_function_diagnostics, valid_function_identifier, add_lengths, rename_message,
  body_bytes_exceeded,
}
use online_dsl_forge.Syntax.{Diagnostic, DiagnosticReport, SourceSpan}
use online_dsl_forge.Preflight.Fuel.{preflight_ast-Ends}
use online_dsl_forge.Validation.Fuel.{validate_ast_syntax-Ends}
use online_dsl_forge.Map.{contains_key}

pub checked_charge-Ends :
    (current added limit : ℕ) (message : Text) (span : SourceSpan)
    → Ends
        (λ n. (n ≡ current + added) × (n ≤ limit))
        (checked_charge current added limit message span)
unfolding checked_charge
checked_charge-Ends current added limit message span =
    Ends-ok_or (checked_add current added) _ λ next e.
      Ends-fail_if (ltb limit next) _
        λ fits. accepts (omega (arith, checked_add-eq-some _ _ e), ltb→le _ _ fits)

parameters-Ends :
    (name : Text) (ps seen : List Text) (span : SourceSpan)
    → Ends (λ _. Unit {0}) (validate_parameters name ps seen span)
unfolding validate_parameters
parameters-Ends name [] seen span = accepts tt
parameters-Ends name (p ∷ ps) seen span =
    Ends-fail_if (not (valid_function_identifier p)) _
      λ _. Ends-fail_if (contains_key text_eq p seen) _ λ _. parameters-Ends name ps (p ∷ seen) span

pub parts-Ends :
    (name : Text) (params : List Text) (span : SourceSpan)
    → Ends (λ _. Unit {0}) (validate_signature_parts name params span)
unfolding validate_signature_parts
parts-Ends name params span =
    Ends-fail_if (not (valid_function_identifier name)) _ λ _. parameters-Ends name params [] span

pub first_error-Ends {ℓ} :
    {A : Type 0} {P : A → Type ℓ} (f : Diagnostic → Diagnostic) {r : Result DiagnosticReport A}
    → Ends P r
    → Ends P (first_error f r)
first_error-Ends f (accepts h) = accepts h
first_error-Ends f (refuses h) = refuses h

signature-Ends :
    (limits : ExpressionFunctionLimits) (function : ExpressionFunction)
    (usage : ExpressionFunctionUsage)
    → Ends (λ _. Unit {0}) (charge_signature limits function usage)
unfolding charge_signature
signature-Ends limits function usage =
    Ends-bind (checked_charge-Ends usage.functions 1 _ _ _) λ functions _.
      Ends-bind (checked_charge-Ends usage.parameters (length function.params) _ _ _)
        λ parameters _.
          Ends-ok_or (add_lengths (byte_length function.name) function.params) _ λ bytes _.
            Ends-bind (checked_charge-Ends usage.name_bytes bytes _ _ _) λ name_bytes _.
              Ends-bind (parts-Ends function.name function.params _) λ u _. accepts tt

body-Ends :
    (limits : ExpressionFunctionLimits) (function : ExpressionFunction)
    (usage : ExpressionFunctionUsage)
    → Ends (λ _. Unit {0}) (charge_body limits function usage)
unfolding charge_body
body-Ends limits function usage =
    Ends-bind (first_error-Ends (λ d. d) (preflight_ast-Ends function.expression _ _)) λ body _.
      Ends-bind
        (first_error-Ends
          (rename_message (codes "AST scalar byte limit exceeded") body_bytes_exceeded)
          (validate_ast_syntax-Ends function.expression _))
        λ syntax _. Ends-bind (checked_charge-Ends usage.body_nodes body.nodes _ _ _) λ nodes _.
          Ends-bind (checked_charge-Ends usage.body_scalar_bytes syntax.scalar_bytes _ _ _)
            λ bytes _.
              Ends-bind (checked_charge-Ends usage.call_edges syntax.function_calls _ _ _)
                λ edges _. accepts tt

pub functions-Ends :
    (limits : ExpressionFunctionLimits) (fs : List ExpressionFunction)
    (usage : ExpressionFunctionUsage)
    → Ends (λ _. Unit {0}) (validate_functions limits fs usage)
unfolding validate_functions
functions-Ends limits [] usage = accepts tt
functions-Ends limits (f ∷ fs) usage =
    Ends-bind (signature-Ends limits f usage)
      λ named _. Ends-bind (body-Ends limits f named) λ charged _. functions-Ends limits fs charged

retain_error-Returns {ℓ} :
    {P : ExpressionFunctionUsage → Type ℓ} (limits : ExpressionFunctionLimits)
    {r : Result Diagnostic ExpressionFunctionUsage} (kept : Retained)
    → Ends P r
    → Returns (λ _. Unit {0}) (retain_error limits r kept)
unfolding retain_error
retain_error-Returns limits kept (accepts h) = accepts tt
retain_error-Returns limits kept (refuses h) = accepts tt

pub diagnostics-Returns :
    (schema : RuntimeSchema)
    → Returns (λ _. Unit {0}) (validated_expression_function_diagnostics schema)
unfolding validated_expression_function_diagnostics
diagnostics-Returns schema =
    let limits = schema.expression_function_limits in
    Returns-bind
      (retain_error-Returns limits _ (functions-Ends limits (all_functions schema) no_usage))
      λ kept _. accepts tt

-- The checks of the integrity go over lists.
then-Ends :
    {m k : Checked}
    → Ends (λ _. Unit {0}) m
    → Ends (λ _. Unit {0}) k
    → Ends (λ _. Unit {0}) (m >> k)
then-Ends m k = Ends-bind m λ u _. k

check-Ends : (b : Bool) (d : Diagnostic) → Ends (λ _. Unit {0}) (fail_if b d)
check-Ends true d = refuses tt
check-Ends false d = accepts tt

variables-Ends : (vs : List (Text × VariableMeta)) → Ends (λ _. Unit {0}) (validate_variables vs)
unfolding validate_variables
variables-Ends [] = accepts tt
variables-Ends ((name, v) ∷ vs) = then-Ends (check-Ends _ _) (variables-Ends vs)

capability-Ends :
    (c : CapabilityMeta) (kind : CapabilityKind) (name : Text) (arity : ℕ) (label : Text)
    → Ends (λ _. Unit {0}) (validate_capability c kind name arity label)
unfolding validate_capability
capability-Ends c kind name arity label = check-Ends _ _

signatures-Ends :
    (ss : List (ℕ × CapabilityMeta)) (kind : CapabilityKind) (name label : Text)
    → Ends (λ _. Unit {0}) (validate_signatures ss kind name label)
unfolding validate_signatures
signatures-Ends [] kind name label = accepts tt
signatures-Ends ((arity, c) ∷ ss) kind name label =
    then-Ends (capability-Ends c kind name arity label) (signatures-Ends ss kind name label)

map-Ends :
    (m : Signatures) (kind : CapabilityKind) (label : Text)
    → Ends (λ _. Unit {0}) (validate_capability_map m kind label)
unfolding validate_capability_map
map-Ends [] kind label = accepts tt
map-Ends ((name, ss) ∷ m) kind label =
    then-Ends (signatures-Ends ss kind name label) (map-Ends m kind label)

operators-Ends :
    (m : List (Text × CapabilityMeta)) (kind : CapabilityKind) (arity : ℕ) (names : List Text)
    (label : Text)
    → Ends (λ _. Unit {0}) (validate_operator_map m kind arity names label)
unfolding validate_operator_map
operators-Ends [] kind arity names label = accepts tt
operators-Ends ((name, c) ∷ m) kind arity names label =
    then-Ends (check-Ends _ _) (
      then-Ends (capability-Ends c kind name arity label) (operators-Ends m kind arity names label))

scopes-Ends :
    (fs : List (Text × ExpressionFunction)) (scope : ExpressionFunctionScope) (label : Text)
    → Ends (λ _. Unit {0}) (validate_expression_functions fs scope label)
unfolding validate_expression_functions
scopes-Ends [] scope label = accepts tt
scopes-Ends ((name, f) ∷ fs) scope label = then-Ends (check-Ends _ _) (scopes-Ends fs scope label)

pub validate_integrity-Ends :
    (schema : RuntimeSchema) → Ends (λ _. Unit {0}) (validate_integrity schema)
unfolding validate_integrity
validate_integrity-Ends schema = then-Ends (variables-Ends schema.variables) (
    then-Ends (map-Ends schema.functions CapabilityKind.function _) (
      then-Ends (map-Ends schema.methods CapabilityKind.method _) (
        then-Ends (operators-Ends schema.unary_ops CapabilityKind.unary_op 1 _ _) (
          then-Ends (operators-Ends schema.binary_ops CapabilityKind.binary_op 2 binary_names _) (
            then-Ends (scopes-Ends schema.expression_functions ExpressionFunctionScope.global _)
              (scopes-Ends schema.local_expression_functions ExpressionFunctionScope.local _))))))
