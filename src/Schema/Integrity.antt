-- ===== src/Schema/Integrity.antt =====
-- source/src/sema/schema/integrity.rs: each entry of a schema is under its own name and arity.
use online_dsl_forge.Base.{
  ◌>>◌, [], ◌∷◌, ◌++◌, ok, none, some, Text, List, Result, Option, ℕ, Bool, codes, true, ◌&&◌,
  fail_if, ltb, text_eq, not, false, ◌==◌, ◌||◌, length,
}
use online_dsl_forge.Schema.Functions.{diagnostic_name}
use online_dsl_forge.Runtime.Evaluator.{kind_eq}
use online_dsl_forge.Schema.{
  CapabilityMeta, Signatures, ExpressionFunctionScope, RuntimeSchema, RegexArgMeta, VariableMeta,
  ExpressionFunction,
}
use online_dsl_forge.Verified.{CapabilityKind}
use online_dsl_forge.Syntax.{Diagnostic, text, default_span}
use online_dsl_forge.Base.Decimal.{decimal}
use online_dsl_forge.Map.{contains_key}

unfoldable pub identity_error : Text → Text → Option ℕ → Diagnostic
identity_error label name arity = record {
  message = text (
      codes "runtime schema "
      ++ label
      ++ codes " identity mismatch for "
      ++ diagnostic_name name
      ++ suffix arity);
  span = default_span;
}
  where
    suffix : Option ℕ → Text
    suffix none = []
    suffix (some n) = b'/' ∷ decimal n

unfoldable pub regex_args_fit : List RegexArgMeta → ℕ → Bool
regex_args_fit [] arity = true
regex_args_fit (argument ∷ rest) arity = ltb argument.index arity && regex_args_fit rest arity

unfoldable pub identity_matches : CapabilityMeta → CapabilityKind → Text → ℕ → Bool
identity_matches c kind name arity =
    kind_eq c.kind kind
    && text_eq c.name name
    && c.arity == arity
    && length c.args == arity
    && regex_args_fit c.regex_args arity

abbrev pub Checked : Type 0
Checked = Result Diagnostic (Unit {0})

unfoldable pub validate_capability : CapabilityMeta → CapabilityKind → Text → ℕ → Text → Checked
validate_capability c kind name arity label =
    fail_if (not (identity_matches c kind name arity)) (identity_error label name (some arity))

unfoldable pub validate_signatures :
    List (ℕ × CapabilityMeta) → CapabilityKind → Text → Text → Checked
validate_signatures [] kind name label = ok tt
validate_signatures ((arity, c) ∷ rest) kind name label =
    validate_capability c kind name arity label >> validate_signatures rest kind name label

unfoldable pub validate_capability_map : Signatures → CapabilityKind → Text → Checked
validate_capability_map [] kind label = ok tt
validate_capability_map ((name, signatures) ∷ rest) kind label =
    validate_signatures signatures kind name label >> validate_capability_map rest kind label

unfoldable pub validate_operator_map :
    List (Text × CapabilityMeta) → CapabilityKind → ℕ → List Text → Text → Checked
validate_operator_map [] kind arity valid_names label = ok tt
validate_operator_map ((name, c) ∷ rest) kind arity valid_names label =
    fail_if (not (contains_key text_eq name valid_names)) (identity_error label name (some arity))
    >> (validate_capability c kind name arity label
        >> validate_operator_map rest kind arity valid_names label)

unfoldable pub validate_variables : List (Text × VariableMeta) → Checked
validate_variables [] = ok tt
validate_variables ((name, variable) ∷ rest) =
    fail_if (not (text_eq variable.name name)) (identity_error (codes "variable") name none)
    >> validate_variables rest

abbrev pub scope_eq : ExpressionFunctionScope → ExpressionFunctionScope → Bool
scope_eq ExpressionFunctionScope.global ExpressionFunctionScope.global = true
scope_eq ExpressionFunctionScope.local ExpressionFunctionScope.local = true
scope_eq _ _ = false

unfoldable pub validate_expression_functions :
    List (Text × ExpressionFunction) → ExpressionFunctionScope → Text → Checked
validate_expression_functions [] scope label = ok tt
validate_expression_functions ((name, function) ∷ rest) scope label =
    fail_if (not (text_eq function.name name) || not (scope_eq function.scope scope))
      (identity_error label name (some (length function.params)))
    >> validate_expression_functions rest scope label

abbrev pub binary_names : List Text
binary_names =
    codes "||"
    ∷ codes "&&"
    ∷ codes "=="
    ∷ codes "!="
    ∷ codes "<"
    ∷ codes "<="
    ∷ codes ">"
    ∷ codes ">="
    ∷ codes "+"
    ∷ codes "-"
    ∷ codes "*"
    ∷ codes "/"
    ∷ codes "%"
    ∷ []

unfoldable pub validate_integrity : RuntimeSchema → Checked
validate_integrity schema = do
  validate_variables schema.variables
  validate_capability_map schema.functions CapabilityKind.function (codes "function")
  validate_capability_map schema.methods CapabilityKind.method (codes "method")
  validate_operator_map schema.unary_ops CapabilityKind.unary_op 1 (codes "!" ∷ codes "-" ∷ [])
      (codes "unary operator")
  validate_operator_map schema.binary_ops CapabilityKind.binary_op 2 binary_names
      (codes "binary operator")
  validate_expression_functions schema.expression_functions ExpressionFunctionScope.global
      (codes "global expression function")
  validate_expression_functions schema.local_expression_functions ExpressionFunctionScope.local
      (codes "local expression function")
