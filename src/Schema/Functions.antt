-- ===== src/Schema/Functions.antt =====
-- source/src/sema/schema/expression_limits.rs: the limits of expression functions, and how their
-- diagnostics are kept short.
use online_dsl_forge.Base.{
  ◌>>=◌, ◌>>◌, [], ◌∷◌, ◌++◌, ok, none, some, ℕ, Text, List, Option, Bool, ◌*◌, codes, leb,
  if◌then◌else◌, min, ◌&&◌, Result, true, len_utf8, byte_length, ok_or, not, fail_if, err, text_eq,
  length, ◌-◌, false, out_of_fuel, ltb,
}
use online_dsl_forge.Validation.{is_valid_identifier, validate_ast_syntax}
use online_dsl_forge.Syntax.{span_of, text, DiagnosticReport, Diagnostic, SourceSpan, default_span}
use online_dsl_forge.Schema.{
  ExpressionFunctionLimits, RuntimeSchema, ExpressionFunction, ExpressionFunctionDiagnostic,
  all_functions,
}
use online_dsl_forge.Preflight.{preflight_ast}
use online_dsl_forge.Map.{contains_key}
use online_dsl_forge.Syntax.Messages.{message_text}
use online_dsl_forge.Base.Usize.{checked_add}

abbrev pub max_expression_function_body_depth : ℕ
max_expression_function_body_depth = 128

abbrev pub max_diagnostic_message_bytes : ℕ
max_diagnostic_message_bytes = 1024

abbrev pub max_expression_function_diagnostics : ℕ
max_expression_function_diagnostics = 1024

abbrev pub max_total_diagnostic_bytes : ℕ
max_total_diagnostic_bytes = 1024 * 1024

abbrev pub max_diagnostic_name_bytes : ℕ
max_diagnostic_name_bytes = 256

unfoldable pub diagnostic_budget_exceeded : Text
diagnostic_budget_exceeded = codes "expression function diagnostic limit exceeded"

-- `ExpressionFunctionLimits::default()`.
abbrev pub default_function_limits : ExpressionFunctionLimits
default_function_limits = record {
  max_functions = 1024;
  max_total_parameters = 8192;
  max_total_name_bytes = 1024 * 1024;
  max_total_body_nodes = 65_536;
  max_total_body_scalar_bytes = 16 * 1024 * 1024;
  max_total_call_edges = 65_536;
  max_body_depth = 128;
  max_diagnostics = 1024;
  max_total_diagnostic_bytes = 1024 * 1024;
}

-- The longest prefix of at most so many bytes that ends between two characters.
unfoldable pub prefix : ℕ → Text → Text
prefix bytes [] = []
prefix bytes (c ∷ cs) = elim (leb (len_utf8 c) bytes) [
  | true ↦ c ∷ prefix (bytes - len_utf8 c) cs
  | false ↦ []
]

unfoldable pub bounded_text : Text → ℕ → Text
bounded_text value max_bytes =
    if leb (byte_length value) max_bytes then value else prefix (max_bytes - 3) value ++ codes "..."

unfoldable pub diagnostic_name : Text → Text
diagnostic_name name = bounded_text name max_diagnostic_name_bytes

unfoldable pub bounded_diagnostic_message : Text → Text
bounded_diagnostic_message message = bounded_text message max_diagnostic_message_bytes

abbrev pub diagnostic_limit : ExpressionFunctionLimits → ℕ
diagnostic_limit limits = min limits.max_diagnostics max_expression_function_diagnostics

abbrev pub diagnostic_byte_limit : ExpressionFunctionLimits → ℕ
diagnostic_byte_limit limits = min limits.max_total_diagnostic_bytes max_total_diagnostic_bytes

-- `Diagnostic::new` of a text.
abbrev pub say : Text → SourceSpan → Diagnostic
say message span = record { message = text message; span = span }

unfoldable pub checked_charge : ℕ → ℕ → ℕ → Text → SourceSpan → Result Diagnostic ℕ
checked_charge current added limit message span = do
  next ←
      ok_or (checked_add current added)
        (say (codes "expression function aggregate counter overflowed") span)
  fail_if (ltb limit next) (say message span)
  ok next

-- `try_fold` with `checked_add`.
unfoldable pub add_lengths : ℕ → List Text → Option ℕ
add_lengths total [] = some total
add_lengths total (param ∷ params) = elim (checked_add total (byte_length param)) [
  | none ↦ none
  | some sum ↦ add_lengths sum params
]

unfoldable pub valid_function_identifier : Text → Bool
valid_function_identifier name =
    is_valid_identifier name
    && not (
        contains_key text_eq name (
          codes "Context"
          ∷ codes "Request"
          ∷ codes "DynamicPolicy"
          ∷ codes "Response"
          ∷ codes "Stream"
          ∷ []))

-- `parameters` are those that came before.
unfoldable pub validate_parameters :
    Text → List Text → List Text → SourceSpan → Result Diagnostic (Unit {0})
validate_parameters name [] parameters span = ok tt
validate_parameters name (p ∷ ps) parameters span = do
  fail_if (not (valid_function_identifier p)) (
      say
        (codes "function "
          ++ diagnostic_name name
          ++ codes " parameter "
          ++ diagnostic_name p
          ++ codes " must be a valid identifier")
        span)
  fail_if (contains_key text_eq p parameters) (
      say
        (codes "function "
          ++ diagnostic_name name
          ++ codes " contains duplicate parameter "
          ++ diagnostic_name p)
        span)
  validate_parameters name ps (p ∷ parameters) span

unfoldable pub validate_signature_parts :
    Text → List Text → SourceSpan → Result Diagnostic (Unit {0})
validate_signature_parts name params span =
    fail_if (not (valid_function_identifier name)) (
      say (codes "function name " ++ diagnostic_name name ++ codes " must be a valid identifier")
        span)
    >> validate_parameters name params [] span

pub record ExpressionFunctionUsage : Type 0 where
  pub functions : ℕ
  pub parameters : ℕ
  pub name_bytes : ℕ
  pub body_nodes : ℕ
  pub body_scalar_bytes : ℕ
  pub call_edges : ℕ

abbrev pub no_usage : ExpressionFunctionUsage
no_usage = record {
  functions = 0;
  parameters = 0;
  name_bytes = 0;
  body_nodes = 0;
  body_scalar_bytes = 0;
  call_edges = 0;
}

unfoldable pub first_diagnostic : DiagnosticReport → Diagnostic
first_diagnostic report = elim report.diagnostics [
  | [] ↦ say (codes "expression function validation failed") default_span
  | ◌∷◌ d ds ↦ d
]

-- A report is replaced by its first diagnostic.
abbrev pub first_error {ℓ} :
    {A : Type ℓ} → (Diagnostic → Diagnostic) → Result DiagnosticReport A → Result Diagnostic A
first_error f (ok a) = ok a
first_error f (err report) = err (f (first_diagnostic report))
first_error f out_of_fuel = out_of_fuel

-- `if diagnostic.message == from { diagnostic.message = to }`.
unfoldable pub rename_message : Text → Text → Diagnostic → Diagnostic
rename_message from to d = if text_eq (message_text d.message) from then say to d.span else d

unfoldable pub body_bytes_exceeded : Text
body_bytes_exceeded = codes "expression function body scalar byte limit exceeded"

-- The limits on the signature of a function.
unfoldable pub charge_signature :
    ExpressionFunctionLimits
    → ExpressionFunction
    → ExpressionFunctionUsage
    → Result Diagnostic ExpressionFunctionUsage
charge_signature limits function usage = do
  let span = span_of function.expression
  functions ←
      checked_charge usage.functions 1 limits.max_functions
        (codes "expression function count limit exceeded") span
  parameters ←
      checked_charge usage.parameters (length function.params) limits.max_total_parameters
        (codes "expression function parameter limit exceeded") span
  signature_bytes ←
      ok_or (add_lengths (byte_length function.name) function.params)
        (say (codes "expression function name byte counter overflowed") span)
  name_bytes ←
      checked_charge usage.name_bytes signature_bytes limits.max_total_name_bytes
        (codes "expression function name byte limit exceeded") span
  validate_signature_parts function.name function.params span
  ok (record usage { functions = functions; parameters = parameters; name_bytes = name_bytes })

-- The limits on its body.
unfoldable pub charge_body :
    ExpressionFunctionLimits
    → ExpressionFunction
    → ExpressionFunctionUsage
    → Result Diagnostic ExpressionFunctionUsage
charge_body limits function usage = do
  let span = span_of function.expression
  body ←
      first_error (λ d. d)
        (preflight_ast function.expression limits.max_total_body_nodes
          (min limits.max_body_depth max_expression_function_body_depth))
  syntax ←
      first_error (rename_message (codes "AST scalar byte limit exceeded") body_bytes_exceeded) (
        validate_ast_syntax function.expression
          (limits.max_total_body_scalar_bytes - usage.body_scalar_bytes))
  body_nodes ←
      checked_charge usage.body_nodes body.nodes limits.max_total_body_nodes
        (codes "expression function body node limit exceeded") span
  body_scalar_bytes ←
      checked_charge usage.body_scalar_bytes syntax.scalar_bytes limits.max_total_body_scalar_bytes
        body_bytes_exceeded span
  call_edges ←
      checked_charge usage.call_edges syntax.function_calls limits.max_total_call_edges
        (codes "expression function call edge limit exceeded") span
  ok (record usage {
    body_nodes = body_nodes;
    body_scalar_bytes = body_scalar_bytes;
    call_edges = call_edges;
  })

unfoldable pub validate_functions :
    ExpressionFunctionLimits
    → List ExpressionFunction
    → ExpressionFunctionUsage
    → Result Diagnostic ExpressionFunctionUsage
validate_functions limits [] usage = ok usage
validate_functions limits (function ∷ functions) usage = do
  named ← charge_signature limits function usage
  charged ← charge_body limits function named
  validate_functions limits functions charged

abbrev pub try_charge_bytes : ℕ → ℕ → ℕ → Option ℕ
try_charge_bytes current added limit = elim (checked_add current added) [
  | none ↦ none
  | some next ↦ if ltb limit next then none else some next
]

-- The local variables of `validated_expression_function_diagnostics`.
pub record Retained : Type 0 where
  pub diagnostics : List Diagnostic
  pub bytes : ℕ
  pub truncated : Bool

-- A diagnostic that does not fit sets `truncated`, and ends the loop that pushes it.
unfoldable pub retain : ExpressionFunctionLimits → Text → SourceSpan → Retained → Option Retained
retain limits message span kept = elim (leb (diagnostic_limit limits) (length kept.diagnostics)) [
  | true ↦ none
  | false ↦
      elim (try_charge_bytes kept.bytes (byte_length (bounded_diagnostic_message message))
        (diagnostic_byte_limit limits)) [
          | none ↦ none
          | some bytes ↦ some (record kept {
            diagnostics = kept.diagnostics ++ say (bounded_diagnostic_message message) span ∷ [];
            bytes = bytes;
          })
        ]
]

abbrev pub or_truncated : Retained → Option Retained → Retained
or_truncated kept none = record kept { truncated = true }
or_truncated kept (some next) = next

unfoldable pub retain_all :
    ExpressionFunctionLimits → List ExpressionFunctionDiagnostic → Retained → Retained
retain_all limits [] kept = kept
retain_all limits (d ∷ ds) kept = elim (retain limits d.message d.span kept) [
  | none ↦ record kept { truncated = true }
  | some next ↦ retain_all limits ds next
]

unfoldable pub retain_error :
    ExpressionFunctionLimits
    → Result Diagnostic ExpressionFunctionUsage
    → Retained
    → Result DiagnosticReport Retained
retain_error limits (ok usage) kept = ok kept
retain_error limits (err d) kept =
    ok (or_truncated kept (retain limits (message_text d.message) d.span kept))
retain_error limits out_of_fuel kept = out_of_fuel

abbrev pub or_budget_exceeded : Bool → List Diagnostic → List Diagnostic
or_budget_exceeded true [] = say diagnostic_budget_exceeded default_span ∷ []
or_budget_exceeded truncated diagnostics = diagnostics

-- It fails only by running out of fuel.
unfoldable pub validated_expression_function_diagnostics :
    RuntimeSchema → Result DiagnosticReport (List Diagnostic)
validated_expression_function_diagnostics schema = do
  let limits = schema.expression_function_limits
  kept ← retain_error limits (validate_functions limits (all_functions schema) no_usage) (
      retain_all limits schema.expression_function_diagnostics (record {
        diagnostics = [];
        bytes = 0;
        truncated = schema.expression_function_diagnostics_truncated;
      }))
  ok (or_budget_exceeded kept.truncated kept.diagnostics)
