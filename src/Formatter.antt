-- ===== src/Formatter.antt =====
-- source/src/parser/format.rs: the canonical text of an AST, written by a stack of tasks.
pub mod Print
pub mod Correct
pub mod Admission
use online_dsl_forge.Base.{
  ◌>>=◌, ◌>>◌, ℕ, zero, suc, ◌*◌, Bool, true, false, not, ◌&&◌, ◌||◌, List, [], ◌∷◌, ◌++◌, Text,
  Result, ok, out_of_fuel, fail_if, ok_or, map_err, ltb, ◌==◌, if◌then◌else◌, codes, byte_length,
}
use online_dsl_forge.Base.Usize.{checked_add}
use online_dsl_forge.Base.Decimal.{int_to_text}
use online_dsl_forge.Syntax.{
  AstExpression, ExprKind, Expressions, ast, null, bool, int, float, string, array, identifier,
  member, function_call, method_call, unary, binary, nil, cons, BinaryOp, or, and, eq, ne, lt, le,
  gt, ge, add, sub, mul, div, rem, unary_as_str, binary_as_str, SourceSpan, span_of, F64, is_finite,
  Message, Diagnostic, DiagnosticReport, single, call_depth_limit, format_depth_limit,
  format_output_limit, AstFormatLimits,
}
use online_dsl_forge.Syntax.Measure.{node_count}
use online_dsl_forge.Preflight.{preflight_ast}
use online_dsl_forge.Validation.{validate_ast_syntax}

pub data ChildSide : Type 0 where
  root left right unary_side receiver_side : ChildSide

pub data Task : Type 0 where
  expression : AstExpression → ℕ → ChildSide → Task
  text owned escaped : Text → Task

unfoldable pub binary_precedence : BinaryOp → ℕ
binary_precedence or = 1
binary_precedence and = 2
binary_precedence eq = 3
binary_precedence ne = 3
binary_precedence lt = 4
binary_precedence le = 4
binary_precedence gt = 4
binary_precedence ge = 4
binary_precedence add = 5
binary_precedence sub = 5
binary_precedence mul = 6
binary_precedence div = 6
binary_precedence rem = 6

unfoldable pub precedence : ExprKind → ℕ
precedence (binary l op r) = binary_precedence op
precedence (unary op e) = 7
precedence (member receiver name) = 8
precedence (function_call name args) = 8
precedence (method_call receiver name args) = 8
precedence _ = 9

unfoldable pub needs_parentheses : ℕ → ℕ → ChildSide → Bool
needs_parentheses own parent root = false
needs_parentheses own parent right = ltb own parent || own == parent
needs_parentheses own parent _ = ltb own parent

unfoldable pub contains : ℕ → Text → Bool
contains c [] = false
contains c (d ∷ ds) = d == c || contains c ds

-- `show_f64` is the `Display` of an `f64`.
unfoldable pub format_float : (F64 → Text) → F64 → Text
unfolding contains
format_float show_f64 value =
    let output = show_f64 value in
    if is_finite value
      && not (contains b'.' output)
      && not (contains b'e' output)
      && not (contains b'E' output)
    then output ++ codes ".0"
    else output

-- The expressions behind the first, each behind its comma.
unfoldable pub schedule_rest : List Task → Expressions → List Task
schedule_rest stack nil = stack
schedule_rest stack (cons e es) = text (codes ", ") ∷ expression e 0 root ∷ schedule_rest stack es

-- Pushed from the last to the first, so the first expression is on top.
unfoldable pub schedule_sequence : List Task → Expressions → List Task
unfolding schedule_rest
schedule_sequence stack nil = stack
schedule_sequence stack (cons e es) = expression e 0 root ∷ schedule_rest stack es

module _ (show_f64 : F64 → Text) where
  -- The `match` of `schedule_expression`; what is pushed last stands first.
  unfoldable pub schedule_kind : List Task → ExprKind → List Task
  unfolding schedule_sequence
  schedule_kind stack null = text (codes "null") ∷ stack
  schedule_kind stack (bool true) = text (codes "true") ∷ stack
  schedule_kind stack (bool false) = text (codes "false") ∷ stack
  schedule_kind stack (int value) = owned (int_to_text value) ∷ stack
  schedule_kind stack (float value) = owned (format_float show_f64 value) ∷ stack
  schedule_kind stack (string value) = text (codes "\"") ∷ escaped value ∷ text (codes "\"") ∷ stack
  schedule_kind stack (array items) =
      text (codes "[") ∷ schedule_sequence (text (codes "]") ∷ stack) items
  schedule_kind stack (identifier name) = text name ∷ stack
  schedule_kind stack (member receiver name) =
      expression receiver 8 receiver_side ∷ text (codes ".") ∷ text name ∷ stack
  schedule_kind stack (function_call name args) =
      text name ∷ text (codes "(") ∷ schedule_sequence (text (codes ")") ∷ stack) args
  schedule_kind stack (method_call receiver name args) =
      expression receiver 8 receiver_side
      ∷ text (codes ".")
      ∷ text name
      ∷ text (codes "(")
      ∷ schedule_sequence (text (codes ")") ∷ stack) args
  schedule_kind stack (unary op e) = text (unary_as_str op) ∷ expression e 7 unary_side ∷ stack
  schedule_kind stack (binary l op r) =
      expression l (binary_precedence op) left
      ∷ text (codes " ")
      ∷ text (binary_as_str op)
      ∷ text (codes " ")
      ∷ expression r (binary_precedence op) right
      ∷ stack

  unfoldable pub schedule_expression : List Task → ExprKind → ℕ → ChildSide → List Task
  schedule_expression stack kind parent side =
      if needs_parentheses (precedence kind) parent side
      then text (codes "(") ∷ schedule_kind (text (codes ")") ∷ stack) kind
      else schedule_kind stack kind

-- What `push_escaped` writes for one character.
unfoldable pub escape_char : ℕ → Text
escape_char c =
    if c == b'\\'
    then codes "\\\\"
    else if c == b'"'
    then codes "\\\""
    else if c == b'\n'
    then codes "\\n"
    else if c == b'\r'
    then codes "\\r"
    else if c == b'\t'
    then codes "\\t"
    else c ∷ []

-- `Formatter`: the output so far, under its limit, and the span of the root for errors.
module _ (max_output_bytes : ℕ) (root_span : SourceSpan) where
  unfoldable pub push_str : Text → Text → Result DiagnosticReport Text
  push_str output value = do
    length ←
        ok_or (checked_add (byte_length output) (byte_length value))
          (single format_output_limit root_span)
    fail_if (ltb max_output_bytes length) (single format_output_limit root_span)
    ok (output ++ value)

  unfoldable pub push_escaped : Text → Text → Result DiagnosticReport Text
  push_escaped output [] = ok output
  push_escaped output (c ∷ cs) = do
    output' ← push_str output (escape_char c)
    push_escaped output' cs

  module _ (show_f64 : F64 → Text) where
    -- `while let Some(task) = stack.pop()`.
    unfoldable pub format_loop : ℕ → List Task → Text → Result DiagnosticReport Text
    format_loop zero stack output = out_of_fuel
    format_loop (suc fuel) [] output = ok output
    format_loop (suc fuel) (expression (ast k s) parent side ∷ stack) output =
        format_loop fuel (schedule_expression show_f64 stack k parent side) output
    format_loop (suc fuel) (text value ∷ stack) output = do
      output' ← push_str output value
      format_loop fuel stack output'
    format_loop (suc fuel) (owned value ∷ stack) output = do
      output' ← push_str output value
      format_loop fuel stack output'
    format_loop (suc fuel) (escaped value ∷ stack) output = do
      output' ← push_escaped output value
      format_loop fuel stack output'

-- The `match` on the message of the first diagnostic.
unfoldable pub rename_depth : Diagnostic → DiagnosticReport → DiagnosticReport
rename_depth first report = rename first.message
  where
    rename : Message → DiagnosticReport
    rename call_depth_limit = single format_depth_limit first.span
    rename _ = report

unfoldable pub rename_report : DiagnosticReport → DiagnosticReport
unfolding rename_depth
rename_report report = elim report.diagnostics [ [] ↦ report | d ∷ ds ↦ rename_depth d report ]

-- Nine tasks for a node is more than any node schedules.
unfoldable pub format_expression_with_limits :
    (F64 → Text) → AstExpression → AstFormatLimits → Result DiagnosticReport Text
format_expression_with_limits show_f64 e limits = do
  _ ← map_err rename_report (preflight_ast e limits.max_nodes limits.max_depth)
  _ ← validate_ast_syntax e limits.max_output_bytes
  format_loop limits.max_output_bytes (span_of e) show_f64 (9 * node_count e)
      (expression e 0 root ∷ []) []
