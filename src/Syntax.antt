-- ===== src/Syntax.antt =====
-- source/src/parser/{ast,span,diagnostics,limits}.rs: spans, diagnostics, limits and the AST.
pub mod Measure
pub mod Serialized
pub mod Messages
use online_dsl_forge.Base.{
  ℕ, suc, ◌*◌, ◌/◌, ◌%◌, ◌^◌, min, max, Bool, not as negate, List, [], ◌∷◌, Text, ◌==◌, codes,
}
use online_dsl_forge.Base.Int.{ℤ}

pub record SourceSpan : Type 0 where
  pub start : ℕ
  pub end : ℕ

abbrev pub join : SourceSpan → SourceSpan → SourceSpan
join a b = record { start = min a.start b.start; end = max a.end b.end }

pub is_empty : SourceSpan → Bool
is_empty s = s.start == s.end

-- `SourceSpan::default()`.
abbrev pub default_span : SourceSpan
default_span = record { start = 0; end = 0 }

-- What `validate_name` is told that it checks.
pub data NameKind : Type 0 where
  identifier member function method : NameKind

-- The message texts of the parser, one constructor for each.
pub data Message : Type 0 where
  call_depth_limit ast_node_limit ast_scalar_byte_limit float_not_finite : Message
  invalid_name : NameKind → Message
  format_depth_limit format_output_limit : Message
  source_limit scalar_limit token_limit diagnostic_limit : Message
  unsupported_escape unterminated_string invalid_float invalid_integer : Message
  invalid_character : ℕ → Message
  parse_recursion_depth ast_depth_limit collection_limit : Message
  unexpected_token expected_expression expected_closing_parenthesis : Message
  expected_array_comma expected_argument_comma expected_identifier : Message
  reserved_identifier : Text → Message
  -- A message that is formatted elsewhere.
  text : Text → Message

pub record Diagnostic : Type 0 where
  pub message : Message
  pub span : SourceSpan

pub record DiagnosticReport : Type 0 where
  pub diagnostics : List Diagnostic

abbrev pub single : Message → SourceSpan → DiagnosticReport
single m s = record { diagnostics = record { message = m; span = s } ∷ [] }

-- The 64 bits of an `f64`.
abbrev pub F64 : Type 0
F64 = ℕ

-- Infinities and NaNs have the exponent field 2047.
pub is_finite : F64 → Bool
is_finite bits = negate (bits / 2 ^ 52 % 2048 == 2047)

pub data UnaryOp : Type 0 where
  not neg : UnaryOp

pub data BinaryOp : Type 0 where
  or and eq ne lt le gt ge add sub mul div rem : BinaryOp

-- `Expressions` is the `Vec<AstExpression>` of items and arguments.
mutual
  pub data AstExpression : Type 0 where
    ast : ExprKind → SourceSpan → AstExpression

  pub data ExprKind : Type 0 where
    null : ExprKind
    bool : Bool → ExprKind
    int : ℤ → ExprKind
    float : F64 → ExprKind
    string : Text → ExprKind
    array : Expressions → ExprKind
    identifier : Text → ExprKind
    member : AstExpression → Text → ExprKind
    function_call : Text → Expressions → ExprKind
    method_call : AstExpression → Text → Expressions → ExprKind
    unary : UnaryOp → AstExpression → ExprKind
    binary : AstExpression → BinaryOp → AstExpression → ExprKind

  pub data Expressions : Type 0 where
    nil : Expressions
    cons : AstExpression → Expressions → Expressions

abbrev pub kind_of : AstExpression → ExprKind
kind_of (ast k s) = k

abbrev pub span_of : AstExpression → SourceSpan
span_of (ast k s) = s

-- `Vec::len`.
abbrev pub len : Expressions → ℕ
len nil = 0
len (cons e es) = suc (len es)

-- `BinaryOp::as_str`, as an operator of the language is written.
unfoldable pub binary_as_str : BinaryOp → Text
binary_as_str or = codes "||"
binary_as_str and = codes "&&"
binary_as_str eq = codes "=="
binary_as_str ne = codes "!="
binary_as_str lt = codes "<"
binary_as_str le = codes "<="
binary_as_str gt = codes ">"
binary_as_str ge = codes ">="
binary_as_str add = codes "+"
binary_as_str sub = codes "-"
binary_as_str mul = codes "*"
binary_as_str div = codes "/"
binary_as_str rem = codes "%"

-- `UnaryOp::as_str`.
unfoldable pub unary_as_str : UnaryOp → Text
unary_as_str UnaryOp.not = codes "!"
unary_as_str UnaryOp.neg = codes "-"

-- `ParseLimits`.
pub record ParseLimits : Type 0 where
  pub max_source_bytes : ℕ
  pub max_decoded_scalar_bytes : ℕ
  pub max_tokens : ℕ
  pub max_diagnostics : ℕ
  pub max_ast_nodes : ℕ
  pub max_collection_items : ℕ

-- `ParseLimits::default()`.
abbrev pub default_parse_limits : ParseLimits
default_parse_limits = record {
  max_source_bytes = 1024 * 1024;
  max_decoded_scalar_bytes = 1024 * 1024;
  max_tokens = 262_144;
  max_diagnostics = 1024;
  max_ast_nodes = 65_536;
  max_collection_items = 65_536;
}

pub record AstFormatLimits : Type 0 where
  pub max_depth : ℕ
  pub max_nodes : ℕ
  pub max_output_bytes : ℕ

-- `AstFormatLimits::default()`.
abbrev pub default_format_limits : AstFormatLimits
default_format_limits = record {
  max_depth = 127;
  max_nodes = 65_536;
  max_output_bytes = 4 * 1024 * 1024;
}
