-- ===== src/Validation.antt =====
-- source/src/parser/validation.rs: identifier syntax, finite floats and the scalar byte budget.
pub mod Measure
pub mod Correct
pub mod Fuel
use online_dsl_forge.Base.{
  ◌>>=◌, ◌>>◌, ℕ, zero, suc, Bool, true, false, not, ◌&&◌, ◌||◌, List, [], ◌∷◌, Text, Result, ok,
  out_of_fuel, fail_if, ok_or, ltb, leb, ◌==◌, text_eq, codes, byte_length,
}
use online_dsl_forge.Base.Usize.{checked_add, saturating_add}
use online_dsl_forge.Syntax.{
  AstExpression, ExprKind, Expressions, ast, float, string, array, identifier, member,
  function_call, method_call, unary, binary, nil, cons, SourceSpan, NameKind, is_finite,
  DiagnosticReport, single, ast_scalar_byte_limit, invalid_name, float_not_finite,
}
use online_dsl_forge.Syntax.Measure.{node_count}

pub is_ascii_alphabetic : ℕ → Bool
is_ascii_alphabetic c = (leb b'A' c && leb c b'Z') || (leb b'a' c && leb c b'z')

pub is_ascii_digit : ℕ → Bool
is_ascii_digit c = leb b'0' c && leb c b'9'

pub is_ascii_alphanumeric : ℕ → Bool
is_ascii_alphanumeric c = is_ascii_alphabetic c || is_ascii_digit c

-- The arms of the `matches!`.
abbrev pub reserved_words : List Text
reserved_words =
    codes "if"
    ∷ codes "else"
    ∷ codes "for"
    ∷ codes "while"
    ∷ codes "do"
    ∷ codes "switch"
    ∷ codes "let"
    ∷ codes "const"
    ∷ codes "function"
    ∷ codes "import"
    ∷ codes "export"
    ∷ codes "new"
    ∷ codes "try"
    ∷ codes "catch"
    ∷ codes "throw"
    ∷ codes "await"
    ∷ codes "return"
    ∷ codes "true"
    ∷ codes "false"
    ∷ codes "null"
    ∷ []

pub is_one_of : List Text → Text → Bool
is_one_of [] t = false
is_one_of (w ∷ ws) t = text_eq w t || is_one_of ws t

unfoldable pub is_reserved_identifier : Text → Bool
unfolding is_one_of
is_reserved_identifier t = is_one_of reserved_words t

-- A letter, digit or underscore.
unfoldable pub is_word : ℕ → Bool
unfolding is_ascii_alphanumeric is_ascii_alphabetic is_ascii_digit
is_word c = is_ascii_alphanumeric c || c == b'_'

unfoldable pub all_word : Text → Bool
all_word [] = true
all_word (c ∷ cs) = is_word c && all_word cs

-- A letter or underscore.
unfoldable pub starts_word : ℕ → Bool
unfolding is_ascii_alphabetic
starts_word c = is_ascii_alphabetic c || c == b'_'

-- The source goes over bytes: those of a character that is not ASCII fail the same tests.
unfoldable pub is_valid_identifier : Text → Bool
is_valid_identifier [] = false
is_valid_identifier (c ∷ cs) = starts_word c && all_word cs && not (is_reserved_identifier (c ∷ cs))

pub record AstSyntaxMetrics : Type 0 where
  pub scalar_bytes : ℕ
  pub function_calls : ℕ

unfoldable pub validate_name : Text → NameKind → SourceSpan → Result DiagnosticReport (Unit {0})
validate_name name kind span =
    fail_if (not (is_valid_identifier name)) (single (invalid_name kind) span)

unfoldable pub charge_scalar :
    AstSyntaxMetrics → ℕ → ℕ → SourceSpan → Result DiagnosticReport AstSyntaxMetrics
charge_scalar metrics bytes max_scalar_bytes span = do
  total ← ok_or (checked_add metrics.scalar_bytes bytes) (single ast_scalar_byte_limit span)
  fail_if (ltb max_scalar_bytes total) (single ast_scalar_byte_limit span)
  ok (record metrics { scalar_bytes = total })

-- `charge_scalar` and then `validate_name`, as each arm with a name does.
unfoldable pub charge_name :
    AstSyntaxMetrics → ℕ → Text → NameKind → SourceSpan → Result DiagnosticReport AstSyntaxMetrics
charge_name metrics max_scalar_bytes name kind span = do
  metrics' ← charge_scalar metrics (byte_length name) max_scalar_bytes span
  validate_name name kind span
  ok metrics'

-- `pending.extend(args.iter().rev())` leaves the first argument on top.
unfoldable pub push_all : Expressions → List AstExpression → List AstExpression
push_all nil pending = pending
push_all (cons e es) pending = e ∷ push_all es pending

-- The variables of the `while let` loop.
pub record Walk : Type 0 where
  pub pending : List AstExpression
  pub metrics : AstSyntaxMetrics

abbrev pub walk : List AstExpression → AstSyntaxMetrics → Walk
walk p m = record { pending = p; metrics = m }

-- The body of the loop, at the expression that was popped.
unfoldable pub validate_step :
    ℕ → ExprKind → SourceSpan → List AstExpression → AstSyntaxMetrics → Result DiagnosticReport Walk
validate_step limit (string value) span pending metrics = do
  m ← charge_scalar metrics (byte_length value) limit span
  ok (walk pending m)
validate_step limit (identifier name) span pending metrics = do
  m ← charge_name metrics limit name NameKind.identifier span
  ok (walk pending m)
validate_step limit (member receiver name) span pending metrics = do
  m ← charge_name metrics limit name NameKind.member span
  ok (walk (receiver ∷ pending) m)
validate_step limit (function_call name args) span pending metrics = do
  m ← charge_name metrics limit name NameKind.function span
  ok (
      walk (push_all args pending)
        (record m { function_calls = saturating_add m.function_calls 1 }))
validate_step limit (method_call receiver name args) span pending metrics = do
  m ← charge_name metrics limit name NameKind.method span
  ok (walk (receiver ∷ push_all args pending) m)
validate_step limit (array items) span pending metrics = ok (walk (push_all items pending) metrics)
validate_step limit (unary op e) span pending metrics = ok (walk (e ∷ pending) metrics)
validate_step limit (binary l op r) span pending metrics = ok (walk (l ∷ r ∷ pending) metrics)
validate_step limit (float value) span pending metrics = do
  fail_if (not (is_finite value)) (single float_not_finite span)
  ok (walk pending metrics)
validate_step limit _ span pending metrics = ok (walk pending metrics)

unfoldable pub validate_loop :
    ℕ → ℕ → List AstExpression → AstSyntaxMetrics → Result DiagnosticReport AstSyntaxMetrics
validate_loop limit zero pending metrics = out_of_fuel
validate_loop limit (suc fuel) [] metrics = ok metrics
validate_loop limit (suc fuel) (ast kind span ∷ pending) metrics = do
  w ← validate_step limit kind span pending metrics
  validate_loop limit fuel w.pending w.metrics

-- `validate_ast_syntax_with_scalar_limit`; a round for each node and one more is enough.
unfoldable pub validate_ast_syntax : AstExpression → ℕ → Result DiagnosticReport AstSyntaxMetrics
validate_ast_syntax expression max_scalar_bytes =
    validate_loop max_scalar_bytes (suc (node_count expression)) (expression ∷ [])
      (record { scalar_bytes = 0; function_calls = 0 })
