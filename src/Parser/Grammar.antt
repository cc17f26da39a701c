-- ===== src/Parser/Grammar.antt =====
-- source/src/parser/parse.rs: the grammar. `or` and `unary` are the two parsers that the others
-- call back, `parse_or` and `parse_unary`.
use online_dsl_forge.Base.{
  ℕ, zero, suc, max, Bool, true, false, not as negate, List, [], ◌∷◌, Text, Option, none, some,
  Result, ok, err, out_of_fuel, ◌>>=◌ as ◌>>=ᴿ◌, ◌>>◌ as ◌>>ᴿ◌, map_err, fail_if, length, ltb,
  if◌then◌else◌,
}
use online_dsl_forge.Syntax.{
  SourceSpan, join, default_span, Diagnostic, DiagnosticReport, single, AstExpression, nil, len,
  UnaryOp, BinaryOp, or, and, eq, ne, lt, le, gt, ge, add, sub, mul, div, rem, null, bool, int,
  float, string, array, identifier, member, function_call, method_call, unary, ParseLimits,
  default_parse_limits, F64, unexpected_token, expected_expression, expected_closing_parenthesis,
  expected_array_comma, expected_argument_comma, diagnostic_limit,
}
use online_dsl_forge.Lexer.{TokenKind, Token}
use online_dsl_forge.Lexer.Scan.{tokenize_with_limits}
use online_dsl_forge.Parser.{
  Parser, Parse, fail, ParsedExpression, span, ParsedSequence, empty_sequence, push, peek, is_eof,
  advance, skip, consume_kind, expect_kind, validate_identifier, expect_identifier, previous_span,
  parse_nested, make_expression, make_leaf, add_depth, check_collection_width, make_binary,
}

-- The tests that `consume_kind` and `expect_kind` are given.
abbrev pub is_dot : TokenKind → Bool
is_dot TokenKind.dot = true
is_dot _ = false

abbrev pub is_comma : TokenKind → Bool
is_comma TokenKind.comma = true
is_comma _ = false

abbrev pub is_lparen : TokenKind → Bool
is_lparen TokenKind.lparen = true
is_lparen _ = false

abbrev pub is_rparen : TokenKind → Bool
is_rparen TokenKind.rparen = true
is_rparen _ = false

abbrev pub is_rbracket : TokenKind → Bool
is_rbracket TokenKind.rbracket = true
is_rbracket _ = false

-- The operators of a level: its chain of `consume_kind`.
abbrev pub or_op : TokenKind → Option BinaryOp
or_op TokenKind.or_or = some or
or_op _ = none

abbrev pub and_op : TokenKind → Option BinaryOp
and_op TokenKind.and_and = some and
and_op _ = none

abbrev pub equality_op : TokenKind → Option BinaryOp
equality_op TokenKind.eq_eq = some eq
equality_op TokenKind.ne = some ne
equality_op _ = none

abbrev pub comparison_op : TokenKind → Option BinaryOp
comparison_op TokenKind.lt = some lt
comparison_op TokenKind.le = some le
comparison_op TokenKind.gt = some gt
comparison_op TokenKind.ge = some ge
comparison_op _ = none

abbrev pub additive_op : TokenKind → Option BinaryOp
additive_op TokenKind.plus = some add
additive_op TokenKind.minus = some sub
additive_op _ = none

abbrev pub multiplicative_op : TokenKind → Option BinaryOp
multiplicative_op TokenKind.star = some mul
multiplicative_op TokenKind.slash = some div
multiplicative_op TokenKind.percent = some rem
multiplicative_op _ = none

abbrev pub unary_op : TokenKind → Option UnaryOp
unary_op TokenKind.bang = some UnaryOp.not
unary_op TokenKind.minus = some UnaryOp.neg
unary_op _ = none

-- `if let Some(x) = … { … } else { … }`.
abbrev pub if_let {ℓ κ} : {A : Type ℓ} {B : Type κ} → Option A → (A → B) → B → B
if_let none found missing = missing
if_let (some a) found missing = found a

-- The loop that each binary level runs behind its first operand.
unfoldable pub binary_loop :
    (TokenKind → Option BinaryOp)
    → Parse ParsedExpression
    → ℕ
    → ParsedExpression
    → Parse ParsedExpression
binary_loop op_of operand zero expression p = out_of_fuel
binary_loop op_of operand (suc fuel) expression p =
    if_let (op_of (peek p).kind)
      (λ op. operand (skip p) >>=ᴿ λ (right, p₁).
        make_binary expression op right p₁ >>=ᴿ λ (e, p₂). binary_loop op_of operand fuel e p₂)
      (ok (expression, p))

-- A round takes a token, and there are no more rounds than tokens.
unfoldable pub binary_level :
    (TokenKind → Option BinaryOp) → Parse ParsedExpression → Parse ParsedExpression
binary_level op_of operand p =
    operand p >>=ᴿ λ (e, p₁). binary_loop op_of operand (suc (length p.tokens)) e p₁

module _ (parse_or : Parse ParsedExpression) where
  -- The loop of `parse_call_args`, at an argument.
  unfoldable pub args_loop : ℕ → ParsedSequence → Parse (ParsedSequence × SourceSpan)
  args_loop zero args p = out_of_fuel
  args_loop (suc fuel) args p =
      let s = (peek p).span in
      check_collection_width (len args.expressions) s p >>=ᴿ λ (_, p₁).
      parse_nested s parse_or p₁ >>=ᴿ λ (e, p₂).
      if_let (consume_kind is_rparen p₂) (λ (end, p₃). ok ((push args e, end.span), p₃))
        (expect_kind expected_argument_comma is_comma p₂ >>=ᴿ λ (_, p₃).
          args_loop fuel (push args e) p₃)

  unfoldable pub parse_call_args : Parse (ParsedSequence × SourceSpan)
  parse_call_args p =
      if_let (consume_kind is_rparen p) (λ (end, p₁). ok ((empty_sequence, end.span), p₁))
        (args_loop (suc (length p.tokens)) empty_sequence p)

  -- The loop of `parse_array`, at an item.
  unfoldable pub array_loop : ℕ → SourceSpan → ParsedSequence → Parse ParsedExpression
  array_loop zero start_span items p = out_of_fuel
  array_loop (suc fuel) start_span items p =
      check_collection_width (len items.expressions) (peek p).span p >>=ᴿ λ (_, p₁).
      parse_nested start_span parse_or p₁ >>=ᴿ λ (e, p₂).
      let items' = push items e in
      if_let (consume_kind is_rbracket p₂)
        (λ (end, p₃). add_depth 3 items'.max_serialized_depth start_span p₃ >>=ᴿ λ (d, p₄).
          make_expression (array items'.expressions) (join start_span end.span) d p₄)
        (expect_kind expected_array_comma is_comma p₂ >>=ᴿ λ (_, p₃).
          array_loop fuel start_span items' p₃)

  unfoldable pub parse_array : SourceSpan → Parse ParsedExpression
  parse_array start_span p =
      if_let (consume_kind is_rbracket p)
        (λ (end, p₁). make_expression (array nil) (join start_span end.span) 3 p₁)
        (array_loop (suc (length p.tokens)) start_span empty_sequence p)

  -- An identifier, with its arguments if a parenthesis follows.
  unfoldable pub parse_name : Text → SourceSpan → Parse ParsedExpression
  parse_name name s p =
      validate_identifier name s
      >>ᴿ if_let (consume_kind is_lparen p)
          (λ (_, p₁). parse_call_args p₁ >>=ᴿ λ ((args, end_span), p₂).
            add_depth 3 args.max_serialized_depth s p₂ >>=ᴿ λ (d, p₃).
            make_expression (function_call name args.expressions) (join s end_span) d p₃)
          (make_leaf (identifier name) s p)

  unfoldable pub parse_parenthesized : SourceSpan → Parse ParsedExpression
  parse_parenthesized s p = parse_nested s parse_or p >>=ᴿ λ (e, p₁).
      expect_kind expected_closing_parenthesis is_rparen p₁ >>=ᴿ λ (_, p₂). ok (e, p₂)

  -- The `match` of `parse_primary`, behind the token.
  unfoldable pub parse_token : TokenKind → SourceSpan → Parse ParsedExpression
  parse_token TokenKind.true_token s = make_leaf (bool true) s
  parse_token TokenKind.false_token s = make_leaf (bool false) s
  parse_token TokenKind.null_token s = make_leaf null s
  parse_token (TokenKind.int value) s = make_leaf (int value) s
  parse_token (TokenKind.float value) s = make_leaf (float value) s
  parse_token (TokenKind.string value) s = make_leaf (string value) s
  parse_token (TokenKind.identifier name) s = parse_name name s
  parse_token TokenKind.lparen s = parse_parenthesized s
  parse_token TokenKind.lbracket s = parse_array s
  parse_token _ s = fail expected_expression s

  unfoldable pub parse_primary : Parse ParsedExpression
  parse_primary p = let (token, p₁) = advance p in parse_token token.kind token.span p₁

  -- A method call or a member, behind the dot and the name.
  unfoldable pub parse_selector : ParsedExpression → Text → Parse ParsedExpression
  parse_selector receiver name p =
      if_let (consume_kind is_lparen p)
        (λ (_, p₁). parse_call_args p₁ >>=ᴿ λ ((args, end_span), p₂).
          let s = join (span receiver) end_span in
          add_depth 2 receiver.serialized_depth s p₂ >>=ᴿ λ (receiver_depth, p₃).
          add_depth 3 args.max_serialized_depth s p₃ >>=ᴿ λ (args_depth, p₄).
          make_expression (method_call receiver.ast_of name args.expressions) s
            (max receiver_depth args_depth) p₄)
        (let s = join (span receiver) (previous_span p) in
          add_depth 2 receiver.serialized_depth s p >>=ᴿ λ (d, p₁).
          make_expression (member receiver.ast_of name) s d p₁)

  unfoldable pub postfix_loop : ℕ → ParsedExpression → Parse ParsedExpression
  postfix_loop zero e p = out_of_fuel
  postfix_loop (suc fuel) e p =
      if_let (consume_kind is_dot p)
        (λ (_, p₁). expect_identifier p₁ >>=ᴿ λ (name, p₂).
          parse_selector e name p₂ >>=ᴿ λ (e', p₃). postfix_loop fuel e' p₃)
        (ok (e, p))

  unfoldable pub parse_postfix : Parse ParsedExpression
  parse_postfix p = parse_primary p >>=ᴿ λ (e, p₁). postfix_loop (suc (length p.tokens)) e p₁

  -- The body of `parse_unary`, which calls itself back as `parse_unary`.
  unfoldable pub unary_body : Parse ParsedExpression → Parse ParsedExpression
  unary_body parse_unary p =
      if_let (unary_op (peek p).kind)
        (λ op.
          let token = peek p in
          parse_nested token.span parse_unary (skip p) >>=ᴿ λ (e, p₁).
          let s = join token.span (span e) in
          add_depth 2 e.serialized_depth s p₁ >>=ᴿ λ (d, p₂).
          make_expression (unary op e.ast_of) s d p₂)
        (parse_postfix p)

-- The binary levels, each over the one below it; `u` is `parse_unary`.
module _ (u : Parse ParsedExpression) where
  unfoldable pub parse_multiplicative : Parse ParsedExpression
  parse_multiplicative = binary_level multiplicative_op u

  unfoldable pub parse_additive : Parse ParsedExpression
  parse_additive = binary_level additive_op parse_multiplicative

  unfoldable pub parse_comparison : Parse ParsedExpression
  parse_comparison = binary_level comparison_op parse_additive

  unfoldable pub parse_equality : Parse ParsedExpression
  parse_equality = binary_level equality_op parse_comparison

  unfoldable pub parse_and : Parse ParsedExpression
  parse_and = binary_level and_op parse_equality

  unfoldable pub or_body : Parse ParsedExpression
  or_body = binary_level or_op parse_and

-- The two parsers that call each other back, each call for a unit of fuel.
unfoldable mutual
  pub parse_unary : ℕ → Parse ParsedExpression
  parse_unary zero p = out_of_fuel
  parse_unary (suc fuel) p = unary_body (parse_or fuel) (parse_unary fuel) p

  pub parse_or : ℕ → Parse ParsedExpression
  parse_or zero p = out_of_fuel
  parse_or (suc fuel) p = or_body (parse_unary fuel) p

-- `parse_nested` admits `max_parse_recursion_depth` levels, of two calls each.
abbrev pub enough_fuel : ℕ
enough_fuel = 514

unfoldable pub parse : Parser → Result DiagnosticReport AstExpression
parse p = parse_or enough_fuel p >>=ᴿ λ (e, p₁).
    fail_if (negate (is_eof (peek p₁).kind)) (single unexpected_token (peek p₁).span)
    >>ᴿ ok e.ast_of

abbrev pub new : List Token → ParseLimits → Parser
new tokens limits = record {
  tokens = tokens;
  position = 0;
  recursion_depth = 0;
  ast_nodes = 0;
  limits = limits;
}

abbrev pub first_span : List Diagnostic → SourceSpan
first_span [] = default_span
first_span (d ∷ ds) = d.span

-- The closure of `map_err`: more diagnostics than allowed become one.
unfoldable pub cap_diagnostics : ParseLimits → DiagnosticReport → DiagnosticReport
cap_diagnostics limits report =
    if ltb limits.max_diagnostics (length report.diagnostics)
    then single diagnostic_limit (first_span report.diagnostics)
    else report

abbrev pub report_of {ℓ} : {A : Type ℓ} → Result (List Diagnostic) A → Result DiagnosticReport A
report_of (ok a) = ok a
report_of (err ds) = err (record { diagnostics = ds })
report_of out_of_fuel = out_of_fuel

unfoldable pub parse_expression_with_limits :
    (Text → Option F64) → Text → ParseLimits → Result DiagnosticReport AstExpression
parse_expression_with_limits parse_f64 input limits =
    report_of (tokenize_with_limits parse_f64 input limits) >>=ᴿ λ tokens.
    map_err (cap_diagnostics limits) (parse (new tokens limits))

unfoldable pub parse_expression : (Text → Option F64) → Text → Result DiagnosticReport AstExpression
parse_expression parse_f64 input = parse_expression_with_limits parse_f64 input default_parse_limits
