-- ===== src/Parser.antt =====
-- source/src/parser/parse.rs: recursive descent over the tokens, with depth, node and width limits.
pub mod Grammar
pub mod State
pub mod Sound
pub mod Calls
pub mod Primary
pub mod Postfix
pub mod Bounds
use online_dsl_forge.Base.{
  ℕ, ◌+◌, ◌-◌, min, max, Bool, true, false, List, Text, Option, none, some, Result, ok, err,
  ◌>>=◌ as ◌>>=ᴿ◌, ◌>>◌ as ◌>>ᴿ◌, fail_if, ok_or, ltb, leb, if◌then◌else◌, length, get_elem?,
  get_last?,
}
use online_dsl_forge.Base.Usize.{checked_add}
use online_dsl_forge.Syntax.{
  SourceSpan, join, default_span, Message, DiagnosticReport, single, AstExpression, ExprKind,
  Expressions, ast, nil, cons, span_of, BinaryOp, binary, ParseLimits, ast_node_limit,
  ast_depth_limit, collection_limit, parse_recursion_depth, expected_identifier,
  reserved_identifier,
}
use online_dsl_forge.Validation.{is_reserved_identifier}
use online_dsl_forge.Lexer.{TokenKind, identifier, eof, Token}

abbrev pub max_parse_recursion_depth : ℕ
max_parse_recursion_depth = 256

abbrev pub max_ast_serialized_depth : ℕ
max_ast_serialized_depth = 127

pub record ParsedExpression : Type 0 where
  pub ast_of : AstExpression
  pub serialized_depth : ℕ

abbrev pub span : ParsedExpression → SourceSpan
span e = span_of e.ast_of

-- `ParsedSequence`.
pub record ParsedSequence : Type 0 where
  pub expressions : Expressions
  pub max_serialized_depth : ℕ

-- `Vec::push`.
unfoldable pub append : Expressions → AstExpression → Expressions
append nil e = cons e nil
append (cons x xs) e = cons x (append xs e)

abbrev pub empty_sequence : ParsedSequence
empty_sequence = record { expressions = nil; max_serialized_depth = 0 }

abbrev pub push : ParsedSequence → ParsedExpression → ParsedSequence
push s e = record {
  expressions = append s.expressions e.ast_of;
  max_serialized_depth = max s.max_serialized_depth e.serialized_depth;
}

pub record Parser : Type 0 where
  pub tokens : List Token
  pub position : ℕ
  pub recursion_depth : ℕ
  pub ast_nodes : ℕ
  pub limits : ParseLimits

-- A method of the parser that can fail: the state is lost with a failure, as `?` gives it up.
abbrev pub Parse {ℓ} : Type ℓ → Type ℓ
Parse A = Parser → Result DiagnosticReport (A × Parser)

module _ {ℓ κ} {A : Type ℓ} {B : Type κ} where
  infixl 5 ◌>>=◌ ◌>>◌
  abbrev pub ◌>>=◌ : Parse A → (A → Parse B) → Parse B
  ◌>>=◌ m f p = ◌>>=ᴿ◌ (m p) λ (a, p'). f a p'

  abbrev pub ◌>>◌ : Parse A → Parse B → Parse B
  m >> k = m >>= λ _. k

abbrev pub pure {ℓ} : {A : Type ℓ} → A → Parse A
pure a p = ok (a, p)

abbrev pub fail {ℓ} : {A : Type ℓ} → Message → SourceSpan → Parse A
fail m s p = err (single m s)

-- `self.tokens.get(self.position)`, or the last token. Without any token the source panics; the
-- lexer always appends `eof`, and the model shows a parser of no tokens an `eof`.
abbrev pub or_eof : Option Token → Token
or_eof none = record { kind = eof; span = default_span }
or_eof (some t) = t

abbrev pub or_last : List Token → Option Token → Token
or_last ts none = or_eof (get_last? ts)
or_last ts (some t) = t

unfoldable pub peek : Parser → Token
peek p = or_last p.tokens (get_elem? p.tokens p.position)

abbrev pub is_eof : TokenKind → Bool
is_eof eof = true
is_eof _ = false

-- Moves on, but not past `eof`.
unfoldable pub advance : Parser → Token × Parser
advance p =
    let index = min p.position (length p.tokens - 1) in
    let token = or_eof (get_elem? p.tokens index) in
    (token, if is_eof token.kind then p else record p { position = p.position + 1 })

abbrev pub skip : Parser → Parser
skip p = record p { position = p.position + 1 }

unfoldable pub consume_kind : (TokenKind → Bool) → Parser → Option (Token × Parser)
consume_kind test p = if test (peek p).kind then some (peek p, skip p) else none

unfoldable pub expect_kind : Message → (TokenKind → Bool) → Parse Token
expect_kind message test p =
    let (token, p') = advance p in
    if test token.kind then ok (token, p') else err (single message token.span)

unfoldable pub validate_identifier : Text → SourceSpan → Result DiagnosticReport (Unit {0})
validate_identifier name s =
    fail_if (is_reserved_identifier name) (single (reserved_identifier name) s)

-- The `match` of `expect_identifier`.
unfoldable pub name_of : TokenKind → SourceSpan → Result DiagnosticReport Text
name_of (identifier name) s = validate_identifier name s >>ᴿ ok name
name_of _ s = err (single expected_identifier s)

unfoldable pub expect_identifier : Parse Text
expect_identifier p =
    let (token, p') = advance p in name_of token.kind token.span >>=ᴿ λ name. ok (name, p')

abbrev span_or_default : Option Token → SourceSpan
span_or_default none = default_span
span_or_default (some t) = t.span

unfoldable pub previous_span : Parser → SourceSpan
previous_span p = span_or_default (get_elem? p.tokens (p.position - 1))

unfoldable pub parse_nested : SourceSpan → Parse ParsedExpression → Parse ParsedExpression
parse_nested s parse p =
    fail_if (leb max_parse_recursion_depth p.recursion_depth) (single parse_recursion_depth s)
    >>ᴿ (parse (record p { recursion_depth = p.recursion_depth + 1 }) >>=ᴿ λ (e, p').
        ok (e, record p' { recursion_depth = p'.recursion_depth - 1 }))

unfoldable pub make_expression : ExprKind → SourceSpan → ℕ → Parse ParsedExpression
make_expression kind s serialized_depth p =
    fail_if (ltb max_ast_serialized_depth serialized_depth) (single ast_depth_limit s)
    >>ᴿ (ok_or (checked_add p.ast_nodes 1) (single ast_node_limit s) >>=ᴿ λ nodes.
        fail_if (ltb p.limits.max_ast_nodes nodes) (single ast_node_limit s)
        >>ᴿ ok (
          record { ast_of = ast kind s; serialized_depth = serialized_depth },
          record p { ast_nodes = nodes },
        ))

abbrev pub make_leaf : ExprKind → SourceSpan → Parse ParsedExpression
make_leaf kind s = make_expression kind s 2

unfoldable pub add_depth : ℕ → ℕ → SourceSpan → Parse ℕ
add_depth outer inner s p =
    ok_or (checked_add outer inner) (single ast_depth_limit s) >>=ᴿ λ d. ok (d, p)

unfoldable pub check_collection_width : ℕ → SourceSpan → Parse (Unit {0})
check_collection_width current s p =
    fail_if (leb p.limits.max_collection_items current) (single collection_limit s) >>ᴿ ok (tt, p)

unfoldable pub make_binary : ParsedExpression → BinaryOp → ParsedExpression → Parse ParsedExpression
make_binary l op r = do
  let s = join (span l) (span r)
  d ← add_depth 2 (max l.serialized_depth r.serialized_depth) s
  make_expression (binary l.ast_of op r.ast_of) s d
