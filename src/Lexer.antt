-- ===== src/Lexer.antt =====
-- source/src/parser/lexer.rs: text to tokens, with byte positions and resource limits.
-- `rest` is the input from `position` on, so `peek_char` is its head.
pub mod Scan
pub mod State
pub mod Literals
pub mod Rounds
pub mod Bounds
use online_dsl_forge.Base.{
  ℕ, ◌+◌, Bool, true, false, List, [], ◌∷◌, ◌++◌, Text, Option, none, some, ltb, leb, ◌==◌,
  if◌then◌else◌, length, len_utf8,
}
use online_dsl_forge.Base.Usize.{checked_add}
use online_dsl_forge.Base.Int.{ℤ}
use online_dsl_forge.Syntax.{
  SourceSpan, F64, Message, Diagnostic, ParseLimits, scalar_limit, token_limit, diagnostic_limit,
}

pub data TokenKind : Type 0 where
  identifier string : Text → TokenKind
  int : ℤ → TokenKind
  float : F64 → TokenKind
  true_token false_token null_token : TokenKind
  dot comma lparen rparen lbracket rbracket : TokenKind
  bang minus plus star slash percent : TokenKind
  eq_eq ne lt le gt ge and_and or_or eof : TokenKind

pub record Token : Type 0 where
  pub kind : TokenKind
  pub span : SourceSpan

abbrev pub span_new : ℕ → ℕ → SourceSpan
span_new start end = record { start = start; end = end }

pub record Lexer : Type 0 where
  pub rest : Text
  pub position : ℕ
  pub decoded_scalar_bytes : ℕ
  pub stopped : Bool
  pub limits : ParseLimits
  pub diagnostics : List Diagnostic
  pub tokens : List Token

abbrev pub diagnostic : Message → SourceSpan → Diagnostic
diagnostic m s = record { message = m; span = s }

unfoldable pub fail_limit : Lexer → Message → SourceSpan → Lexer
fail_limit lx message span = record lx {
  diagnostics = diagnostic message span ∷ [];
  stopped = true;
}

unfoldable pub has_token_capacity : Lexer → SourceSpan → Lexer × Bool
unfolding fail_limit
has_token_capacity lx span =
    if leb lx.limits.max_tokens (length lx.tokens)
    then (fail_limit lx token_limit span, false)
    else (lx, true)

unfoldable pub push_token : Lexer → TokenKind → ℕ → ℕ → Lexer
unfolding has_token_capacity
push_token lx kind start end =
    let (lx', fits) = has_token_capacity lx (span_new start end) in
    if fits
    then record lx' {
      tokens = lx'.tokens ++ record { kind = kind; span = span_new start end } ∷ [];
    }
    else lx'

unfoldable pub push_diagnostic : Lexer → Diagnostic → Lexer
unfolding fail_limit
push_diagnostic lx d =
    if leb lx.limits.max_diagnostics (length lx.diagnostics)
    then fail_limit lx diagnostic_limit d.span
    else record lx { diagnostics = lx.diagnostics ++ d ∷ [] }

-- The new counter, if the bytes fit.
abbrev pub charged : Lexer → ℕ → Option ℕ
charged lx bytes = elim (checked_add lx.decoded_scalar_bytes bytes) [
  | none ↦ none
  | some total ↦ if ltb lx.limits.max_decoded_scalar_bytes total then none else some total
]

unfoldable pub charge_scalar_bytes : Lexer → ℕ → SourceSpan → Lexer × Bool
unfolding fail_limit
charge_scalar_bytes lx bytes span = elim (charged lx bytes) [
  | none ↦ (fail_limit lx scalar_limit span, false)
  | some total ↦ (record lx { decoded_scalar_bytes = total }, true)
]

-- Also returns the text, with the character appended if it was paid for.
unfoldable pub push_scalar : Lexer → Text → ℕ → ℕ → Lexer × Text
unfolding charge_scalar_bytes
push_scalar lx value c start =
    let (lx', paid) = charge_scalar_bytes lx (len_utf8 c) (span_new start lx.position) in
    if paid then (lx', value ++ c ∷ []) else (lx', value)

-- `advance_char` on the rest of the input.
abbrev pub advance_rest : Lexer → Text → Lexer
advance_rest lx [] = lx
advance_rest lx (c ∷ cs) = record lx { rest = cs; position = lx.position + len_utf8 c }

abbrev pub advance_char : Lexer → Lexer
advance_char lx = advance_rest lx lx.rest

abbrev pub head : Text → Option ℕ
head [] = none
head (c ∷ cs) = some c

abbrev pub second : Text → Option ℕ
second [] = none
second (c ∷ cs) = head cs

-- `self.peek_next_char() == Some(c)`.
unfoldable pub next_is : ℕ → Lexer → Bool
next_is c lx = elim (second lx.rest) [ none ↦ false | some d ↦ d == c ]
