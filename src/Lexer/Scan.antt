-- ===== src/Lexer/Scan.antt =====
-- source/src/parser/lexer.rs: the scanning of each token, and the loop over the input.
use online_dsl_forge.Base.{
  ◌+◌, ◌++◌, ℕ, zero, suc, Bool, true, false, ◌&&◌, ◌||◌, List, [], ◌∷◌, Text, Option, none, some,
  Result, ok, err, out_of_fuel, ltb, leb, ◌==◌, if◌then◌else◌, length, byte_length, text_eq, codes,
  len_utf8,
}
use online_dsl_forge.Syntax.{
  F64, Diagnostic, ParseLimits, source_limit, invalid_character, default_parse_limits,
  unterminated_string, invalid_float, unsupported_escape, is_finite, invalid_integer,
}
use online_dsl_forge.Validation.{is_ascii_digit, starts_word, is_word}
use online_dsl_forge.Lexer.{
  TokenKind, eof, Token, Lexer, span_new, diagnostic, push_token, push_diagnostic, advance_char,
  head, push_scalar, string, has_token_capacity, second, dot, next_is, charge_scalar_bytes, comma,
  float, true_token, lparen, false_token, rparen, null_token, lbracket, identifier, rbracket, minus,
  plus, star, percent, slash, ne, bang, eq_eq, le, lt, ge, gt, and_and, or_or, int,
}
use online_dsl_forge.Base.Decimal.{digits_value}
use online_dsl_forge.Base.Int.{i64_max, pos}

-- `char::is_whitespace`: the Unicode property White_Space.
unfoldable pub is_whitespace : ℕ → Bool
is_whitespace c =
    (leb 0x09 c && leb c 0x0d)
    || c == 0x20
    || c == 0x85
    || c == 0xa0
    || c == 0x1680
    || (leb 0x2000 c && leb c 0x200a)
    || c == 0x2028
    || c == 0x2029
    || c == 0x202f
    || c == 0x205f
    || c == 0x3000

unfoldable pub push_simple : Lexer → TokenKind → Lexer
push_simple lx kind = let lx' = advance_char lx in push_token lx' kind lx.position lx'.position

unfoldable pub push_two : Lexer → TokenKind → Lexer
push_two lx kind =
    let lx' = advance_char (advance_char lx) in push_token lx' kind lx.position lx'.position

unfoldable pub invalid_char : Lexer → ℕ → Lexer
invalid_char lx c =
    let lx' = advance_char lx in
    push_diagnostic lx' (diagnostic (invalid_character c) (span_new lx.position lx'.position))

-- `while let Some(ch) = self.peek_char()`, as long as the test holds; the text is the rest of the
-- input.
unfoldable pub advance_while : (ℕ → Bool) → Text → Lexer → Lexer
advance_while p [] lx = lx
advance_while p (c ∷ cs) lx = elim (p c) [
  | true ↦ advance_while p cs (advance_char lx)
  | false ↦ lx
]

-- The characters that the test holds of, up to the first that it does not.
unfoldable pub take_while : (ℕ → Bool) → Text → Text
take_while p [] = []
take_while p (c ∷ cs) = elim (p c) [ true ↦ c ∷ take_while p cs | false ↦ [] ]

-- Skips the newline as well.
unfoldable pub skip_line_comment : Text → Lexer → Lexer
skip_line_comment [] lx = lx
skip_line_comment (c ∷ cs) lx = elim (c == b'\n') [
  | true ↦ advance_char lx
  | false ↦ skip_line_comment cs (advance_char lx)
]

abbrev pub unescaped : ℕ → Option ℕ
unescaped e =
    if e == b'\\' || e == b'"' || e == b'\''
    then some e
    else if e == b'n'
    then some b'\n'
    else if e == b'r'
    then some b'\r'
    else if e == b't'
    then some b'\t'
    else none

-- The `match` on an escaped character, behind both characters.
unfoldable pub push_escape : Lexer → Text → ℕ → ℕ → ℕ → Lexer × Text
push_escape lx value e start escape_start = elim (unescaped e) [
  | some c ↦ push_scalar lx value c start
  | none ↦ (
    push_diagnostic lx (diagnostic unsupported_escape (span_new escape_start lx.position)),
    value,
  )
]

unfoldable pub unterminated : Lexer → ℕ → Lexer
unterminated lx start =
    push_diagnostic lx (diagnostic unterminated_string (span_new start lx.position))

-- The loop of `lex_string`, on the rest of the input.
unfoldable pub string_loop : ℕ → ℕ → Text → Lexer → Text → Lexer
string_loop quote start [] lx value = unterminated lx start
string_loop quote start (c ∷ []) lx value =
    if c == quote
    then push_token (advance_char lx) (string value) start (advance_char lx).position
    else if c == b'\\'
    then unterminated (advance_char lx) start
    else let (lx', value') = push_scalar lx value c start in
      if (advance_char lx').stopped then advance_char lx' else unterminated (advance_char lx') start
string_loop quote start (c ∷ d ∷ cs) lx value = elim (c == quote) [
  | true ↦ push_token (advance_char lx) (string value) start (advance_char lx).position
  | false ↦ elim (c == b'\\') [
    | true ↦
        let step = push_escape (advance_char (advance_char lx)) value d start lx.position in
        elim step.0.stopped [ true ↦ step.0 | false ↦ string_loop quote start cs step.0 step.1 ]
    | false ↦
        let step = push_scalar lx value c start in
        let next = advance_char step.0 in
        elim next.stopped [ true ↦ next | false ↦ string_loop quote start (d ∷ cs) next step.1 ]
  ]
]

unfoldable pub lex_string : Lexer → ℕ → Lexer
lex_string lx quote =
    let start = lx.position in
    let (lx', fits) = has_token_capacity lx (span_new start (start + len_utf8 quote)) in
    let opened = advance_char lx' in
    if fits then string_loop quote start opened.rest opened [] else lx'

module _ (parse_f64 : Text → Option F64) where
  unfoldable pub push_float : Lexer → Text → ℕ → Lexer
  push_float lx raw start =
      let invalid = push_diagnostic lx (diagnostic invalid_float (span_new start lx.position)) in
      elim (parse_f64 raw) [
        | none ↦ invalid
        | some value ↦
            if is_finite value then push_token lx (float value) start lx.position else invalid
      ]

  unfoldable pub push_int : Lexer → Text → ℕ → Lexer
  push_int lx raw start =
      let value = digits_value 0 raw in
      if leb value i64_max
      then push_token lx (int (pos value)) start lx.position
      else push_diagnostic lx (diagnostic invalid_integer (span_new start lx.position))

  abbrev pub is_dot : Option ℕ → Bool
  is_dot none = false
  is_dot (some c) = c == b'.'

  abbrev pub is_digit : Option ℕ → Bool
  is_digit none = false
  is_digit (some c) = is_ascii_digit c

  unfoldable pub lex_number : Lexer → Lexer
  lex_number lx =
      let whole = advance_while is_ascii_digit lx.rest lx in
      let digits = take_while is_ascii_digit lx.rest in
      let point = advance_char whole in
      let fraction = take_while is_ascii_digit point.rest in
      if is_dot (head whole.rest) && is_digit (second whole.rest)
      then push_float (advance_while is_ascii_digit point.rest point) (digits ++ b'.' ∷ fraction)
          lx.position
      else push_int whole digits lx.position

unfoldable pub keyword_or_identifier : Text → TokenKind
keyword_or_identifier raw =
    if text_eq raw (codes "true")
    then true_token
    else if text_eq raw (codes "false")
    then false_token
    else if text_eq raw (codes "null")
    then null_token
    else identifier raw

abbrev pub with_first : Text → Text → Text
with_first [] word = word
with_first (c ∷ cs) word = c ∷ word

-- The first character is taken without a test: `run` has tested it.
unfoldable pub lex_identifier : Lexer → Lexer
lex_identifier lx =
    let first = advance_char lx in
    let end = advance_while is_word first.rest first in
    let raw = with_first lx.rest (take_while is_word first.rest) in
    let span = span_new lx.position end.position in
    let (charged, paid) = charge_scalar_bytes end (byte_length raw) span in
    let (ready, fits) = has_token_capacity charged span in
    if paid
    then (if fits
        then push_token ready (keyword_or_identifier raw) lx.position end.position
        else ready)
    else charged

-- The arms of the `match` in `run` for punctuation.
unfoldable pub lex_punctuation : Lexer → ℕ → Lexer
lex_punctuation lx c =
    if c == b'.'
    then push_simple lx dot
    else if c == b','
    then push_simple lx comma
    else if c == b'('
    then push_simple lx lparen
    else if c == b')'
    then push_simple lx rparen
    else if c == b'['
    then push_simple lx lbracket
    else if c == b']'
    then push_simple lx rbracket
    else if c == b'-'
    then push_simple lx minus
    else if c == b'+'
    then push_simple lx plus
    else if c == b'*'
    then push_simple lx star
    else if c == b'%'
    then push_simple lx percent
    else if c == b'/'
    then push_simple lx slash
    else if c == b'!'
    then (if next_is b'=' lx then push_two lx ne else push_simple lx bang)
    else if c == b'='
    then (if next_is b'=' lx then push_two lx eq_eq else invalid_char lx c)
    else if c == b'<'
    then (if next_is b'=' lx then push_two lx le else push_simple lx lt)
    else if c == b'>'
    then (if next_is b'=' lx then push_two lx ge else push_simple lx gt)
    else if c == b'&'
    then (if next_is b'&' lx then push_two lx and_and else invalid_char lx c)
    else if c == b'|'
    then (if next_is b'|' lx then push_two lx or_or else invalid_char lx c)
    else invalid_char lx c

-- The body of the loop of `run`, at the character `c` that was peeked.
unfoldable pub lex_char : (Text → Option F64) → Lexer → ℕ → Lexer
lex_char parse_f64 lx c =
    if is_whitespace c
    then advance_char lx
    else if c == b'/' && next_is b'/' lx
    then skip_line_comment lx.rest lx
    else if c == b'"' || c == b'\''
    then lex_string lx c
    else if is_ascii_digit c
    then lex_number parse_f64 lx
    else if starts_word c
    then lex_identifier lx
    else lex_punctuation lx c

unfoldable pub run : (Text → Option F64) → ℕ → Lexer → Option Lexer
run parse_f64 zero lx = none
run parse_f64 (suc fuel) lx = elim lx.stopped [
  | true ↦ some lx
  | false ↦ elim (head lx.rest) [
    | none ↦ some (push_token lx eof lx.position lx.position)
    | some c ↦ run parse_f64 fuel (lex_char parse_f64 lx c)
  ]
]

abbrev pub initial : Text → ParseLimits → Lexer
initial input limits = record {
  rest = input;
  position = 0;
  decoded_scalar_bytes = 0;
  stopped = false;
  limits = limits;
  diagnostics = [];
  tokens = [];
}

abbrev pub tokens_or_diagnostics : Lexer → List Diagnostic → Result (List Diagnostic) (List Token)
tokens_or_diagnostics lx [] = ok lx.tokens
tokens_or_diagnostics lx (d ∷ ds) = err (d ∷ ds)

abbrev pub finish : Option Lexer → Result (List Diagnostic) (List Token)
finish none = out_of_fuel
finish (some lx) = tokens_or_diagnostics lx lx.diagnostics

-- A round takes a character or stops the lexer, so one more round than characters is enough.
unfoldable pub tokenize_with_limits :
    (Text → Option F64) → Text → ParseLimits → Result (List Diagnostic) (List Token)
tokenize_with_limits parse_f64 input limits =
    if ltb limits.max_source_bytes (byte_length input)
    then err (diagnostic source_limit (span_new 0 (byte_length input)) ∷ [])
    else finish (run parse_f64 (suc (length input)) (initial input limits))

unfoldable pub tokenize : (Text → Option F64) → Text → Result (List Diagnostic) (List Token)
tokenize parse_f64 input = tokenize_with_limits parse_f64 input default_parse_limits
