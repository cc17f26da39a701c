-- ===== src/Lexer/Rounds.antt =====
-- A round of the lexer's loop takes a character or stops the lexer, and keeps its bookkeeping.
use online_dsl_forge.Base.{
  inl, inr, sym, subst, [], ◌∷◌, none, some, true, false, refl, List, length, ◌≡◌, ℕ, ◌<◌, ◌≤◌,
  ◌==◌, ◌&&◌, ◌||◌, arith, byte_length, Text, Bool, Option, Bool-cases, leb, if◌then◌else◌,
}
use online_dsl_forge.Syntax.{ParseLimits, F64, is_finite, invalid_float}
use online_dsl_forge.Lexer.{
  TokenKind, Lexer, span_new, advance_char, push_token, push_diagnostic, diagnostic, head, second,
  float, has_token_capacity, next_is,
}
use online_dsl_forge.Lexer.Scan.{
  is_dot, is_digit, advance_while, skip_line_comment, push_simple, push_two, invalid_char, push_int,
  push_float, lex_number, keyword_or_identifier, lex_identifier, lex_punctuation, with_first,
  take_while, lex_char, is_whitespace,
}
use online_dsl_forge.Lexer.State.{
  Fine, advance_end-Fine, advance-Fine, kind_bytes, push_token-Fine, push_diagnostic-Fine,
  fail_limit-Fine, Fine-le,
}
use online_dsl_forge.Lexer.Literals.{
  Lexed, Fine-Lexed, Charged, stopped-Lexed, charge-Charged, lex_string-Lexed,
}
use online_dsl_forge.Validation.{is_ascii_digit, is_word, starts_word}
use online_dsl_forge.Base.Decimal.{digits_value}
use online_dsl_forge.Base.Int.{i64_max}

module _ (total : ℕ) (limits : ParseLimits) where
  -- What is left behind `lx` is at most as long as `text`.
  pub record Onward (owed mark : ℕ) (text : List ℕ) (lx : Lexer) : Type 0 where
    pub rest : List ℕ
    pub fine : Fine total limits owed mark rest lx
    pub shorter : length rest ≤ length text

  advance-Onward :
      {owed mark : ℕ} {text : List ℕ} {lx : Lexer}
      → Fine total limits owed mark text lx
      → Onward owed mark text (advance_char lx)
  advance-Onward {text = []} fine = record {
    rest = [];
    fine = advance_end-Fine total limits fine;
    shorter = omega arith;
  }
  advance-Onward {text = c ∷ cs} fine = record {
    rest = cs;
    fine = advance-Fine total limits fine;
    shorter = omega arith;
  }

  advance_while-Onward :
      (p : ℕ → Bool) {owed mark : ℕ} (text : List ℕ) (lx : Lexer)
      → Fine total limits owed mark text lx
      → Onward owed mark text (advance_while p text lx)
  unfolding advance_while
  advance_while-Onward p [] lx fine = record { rest = []; fine = fine; shorter = omega arith }
  advance_while-Onward p (c ∷ cs) lx fine = elim (Bool-cases (p c)) [
    | inl t ↦
        rw (advance_while, t)
          (let go = advance_while-Onward p cs (advance_char lx) (advance-Fine total limits fine) in
            record { rest = go.rest; fine = go.fine; shorter = omega (arith, go.shorter) })
    | inr t ↦ rw (advance_while, t) (record { rest = c ∷ cs; fine = fine; shorter = omega arith })
  ]

  advance_while_rest-Onward :
      (p : ℕ → Bool) {owed mark : ℕ} {text : List ℕ} {lx : Lexer}
      → Fine total limits owed mark text lx
      → Onward owed mark text (advance_while p lx.rest lx)
  advance_while_rest-Onward p {owed} {mark} {text} {lx} fine =
      subst (λ r. Onward owed mark text (advance_while p r lx)) (sym fine.rest_same)
        (advance_while-Onward p text lx fine)

  skip_line_comment-Onward :
      {owed mark : ℕ} (text : List ℕ) (lx : Lexer)
      → Fine total limits owed mark text lx
      → Onward owed mark text (skip_line_comment text lx)
  unfolding skip_line_comment
  skip_line_comment-Onward [] lx fine = record { rest = []; fine = fine; shorter = omega arith }
  skip_line_comment-Onward (c ∷ cs) lx fine = elim (Bool-cases (c == b'\n')) [
    | inl t ↦
        rw (skip_line_comment, t)
          (record { rest = cs; fine = advance-Fine total limits fine; shorter = omega arith })
    | inr t ↦
        rw (skip_line_comment, t)
          (let go =
              skip_line_comment-Onward cs (advance_char lx) (advance-Fine total limits fine) in
            record { rest = go.rest; fine = go.fine; shorter = omega (arith, go.shorter) })
  ]

  -- A first character that passes the test makes the text shorter.
  advance_while-shorter :
      (p : ℕ → Bool) {owed mark c : ℕ} {cs : List ℕ} {lx : Lexer}
      → p c ≡ true
      → Fine total limits owed mark (c ∷ cs) lx
      → Onward owed mark cs (advance_while p lx.rest lx)
  unfolding advance_while
  advance_while-shorter p {owed} {mark} {c} {cs} {lx} t fine =
      subst (λ r. Onward owed mark cs (advance_while p r lx)) (sym fine.rest_same)
        (rw (advance_while, t)
          (advance_while-Onward p cs (advance_char lx) (advance-Fine total limits fine)))

  skip_line_comment-shorter :
      {owed mark c : ℕ} {cs : List ℕ} {lx : Lexer}
      → Fine total limits owed mark (c ∷ cs) lx
      → Onward owed mark cs (skip_line_comment lx.rest lx)
  unfolding skip_line_comment
  skip_line_comment-shorter {owed} {mark} {c} {cs} {lx} fine =
      subst (λ r. Onward owed mark cs (skip_line_comment r lx)) (sym fine.rest_same)
        (elim (Bool-cases (c == b'\n')) [
          | inl t ↦
              rw (skip_line_comment, t)
                (record { rest = cs; fine = advance-Fine total limits fine; shorter = omega arith })
          | inr t ↦
              rw (skip_line_comment, t)
                (skip_line_comment-Onward cs (advance_char lx) (advance-Fine total limits fine))
        ])

  Onward-Lexed :
      {owed mark n : ℕ} {text : List ℕ} {lx : Lexer}
      → length text < n
      → Onward owed mark text lx
      → Lexed total limits n lx
  Onward-Lexed h go = Fine-Lexed total limits go.fine (omega (arith, go.shorter))

  -- A token whose text is paid for, from the mark on.
  token-Lexed :
      {owed n : ℕ} {text : List ℕ} {lx : Lexer} (kind : TokenKind) (start : ℕ)
      → kind_bytes kind ≤ owed
      → Fine total limits owed start text lx
      → length text < n
      → Lexed total limits n (push_token lx kind start lx.position)
  token-Lexed kind start hk fine h =
      Fine-Lexed total limits
        (push_token-Fine total limits fine kind start hk (omega arith) fine.marked) h

  or_else :
      {n : ℕ} (b : Bool) {lx lx' : Lexer}
      → Lexed total limits n lx
      → Lexed total limits n lx'
      → Lexed total limits n (if b then lx else lx')
  or_else true l l' = l
  or_else false l l' = l'

  keyword_or_identifier-bytes :
      (raw : Text) → kind_bytes (keyword_or_identifier raw) ≤ byte_length raw
  unfolding keyword_or_identifier
  keyword_or_identifier-bytes raw = ground arith

  -- The last part of `lex_identifier`, behind the charge.
  named-Lexed :
      {n start end : ℕ} {text : List ℕ} (r : Lexer × Bool) (raw : Text)
      → Charged total limits 0 (byte_length raw) start text r
      → r.0.position ≡ end
      → length text < n
      → Lexed total limits n (
          let (ready, fits) = has_token_capacity r.0 (span_new start end) in
          if r.1
          then (if fits then push_token ready (keyword_or_identifier raw) start end else ready)
          else r.0)
  unfolding has_token_capacity
  named-Lexed (lx', false) raw h e l = stopped-Lexed total limits h.fine (h.stopped refl)
  named-Lexed {start} {end} {text} (lx', true) raw h e l =
      elim (Bool-cases (leb lx'.limits.max_tokens (length lx'.tokens))) [
        | inl full ↦
            rw full (stopped-Lexed total limits (fail_limit-Fine total limits h.fine _ _) refl)
        | inr room ↦
            rw (room, sym e)
              (token-Lexed (keyword_or_identifier raw) start (keyword_or_identifier-bytes raw)
                (Fine-le total limits (h.charged refl) (byte_length raw) start (omega arith)
                  (omega arith) h.fine.marked)
                l)
      ]

  module _ {n c : ℕ} {cs : List ℕ} {lx : Lexer} (fine : Fine total limits 0 lx.position (c ∷ cs) lx)
      (h : length cs < n) where
    first : Fine total limits 0 lx.position cs (advance_char lx)
    first = advance-Fine total limits fine

    push_simple-Lexed :
        (kind : TokenKind) → kind_bytes kind ≡ 0 → Lexed total limits n (push_simple lx kind)
    unfolding push_simple
    push_simple-Lexed kind z = token-Lexed kind lx.position (omega arith) first h

    push_two-Lexed :
        (kind : TokenKind) → kind_bytes kind ≡ 0 → Lexed total limits n (push_two lx kind)
    unfolding push_two
    push_two-Lexed kind z =
        let go = advance-Onward first in
        token-Lexed kind lx.position (omega arith) go.fine (omega (arith, go.shorter))

    invalid_char-Lexed : Lexed total limits n (invalid_char lx c)
    unfolding invalid_char
    invalid_char-Lexed = Fine-Lexed total limits (push_diagnostic-Fine total limits first _) h

    module _ (parse_f64 : Text → Option F64) where
      push_int-Lexed :
          {text : List ℕ} {end : Lexer} (raw : Text)
          → Fine total limits 0 lx.position text end
          → length text < n
          → Lexed total limits n (push_int parse_f64 end raw lx.position)
      unfolding push_int
      push_int-Lexed raw at l = elim (Bool-cases (leb (digits_value 0 raw) i64_max)) [
        | inl t ↦ rw t (token-Lexed _ lx.position (omega arith) at l)
        | inr t ↦ rw t (Fine-Lexed total limits (push_diagnostic-Fine total limits at _) l)
      ]

      push_float-Lexed :
          {text : List ℕ} {end : Lexer} (raw : Text)
          → Fine total limits 0 lx.position text end
          → length text < n
          → Lexed total limits n (push_float parse_f64 end raw lx.position)
      unfolding push_float
      push_float-Lexed {end} raw at l = go (parse_f64 raw)
        where
          invalid :
              Lexed total limits n
                (push_diagnostic end (diagnostic invalid_float (span_new lx.position end.position)))
          invalid = Fine-Lexed total limits (push_diagnostic-Fine total limits at _) l

          go :
              (o : Option F64)
              → Lexed total limits n (elim o [
                | none ↦
                    push_diagnostic end
                      (diagnostic invalid_float (span_new lx.position end.position))
                | some value ↦
                    if is_finite value
                    then push_token end (float value) lx.position end.position
                    else push_diagnostic end
                        (diagnostic invalid_float (span_new lx.position end.position))
              ])
          go none = invalid
          go (some value) = elim (Bool-cases (is_finite value)) [
            | inl t ↦ rw t (token-Lexed _ lx.position (omega arith) at l)
            | inr t ↦ rw t invalid
          ]

      lex_number-Lexed : is_ascii_digit c ≡ true → Lexed total limits n (lex_number parse_f64 lx)
      unfolding lex_number
      lex_number-Lexed d =
          let whole = advance_while is_ascii_digit lx.rest lx in
          let go = advance_while-shorter is_ascii_digit d fine in
          let go' = advance-Onward go.fine in
          let fraction = advance_while_rest-Onward is_ascii_digit go'.fine in
          elim (Bool-cases
            (is_dot parse_f64 (head whole.rest) && is_digit parse_f64 (second whole.rest))) [
              | inl t ↦ rw t (
                  push_float-Lexed _ fraction.fine
                    (omega (arith, fraction.shorter, go'.shorter, go.shorter)))
              | inr t ↦ rw t (push_int-Lexed _ go.fine (omega (arith, go.shorter)))
            ]

      lex_identifier-Lexed : Lexed total limits n (lex_identifier lx)
      unfolding lex_identifier
      lex_identifier-Lexed =
          let end = advance_while is_word (advance_char lx).rest (advance_char lx) in
          let go = advance_while_rest-Onward is_word first in
          let raw = with_first lx.rest (take_while is_word (advance_char lx).rest) in
          let paid =
            charge-Charged total limits (byte_length raw) (span_new lx.position end.position)
              go.fine in
          named-Lexed _ raw paid (omega (arith, paid.fine.located, go.fine.located))
            (omega (arith, go.shorter))

      lex_punctuation-Lexed : Lexed total limits n (lex_punctuation lx c)
      unfolding lex_punctuation
      lex_punctuation-Lexed = or_else (c == b'.') (push_simple-Lexed TokenKind.dot refl) (
          or_else (c == b',') (push_simple-Lexed TokenKind.comma refl) (
            or_else (c == b'(') (push_simple-Lexed TokenKind.lparen refl) (
              or_else (c == b')') (push_simple-Lexed TokenKind.rparen refl) (
                or_else (c == b'[') (push_simple-Lexed TokenKind.lbracket refl) (
                  or_else (c == b']') (push_simple-Lexed TokenKind.rbracket refl) (
                    or_else (c == b'-') (push_simple-Lexed TokenKind.minus refl) (
                      or_else (c == b'+') (push_simple-Lexed TokenKind.plus refl) (
                        or_else (c == b'*') (push_simple-Lexed TokenKind.star refl) (
                          or_else (c == b'%') (push_simple-Lexed TokenKind.percent refl) (
                            or_else (c == b'/') (push_simple-Lexed TokenKind.slash refl) (
                              or_else (c == b'!')
                                (or_else (next_is b'=' lx) (push_two-Lexed TokenKind.ne refl)
                                  (push_simple-Lexed TokenKind.bang refl))
                                (or_else (c == b'=')
                                  (or_else (next_is b'=' lx) (push_two-Lexed TokenKind.eq_eq refl)
                                    invalid_char-Lexed)
                                  (or_else (c == b'<')
                                    (or_else (next_is b'=' lx) (push_two-Lexed TokenKind.le refl)
                                      (push_simple-Lexed TokenKind.lt refl))
                                    (or_else (c == b'>')
                                      (or_else (next_is b'=' lx) (push_two-Lexed TokenKind.ge refl)
                                        (push_simple-Lexed TokenKind.gt refl))
                                      (or_else (c == b'&')
                                        (or_else (next_is b'&' lx)
                                          (push_two-Lexed TokenKind.and_and refl)
                                          invalid_char-Lexed)
                                        (or_else (c == b'|')
                                          (or_else (next_is b'|' lx)
                                            (push_two-Lexed TokenKind.or_or refl)
                                            invalid_char-Lexed)
                                          invalid_char-Lexed))))))))))))))))

      pub lex_char-Lexed : Lexed total limits n (lex_char parse_f64 lx c)
      unfolding lex_char
      lex_char-Lexed = or_else (is_whitespace c) (Fine-Lexed total limits first h) (
          or_else (c == b'/' && next_is b'/' lx) (Onward-Lexed h (skip_line_comment-shorter fine)) (
            or_else (c == b'"' || c == b'\'') (lex_string-Lexed total limits lx c fine h)
              (elim (Bool-cases (is_ascii_digit c)) [
                | inl t ↦ rw t (lex_number-Lexed t)
                | inr t ↦ rw t (or_else (starts_word c) lex_identifier-Lexed lex_punctuation-Lexed)
              ])))
