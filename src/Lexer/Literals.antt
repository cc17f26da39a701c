-- ===== src/Lexer/Literals.antt =====
-- What the scanning of strings, numbers and names does to the lexer's bookkeeping.
use online_dsl_forge.Base.{
  inl, inr, sym, subst, byte_length-cons, byte_length-nil, [], ◌∷◌, none, some, true, false, refl,
  List, length, ◌≡◌, ℕ, ◌<◌, ◌+◌, ◌≤◌, ◌++◌, arith, byte_length, byte_length-append, Bool, Text,
  Option, len_utf8, if◌then◌else◌, Bool-cases, ◌==◌, leb,
}
use online_dsl_forge.Syntax.{ParseLimits, SourceSpan, unsupported_escape}
use online_dsl_forge.Lexer.{
  TokenKind, Lexer, span_new, advance_char, charged, charge_scalar_bytes, push_scalar, push_token,
  fail_limit, scalar_limit, push_diagnostic, diagnostic, has_token_capacity,
}
use online_dsl_forge.Lexer.State.{
  Fine, Fine-le, push_diagnostic-Fine, advance-Fine, push_token-Fine, fail_limit-Fine,
}
use online_dsl_forge.Lexer.Scan.{push_escape, unterminated, unescaped, string_loop, lex_string}

module _ (total : ℕ) (limits : ParseLimits) where
  abbrev pub FineTs : ℕ → ℕ → List ℕ → Lexer → Type 0
  FineTs = Fine total limits

  -- Behind a token: less than `n` characters are left, unless the lexer stopped.
  pub record Lexed (n : ℕ) (lx : Lexer) : Type 0 where
    pub rest : List ℕ
    pub fine : Fine total limits 0 lx.position rest lx
    pub shorter : lx.stopped ≡ false → length rest < n

  pub Fine-Lexed :
      {owed mark n : ℕ} {rest : List ℕ} {lx : Lexer}
      → Fine total limits owed mark rest lx
      → length rest < n
      → Lexed n lx
  Fine-Lexed {rest} {lx} fine h = record {
    rest = rest;
    fine = Fine-le total limits fine 0 lx.position (omega arith) fine.marked (omega arith);
    shorter = λ _. h;
  }

  pub stopped-Lexed :
      {owed mark n : ℕ} {rest : List ℕ} {lx : Lexer}
      → Fine total limits owed mark rest lx
      → lx.stopped ≡ true
      → Lexed n lx
  stopped-Lexed {rest} {lx} fine h = record {
    rest = rest;
    fine = Fine-le total limits fine 0 lx.position (omega arith) fine.marked (omega arith);
    shorter = λ g. cc;
  }

  -- The lexer and whether it could pay for `bytes`.
  pub record Charged (owed bytes mark : ℕ) (rest : List ℕ) (r : Lexer × Bool) : Type 0 where
    pub fine : Fine total limits owed mark rest r.0
    pub charged : r.1 ≡ true → Fine total limits (owed + bytes) mark rest r.0
    pub stopped : r.1 ≡ false → r.0.stopped ≡ true

  charged_lem :
      (lx : Lexer) (bytes total_bytes : ℕ)
      → charged lx bytes ≡ some total_bytes
      → (total_bytes ≡ lx.decoded_scalar_bytes + bytes)
        × (total_bytes ≤ lx.limits.max_decoded_scalar_bytes)
  charged_lem lx bytes total_bytes h = ground arith

  pub charge-Charged :
      {owed mark : ℕ} {rest : List ℕ} {lx : Lexer} (bytes : ℕ) (span : SourceSpan)
      → Fine total limits owed mark rest lx
      → Charged owed bytes mark rest (charge_scalar_bytes lx bytes span)
  unfolding charge_scalar_bytes
  charge-Charged {owed} {mark} {rest} {lx} bytes span fine = go (charged lx bytes) refl
    where
      go :
          (o : Option ℕ)
          → charged lx bytes ≡ o
          → Charged owed bytes mark rest (elim o [
            | none ↦ (fail_limit lx scalar_limit span, false)
            | some total ↦ (record lx { decoded_scalar_bytes = total }, true)
          ])
      go none e = record {
        fine = fail_limit-Fine total limits fine scalar_limit span;
        charged = λ h. cc;
        stopped = λ h. refl;
      }
      go (some b) e =
          let (sum, fits) = charged_lem lx bytes b e in
          let fine' : Fine total limits (owed + bytes) mark rest
              (record lx { decoded_scalar_bytes = b }) =
            record {
              rest_same = fine.rest_same;
              limits_same = fine.limits_same;
              located = fine.located;
              few_tokens = fine.few_tokens;
              paid = omega (arith, fine.paid);
              affordable = rw (← fine.limits_same) fits;
              reported = fine.reported;
              few_diagnostics = fine.few_diagnostics;
              ordered = fine.ordered;
              marked = fine.marked;
            } in
          record {
            fine = Fine-le total limits fine' owed mark (omega arith) (omega arith) fine.marked;
            charged = λ h. fine';
            stopped = λ h. cc;
          }

  -- The lexer and the text of a string so far, whose bytes are paid for.
  abbrev Holds : ℕ → List ℕ → Lexer × Text → Type 0
  Holds mark rest r = Fine total limits (byte_length r.1) mark rest r.0

  push_scalar-Fine :
      {mark : ℕ} {rest : List ℕ} {lx : Lexer} (value : Text) (c start : ℕ)
      → Fine total limits (byte_length value) mark rest lx
      → Holds mark rest (push_scalar lx value c start)
  unfolding push_scalar
  push_scalar-Fine {mark} {rest} {lx} value c start fine =
      go (charge_scalar_bytes lx (len_utf8 c) (span_new start lx.position))
        (charge-Charged (len_utf8 c) _ fine)
    where
      go :
          (r : Lexer × Bool)
          → Charged (byte_length value) (len_utf8 c) mark rest r
          → Holds mark rest (if r.1 then (r.0, value ++ c ∷ []) else (r.0, value))
      go (lx', true) h =
          let bytes : byte_length (value ++ c ∷ []) ≡ byte_length value + len_utf8 c =
            omega
              (arith, byte_length-append value (c ∷ []), byte_length-cons c [], byte_length-nil) in
          rw bytes (h.charged refl)
      go (lx', false) h = h.fine

  push_escape-Fine :
      {mark : ℕ} {rest : List ℕ} {lx : Lexer} (value : Text) (e start escape_start : ℕ)
      → Fine total limits (byte_length value) mark rest lx
      → Holds mark rest (push_escape lx value e start escape_start)
  unfolding push_escape
  push_escape-Fine {mark} {rest} {lx} value e start escape_start fine = go (unescaped e)
    where
      go :
          (o : Option ℕ)
          → Holds mark rest (elim o [
            | some c ↦ push_scalar lx value c start
            | none ↦ (
              push_diagnostic lx
                  (diagnostic unsupported_escape (span_new escape_start lx.position)),
              value,
            )
          ])
      go none = push_diagnostic-Fine total limits fine _
      go (some c) = push_scalar-Fine value c start fine

  module _ (quote start : ℕ) where
    unterminated-Lexed :
        {owed n : ℕ} {rest : List ℕ} {lx : Lexer}
        → Fine total limits owed start rest lx
        → length rest < n
        → Lexed n (unterminated lx start)
    unfolding unterminated
    unterminated-Lexed fine h = Fine-Lexed (push_diagnostic-Fine total limits fine _) h

    close-Lexed :
        {n c : ℕ} {cs : List ℕ} {lx : Lexer} (value : Text)
        → Fine total limits (byte_length value) start (c ∷ cs) lx
        → length (c ∷ cs) ≤ n
        → Lexed n
            (push_token (advance_char lx) (TokenKind.string value) start (advance_char lx).position)
    close-Lexed {lx} value fine h =
        let fine' = advance-Fine total limits fine in
        Fine-Lexed
          (push_token-Fine total limits fine' (TokenKind.string value) start (omega arith)
            (omega arith) fine'.marked)
          (omega arith)

    string_loop-Lexed :
        {n : ℕ} (text : List ℕ) (lx : Lexer) (value : Text)
        → Fine total limits (byte_length value) start text lx
        → length text < n
        → Lexed n (string_loop quote start text lx value)
    unfolding string_loop
    string_loop-Lexed [] lx value fine h = unterminated-Lexed fine h
    string_loop-Lexed (c ∷ []) lx value fine h = elim (Bool-cases (c == quote)) [
      | inl q ↦ rw q (close-Lexed value fine (omega arith))
      | inr q ↦ rw q (elim (Bool-cases (c == b'\\')) [
        | inl e ↦ rw e (unterminated-Lexed (advance-Fine total limits fine) (omega arith))
        | inr e ↦ rw e (
            let step = push_scalar lx value c start in
            let next = advance-Fine total limits (push_scalar-Fine value c start fine) in
            elim (Bool-cases (advance_char step.0).stopped) [
              | inl s ↦ rw s (stopped-Lexed next s)
              | inr s ↦ rw s (unterminated-Lexed next (omega arith))
            ])
      ])
    ]
    string_loop-Lexed (c ∷ d ∷ cs) lx value fine h = elim (Bool-cases (c == quote)) [
      | inl q ↦ rw (string_loop, q) (close-Lexed value fine (omega arith))
      | inr q ↦
          rw (string_loop, q)
            (elim (Bool-cases (c == b'\\')) [
              | inl e ↦ rw e (
                  let behind = advance-Fine total limits (advance-Fine total limits fine) in
                  let step =
                    push_escape (advance_char (advance_char lx)) value d start lx.position in
                  let next = push_escape-Fine value d start lx.position behind in
                  elim (Bool-cases step.0.stopped) [
                    | inl s ↦ rw s (stopped-Lexed next s)
                    | inr s ↦ rw s (string_loop-Lexed cs step.0 step.1 next (omega arith))
                  ])
              | inr e ↦ rw e (
                  let step = push_scalar lx value c start in
                  let next = advance-Fine total limits (push_scalar-Fine value c start fine) in
                  elim (Bool-cases (advance_char step.0).stopped) [
                    | inl s ↦ rw s (stopped-Lexed next s)
                    | inr s ↦
                        rw s (
                          string_loop-Lexed (d ∷ cs) (advance_char step.0) step.1 next
                            (omega arith))
                  ])
            ])
    ]

  pub lex_string-Lexed :
      (lx : Lexer) (quote : ℕ) {n c : ℕ} {cs : List ℕ}
      → Fine total limits 0 lx.position (c ∷ cs) lx
      → length cs < n
      → Lexed n (lex_string lx quote)
  unfolding lex_string has_token_capacity
  lex_string-Lexed lx quote {n} {c} {cs} fine h =
      elim (Bool-cases (leb lx.limits.max_tokens (length lx.tokens))) [
        | inl full ↦ rw full (stopped-Lexed (fail_limit-Fine total limits fine _ _) refl)
        | inr room ↦ rw room (
            let opened = advance-Fine total limits fine in
            let charged =
              Fine-le total limits opened (byte_length []) lx.position
                (omega (arith, byte_length-nil)) (omega arith) opened.marked in
            subst (λ r. Lexed n (string_loop quote lx.position r (advance_char lx) []))
              (sym charged.rest_same)
              (string_loop-Lexed quote lx.position cs (advance_char lx) [] charged h))
      ]
