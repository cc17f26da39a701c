-- ===== src/Lexer/State.antt =====
-- The state of the lexer between two of its steps, and what its bookkeeping does to it.
use online_dsl_forge.Base.{
  byte_length-cons, sym, subst, [], ◌∷◌, true, refl, List, length, ◌≡◌, ℕ, ◌<◌, ◌+◌, ◌≤◌, ◌++◌,
  arith, byte_length, max, length-append, Bool-cases, leb, inl, inr, leb→gt,
}
use online_dsl_forge.Syntax.{ParseLimits, SourceSpan, Message, Diagnostic}
use online_dsl_forge.Lexer.{
  Token, TokenKind, Lexer, span_new, advance_char, advance_rest, fail_limit, push_diagnostic,
  push_token, has_token_capacity,
}

-- The bytes that a name or a string keeps.
abbrev pub kind_bytes : TokenKind → ℕ
kind_bytes (TokenKind.identifier name) = byte_length name
kind_bytes (TokenKind.string value) = byte_length value
kind_bytes _ = 0

unfoldable pub token_bytes : List Token → ℕ
token_bytes [] = 0
token_bytes (t ∷ ts) = kind_bytes t.kind + token_bytes ts

token_bytes-append :
    (xs : List Token) (t : Token) → token_bytes (xs ++ t ∷ []) ≡ token_bytes xs + kind_bytes t.kind
unfolding token_bytes
token_bytes-append [] t = omega arith
token_bytes-append (x ∷ xs) t = omega (arith, token_bytes-append xs t)

-- The tokens' spans follow each other from `start` to `end` without an overlap.
abbrev pub InOrder : ℕ → List Token → ℕ → Type 0
InOrder start [] end = start ≤ end
InOrder start (t ∷ ts) end =
    (start ≤ t.span.start) × (t.span.start ≤ t.span.end) × InOrder t.span.end ts end

pub InOrder-le :
    (start : ℕ) (ts : List Token) {end end' : ℕ}
    → end ≤ end'
    → InOrder start ts end
    → InOrder start ts end'
InOrder-le start [] h o = omega arith
InOrder-le start (t ∷ ts) h o = (o.0, o.1, InOrder-le t.span.end ts h o.2)

InOrder-append :
    (start : ℕ) (ts : List Token) (t : Token) {end : ℕ}
    → InOrder start ts end
    → end ≤ t.span.start
    → t.span.start ≤ t.span.end
    → InOrder start (ts ++ t ∷ []) t.span.end
InOrder-append start [] t o h g = (omega arith, g, omega arith)
InOrder-append start (x ∷ ts) t o h g = (o.0, o.1, InOrder-append x.span.end ts t o.2 h g)

-- For a text of `total` bytes.
module _ (total : ℕ) (limits : ParseLimits) where
  -- `rest` is to come, the tokens end before `mark`, and `owed` bytes are paid for a token that is
  -- not there yet.
  pub record Fine (owed mark : ℕ) (rest : List ℕ) (lx : Lexer) : Type 0 where
    pub rest_same : lx.rest ≡ rest
    pub limits_same : lx.limits ≡ limits
    pub located : lx.position + byte_length rest ≡ total
    pub few_tokens : length lx.tokens ≤ limits.max_tokens
    pub paid : token_bytes lx.tokens + owed ≤ lx.decoded_scalar_bytes
    pub affordable : lx.decoded_scalar_bytes ≤ limits.max_decoded_scalar_bytes
    pub reported : lx.stopped ≡ true → 0 < length lx.diagnostics
    pub few_diagnostics : length lx.diagnostics ≤ max 1 limits.max_diagnostics
    pub ordered : InOrder 0 lx.tokens mark
    pub marked : mark ≤ lx.position

  module _ {owed mark : ℕ} {rest : List ℕ} {lx : Lexer} (fine : Fine owed mark rest lx) where
    pub Fine-le :
        (owed' mark' : ℕ)
        → owed' ≤ owed
        → mark ≤ mark'
        → mark' ≤ lx.position
        → Fine owed' mark' rest lx
    Fine-le owed' mark' ho hm hp = record {
      rest_same = fine.rest_same;
      limits_same = fine.limits_same;
      located = fine.located;
      few_tokens = fine.few_tokens;
      paid = omega (arith, fine.paid);
      affordable = fine.affordable;
      reported = fine.reported;
      few_diagnostics = fine.few_diagnostics;
      ordered = InOrder-le 0 lx.tokens hm fine.ordered;
      marked = hp;
    }

    pub fail_limit-Fine : (m : Message) (s : SourceSpan) → Fine owed mark rest (fail_limit lx m s)
    unfolding fail_limit
    fail_limit-Fine m s = record {
      rest_same = fine.rest_same;
      limits_same = fine.limits_same;
      located = fine.located;
      few_tokens = fine.few_tokens;
      paid = fine.paid;
      affordable = fine.affordable;
      reported = λ _. omega arith;
      few_diagnostics = omega arith;
      ordered = fine.ordered;
      marked = fine.marked;
    }

    pub push_diagnostic-Fine : (d : Diagnostic) → Fine owed mark rest (push_diagnostic lx d)
    unfolding push_diagnostic
    push_diagnostic-Fine d =
        elim (Bool-cases (leb lx.limits.max_diagnostics (length lx.diagnostics))) [
          | inl full ↦ rw full (fail_limit-Fine _ d.span)
          | inr room ↦ rw room (record {
            rest_same = fine.rest_same;
            limits_same = fine.limits_same;
            located = fine.located;
            few_tokens = fine.few_tokens;
            paid = fine.paid;
            affordable = fine.affordable;
            reported = λ _. omega (arith, length-append lx.diagnostics (d ∷ []));
            few_diagnostics = omega (
              arith,
              length-append lx.diagnostics (d ∷ []),
              leb→gt _ _ (rw fine.limits_same at room),
            );
            ordered = fine.ordered;
            marked = fine.marked;
          })
        ]

  module _ {owed mark : ℕ} {rest : List ℕ} {lx : Lexer} (fine : Fine owed mark rest lx) where
    -- The token is paid for, and it lies behind the mark.
    pub push_token-Fine :
        (kind : TokenKind) (start : ℕ)
        → kind_bytes kind ≤ owed
        → mark ≤ start
        → start ≤ lx.position
        → Fine 0 lx.position rest (push_token lx kind start lx.position)
    unfolding push_token has_token_capacity
    push_token-Fine kind start hk hm hp =
        elim (Bool-cases (leb lx.limits.max_tokens (length lx.tokens))) [
          | inl full ↦ rw full (
              Fine-le (fail_limit-Fine fine _ _) 0 lx.position (omega arith) (omega arith)
                (omega arith))
          | inr room ↦ rw room (record {
            rest_same = fine.rest_same;
            limits_same = fine.limits_same;
            located = fine.located;
            few_tokens = omega (
              arith,
              length-append lx.tokens (new ∷ []),
              leb→gt _ _ (rw fine.limits_same at room),
            );
            paid = omega (arith, token_bytes-append lx.tokens new, fine.paid);
            affordable = fine.affordable;
            reported = fine.reported;
            few_diagnostics = fine.few_diagnostics;
            ordered = InOrder-append 0 lx.tokens new fine.ordered hm hp;
            marked = omega arith;
          })
        ]
      where
        new : Token
        new = record { kind = kind; span = span_new start lx.position }

  pub advance-Fine :
      {owed mark c : ℕ} {cs : List ℕ} {lx : Lexer}
      → Fine owed mark (c ∷ cs) lx
      → Fine owed mark cs (advance_char lx)
  advance-Fine {owed} {mark} {c} {cs} {lx} fine =
      subst (λ r. Fine owed mark cs (advance_rest lx r)) (sym fine.rest_same)
        (record {
          rest_same = refl;
          limits_same = fine.limits_same;
          located = omega (arith, fine.located, byte_length-cons c cs);
          few_tokens = fine.few_tokens;
          paid = fine.paid;
          affordable = fine.affordable;
          reported = fine.reported;
          few_diagnostics = fine.few_diagnostics;
          ordered = fine.ordered;
          marked = omega (arith, fine.marked);
        })

  pub advance_end-Fine :
      {owed mark : ℕ} {lx : Lexer} → Fine owed mark [] lx → Fine owed mark [] (advance_char lx)
  advance_end-Fine {owed} {mark} {lx} fine =
      subst (λ r. Fine owed mark [] (advance_rest lx r)) (sym fine.rest_same) fine
