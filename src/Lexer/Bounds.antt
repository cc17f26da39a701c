-- ===== src/Lexer/Bounds.antt =====
-- `tokenize_with_limits` always ends, within its limits, and its tokens end in `eof`.
use online_dsl_forge.Base.{
  ap, ltb, ◌⊎◌, length-append, inl, inr, sym, subst, [], ◌∷◌, zero, suc, none, some, true, false,
  refl, ok, err, List, length, ◌-◌, ◌≡◌, ℕ, ◌<◌, ◌≤◌, ◌++◌, arith, byte_length, Text, Bool, Option,
  Bool-cases, max, get_elem?, leb,
}
use online_dsl_forge.Syntax.{ParseLimits, F64, Diagnostic}
use online_dsl_forge.Lexer.{Token, TokenKind, Lexer, push_token, has_token_capacity, head}
use online_dsl_forge.Lexer.State.{InOrder, Fine, token_bytes, push_token-Fine, InOrder-le}
use online_dsl_forge.Lexer.Scan.{
  run, lex_char, tokenize_with_limits, tokens_or_diagnostics, initial,
}
use online_dsl_forge.Lexer.Rounds.{lex_char-Lexed}
use online_dsl_forge.Lexer.Literals.{Lexed}

-- The last token is `eof`.
abbrev pub EndsInEof : List Token → Type 0
EndsInEof ts =
    (last : Token) × (get_elem? ts (length ts - 1) ≡ some last) × (last.kind ≡ TokenKind.eof)

EndsInEof-append : (ts : List Token) (t : Token) → t.kind ≡ TokenKind.eof → EndsInEof (ts ++ t ∷ [])
EndsInEof-append ts t h =
    let at_end : length (ts ++ t ∷ []) - 1 ≡ length ts = omega (arith, length-append ts (t ∷ [])) in
    (t, rw at_end (at ts), h)
  where
    at : (ts : List Token) → get_elem? (ts ++ t ∷ []) (length ts) ≡ some t
    at [] = refl
    at (x ∷ ts) = at ts

-- Of the tokens of a text of `total` bytes: there are not too many, their spans are in order and
-- in the text, their names and strings are not too long together, and the last is `eof`.
pub record AreTokens (total : ℕ) (limits : ParseLimits) (ts : List Token) : Type 0 where
  pub few : length ts ≤ limits.max_tokens
  pub ordered : InOrder 0 ts total
  pub affordable : token_bytes ts ≤ limits.max_decoded_scalar_bytes
  pub ends : EndsInEof ts

-- At least one diagnostic, and not too many.
abbrev pub AreDiagnostics : ParseLimits → List Diagnostic → Type 0
AreDiagnostics limits ds = (0 < length ds) × (length ds ≤ max 1 limits.max_diagnostics)

module _ (parse_f64 : Text → Option F64) (total : ℕ) (limits : ParseLimits) where
  -- A lexer that `run` returned.
  record IsDone (lx : Lexer) : Type 0 where
    pub rest : List ℕ
    pub fine : Fine total limits 0 lx.position rest lx
    pub done : lx.stopped ≡ false → EndsInEof lx.tokens

  eof-IsDone :
      (lx : Lexer)
      → Fine total limits 0 lx.position [] lx
      → IsDone (push_token lx TokenKind.eof lx.position lx.position)
  unfolding push_token has_token_capacity
  eof-IsDone lx fine = record {
    rest = [];
    fine = subst (λ q. Fine total limits 0 q [] pushed) (same_place) at;
    done = elim (Bool-cases (leb lx.limits.max_tokens (length lx.tokens))) [
      | inl full ↦ rw full (λ s. cc)
      | inr room ↦ rw room (λ s. EndsInEof-append lx.tokens _ refl)
    ];
  }
    where
      pushed : Lexer
      pushed = push_token lx TokenKind.eof lx.position lx.position

      at : Fine total limits 0 lx.position [] pushed
      at =
          push_token-Fine total limits fine TokenKind.eof lx.position (omega arith) (omega arith)
            (omega arith)

      same_place : lx.position ≡ pushed.position
      same_place = omega (arith, fine.located, at.located)

  abbrev Outcome : Option Lexer → Type 0
  Outcome o = (lx : Lexer) × (o ≡ some lx) × IsDone lx

  run-IsDone :
      (fuel : ℕ) (lx : Lexer) (rest : List ℕ)
      → Fine total limits 0 lx.position rest lx
      → (lx.stopped ≡ false → length rest < fuel)
      → 0 < fuel
      → Outcome (run parse_f64 fuel lx)
  unfolding run
  run-IsDone zero lx rest fine h hp = absurd (omega arith)
  run-IsDone (suc fuel) lx rest fine h hp = loop lx.stopped refl (λ s.
      subst (λ r. Outcome (round (head r))) (sym fine.rest_same)
        (go rest fine (h s)
          λ c l hf. run-IsDone fuel (lex_char parse_f64 lx c) l.rest l.fine l.shorter hf))
    where
      round : Option ℕ → Option Lexer
      round none = some (push_token lx TokenKind.eof lx.position lx.position)
      round (some c) = run parse_f64 fuel (lex_char parse_f64 lx c)

      go :
          (rest : List ℕ)
          → Fine total limits 0 lx.position rest lx
          → length rest < suc fuel
          → ((c : ℕ)
              → Lexed total limits fuel (lex_char parse_f64 lx c)
              → 0 < fuel
              → Outcome (run parse_f64 fuel (lex_char parse_f64 lx c)))
          → Outcome (round (head rest))
      go [] fine l next =
          (push_token lx TokenKind.eof lx.position lx.position, refl, eof-IsDone lx fine)
      go (c ∷ cs) fine l next =
          next c (lex_char-Lexed total limits fine (omega arith) parse_f64) (omega arith)

      loop :
          (b : Bool)
          → lx.stopped ≡ b
          → (lx.stopped ≡ false → Outcome (round (head lx.rest)))
          → Outcome (elim b [ true ↦ some lx | false ↦ round (head lx.rest) ])
      loop true s next = (lx, refl, record { rest = rest; fine = fine; done = λ g. cc })
      loop false s next = next s

-- Tokenizing never runs out of fuel. It yields tokens that obey the limits, have spans that follow
-- each other within the source, and end in `eof`; or at least one diagnostic, and at most
-- `max_diagnostics` of them (one, where the limit is zero).
pub tokenize_with_limits_ends :
    (parse_f64 : Text → Option F64) (input : Text) (limits : ParseLimits)
    → ((ts : List Token) × (tokenize_with_limits parse_f64 input limits ≡ ok ts)
        × AreTokens (byte_length input) limits ts)
      ⊎ ((ds : List Diagnostic) × (tokenize_with_limits parse_f64 input limits ≡ err ds)
          × AreDiagnostics limits ds)
unfolding tokenize_with_limits token_bytes
tokenize_with_limits_ends parse_f64 input limits =
    elim (Bool-cases (ltb limits.max_source_bytes (byte_length input))) [
      | inl t ↦ rw t (inr (_, refl, (omega arith, omega arith)))
      | inr t ↦
          let fine : Fine (byte_length input) limits 0 0 input (initial input limits) = record {
            rest_same = refl;
            limits_same = refl;
            located = omega arith;
            few_tokens = omega arith;
            paid = omega arith;
            affordable = omega arith;
            reported = λ s. cc;
            few_diagnostics = omega arith;
            ordered = omega arith;
            marked = omega arith;
          } in
          let (lx, e, done) =
            run-IsDone parse_f64 (byte_length input) limits (suc (length input))
              (initial input limits) input fine (λ s. omega arith) (omega arith) in
          rw (t, e) (finish lx done lx.diagnostics refl)
    ]
  where
    finish :
        (lx : Lexer)
        → IsDone parse_f64 (byte_length input) limits lx
        → (ds : List Diagnostic) → lx.diagnostics ≡ ds
        → ((ts : List Token) × (tokens_or_diagnostics lx ds ≡ ok ts)
            × AreTokens (byte_length input) limits ts)
          ⊎ ((ds' : List Diagnostic) × (tokens_or_diagnostics lx ds ≡ err ds')
              × AreDiagnostics limits ds')
    finish lx done [] e =
        let running : lx.stopped ≡ false = elim (Bool-cases lx.stopped) [
          | inl s ↦ absurd (omega (arith, done.fine.reported s, ap length e))
          | inr s ↦ s
        ] in
        inl (
          lx.tokens,
          refl,
          record {
            few = done.fine.few_tokens;
            ordered = InOrder-le 0 lx.tokens (omega (arith, done.fine.located)) done.fine.ordered;
            affordable = omega (arith, done.fine.paid, done.fine.affordable);
            ends = done.done running;
          },
        )
    finish lx done (d ∷ ds) e =
        inr (d ∷ ds, refl, (omega arith, omega (arith, done.fine.few_diagnostics, ap length e)))
