-- ===== src/Parser/Primary.antt =====
-- Primaries, selectors and unaries.
use online_dsl_forge.Base.{
  suc, some, true, false, refl, accepts, refuses, List, get_elem?, length, ◌-◌, ◌≡◌, ℕ, ◌<◌, ◌+◌,
  Ends, Ends-bind, ◌≤◌, arith, Text, sym, Ends-fail_if, ap, max, ◌∙◌, if◌then◌else◌,
}
use online_dsl_forge.Syntax.{
  nil, ParseLimits, ExprKind, SourceSpan, expected_closing_parenthesis, array, function_call,
  method_call, member,
}
use online_dsl_forge.Lexer.{Token, TokenKind}
use online_dsl_forge.Parser.{
  is_eof, Parse, ParsedExpression, max_parse_recursion_depth, Parser, validate_identifier,
  make_expression, skip, empty_sequence, peek,
}
use online_dsl_forge.Parser.Sound.{IsSound, Parses, nested-IsSound, make-Parses, add-make-Parses}
use online_dsl_forge.Parser.Grammar.{
  parse_array, parse_name, parse_parenthesized, parse_token, parse_primary, parse_selector,
  is_rparen, is_rbracket, is_lparen,
}
use online_dsl_forge.Parser.State.{
  At, expect_kind-Ends, if_let-Ends, add_depth-Ends, skip-At, advance_lem,
}
use online_dsl_forge.Syntax.Measure.{node_count, kind_nodes}
use online_dsl_forge.Syntax.Serialized.{
  kind_serialized_depth, kind_widest, serialized_depth, widest,
}
use online_dsl_forge.Validation.{is_reserved_identifier}
use online_dsl_forge.Parser.Calls.{parse_call_args-Ends, array_loop-Ends, IsSequence-empty}
use native.Mathlib.Nat.{add_assoc}

module _ (ts : List Token) (last : Token) (limits : ParseLimits)
    (ends : get_elem? ts (length ts - 1) ≡ some last) (last_eof : is_eof last.kind ≡ true) (d : ℕ)
    (parse_or : Parse ParsedExpression)
    (or_sound : d < max_parse_recursion_depth
      → IsSound ts last limits ends last_eof (suc d) parse_or) where
  abbrev AtHere : ℕ → Parser → Type 0
  AtHere = At ts last limits ends last_eof d

  abbrev Outcome : ℕ → ℕ → ParsedExpression × Parser → Type 0
  Outcome = Parses ts last limits ends last_eof d

  make-Ends :
      (n start : ℕ) (p : Parser) (k : ExprKind) (s : SourceSpan) (depth : ℕ)
      → AtHere (n + kind_nodes k) p
      → start < p.position
      → depth ≡ kind_serialized_depth k
      → kind_widest k ≤ limits.max_collection_items
      → Ends (Outcome n start) (make_expression k s depth p)
  make-Ends = make-Parses ts last limits ends last_eof d

  leaf-Ends :
      (n start : ℕ) (p : Parser) (k : ExprKind) (s : SourceSpan)
      → AtHere n p
      → start < p.position
      → kind_nodes k ≡ 0
      → kind_serialized_depth k ≡ 2
      → kind_widest k ≡ 0
      → Ends (Outcome n start) (make_expression k s 2 p)
  leaf-Ends n start p k s at h zn zd zw =
      let none_more : n + kind_nodes k ≡ n = omega arith in
      make-Ends n start p k s 2 (rw none_more at) h (sym zd) (omega arith)

  parse_array-Ends :
      (n start : ℕ) (s : SourceSpan) (p : Parser)
      → AtHere n p
      → start < p.position
      → Ends (Outcome n start) (parse_array parse_or s p)
  unfolding parse_array node_count serialized_depth widest
  parse_array-Ends n start s p at h =
      let none_more : n + 0 ≡ n = omega arith in
      if_let-Ends ts last limits ends last_eof at is_rbracket _ refl
        (λ at₁.
          make-Ends n start (skip p) (array nil) _ 3 (rw none_more at₁) (omega arith) refl
            (omega arith))
        (array_loop-Ends ts last limits ends last_eof d parse_or or_sound (suc (length p.tokens)) n
          start s empty_sequence p (rw none_more at)
          (IsSequence-empty ts last limits ends last_eof d parse_or or_sound) (omega arith)
          (rw at.tokens_same (omega arith)))

  parse_name-Ends :
      (n start : ℕ) (name : Text) (s : SourceSpan) (p : Parser)
      → AtHere n p
      → start < p.position
      → Ends (Outcome n start) (parse_name parse_or name s p)
  unfolding parse_name validate_identifier node_count serialized_depth widest
  parse_name-Ends n start name s p at h = Ends-fail_if (is_reserved_identifier name) _ λ _.
      if_let-Ends ts last limits ends last_eof at is_lparen _ refl
        (λ at₁.
          Ends-bind
            (parse_call_args-Ends ts last limits ends last_eof d parse_or or_sound n (suc start)
              (skip p) at₁ (omega arith))
            λ ((args, end_span), p₂) g.
              add-make-Parses ts last limits ends last_eof d n start p₂ 3 args.max_serialized_depth
                (function_call name args.expressions) _ _ g.at (omega (arith, g.moved))
                (omega (arith, g.sequence.depth_is))
                (omega (arith, g.sequence.width, g.sequence.narrow)))
        (leaf-Ends n start p (ExprKind.identifier name) s at h refl refl refl)

  parse_parenthesized-Ends :
      (n start : ℕ) (s : SourceSpan) (p : Parser)
      → AtHere n p
      → start < p.position
      → Ends (Outcome n start) (parse_parenthesized parse_or s p)
  unfolding parse_parenthesized
  parse_parenthesized-Ends n start s p at h =
      Ends-bind (nested-IsSound ts last limits ends last_eof d parse_or or_sound s n p at)
        λ (e, p₁) g.
          Ends-bind
            (expect_kind-Ends ts last limits ends last_eof g.at expected_closing_parenthesis
              is_rparen refl)
            λ (_, p₂) (at₂, m). accepts (record {
              at = at₂;
              moved = omega (arith, g.moved);
              depth_is = g.depth_is;
              shallow = g.shallow;
              narrow = g.narrow;
            })

  parse_token-Ends :
      (n start : ℕ) (k : TokenKind) (s : SourceSpan) (p : Parser)
      → AtHere n p
      → start < p.position
      → Ends (Outcome n start) (parse_token parse_or k s p)
  unfolding parse_token node_count serialized_depth widest
  parse_token-Ends n start TokenKind.true_token s p at h =
      leaf-Ends n start p _ s at h refl refl refl
  parse_token-Ends n start TokenKind.false_token s p at h =
      leaf-Ends n start p _ s at h refl refl refl
  parse_token-Ends n start TokenKind.null_token s p at h =
      leaf-Ends n start p _ s at h refl refl refl
  parse_token-Ends n start (TokenKind.int v) s p at h = leaf-Ends n start p _ s at h refl refl refl
  parse_token-Ends n start (TokenKind.float v) s p at h =
      leaf-Ends n start p _ s at h refl refl refl
  parse_token-Ends n start (TokenKind.string v) s p at h =
      leaf-Ends n start p _ s at h refl refl refl
  parse_token-Ends n start (TokenKind.identifier name) s p at h =
      parse_name-Ends n start name s p at h
  parse_token-Ends n start TokenKind.lparen s p at h = parse_parenthesized-Ends n start s p at h
  parse_token-Ends n start TokenKind.lbracket s p at h = parse_array-Ends n start s p at h
  parse_token-Ends n start _ s p at h = refuses tt

  pub parse_primary-IsSound : IsSound ts last limits ends last_eof d (parse_primary parse_or)
  unfolding parse_primary parse_token
  parse_primary-IsSound n p at =
      rw (advance_lem ts last limits ends last_eof at) (go (peek p).kind refl)
    where
      behind :
          (k : TokenKind)
          → (peek p).kind ≡ k
          → is_eof k ≡ false
          → Ends (Outcome n p.position) (parse_token parse_or k (peek p).span (skip p))
      behind k t real =
          parse_token-Ends n p.position k (peek p).span (skip p)
            (skip-At ts last limits ends last_eof at (ap is_eof t ∙ real)) (omega arith)

      go :
          (k : TokenKind)
          → (peek p).kind ≡ k
          → Ends
              (Outcome n p.position)
              (parse_token parse_or k (peek p).span (if is_eof k then p else skip p))
      go TokenKind.eof t = refuses tt
      go k t = behind k t refl

  pub parse_selector-Ends :
      (n start : ℕ) (receiver : ParsedExpression) (name : Text) (p q : Parser)
      → Outcome n start (receiver, q)
      → AtHere (n + node_count receiver.ast_of) p
      → q.position < p.position
      → Ends (Outcome n q.position) (parse_selector parse_or receiver name p)
  unfolding parse_selector node_count serialized_depth widest
  parse_selector-Ends n start receiver name p q g at h =
      if_let-Ends ts last limits ends last_eof at is_lparen _ refl
        (λ at₁.
          Ends-bind
            (parse_call_args-Ends ts last limits ends last_eof d parse_or or_sound _
              (suc p.position) (skip p) at₁ (omega arith))
            λ ((args, end_span), p₂) ga.
              Ends-bind
                (add_depth-Ends ts last limits ends last_eof ga.at 2 receiver.serialized_depth _)
                λ (rd, p₃) (sum, same). rw same (
                  Ends-bind
                    (add_depth-Ends ts last limits ends last_eof ga.at 3 args.max_serialized_depth
                      _)
                    λ (ad, p₄) (sum', same'). rw same' (
                      make-Ends n q.position p₂ (method_call receiver.ast_of name args.expressions)
                        _ (max rd ad) (rw add_assoc at ga.at) (omega (arith, ga.moved))
                        (omega (arith, g.depth_is, ga.sequence.depth_is))
                        (omega (arith, g.narrow, ga.sequence.width, ga.sequence.narrow)))))
        (add-make-Parses ts last limits ends last_eof d n q.position p 2 receiver.serialized_depth
          (member receiver.ast_of name) _ _ at h (omega (arith, g.depth_is))
          (omega (arith, g.narrow)))
