-- ===== src/Parser/Postfix.antt =====
-- source/src/parser/parse.rs: `parse_postfix` and `parse_unary`, and the two parsers that call each
-- other back.
use online_dsl_forge.Base.{
  zero, suc, some, true, refl, accepts, List, get_elem?, length, ◌-◌, ◌≡◌, ℕ, ◌<◌, ◌+◌, ◌*◌, ◌≤◌,
  arith, Ends, Ends-bind,
}
use online_dsl_forge.Syntax.{ParseLimits, unary}
use online_dsl_forge.Lexer.{Token}
use online_dsl_forge.Parser.{
  is_eof, Parse, ParsedExpression, max_parse_recursion_depth, Parser, skip,
}
use online_dsl_forge.Syntax.Serialized.{serialized_depth, widest}
use online_dsl_forge.Syntax.Measure.{node_count}
use online_dsl_forge.Parser.Grammar.{
  unary_op, postfix_loop, parse_postfix, unary_body, is_dot, parse_or, parse_unary,
}
use online_dsl_forge.Parser.Sound.{
  IsSound, Parses, Parses-start, nested-IsSound, or_body-IsSound, add-make-Parses,
}
use online_dsl_forge.Syntax.Measure.{node_count}
use online_dsl_forge.Parser.State.{if_let-Ends, expect_identifier-Ends, if_let_op-Ends}
use online_dsl_forge.Parser.Primary.{parse_selector-Ends, parse_primary-IsSound}

module _ (ts : List Token) (last : Token) (limits : ParseLimits)
    (ends : get_elem? ts (length ts - 1) ≡ some last) (last_eof : is_eof last.kind ≡ true) where
  module _ (d : ℕ) (parse_or : Parse ParsedExpression)
      (or_sound : d < max_parse_recursion_depth
        → IsSound ts last limits ends last_eof (suc d) parse_or) where
    postfix_loop-Ends :
        (fuel n start : ℕ) (e : ParsedExpression) (p : Parser)
        → Parses ts last limits ends last_eof d n start (e, p)
        → length ts ≤ fuel + p.position
        → Ends (Parses ts last limits ends last_eof d n start) (postfix_loop parse_or fuel e p)
    unfolding postfix_loop
    postfix_loop-Ends zero n start e p g h = absurd (omega (arith, g.at.in_range))
    postfix_loop-Ends (suc fuel) n start e p g h =
        if_let-Ends ts last limits ends last_eof g.at is_dot _ refl
          (λ at₁.
            Ends-bind (expect_identifier-Ends ts last limits ends last_eof at₁)
              λ (name, p₂) (at₂, m).
                Ends-bind
                  (parse_selector-Ends ts last limits ends last_eof d parse_or or_sound n start e
                    name p₂ p g at₂ (omega arith))
                  λ (e', p₃) g'.
                    postfix_loop-Ends fuel n start e' p₃
                      (Parses-start ts last limits ends last_eof (omega (arith, g.moved)) g')
                      (omega (arith, g'.moved)))
          (accepts g)

    parse_postfix-IsSound : IsSound ts last limits ends last_eof d (parse_postfix parse_or)
    unfolding parse_postfix
    parse_postfix-IsSound n p at =
        Ends-bind (parse_primary-IsSound ts last limits ends last_eof d parse_or or_sound n p at)
          λ (e, p₁) g.
            postfix_loop-Ends (suc (length p.tokens)) n p.position e p₁ g
              (rw at.tokens_same (omega arith))

    unary_body-IsSound :
        (parse_unary : Parse ParsedExpression)
        → (d < max_parse_recursion_depth → IsSound ts last limits ends last_eof (suc d) parse_unary)
        → IsSound ts last limits ends last_eof d (unary_body parse_or parse_unary)
    unfolding unary_body node_count serialized_depth widest
    unary_body-IsSound parse_unary sound n p at =
        if_let_op-Ends ts last limits ends last_eof at unary_op _ refl
          (λ op _ at₁.
            Ends-bind
              (nested-IsSound ts last limits ends last_eof d parse_unary sound _ n (skip p) at₁)
              λ (e, p₁) g.
                add-make-Parses ts last limits ends last_eof d n p.position p₁ 2 e.serialized_depth
                  (unary op e.ast_of) _ _ g.at (omega (arith, g.moved)) (omega (arith, g.depth_is))
                  (omega (arith, g.narrow)))
          (parse_postfix-IsSound n p at)

  -- Each nesting has two calls, so this much fuel is enough.
  mutual
    unfolding parse_or parse_unary

    pub parse_or-IsSound :
        (fuel d : ℕ)
        → 2 * max_parse_recursion_depth + 2 ≤ fuel + 2 * d
        → d ≤ max_parse_recursion_depth
        → IsSound ts last limits ends last_eof d (parse_or fuel)
    parse_or-IsSound zero d h hd = absurd (omega arith)
    parse_or-IsSound (suc fuel) d h hd =
        or_body-IsSound ts last limits ends last_eof d (parse_unary fuel)
          (parse_unary-IsSound fuel d (omega arith) hd)

    parse_unary-IsSound :
        (fuel d : ℕ)
        → 2 * max_parse_recursion_depth + 1 ≤ fuel + 2 * d
        → d ≤ max_parse_recursion_depth
        → IsSound ts last limits ends last_eof d (parse_unary fuel)
    parse_unary-IsSound zero d h hd = absurd (omega arith)
    parse_unary-IsSound (suc fuel) d h hd =
        unary_body-IsSound d (parse_or fuel)
          (λ lt. parse_or-IsSound fuel (suc d) (omega arith) (omega arith)) (parse_unary fuel)
          (λ lt. parse_unary-IsSound fuel (suc d) (omega arith) (omega arith))
