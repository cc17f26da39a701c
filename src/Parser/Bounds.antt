-- ===== src/Parser/Bounds.antt =====
-- `parse_expression_with_limits` always ends, and its ASTs obey the limits.
use online_dsl_forge.Base.{
  inl, inr, [], ◌∷◌, some, true, refl, accepts, refuses, List, length, ◌-◌, ◌≡◌, ◌<◌, ◌≤◌, arith,
  Text, Option, get_elem?, not as negate, Ends, Ends-bind, Ends-fail_if, map_err, Result,
}
use online_dsl_forge.Syntax.{ParseLimits, F64, AstExpression}
use online_dsl_forge.Lexer.{Token}
use online_dsl_forge.Syntax.Serialized.{serialized_depth, widest}
use online_dsl_forge.Syntax.Measure.{node_count}
use online_dsl_forge.Parser.{is_eof, peek, max_ast_serialized_depth}
use online_dsl_forge.Parser.Grammar.{parse_expression_with_limits, parse, new, enough_fuel}
use online_dsl_forge.Lexer.Bounds.{tokenize_with_limits_ends}
use online_dsl_forge.Parser.State.{At}
use online_dsl_forge.Parser.Postfix.{parse_or-IsSound}

-- At most `max_ast_nodes` nodes, a JSON form that is at most 127 deep, and no array or argument
-- list of more than `max_collection_items`.
pub record IsWithin (limits : ParseLimits) (e : AstExpression) : Type 0 where
  pub few : node_count e ≤ limits.max_ast_nodes
  pub shallow : serialized_depth e ≤ max_ast_serialized_depth
  pub narrow : widest e ≤ limits.max_collection_items

map_err-Ends {ℓ κ ι} :
    {E : Type ℓ} {A : Type κ} {P : A → Type ι} (f : E → E) {r : Result E A}
    → Ends P r
    → Ends P (map_err f r)
map_err-Ends f (accepts h) = accepts h
map_err-Ends f (refuses b) = refuses b

nonempty :
    (ts : List Token) {last : Token} → get_elem? ts (length ts - 1) ≡ some last → 0 < length ts
nonempty [] h = cc
nonempty (t ∷ ts) h = omega arith

module _ (ts : List Token) (last : Token) (limits : ParseLimits)
    (ends : get_elem? ts (length ts - 1) ≡ some last) (last_eof : is_eof last.kind ≡ true) where
  parse-Ends : Ends (IsWithin limits) (parse (new ts limits))
  unfolding parse
  parse-Ends =
      Ends-bind
        (parse_or-IsSound ts last limits ends last_eof enough_fuel 0 (omega arith) (omega arith) 0
          (new ts limits) start)
        λ (e, p) g. Ends-fail_if (negate (is_eof (peek p).kind)) _ λ _. accepts (record {
          few = omega (arith, g.at.nodes_fit);
          shallow = omega (arith, g.depth_is, g.shallow);
          narrow = g.narrow;
        })
    where
      start : At ts last limits ends last_eof 0 0 (new ts limits)
      start = record {
        tokens_same = refl;
        limits_same = refl;
        depth_same = refl;
        nodes_same = refl;
        in_range = nonempty ts ends;
        nodes_fit = omega arith;
      }

-- Parsing never runs out of fuel: for each text, all limits and any reading of floats it returns
-- an error, or an AST that obeys the limits on nodes, nesting and collections.
pub parse_expression_with_limits-Ends :
    (parse_f64 : Text → Option F64) (input : Text) (limits : ParseLimits)
    → Ends (IsWithin limits) (parse_expression_with_limits parse_f64 input limits)
unfolding parse_expression_with_limits
parse_expression_with_limits-Ends parse_f64 input limits =
    elim (tokenize_with_limits_ends parse_f64 input limits) [
      | inl (ts, e, good) ↦
          let (last, at_end, is_eof_kind) = good.ends in
          rw e (map_err-Ends _ (parse-Ends ts last limits at_end (rw is_eof_kind refl)))
      | inr (ds, e, bad) ↦ rw e (refuses tt)
    ]
