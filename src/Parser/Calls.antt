-- ===== src/Parser/Calls.antt =====
-- The loops over arguments, items and selectors, and the parsers of primaries and unaries.
use online_dsl_forge.Base.{
  zero, suc, some, true, refl, accepts, ◌>>=◌, List, get_elem?, length, ◌-◌, ◌≡◌, ℕ, ◌<◌, ◌+◌, ◌≤◌,
  arith, Ends, Ends-bind,
}
use online_dsl_forge.Syntax.{
  nil, ParseLimits, len, SourceSpan, expected_argument_comma, array, expected_array_comma,
}
use online_dsl_forge.Lexer.{Token}
use online_dsl_forge.Parser.{
  is_eof, Parse, ParsedExpression, max_parse_recursion_depth, Parser, ParsedSequence, push,
  empty_sequence, append, add_depth, make_expression,
}
use online_dsl_forge.Parser.Sound.{
  IsSound, Parses, append-serialized, append-len, append-widest, nested-IsSound, append-nodes,
  add-make-Parses,
}
use online_dsl_forge.Parser.Grammar.{
  args_loop, is_rparen, parse_call_args, array_loop, is_rbracket, is_comma,
}
use online_dsl_forge.Parser.State.{At, check_collection_width-Ends, if_let-Ends, expect_kind-Ends}
use online_dsl_forge.Syntax.Serialized.{
  list_serialized_depth, serialized_depth, list_widest, widest,
}
use online_dsl_forge.Syntax.Measure.{list_nodes, node_count}

module _ (ts : List Token) (last : Token) (limits : ParseLimits)
    (ends : get_elem? ts (length ts - 1) ≡ some last) (last_eof : is_eof last.kind ≡ true) (d : ℕ)
    (parse_or : Parse ParsedExpression)
    (or_sound : d < max_parse_recursion_depth
      → IsSound ts last limits ends last_eof (suc d) parse_or) where
  abbrev pub AtTs : ℕ → Parser → Type 0
  AtTs = At ts last limits ends last_eof d

  abbrev pub ParsesTs : ℕ → ℕ → ParsedExpression × Parser → Type 0
  ParsesTs = Parses ts last limits ends last_eof d

  -- The sequence's bound is the depth of its expressions, and it is not too wide.
  pub record IsSequence (s : ParsedSequence) : Type 0 where
    pub depth_is : s.max_serialized_depth ≡ list_serialized_depth s.expressions
    pub width : len s.expressions ≤ limits.max_collection_items
    pub narrow : list_widest s.expressions ≤ limits.max_collection_items

  pub IsSequence-empty : IsSequence empty_sequence
  unfolding serialized_depth widest
  IsSequence-empty = record { depth_is = refl; width = omega arith; narrow = omega arith }

  IsSequence-push :
      (s : ParsedSequence) {n start : ℕ} {e : ParsedExpression} {p : Parser}
      → IsSequence s
      → len s.expressions < limits.max_collection_items
      → ParsesTs n start (e, p)
      → IsSequence (push s e)
  IsSequence-push s {e} q w g = record {
    depth_is = omega (arith, append-serialized s.expressions e.ast_of, q.depth_is, g.depth_is);
    width = omega (arith, append-len s.expressions e.ast_of);
    narrow = omega (arith, append-widest s.expressions e.ast_of, q.narrow, g.narrow);
  }

  -- From `n` nodes and position `start`, the arguments behind those in `args`.
  pub record ParsesArgs (n start : ℕ) (r : (ParsedSequence × SourceSpan) × Parser) : Type 0 where
    pub at : AtTs (n + list_nodes r.0.0.expressions) r.1
    pub moved : start < r.1.position
    pub sequence : IsSequence r.0.0

  args_loop-Ends :
      (fuel n start : ℕ) (args : ParsedSequence) (p : Parser)
      → AtTs (n + list_nodes args.expressions) p
      → IsSequence args
      → start ≤ p.position
      → length ts ≤ fuel + p.position
      → Ends (ParsesArgs n start) (args_loop parse_or fuel args p)
  unfolding args_loop
  args_loop-Ends zero n start args p at seq hs hf = absurd (omega (arith, at.in_range))
  args_loop-Ends (suc fuel) n start args p at seq hs hf =
      Ends-bind
        (check_collection_width-Ends ts last limits ends last_eof at (len args.expressions) _)
        λ (_, p₁) (same, room). rw same (
          Ends-bind (nested-IsSound ts last limits ends last_eof d parse_or or_sound _ _ p at)
            λ (e, p₂) g.
              let seq' = IsSequence-push args seq room g in
              let nodes : n + list_nodes args.expressions + node_count e.ast_of
                  ≡ n + list_nodes (append args.expressions e.ast_of) =
                omega (arith, append-nodes args.expressions e.ast_of) in
              let at' : AtTs (n + list_nodes (push args e).expressions) p₂ = rw (← nodes) g.at in
              if_let-Ends ts last limits ends last_eof at' is_rparen _ refl
                (λ at₃.
                  accepts (record { at = at₃; moved = omega (arith, g.moved); sequence = seq' }))
                (Ends-bind
                  (expect_kind-Ends ts last limits ends last_eof at' expected_argument_comma
                    is_comma refl)
                  λ (_, p₃) (at₃, m).
                    args_loop-Ends fuel n start (push args e) p₃ at₃ seq' (omega (arith, g.moved))
                      (omega (arith, g.moved))))

  -- `parse_call_args` at a position behind `start`.
  pub parse_call_args-Ends :
      (n start : ℕ) (p : Parser)
      → AtTs n p
      → start ≤ p.position
      → Ends (ParsesArgs n start) (parse_call_args parse_or p)
  unfolding parse_call_args
  parse_call_args-Ends n start p at hs =
      if_let-Ends ts last limits ends last_eof at is_rparen _ refl
        (λ at₁.
          accepts
            (record { at = rw none_more at₁; moved = omega arith; sequence = IsSequence-empty }))
        (args_loop-Ends (suc (length p.tokens)) n start empty_sequence p (rw none_more at)
          IsSequence-empty hs (rw at.tokens_same (omega arith)))
    where
      none_more : n + list_nodes nil ≡ n
      none_more = unfold node_count in omega arith

  pub array-Parses :
      (n start : ℕ) (items : ParsedSequence) (p : Parser) (s t : SourceSpan)
      → AtTs (n + list_nodes items.expressions) p
      → IsSequence items
      → start < p.position
      → Ends (ParsesTs n start) (
          add_depth 3 items.max_serialized_depth t p >>= λ (depth, q).
          make_expression (array items.expressions) s depth q)
  unfolding node_count serialized_depth widest
  array-Parses n start items p s t at seq h =
      add-make-Parses ts last limits ends last_eof d n start p 3 items.max_serialized_depth
        (array items.expressions) s t at h (omega (arith, seq.depth_is))
        (omega (arith, seq.width, seq.narrow))

  pub array_loop-Ends :
      (fuel n start : ℕ) (s : SourceSpan) (items : ParsedSequence) (p : Parser)
      → AtTs (n + list_nodes items.expressions) p
      → IsSequence items
      → start ≤ p.position
      → length ts ≤ fuel + p.position
      → Ends (ParsesTs n start) (array_loop parse_or fuel s items p)
  unfolding array_loop
  array_loop-Ends zero n start s items p at seq hs hf = absurd (omega (arith, at.in_range))
  array_loop-Ends (suc fuel) n start s items p at seq hs hf =
      Ends-bind
        (check_collection_width-Ends ts last limits ends last_eof at (len items.expressions) _)
        λ (_, p₁) (same, room). rw same (
          Ends-bind (nested-IsSound ts last limits ends last_eof d parse_or or_sound s _ p at)
            λ (e, p₂) g.
              let seq' = IsSequence-push items seq room g in
              let nodes : n + list_nodes items.expressions + node_count e.ast_of
                  ≡ n + list_nodes (append items.expressions e.ast_of) =
                omega (arith, append-nodes items.expressions e.ast_of) in
              let at' : AtTs (n + list_nodes (push items e).expressions) p₂ = rw (← nodes) g.at in
              if_let-Ends ts last limits ends last_eof at' is_rbracket _ refl
                (λ at₃. array-Parses n start (push items e) _ _ s at₃ seq' (omega (arith, g.moved)))
                (Ends-bind
                  (expect_kind-Ends ts last limits ends last_eof at' expected_array_comma is_comma
                    refl)
                  λ (_, p₃) (at₃, m).
                    array_loop-Ends fuel n start s (push items e) p₃ at₃ seq'
                      (omega (arith, g.moved)) (omega (arith, g.moved))))
