-- ===== src/Parser/Sound.antt =====
-- Every parser ends, moves on, and returns an AST that its counters measure.
use online_dsl_forge.Syntax.{nil, cons, BinaryOp, len}
use online_dsl_forge.Base.{
  ◌>>=◌, zero, suc, none, some, true, refl, accepts, List, get_elem?, length, ◌≡◌, ◌-◌, ◌+◌, arith,
  ℕ, Ends, ◌<◌, ◌≤◌, Verdict-map, max, Option, Ends-fail_if, leb, Ends-bind, ◌∙◌, ap,
}
use online_dsl_forge.Parser.{
  append, is_eof, cons, ParsedExpression, Parser, Parse, make_expression, max_ast_serialized_depth,
  add_depth, make_binary, parse_nested, max_parse_recursion_depth, binary, skip,
}
use online_dsl_forge.Syntax.Measure.{node_count, list_nodes, kind_nodes}
use online_dsl_forge.Lexer.{Token, TokenKind, eof}
use online_dsl_forge.Syntax.{Expressions, ParseLimits, AstExpression, ExprKind, SourceSpan}
use online_dsl_forge.Parser.State.{At, make_expression-Ends, add_depth-Ends, if_let_op-Ends}
use online_dsl_forge.Syntax.Serialized.{
  kind_serialized_depth, serialized_depth, list_serialized_depth, widest, kind_widest, list_widest,
}
use online_dsl_forge.Parser.Grammar.{
  binary_loop, binary_level, or_body, parse_and, parse_equality, parse_comparison, parse_additive,
  parse_multiplicative, or_op, and_op, equality_op, comparison_op, additive_op, multiplicative_op,
}
use native.Mathlib.Nat.{add_assoc}

-- `Vec::push` adds the expression's measures.
pub append-nodes :
    (es : Expressions) (e : AstExpression) → list_nodes (append es e) ≡ list_nodes es + node_count e
unfolding append node_count
append-nodes nil e = omega arith
append-nodes (cons x xs) e = omega (arith, append-nodes xs e)

pub append-serialized :
    (es : Expressions) (e : AstExpression)
    → list_serialized_depth (append es e) ≡ max (list_serialized_depth es) (serialized_depth e)
unfolding append serialized_depth
append-serialized nil e = omega arith
append-serialized (cons x xs) e = omega (arith, append-serialized xs e)

pub append-len : (es : Expressions) (e : AstExpression) → len (append es e) ≡ suc (len es)
unfolding append
append-len nil e = refl
append-len (cons x xs) e = ap suc (append-len xs e)

pub append-widest :
    (es : Expressions) (e : AstExpression)
    → list_widest (append es e) ≡ max (list_widest es) (widest e)
unfolding append widest
append-widest nil e = omega arith
append-widest (cons x xs) e = omega (arith, append-widest xs e)

module _ (ts : List Token) (last : Token) (limits : ParseLimits)
    (ends : get_elem? ts (length ts - 1) ≡ some last) (last_eof : is_eof last.kind ≡ true) where
  -- From a parser at position `start` with `n` nodes: a token was taken, the new nodes are those of
  -- the AST, and the depth is the AST's, within the bound.
  pub record Parses (d n start : ℕ) (r : ParsedExpression × Parser) : Type 0 where
    pub at : At ts last limits ends last_eof d (n + node_count r.0.ast_of) r.1
    pub moved : start < r.1.position
    pub depth_is : r.0.serialized_depth ≡ serialized_depth r.0.ast_of
    pub shallow : r.0.serialized_depth ≤ max_ast_serialized_depth
    pub narrow : widest r.0.ast_of ≤ limits.max_collection_items

  abbrev pub AtTs : ℕ → ℕ → Parser → Type 0
  AtTs = At ts last limits ends last_eof

  -- A parser of expressions, at nesting `d`.
  abbrev pub IsSound : ℕ → Parse ParsedExpression → Type 0
  IsSound d m = (n : ℕ) (p : Parser) → AtTs d n p → Ends (Parses d n p.position) (m p)

  pub Parses-start :
      {d n start start' : ℕ} {r : ParsedExpression × Parser}
      → start ≤ start'
      → Parses d n start' r
      → Parses d n start r
  Parses-start h g = record {
    at = g.at;
    moved = omega (arith, g.moved);
    depth_is = g.depth_is;
    shallow = g.shallow;
    narrow = g.narrow;
  }

  pub make-Parses :
      (d n start : ℕ) (p : Parser) (k : ExprKind) (s : SourceSpan) (depth : ℕ)
      → AtTs d (n + kind_nodes k) p
      → start < p.position
      → depth ≡ kind_serialized_depth k
      → kind_widest k ≤ limits.max_collection_items
      → Ends (Parses d n start) (make_expression k s depth p)
  unfolding node_count serialized_depth widest
  make-Parses d n start p k s depth at h e w =
      Verdict-map
        (λ r (same, at', pos, fits).
          let nodes : n + node_count r.0.ast_of ≡ suc (n + kind_nodes k) = rw same (omega arith) in
          record {
            at = rw nodes at';
            moved = omega arith;
            depth_is = rw same e;
            shallow = rw same fits;
            narrow = rw same w;
          })
        (λ b. b) (make_expression-Ends ts last limits ends last_eof at k s depth)

  -- The depth is computed first.
  pub add-make-Parses :
      (d n start : ℕ) (p : Parser) (outer inner : ℕ) (k : ExprKind) (s t : SourceSpan)
      → AtTs d (n + kind_nodes k) p
      → start < p.position
      → outer + inner ≡ kind_serialized_depth k
      → kind_widest k ≤ limits.max_collection_items
      → Ends
          (Parses d n start)
          (add_depth outer inner t p >>= λ (depth, q). make_expression k s depth q)
  add-make-Parses d n start p outer inner k s t at h e w =
      Ends-bind (add_depth-Ends ts last limits ends last_eof at outer inner t)
        λ (depth, q) (sum, same). rw same (make-Parses d n start p k s depth at h (sum ∙ e) w)

  pub make_binary-Parses :
      (d n start : ℕ) (p : Parser) (l r : ParsedExpression) (op : BinaryOp)
      → AtTs d (n + (node_count l.ast_of + node_count r.ast_of)) p
      → start < p.position
      → l.serialized_depth ≡ serialized_depth l.ast_of
      → r.serialized_depth ≡ serialized_depth r.ast_of
      → max (widest l.ast_of) (widest r.ast_of) ≤ limits.max_collection_items
      → Ends (Parses d n start) (make_binary l op r p)
  unfolding make_binary node_count serialized_depth widest
  make_binary-Parses d n start p l r op at h dl dr w =
      add-make-Parses d n start p 2 (max l.serialized_depth r.serialized_depth)
        (binary l.ast_of op r.ast_of) _ _ at h (omega arith) w

  pub nested-IsSound :
      (d : ℕ) (parse : Parse ParsedExpression)
      → (d < max_parse_recursion_depth → IsSound (suc d) parse)
      → (s : SourceSpan) → IsSound d (parse_nested s parse)
  unfolding parse_nested
  nested-IsSound d parse sound s n p at =
      Ends-fail_if (leb max_parse_recursion_depth p.recursion_depth) _ λ t.
        Ends-bind
          (sound (ground (arith, at.depth_same)) n
            (record p { recursion_depth = p.recursion_depth + 1 }) (ground arith))
          λ (e, q) g. accepts (ground arith)

  module _ (d : ℕ) (op_of : TokenKind → Option BinaryOp) (operand : Parse ParsedExpression)
      (eof_none : op_of eof ≡ none) (sound : IsSound d operand) where
    binary_loop-Ends :
        (fuel n start : ℕ) (e : ParsedExpression) (p : Parser)
        → Parses d n start (e, p)
        → length ts ≤ fuel + p.position
        → Ends (Parses d n start) (binary_loop op_of operand fuel e p)
    unfolding binary_loop
    binary_loop-Ends zero n start e p g h = absurd (omega (arith, g.at.in_range))
    binary_loop-Ends (suc fuel) n start e p g h =
        if_let_op-Ends ts last limits ends last_eof g.at op_of _ eof_none
          (λ op _ at. Ends-bind (sound _ (skip p) at) λ (right, p₁) gr.
            Ends-bind
              (make_binary-Parses d n (p.position + 1) p₁ e right op (rw add_assoc at gr.at)
                gr.moved g.depth_is gr.depth_is (omega (arith, g.narrow, gr.narrow)))
              λ (e', p₂) g'.
                binary_loop-Ends fuel n start e' p₂ (Parses-start (omega (arith, g.moved)) g')
                  (omega (arith, g'.moved)))
          (accepts g)

    pub binary_level-IsSound : IsSound d (binary_level op_of operand)
    unfolding binary_level
    binary_level-IsSound n p at = Ends-bind (sound n p at) λ (e, p₁) g.
        binary_loop-Ends (suc (length p.tokens)) n p.position e p₁ g
          (rw at.tokens_same (omega arith))

  module _ (d : ℕ) (unary : Parse ParsedExpression) (sound : IsSound d unary) where
    pub or_body-IsSound : IsSound d (or_body unary)
    unfolding or_body parse_and parse_equality parse_comparison parse_additive parse_multiplicative
    or_body-IsSound =
        level or_op
          (level and_op
            (level equality_op
              (level comparison_op (level additive_op (level multiplicative_op sound refl) refl)
                refl)
              refl)
            refl)
          refl
      where
        level :
            {operand : Parse ParsedExpression} (op_of : TokenKind → Option BinaryOp)
            → IsSound d operand
            → op_of eof ≡ none
            → IsSound d (binary_level op_of operand)
        level {operand} op_of s e = binary_level-IsSound d op_of operand e s
