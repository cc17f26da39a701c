-- ===== src/Preflight/Correct.antt =====
-- `preflight_ast` against the recursive measures of the AST.
use online_dsl_forge.Base.{
  ℕ, zero, suc, ◌+◌, ◌-◌, ◌≤◌, ◌<◌, max, true, ◌&&◌, [], ◌∷◌, ◌≡◌, ◌≢◌, refl, ◌↔◌, ◌⊎◌, inl, inr,
  arith, ok, out_of_fuel, ltb, leb, ltb→lt, ltb→le, Verdict, accepts, Verdict-fail_if,
  Verdict-ok_or, Verdict-bind, Verdict-map, Verdict-eq-ok_iff, Verdict-ends,
}
use online_dsl_forge.Base.Usize.{usize_max, checked_add, checked_add-eq-none, checked_add-eq-some}
use online_dsl_forge.Syntax.{
  AstExpression, ExprKind, Expressions, ast, null, array, member, function_call, method_call, unary,
  binary, nil, cons,
}
use online_dsl_forge.Syntax.Measure.{
  node_count, kind_nodes, list_nodes, depth, kind_depth, list_depth, node_count_pos, depth_pos,
  len-le-list_nodes, list_depth_pos,
}
use online_dsl_forge.Preflight.{
  AstMetrics, Stack, Walk, child_count, push_all, push_children, preflight_step, preflight_loop,
  preflight_ast,
}

-- The nodes that are still to be visited, and the depth of the deepest of them.
unfoldable pub stack_nodes : Stack → ℕ
stack_nodes [] = 0
stack_nodes ((e, d) ∷ stack) = node_count e + stack_nodes stack

stack_depth : Stack → ℕ
stack_depth [] = 0
stack_depth ((e, d) ∷ stack) = max (d + depth e - 1) (stack_depth stack)

pub stack_nodes-cons :
    (e : AstExpression) (d : ℕ) (stack : Stack)
    → stack_nodes ((e, d) ∷ stack) ≡ node_count e + stack_nodes stack
unfolding stack_nodes
stack_nodes-cons e d stack = refl

push_all_nodes :
    (es : Expressions) (d : ℕ) (stack : Stack)
    → stack_nodes (push_all es d stack) ≡ list_nodes es + stack_nodes stack
unfolding push_all stack_nodes node_count
push_all_nodes nil d stack = omega arith
push_all_nodes (cons e es) d stack = omega (arith, push_all_nodes es d stack)

push_all_depth :
    (es : Expressions) (d : ℕ) (stack : Stack)
    → max d (stack_depth (push_all es (suc d) stack)) ≡ max (d + list_depth es) (stack_depth stack)
unfolding push_all stack_depth depth
push_all_depth nil d stack = omega arith
push_all_depth (cons e es) d stack = omega (arith, push_all_depth es d stack, depth_pos e)

pub push_children_nodes :
    (k : ExprKind) (d : ℕ) (stack : Stack)
    → stack_nodes (push_children stack k d) ≡ kind_nodes k + stack_nodes stack
unfolding push_children stack_nodes node_count
push_children_nodes (array es) d stack = push_all_nodes es d stack
push_children_nodes (function_call n es) d stack = push_all_nodes es d stack
push_children_nodes (method_call r n es) d stack = omega (arith, push_all_nodes es d stack)
push_children_nodes _ d stack = omega arith

push_children_depth :
    (k : ExprKind) (d : ℕ) (stack : Stack)
    → max d (stack_depth (push_children stack k (suc d)))
      ≡ max (d + kind_depth k) (stack_depth stack)
unfolding push_children stack_depth depth
push_children_depth (array es) d stack = push_all_depth es d stack
push_children_depth (function_call n es) d stack = push_all_depth es d stack
push_children_depth (method_call r n es) d stack =
    omega (arith, push_all_depth es d stack, depth_pos r)
push_children_depth (member r n) d stack = omega (arith, depth_pos r)
push_children_depth (unary op r) d stack = omega (arith, depth_pos r)
push_children_depth (binary l op r) d stack = omega (arith, depth_pos l, depth_pos r)
push_children_depth _ d stack = omega arith

child_count-le : (k : ExprKind) → child_count k ≤ kind_nodes k
unfolding child_count node_count
child_count-le (array es) = len-le-list_nodes es
child_count-le (function_call n es) = len-le-list_nodes es
child_count-le (method_call r n es) = omega (arith, len-le-list_nodes es, node_count_pos r)
child_count-le (member r n) = node_count_pos r
child_count-le (unary op r) = node_count_pos r
child_count-le (binary l op r) = omega (arith, node_count_pos l, node_count_pos r)
child_count-le _ = omega arith

kind_depth_pos : (k : ExprKind) → 0 < child_count k → 0 < kind_depth k
unfolding child_count depth
kind_depth_pos (array es) h = list_depth_pos es h
kind_depth_pos (function_call n es) h = list_depth_pos es h
kind_depth_pos (method_call r n es) h = omega (arith, depth_pos r)
kind_depth_pos (member r n) h = depth_pos r
kind_depth_pos (unary op r) h = depth_pos r
kind_depth_pos (binary l op r) h = omega (arith, depth_pos l)
kind_depth_pos null h = absurd (omega arith)
kind_depth_pos _ h = absurd (omega arith)

too_deep :
    (k : ExprKind) (d m : ℕ)
    → (ltb 0 (child_count k) && leb m d) ≡ true
    → (0 < kind_depth k) × (m ≤ d)
too_deep k d m t = ground (arith, kind_depth_pos k)

module _ (max_nodes max_depth : ℕ) (nodes_usize : max_nodes ≤ usize_max)
    (depth_usize : max_depth < usize_max) where
  -- The nodes and the depth of the whole walk, seen from one of its states.
  abbrev Exceeds : ℕ → ℕ → Type 0
  Exceeds n d = (max_nodes < n) ⊎ (max_depth < d)

  abbrev Keeps : ℕ → ℕ → ℕ → Walk → Type 0
  Keeps nodes n d w =
      (w.nodes ≡ suc nodes)
      × (w.nodes + stack_nodes w.stack ≡ n)
      × (max w.deepest (stack_depth w.stack) ≡ d)
      × (w.nodes ≤ max_nodes)
      × (w.deepest ≤ max_depth)

  preflight_step-Verdict :
      (e : AstExpression) (d : ℕ) (stack : Stack) (nodes deepest : ℕ)
      → nodes ≤ max_nodes
      → deepest ≤ max_depth
      → Verdict
          (Keeps nodes
            (nodes + stack_nodes ((e, d) ∷ stack))
            (max deepest (stack_depth ((e, d) ∷ stack))))
          (Exceeds
            (nodes + stack_nodes ((e, d) ∷ stack))
            (max deepest (stack_depth ((e, d) ∷ stack))))
          (preflight_step max_nodes max_depth e d stack nodes deepest)
  unfolding preflight_step stack_nodes stack_depth node_count depth
  preflight_step-Verdict (ast k s) d stack nodes deepest hn hd =
      Verdict-fail_if (ltb max_depth d) _ (λ t. inr (omega (arith, ltb→lt _ _ t)))
        λ shallow.
          Verdict-ok_or (checked_add nodes 1) _
            (λ t. inl (omega (arith, checked_add-eq-none _ _ t)))
            λ n en.
              Verdict-fail_if (ltb max_nodes n) _
                (λ t. inl (omega (arith, ltb→lt _ _ t, checked_add-eq-some _ _ en)))
                λ few.
                  Verdict-fail_if (ltb (max_nodes - n) (child_count k)) _
                    (λ t.
                      inl
                        (omega (arith, ltb→lt _ _ t, checked_add-eq-some _ _ en, child_count-le k)))
                    λ _.
                      Verdict-fail_if (ltb 0 (child_count k) && leb max_depth d) _
                        (λ t. inr (omega (arith, too_deep k d _ t)))
                        λ _.
                          Verdict-ok_or (checked_add d 1) _
                            (λ t.
                              inr (omega (arith, checked_add-eq-none _ _ t, ltb→le _ _ shallow)))
                            λ c ec.
                              let e : c ≡ suc d = omega (arith, checked_add-eq-some _ _ ec) in
                              accepts (
                                rw e (
                                  omega (arith, checked_add-eq-some _ _ en),
                                  omega (
                                    arith,
                                    checked_add-eq-some _ _ en,
                                    push_children_nodes k (suc d) stack,
                                  ),
                                  omega (arith, push_children_depth k d stack),
                                  ltb→le _ _ few,
                                  omega (arith, ltb→le _ _ shallow),
                                ))

  preflight_loop-Verdict :
      (fuel : ℕ) (stack : Stack) (nodes deepest : ℕ)
      → stack_nodes stack < fuel
      → nodes ≤ max_nodes
      → deepest ≤ max_depth
      → Verdict
          (λ m.
            (m.nodes ≡ nodes + stack_nodes stack)
            × (m.depth ≡ max deepest (stack_depth stack))
            × (m.nodes ≤ max_nodes)
            × (m.depth ≤ max_depth))
          (Exceeds (nodes + stack_nodes stack) (max deepest (stack_depth stack)))
          (preflight_loop max_nodes max_depth fuel stack nodes deepest)
  unfolding preflight_loop
  preflight_loop-Verdict zero stack nodes deepest hf hn hd = absurd (omega arith)
  preflight_loop-Verdict (suc fuel) [] nodes deepest hf hn hd =
      accepts {a = record { nodes = nodes; depth = deepest }}
        (unfold stack_nodes stack_depth in omega arith)
  preflight_loop-Verdict (suc fuel) ((e, d) ∷ stack) nodes deepest hf hn hd =
      Verdict-bind (preflight_step-Verdict e d stack nodes deepest hn hd) (λ b. b)
        λ w (k1, kn, kd, wn, wd).
          Verdict-map (λ m (mn, md, fn, fd). (omega arith, omega arith, fn, fd)) (λ b. omega arith)
            (preflight_loop-Verdict fuel w.stack w.nodes w.deepest
              (omega (arith, stack_nodes-cons e d stack, node_count_pos e)) wn wd)

  -- Preflight stops, and accepts exactly the trees within both limits, with their measures.
  pub preflight_ast-Verdict :
      (e : AstExpression)
      → Verdict
          (λ m.
            (m ≡ record { nodes = node_count e; depth = depth e })
            × ((node_count e ≤ max_nodes) × (depth e ≤ max_depth)))
          ((max_nodes < node_count e) ⊎ (max_depth < depth e))
          (preflight_ast e max_nodes max_depth)
  unfolding preflight_ast stack_nodes stack_depth
  preflight_ast-Verdict e =
      Verdict-map (λ m (a, b, c, d). ground arith) (λ b. omega arith)
        (preflight_loop-Verdict (suc (node_count e)) ((e, 1) ∷ []) 0 0 (omega arith) (omega arith)
          (omega arith))

-- Within the machine's bounds on the limits, `preflight_ast` never runs out of fuel, and it returns
-- metrics exactly when the tree has at most `max_nodes` nodes and is at most `max_depth` deep; the
-- metrics are then the tree's node count and depth.
pub preflight_ast-eq-ok_iff :
    (e : AstExpression) (max_nodes max_depth : ℕ) (m : AstMetrics)
    → max_nodes ≤ usize_max
    → max_depth < usize_max
    → ((preflight_ast e max_nodes max_depth ≡ ok m) ↔ (
        (m ≡ record { nodes = node_count e; depth = depth e })
        × ((node_count e ≤ max_nodes) × (depth e ≤ max_depth))))
      × (preflight_ast e max_nodes max_depth ≢ out_of_fuel)
preflight_ast-eq-ok_iff e max_nodes max_depth m hn hd =
    let verdict = preflight_ast-Verdict max_nodes max_depth hn hd e in
    (Verdict-eq-ok_iff _ verdict (λ good bad. omega arith) m, Verdict-ends verdict)
