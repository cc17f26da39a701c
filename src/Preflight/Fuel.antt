-- ===== src/Preflight/Fuel.antt =====
-- `preflight_ast` has enough rounds, whatever the limits are.
use online_dsl_forge.Base.{
  ℕ, zero, suc, ◌+◌, ◌<◌, ◌≡◌, [], ◌∷◌, arith, Ends, Ends-bind, Ends-fail_if, Ends-ok_or, accepts,
  ltb, ◌-◌, ◌&&◌, leb,
}
use online_dsl_forge.Syntax.{AstExpression}
use online_dsl_forge.Preflight.{
  Stack, preflight_step, preflight_loop, preflight_ast, child_count, push_children,
}
use online_dsl_forge.Preflight.Correct.{stack_nodes, push_children_nodes}
use online_dsl_forge.Syntax.Measure.{node_count, kind_nodes}
use online_dsl_forge.Base.Usize.{checked_add}

step-Ends :
    (max_nodes max_depth : ℕ) (e : AstExpression) (d : ℕ) (stack : Stack) (nodes deepest : ℕ)
    → Ends
        (λ w. suc (stack_nodes w.stack) ≡ stack_nodes ((e, d) ∷ stack))
        (preflight_step max_nodes max_depth e d stack nodes deepest)
unfolding preflight_step stack_nodes node_count
step-Ends max_nodes max_depth (AstExpression.ast k s) d stack nodes deepest =
    Ends-fail_if (ltb max_depth d) _ λ _. Ends-ok_or (checked_add nodes 1) _ λ n _.
      Ends-fail_if (ltb max_nodes n) _ λ _.
        Ends-fail_if (ltb (max_nodes - n) (child_count k)) _ λ _.
          Ends-fail_if (ltb 0 (child_count k) && leb max_depth d) _ λ _.
            Ends-ok_or (checked_add d 1) _ λ c _.
              let e : suc (stack_nodes (push_children stack k c))
                  ≡ suc (kind_nodes k) + stack_nodes stack =
                omega (arith, push_children_nodes k c stack) in
              accepts e

loop-Ends :
    (max_nodes max_depth fuel : ℕ) (stack : Stack) (nodes deepest : ℕ)
    → stack_nodes stack < fuel
    → Ends (λ _. Unit {0}) (preflight_loop max_nodes max_depth fuel stack nodes deepest)
unfolding preflight_loop
loop-Ends max_nodes max_depth zero stack nodes deepest lt = absurd (omega (arith, lt))
loop-Ends max_nodes max_depth (suc fuel) [] nodes deepest lt = accepts tt
loop-Ends max_nodes max_depth (suc fuel) ((e, d) ∷ stack) nodes deepest lt =
    Ends-bind (step-Ends max_nodes max_depth e d stack nodes deepest) λ w fewer.
      loop-Ends max_nodes max_depth fuel w.stack w.nodes w.deepest (omega (arith, lt, fewer))

pub preflight_ast-Ends :
    (e : AstExpression) (max_nodes max_depth : ℕ)
    → Ends (λ _. Unit {0}) (preflight_ast e max_nodes max_depth)
unfolding preflight_ast stack_nodes
preflight_ast-Ends e max_nodes max_depth =
    loop-Ends max_nodes max_depth _ ((e, 1) ∷ []) 0 0 (omega arith)
