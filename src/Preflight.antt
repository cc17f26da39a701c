-- ===== src/Preflight.antt =====
-- source/src/parser/preflight.rs: the node and depth admission of an AST, and its iterative drop.
pub mod Correct
pub mod Fuel
use online_dsl_forge.Base.{
  ◌>>=◌, ◌>>◌, ℕ, zero, suc, ◌-◌, max, ◌&&◌, List, [], ◌∷◌, Result, ok, out_of_fuel, fail_if, ok_or,
  ltb, leb,
}
use online_dsl_forge.Base.Usize.{checked_add, saturating_add}
use online_dsl_forge.Syntax.{
  AstExpression, ExprKind, Expressions, array, member, function_call, method_call, unary, binary,
  nil, cons, kind_of, span_of, len, DiagnosticReport, single, call_depth_limit, ast_node_limit,
}
use online_dsl_forge.Syntax.Measure.{node_count}

pub record AstMetrics : Type 0 where
  pub nodes : ℕ
  pub depth : ℕ

-- The stack of `preflight_ast`, its top first.
abbrev pub Stack : Type 0
Stack = List (AstExpression × ℕ)

unfoldable pub child_count : ExprKind → ℕ
child_count (array items) = len items
child_count (function_call name args) = len args
child_count (member receiver name) = 1
child_count (unary op e) = 1
child_count (method_call receiver name args) = saturating_add (len args) 1
child_count (binary l op r) = 2
child_count _ = 0

-- `for item in items.iter().rev() { stack.push((item, depth)) }` leaves the first item on top.
unfoldable pub push_all : Expressions → ℕ → Stack → Stack
push_all nil depth stack = stack
push_all (cons e es) depth stack = (e, depth) ∷ push_all es depth stack

unfoldable pub push_children : Stack → ExprKind → ℕ → Stack
unfolding push_all
push_children stack (array items) depth = push_all items depth stack
push_children stack (function_call name args) depth = push_all args depth stack
push_children stack (member receiver name) depth = (receiver, depth) ∷ stack
push_children stack (unary op e) depth = (e, depth) ∷ stack
push_children stack (method_call receiver name args) depth =
    (receiver, depth) ∷ push_all args depth stack
push_children stack (binary l op r) depth = (l, depth) ∷ (r, depth) ∷ stack
push_children stack _ depth = stack

-- The variables of the `while let` loop.
pub record Walk : Type 0 where
  pub stack : Stack
  pub nodes : ℕ
  pub deepest : ℕ

-- The body of the loop, at the entry that was popped.
unfoldable pub preflight_step :
    ℕ → ℕ → AstExpression → ℕ → Stack → ℕ → ℕ → Result DiagnosticReport Walk
preflight_step max_nodes max_depth current depth stack nodes deepest = do
  fail_if (ltb max_depth depth) (single call_depth_limit (span_of current))
  nodes' ← ok_or (checked_add nodes 1) (single ast_node_limit (span_of current))
  fail_if (ltb max_nodes nodes') (single ast_node_limit (span_of current))
  let children = child_count (kind_of current)
  fail_if (ltb (max_nodes - nodes') children) (single ast_node_limit (span_of current))
  fail_if (ltb 0 children && leb max_depth depth) (single call_depth_limit (span_of current))
  child_depth ← ok_or (checked_add depth 1) (single call_depth_limit (span_of current))
  ok (record {
    stack = push_children stack (kind_of current) child_depth;
    nodes = nodes';
    deepest = max deepest depth;
  })

unfoldable pub preflight_loop : ℕ → ℕ → ℕ → Stack → ℕ → ℕ → Result DiagnosticReport AstMetrics
preflight_loop max_nodes max_depth zero stack nodes deepest = out_of_fuel
preflight_loop max_nodes max_depth (suc fuel) [] nodes deepest =
    ok (record { nodes = nodes; depth = deepest })
preflight_loop max_nodes max_depth (suc fuel) ((current, depth) ∷ stack) nodes deepest = do
  w ← preflight_step max_nodes max_depth current depth stack nodes deepest
  preflight_loop max_nodes max_depth fuel w.stack w.nodes w.deepest

-- Each round takes one node off the stack, so a round for each node and one more is enough.
unfoldable pub preflight_ast : AstExpression → ℕ → ℕ → Result DiagnosticReport AstMetrics
preflight_ast expression max_nodes max_depth =
    preflight_loop max_nodes max_depth (suc (node_count expression)) ((expression, 1) ∷ []) 0 0
