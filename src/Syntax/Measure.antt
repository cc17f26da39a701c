-- ===== src/Syntax/Measure.antt =====
-- Reference measures of an AST, by recursion on it: what the traversals are held to.
use online_dsl_forge.Base.{ℕ, suc, ◌+◌, ◌≤◌, ◌<◌, max, arith}
use online_dsl_forge.Syntax.{
  AstExpression, ExprKind, Expressions, ast, array, member, function_call, method_call, unary,
  binary, nil, cons, len,
}

unfoldable mutual
  pub node_count : AstExpression → ℕ
  node_count (ast k s) = suc (kind_nodes k)

  pub kind_nodes : ExprKind → ℕ
  kind_nodes (array items) = list_nodes items
  kind_nodes (member receiver name) = node_count receiver
  kind_nodes (function_call name args) = list_nodes args
  kind_nodes (method_call receiver name args) = node_count receiver + list_nodes args
  kind_nodes (unary op e) = node_count e
  kind_nodes (binary l op r) = node_count l + node_count r
  kind_nodes _ = 0

  pub list_nodes : Expressions → ℕ
  list_nodes nil = 0
  list_nodes (cons e es) = node_count e + list_nodes es

unfoldable mutual
  pub depth : AstExpression → ℕ
  depth (ast k s) = suc (kind_depth k)

  pub kind_depth : ExprKind → ℕ
  kind_depth (array items) = list_depth items
  kind_depth (member receiver name) = depth receiver
  kind_depth (function_call name args) = list_depth args
  kind_depth (method_call receiver name args) = max (depth receiver) (list_depth args)
  kind_depth (unary op e) = depth e
  kind_depth (binary l op r) = max (depth l) (depth r)
  kind_depth _ = 0

  pub list_depth : Expressions → ℕ
  list_depth nil = 0
  list_depth (cons e es) = max (depth e) (list_depth es)

pub node_count_pos : (e : AstExpression) → 0 < node_count e
unfolding node_count
node_count_pos (ast k s) = omega arith

pub depth_pos : (e : AstExpression) → 0 < depth e
unfolding depth
depth_pos (ast k s) = omega arith

pub len-le-list_nodes : (es : Expressions) → len es ≤ list_nodes es
unfolding node_count
len-le-list_nodes nil = omega arith
len-le-list_nodes (cons e es) = omega (arith, node_count_pos e, len-le-list_nodes es)

pub list_depth_pos : (es : Expressions) → 0 < len es → 0 < list_depth es
unfolding depth
list_depth_pos nil h = absurd (omega arith)
list_depth_pos (cons e es) h = omega (arith, depth_pos e)
