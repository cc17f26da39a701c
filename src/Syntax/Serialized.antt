-- ===== src/Syntax/Serialized.antt =====
-- The nesting of an AST's JSON form, as the parser counts it.
use online_dsl_forge.Syntax.{
  AstExpression, ExprKind, Expressions, ast, array, member, function_call, method_call, unary,
  binary, nil, cons, len,
}
use online_dsl_forge.Base.{ℕ, ◌+◌, max}

unfoldable mutual
  pub serialized_depth : AstExpression → ℕ
  serialized_depth (ast k s) = kind_serialized_depth k

  pub kind_serialized_depth : ExprKind → ℕ
  kind_serialized_depth (array items) = 3 + list_serialized_depth items
  kind_serialized_depth (member receiver name) = 2 + serialized_depth receiver
  kind_serialized_depth (function_call name args) = 3 + list_serialized_depth args
  kind_serialized_depth (method_call receiver name args) =
      max (2 + serialized_depth receiver) (3 + list_serialized_depth args)
  kind_serialized_depth (unary op e) = 2 + serialized_depth e
  kind_serialized_depth (binary l op r) = 2 + max (serialized_depth l) (serialized_depth r)
  kind_serialized_depth _ = 2

  pub list_serialized_depth : Expressions → ℕ
  list_serialized_depth nil = 0
  list_serialized_depth (cons e es) = max (serialized_depth e) (list_serialized_depth es)

-- The length of the longest array or argument list.
unfoldable mutual
  pub widest : AstExpression → ℕ
  widest (ast k s) = kind_widest k

  pub kind_widest : ExprKind → ℕ
  kind_widest (array items) = max (len items) (list_widest items)
  kind_widest (member receiver name) = widest receiver
  kind_widest (function_call name args) = max (len args) (list_widest args)
  kind_widest (method_call receiver name args) =
      max (widest receiver) (max (len args) (list_widest args))
  kind_widest (unary op e) = widest e
  kind_widest (binary l op r) = max (widest l) (widest r)
  kind_widest _ = 0

  pub list_widest : Expressions → ℕ
  list_widest nil = 0
  list_widest (cons e es) = max (widest e) (list_widest es)
