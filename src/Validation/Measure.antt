-- ===== src/Validation/Measure.antt =====
-- What the syntax check of an AST is held to, by recursion on the AST.
use online_dsl_forge.Base.{ℕ, suc, ◌+◌, Bool, true, ◌&&◌, byte_length}
use online_dsl_forge.Syntax.{
  AstExpression, ExprKind, Expressions, ast, float, string, array, identifier, member,
  function_call, method_call, unary, binary, nil, cons, is_finite,
}
use online_dsl_forge.Validation.{is_valid_identifier}

-- Every name is a valid identifier, and every float is finite.
unfoldable mutual
  pub is_well_formed : AstExpression → Bool
  is_well_formed (ast k s) = kind_well_formed k

  pub kind_well_formed : ExprKind → Bool
  kind_well_formed (float x) = is_finite x
  kind_well_formed (identifier name) = is_valid_identifier name
  kind_well_formed (array items) = list_well_formed items
  kind_well_formed (member receiver name) = is_valid_identifier name && is_well_formed receiver
  kind_well_formed (function_call name args) = is_valid_identifier name && list_well_formed args
  kind_well_formed (method_call receiver name args) =
      is_valid_identifier name && (is_well_formed receiver && list_well_formed args)
  kind_well_formed (unary op e) = is_well_formed e
  kind_well_formed (binary l op r) = is_well_formed l && is_well_formed r
  kind_well_formed _ = true

  pub list_well_formed : Expressions → Bool
  list_well_formed nil = true
  list_well_formed (cons e es) = is_well_formed e && list_well_formed es

-- The bytes of all names and string literals.
unfoldable mutual
  pub scalar_bytes : AstExpression → ℕ
  scalar_bytes (ast k s) = kind_scalar_bytes k

  pub kind_scalar_bytes : ExprKind → ℕ
  kind_scalar_bytes (string t) = byte_length t
  kind_scalar_bytes (identifier name) = byte_length name
  kind_scalar_bytes (array items) = list_scalar_bytes items
  kind_scalar_bytes (member receiver name) = byte_length name + scalar_bytes receiver
  kind_scalar_bytes (function_call name args) = byte_length name + list_scalar_bytes args
  kind_scalar_bytes (method_call receiver name args) =
      byte_length name + scalar_bytes receiver + list_scalar_bytes args
  kind_scalar_bytes (unary op e) = scalar_bytes e
  kind_scalar_bytes (binary l op r) = scalar_bytes l + scalar_bytes r
  kind_scalar_bytes _ = 0

  pub list_scalar_bytes : Expressions → ℕ
  list_scalar_bytes nil = 0
  list_scalar_bytes (cons e es) = scalar_bytes e + list_scalar_bytes es

unfoldable mutual
  pub call_count : AstExpression → ℕ
  call_count (ast k s) = kind_call_count k

  pub kind_call_count : ExprKind → ℕ
  kind_call_count (array items) = list_call_count items
  kind_call_count (member receiver name) = call_count receiver
  kind_call_count (function_call name args) = suc (list_call_count args)
  kind_call_count (method_call receiver name args) = call_count receiver + list_call_count args
  kind_call_count (unary op e) = call_count e
  kind_call_count (binary l op r) = call_count l + call_count r
  kind_call_count _ = 0

  pub list_call_count : Expressions → ℕ
  list_call_count nil = 0
  list_call_count (cons e es) = call_count e + list_call_count es
