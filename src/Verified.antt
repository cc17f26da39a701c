-- ===== src/Verified.antt =====
-- source/src/sema/verified.rs and schema.rs: the verified program that the evaluator runs, and the
-- tickets by which it names the capabilities that were checked.
use online_dsl_forge.Base.{ℕ, suc, ◌+◌, Bool, Text, Option, List}
use online_dsl_forge.Base.Int.{ℤ}
use online_dsl_forge.Syntax.{SourceSpan, UnaryOp, BinaryOp, F64}

pub data CapabilityKind : Type 0 where
  function method unary_op binary_op : CapabilityKind

pub record CapabilityTicket : Type 0 where
  pub kind : CapabilityKind
  pub name : Text
  pub arity : ℕ

mutual
  pub data VerifiedExpression : Type 0 where
    verified : VerifiedExprKind → SourceSpan → Option CapabilityTicket → VerifiedExpression

  pub data VerifiedExprKind : Type 0 where
    null : VerifiedExprKind
    bool : Bool → VerifiedExprKind
    int : ℤ → VerifiedExprKind
    float : F64 → VerifiedExprKind
    string identifier : Text → VerifiedExprKind
    array : VerifiedExpressions → VerifiedExprKind
    member : VerifiedExpression → Text → VerifiedExprKind
    function_call : Text → VerifiedExpressions → VerifiedExprKind
    expression_function_call :
        Text → List Text → VerifiedExpressions → VerifiedExpression → VerifiedExprKind
    method_call : VerifiedExpression → Text → VerifiedExpressions → VerifiedExprKind
    unary : UnaryOp → VerifiedExpression → VerifiedExprKind
    binary : VerifiedExpression → BinaryOp → VerifiedExpression → VerifiedExprKind

  pub data VerifiedExpressions : Type 0 where
    no_args : VerifiedExpressions
    arg : VerifiedExpression → VerifiedExpressions → VerifiedExpressions

abbrev pub args_len : VerifiedExpressions → ℕ
args_len no_args = 0
args_len (arg e es) = suc (args_len es)

-- The nodes of an expression, the bodies of its expression functions with it.
unfoldable mutual
  pub size : VerifiedExpression → ℕ
  size (verified k s t) = suc (kind_size k)

  pub kind_size : VerifiedExprKind → ℕ
  kind_size (VerifiedExprKind.array items) = args_size items
  kind_size (VerifiedExprKind.member receiver name) = size receiver
  kind_size (VerifiedExprKind.function_call name args) = args_size args
  kind_size (VerifiedExprKind.expression_function_call name params args body) =
      args_size args + size body
  kind_size (VerifiedExprKind.method_call receiver name args) = size receiver + args_size args
  kind_size (VerifiedExprKind.unary op e) = size e
  kind_size (VerifiedExprKind.binary l op r) = size l + size r
  kind_size _ = 0

  pub args_size : VerifiedExpressions → ℕ
  args_size no_args = 0
  args_size (arg e es) = size e + args_size es
