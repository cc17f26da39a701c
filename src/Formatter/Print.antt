-- ===== src/Formatter/Print.antt =====
-- The canonical text by recursion on the AST: the specification of the formatter.
use online_dsl_forge.Base.{Bool, true, false, ℕ, [], ◌∷◌, ◌++◌, Text, codes}
use online_dsl_forge.Base.Decimal.{int_to_text}
use online_dsl_forge.Syntax.{
  AstExpression, ExprKind, Expressions, ast, null, bool, int, float, string, array, identifier,
  member, function_call, method_call, unary, binary, nil, cons, unary_as_str, binary_as_str, F64,
}
use online_dsl_forge.Formatter.{
  ChildSide, root, left, right, unary_side, receiver_side, precedence, binary_precedence,
  needs_parentheses, format_float, escape_char,
}

unfoldable pub escape : Text → Text
escape [] = []
escape (c ∷ cs) = escape_char c ++ escape cs

abbrev pub parenthesize : Bool → Text → Text
parenthesize true t = codes "(" ++ (t ++ codes ")")
parenthesize false t = t

module _ (show_f64 : F64 → Text) where
  unfoldable mutual
    pub print : AstExpression → ℕ → ChildSide → Text
    print (ast k s) parent side =
        parenthesize (needs_parentheses (precedence k) parent side) (print_kind k)

    pub print_kind : ExprKind → Text
    print_kind null = codes "null"
    print_kind (bool true) = codes "true"
    print_kind (bool false) = codes "false"
    print_kind (int value) = int_to_text value
    print_kind (float value) = format_float show_f64 value
    print_kind (string value) = codes "\"" ++ (escape value ++ codes "\"")
    print_kind (array items) = codes "[" ++ (print_items items ++ codes "]")
    print_kind (identifier name) = name
    print_kind (member receiver name) = print receiver 8 receiver_side ++ (codes "." ++ name)
    print_kind (function_call name args) = name ++ (codes "(" ++ (print_items args ++ codes ")"))
    print_kind (method_call receiver name args) =
        print receiver 8 receiver_side
        ++ (codes "." ++ (name ++ (codes "(" ++ (print_items args ++ codes ")"))))
    print_kind (unary op e) = unary_as_str op ++ print e 7 unary_side
    print_kind (binary l op r) =
        print l (binary_precedence op) left
        ++ (codes " " ++ (binary_as_str op ++ (codes " " ++ print r (binary_precedence op) right)))

    pub print_items : Expressions → Text
    print_items nil = []
    print_items (cons e es) = print e 0 root ++ print_rest es

    pub print_rest : Expressions → Text
    print_rest nil = []
    print_rest (cons e es) = codes ", " ++ (print e 0 root ++ print_rest es)
