-- ===== src/Analyzer/Walks.antt =====
-- The walks over an expression end, and the dialect accepts what it is meant to.
use online_dsl_forge.Base.{
  ◌≡◌, refl, ◌∙◌, sym, ap, ◌<◌, ◌+◌, arith, [], ◌∷◌, ◌++◌, true, false, Bool, not, ◌&&◌, suc, zero,
  Returns, accepts, ℕ, Text, List, Returns-map, inl, inr, Bool-cases, ok, ◌↔◌, Verdict-good,
}
use online_dsl_forge.Analyzer.{ExpressionDialect}
use online_dsl_forge.Analyzer.Dialect.{
  walk, walk_all, push_children, oxirule_problem, visit_oxirule, validate_oxirule_v1,
  validate_dialect, is_excluded,
}
use online_dsl_forge.Validation.{push_all}
use online_dsl_forge.Syntax.{
  AstExpression, Expressions, ExprKind, UnaryOp, Diagnostic, SourceSpan, cons, kind_of, nil,
  BinaryOp,
}
use online_dsl_forge.Syntax.Measure.{node_count, list_nodes, kind_nodes}
use online_dsl_forge.Schema.Functions.{say}

total_nodes : List AstExpression → ℕ
total_nodes [] = 0
total_nodes (e ∷ stack) = node_count e + total_nodes stack

total-push_all :
    (es : Expressions) (stack : List AstExpression)
    → total_nodes (push_all es stack) ≡ list_nodes es + total_nodes stack
unfolding total_nodes push_all node_count
total-push_all nil stack = omega arith
total-push_all (cons e es) stack = omega (arith, total-push_all es stack)

total-push_children :
    (k : ExprKind) (stack : List AstExpression)
    → total_nodes (push_children k stack) ≡ kind_nodes k + total_nodes stack
unfolding total_nodes push_children node_count
total-push_children ExprKind.null stack = omega arith
total-push_children (ExprKind.bool b) stack = omega arith
total-push_children (ExprKind.int n) stack = omega arith
total-push_children (ExprKind.float x) stack = omega arith
total-push_children (ExprKind.string t) stack = omega arith
total-push_children (ExprKind.identifier name) stack = omega arith
total-push_children (ExprKind.array items) stack = total-push_all items stack
total-push_children (ExprKind.member receiver name) stack = omega arith
total-push_children (ExprKind.function_call name args) stack = total-push_all args stack
total-push_children (ExprKind.method_call receiver name args) stack =
    omega (arith, total-push_all args stack)
total-push_children (ExprKind.unary op e) stack = omega arith
total-push_children (ExprKind.binary l op r) stack = omega arith

-- A walk ends with what holds for each stack that it meets.
module _ {ℓ κ} {A : Type ℓ} (visit : AstExpression → A → A) (Good : List AstExpression → A → Type κ)
    (step : (e : AstExpression) (stack : List AstExpression) (acc : A)
      → Good (e ∷ stack) acc
      → Good (push_children (kind_of e) stack) (visit e acc)) where
  walk-Returns :
      (fuel : ℕ) (stack : List AstExpression) (acc : A)
      → total_nodes stack < fuel
      → Good stack acc
      → Returns (Good []) (walk visit fuel stack acc)
  unfolding walk total_nodes node_count
  walk-Returns zero stack acc lt good = absurd (omega (arith, lt))
  walk-Returns (suc fuel) [] acc lt good = accepts good
  walk-Returns (suc fuel) (AstExpression.ast k s ∷ stack) acc lt good =
      walk-Returns fuel (push_children k stack) (visit (AstExpression.ast k s) acc)
        (omega (arith, lt, total-push_children k stack))
        (step (AstExpression.ast k s) stack acc good)

  walk_all-Good :
      (e : AstExpression) (acc : A) → Good (e ∷ []) acc → Returns (Good []) (walk_all visit e acc)
  unfolding walk_all total_nodes
  walk_all-Good e acc good = walk-Returns _ (e ∷ []) acc (omega arith) good

pub walk_all-Returns {ℓ} :
    {A : Type ℓ} (visit : AstExpression → A → A) (e : AstExpression) (acc : A)
    → Returns (λ _. Unit {0}) (walk_all visit e acc)
walk_all-Returns visit e acc =
    Returns-map (λ a h. tt) (walk_all-Good visit (λ _ _. Unit {0}) (λ _ _ _ _. tt) e acc tt)

-- The operators of OxiRule V1: logic, comparison and addition.
abbrev pub is_oxirule_operator : BinaryOp → Bool
is_oxirule_operator BinaryOp.or = true
is_oxirule_operator BinaryOp.and = true
is_oxirule_operator BinaryOp.eq = true
is_oxirule_operator BinaryOp.ne = true
is_oxirule_operator BinaryOp.lt = true
is_oxirule_operator BinaryOp.le = true
is_oxirule_operator BinaryOp.gt = true
is_oxirule_operator BinaryOp.ge = true
is_oxirule_operator BinaryOp.add = true
is_oxirule_operator BinaryOp.sub = false
is_oxirule_operator BinaryOp.mul = false
is_oxirule_operator BinaryOp.div = false
is_oxirule_operator BinaryOp.rem = false

excluded_not_oxirule : (op : BinaryOp) → is_oxirule_operator op ≡ not (is_excluded op)
excluded_not_oxirule BinaryOp.or = refl
excluded_not_oxirule BinaryOp.and = refl
excluded_not_oxirule BinaryOp.eq = refl
excluded_not_oxirule BinaryOp.ne = refl
excluded_not_oxirule BinaryOp.lt = refl
excluded_not_oxirule BinaryOp.le = refl
excluded_not_oxirule BinaryOp.gt = refl
excluded_not_oxirule BinaryOp.ge = refl
excluded_not_oxirule BinaryOp.add = refl
excluded_not_oxirule BinaryOp.sub = refl
excluded_not_oxirule BinaryOp.mul = refl
excluded_not_oxirule BinaryOp.div = refl
excluded_not_oxirule BinaryOp.rem = refl

-- An expression of OxiRule V1: no floats, arrays or arithmetic but addition.
unfoldable mutual
  pub is_oxirule : AstExpression → Bool
  is_oxirule (AstExpression.ast k s) = is_oxirule_kind k

  pub is_oxirule_kind : ExprKind → Bool
  is_oxirule_kind (ExprKind.float value) = false
  is_oxirule_kind (ExprKind.array items) = false
  is_oxirule_kind (ExprKind.member receiver name) = is_oxirule receiver
  is_oxirule_kind (ExprKind.function_call name args) = all_oxirule args
  is_oxirule_kind (ExprKind.method_call receiver name args) =
      is_oxirule receiver && all_oxirule args
  is_oxirule_kind (ExprKind.unary UnaryOp.not e) = is_oxirule e
  is_oxirule_kind (ExprKind.unary UnaryOp.neg e) = false
  is_oxirule_kind (ExprKind.binary l op r) =
      is_oxirule_operator op && (is_oxirule l && is_oxirule r)
  is_oxirule_kind _ = true

  pub all_oxirule : Expressions → Bool
  all_oxirule nil = true
  all_oxirule (cons e es) = is_oxirule e && all_oxirule es

stack_oxirule : List AstExpression → Bool
stack_oxirule [] = true
stack_oxirule (e ∷ stack) = is_oxirule e && stack_oxirule stack

unfoldable pub is_empty {ℓ} : {A : Type ℓ} → List A → Bool
is_empty [] = true
is_empty (x ∷ xs) = false

empty-snoc : (ds : List Diagnostic) (d : Diagnostic) → is_empty (ds ++ d ∷ []) ≡ false
unfolding is_empty
empty-snoc [] d = refl
empty-snoc (x ∷ ds) d = refl

join-and : (a b c : Bool) → (a && (b && c)) ≡ ((a && b) && c)
join-and true b c = refl
join-and false b c = refl

and-false : (a : Bool) → (a && false) ≡ false
and-false true = refl
and-false false = refl

oxirule-push_all :
    (es : Expressions) (stack : List AstExpression)
    → stack_oxirule (push_all es stack) ≡ (all_oxirule es && stack_oxirule stack)
unfolding stack_oxirule push_all is_oxirule
oxirule-push_all nil stack = refl
oxirule-push_all (cons e es) stack =
    ap (λ b. is_oxirule e && b) (oxirule-push_all es stack)
    ∙ join-and (is_oxirule e) (all_oxirule es) (stack_oxirule stack)

and-true : (a : Bool) → (a && true) ≡ a
and-true true = refl
and-true false = refl

refused :
    (ds : List Diagnostic) (message : Text) (span : SourceSpan) (rest : Bool)
    → (is_empty (ds ++ say message span ∷ []) && rest) ≡ (is_empty ds && false)
refused ds message span rest = ap (λ b. b && rest) (empty-snoc ds _) ∙ sym (and-false (is_empty ds))

-- What a visit finds and what it leaves on the stack is what was on it.
visit-Found :
    (e : AstExpression) (stack : List AstExpression) (ds : List Diagnostic)
    → (is_empty (visit_oxirule e ds) && stack_oxirule (push_children (kind_of e) stack))
      ≡ (is_empty ds && stack_oxirule (e ∷ stack))
unfolding visit_oxirule oxirule_problem push_children stack_oxirule is_oxirule
visit-Found (AstExpression.ast ExprKind.null s) stack ds = refl
visit-Found (AstExpression.ast (ExprKind.bool b) s) stack ds = refl
visit-Found (AstExpression.ast (ExprKind.int n) s) stack ds = refl
visit-Found (AstExpression.ast (ExprKind.float x) s) stack ds = refused ds _ s (stack_oxirule stack)
visit-Found (AstExpression.ast (ExprKind.string t) s) stack ds = refl
visit-Found (AstExpression.ast (ExprKind.identifier name) s) stack ds = refl
visit-Found (AstExpression.ast (ExprKind.array items) s) stack ds = refused ds _ s _
visit-Found (AstExpression.ast (ExprKind.member receiver name) s) stack ds = refl
visit-Found (AstExpression.ast (ExprKind.function_call name args) s) stack ds =
    ap (λ b. is_empty ds && b) (oxirule-push_all args stack)
visit-Found (AstExpression.ast (ExprKind.method_call receiver name args) s) stack ds =
    ap (λ b. is_empty ds && b)
      (ap (λ b. is_oxirule receiver && b) (oxirule-push_all args stack)
        ∙ join-and (is_oxirule receiver) (all_oxirule args) (stack_oxirule stack))
visit-Found (AstExpression.ast (ExprKind.unary UnaryOp.not e) s) stack ds = refl
visit-Found (AstExpression.ast (ExprKind.unary UnaryOp.neg e) s) stack ds = refused ds _ s _
visit-Found (AstExpression.ast (ExprKind.binary l op r) s) stack ds =
    elim (Bool-cases (is_excluded op)) [
      | inl out ↦
          rw
            (
              excluded_not_oxirule op,
              out,
              visit_oxirule,
              oxirule_problem,
              stack_oxirule,
              is_oxirule,
            )
            (refused ds _ s _)
      | inr within ↦
          rw
            (
              excluded_not_oxirule op,
              within,
              visit_oxirule,
              oxirule_problem,
              stack_oxirule,
              is_oxirule,
            )
            (ap (λ b. is_empty ds && b)
              (join-and (is_oxirule l) (is_oxirule r) (stack_oxirule stack)))
    ]

validate_oxirule_v1-Found :
    (e : AstExpression) (ds : List Diagnostic)
    → Returns (λ found. is_empty found ≡ (is_empty ds && is_oxirule e)) (validate_oxirule_v1 e ds)
unfolding validate_oxirule_v1 stack_oxirule
validate_oxirule_v1-Found e ds =
    Returns-map
      (λ found h.
        sym (and-true (is_empty found)) ∙ h ∙ ap (λ b. is_empty ds && b) (and-true (is_oxirule e)))
      (walk_all-Good visit_oxirule
        (λ stack found.
          (is_empty found && stack_oxirule stack) ≡ (is_empty ds && (is_oxirule e && true)))
        (λ e' stack found good. visit-Found e' stack found ∙ good) e ds refl)

empty_iff {ℓ} :
    {A : Type ℓ} (b : Bool) (found : List A) → is_empty found ≡ b → (found ≡ []) ↔ (b ≡ true)
unfolding is_empty
empty_iff b [] h = (λ q. sym h, λ t. refl)
empty_iff b (x ∷ xs) h = (λ q. cc, λ t. cc)

-- The walk of the OxiRule V1 dialect returns a list of problems, and the list is empty exactly for
-- the expressions that have no float, array, numeric negation, subtraction, multiplication, division
-- or remainder.
pub validate_dialect-finds :
    (e : AstExpression)
    → (found : List Diagnostic) × (validate_dialect ExpressionDialect.oxi_rule_v1 e [] ≡ ok found)
      × ((found ≡ []) ↔ (is_oxirule e ≡ true))
unfolding validate_dialect is_empty
validate_dialect-finds e =
    let (found, ends, h) = Verdict-good (validate_oxirule_v1-Found e []) (λ b. b) in
    (found, ends, empty_iff (is_oxirule e) found h)

pub validate_dialect-Returns :
    (dialect : ExpressionDialect) (e : AstExpression) (ds : List Diagnostic)
    → Returns (λ _. Unit {0}) (validate_dialect dialect e ds)
unfolding validate_dialect validate_oxirule_v1
validate_dialect-Returns ExpressionDialect.generic e ds = accepts tt
validate_dialect-Returns ExpressionDialect.oxi_rule_v1 e ds = walk_all-Returns visit_oxirule e ds
