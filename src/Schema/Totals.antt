-- ===== src/Schema/Totals.antt =====
use online_dsl_forge.Schema.{ExpressionFunctionLimits, ExpressionFunction}
use online_dsl_forge.Base.{
  none, some, refl, List, ℕ, Text, ◌∷◌, [], ◌≤◌, ◌+◌, byte_length, length, ◌≡◌, true, arith, min,
  Option, Ends, Result, Ends-bind, accepts, Ends-map, suc, Verdict, subst, Ends-ok_or, refuses,
  codes, ◌-◌, ◌∙◌, ap,
}
use online_dsl_forge.Schema.Functions.{
  add_lengths, ExpressionFunctionUsage, max_expression_function_body_depth, charge_signature,
  no_usage, charge_body, validate_functions, first_error, rename_message, body_bytes_exceeded,
}
use online_dsl_forge.Validation.Measure.{
  is_well_formed, scalar_bytes, call_count, kind_call_count, list_call_count,
}
use online_dsl_forge.Syntax.Measure.{node_count, depth, kind_nodes, list_nodes}
use online_dsl_forge.Base.Usize.{checked_add, usize_max, checked_add-eq-some}
use online_dsl_forge.Syntax.{
  AstExpression, Diagnostic, ExprKind, DiagnosticReport, Expressions, cons, nil,
}
use online_dsl_forge.Schema.Bounds.{checked_charge-Ends, parts-Ends}
use online_dsl_forge.Preflight.Correct.{preflight_ast-Verdict}
use online_dsl_forge.Validation.Correct.{validate_ast_syntax-Verdict}
use online_dsl_forge.Preflight.{AstMetrics}
use online_dsl_forge.Validation.{AstSyntaxMetrics}

-- The check of the expression functions counts exactly what they hold, within the limits.
-- Each total is within its limit.
pub record IsWithin (limits : ExpressionFunctionLimits) (usage : ExpressionFunctionUsage)
    : Type 0 where
  pub functions_fit : usage.functions ≤ limits.max_functions
  pub parameters_fit : usage.parameters ≤ limits.max_total_parameters
  pub names_fit : usage.name_bytes ≤ limits.max_total_name_bytes
  pub nodes_fit : usage.body_nodes ≤ limits.max_total_body_nodes
  pub scalars_fit : usage.body_scalar_bytes ≤ limits.max_total_body_scalar_bytes
  pub edges_fit : usage.call_edges ≤ limits.max_total_call_edges

-- A measure of each function, summed up.
unfoldable pub total : (ExpressionFunction → ℕ) → List ExpressionFunction → ℕ
total measure [] = 0
total measure (f ∷ fs) = measure f + total measure fs

unfoldable pub texts_bytes : List Text → ℕ
texts_bytes [] = 0
texts_bytes (t ∷ ts) = byte_length t + texts_bytes ts

abbrev pub signature_bytes : ExpressionFunction → ℕ
signature_bytes f = byte_length f.name + texts_bytes f.params

-- What some functions hold, measured by recursion on their bodies.
abbrev pub usage_of : List ExpressionFunction → ExpressionFunctionUsage
usage_of fs = record {
  functions = length fs;
  parameters = total (λ f. length f.params) fs;
  name_bytes = total signature_bytes fs;
  body_nodes = total (λ f. node_count f.expression) fs;
  body_scalar_bytes = total (λ f. scalar_bytes f.expression) fs;
  call_edges = total (λ f. call_count f.expression) fs;
}

-- A body that is a tree with valid names and finite floats, and is not too deep.
abbrev pub IsBody : ExpressionFunctionLimits → ExpressionFunction → Type 0
IsBody limits f =
    (is_well_formed f.expression ≡ true)
    × (depth f.expression ≤ min limits.max_body_depth max_expression_function_body_depth)

abbrev pub AreBodies : ExpressionFunctionLimits → List ExpressionFunction → Type 0
AreBodies limits [] = Unit {0}
AreBodies limits (f ∷ fs) = IsBody limits f × AreBodies limits fs

-- A call is a node.
mutual
  unfolding call_count node_count

  calls-le : (e : AstExpression) → call_count e ≤ node_count e
  calls-le (AstExpression.ast k s) = kind_calls-le k

  kind_calls-le : (k : ExprKind) → kind_call_count k ≤ suc (kind_nodes k)
  kind_calls-le ExprKind.null = omega arith
  kind_calls-le (ExprKind.bool b) = omega arith
  kind_calls-le (ExprKind.int n) = omega arith
  kind_calls-le (ExprKind.float x) = omega arith
  kind_calls-le (ExprKind.string t) = omega arith
  kind_calls-le (ExprKind.identifier name) = omega arith
  kind_calls-le (ExprKind.array items) = omega (arith, list_calls-le items)
  kind_calls-le (ExprKind.member r name) = omega (arith, calls-le r)
  kind_calls-le (ExprKind.function_call name args) = omega (arith, list_calls-le args)
  kind_calls-le (ExprKind.method_call r name args) = omega (arith, calls-le r, list_calls-le args)
  kind_calls-le (ExprKind.unary op e) = omega (arith, calls-le e)
  kind_calls-le (ExprKind.binary l op r) = omega (arith, calls-le l, calls-le r)

  list_calls-le : (es : Expressions) → list_call_count es ≤ list_nodes es
  list_calls-le nil = omega arith
  list_calls-le (cons e es) = omega (arith, calls-le e, list_calls-le es)

add_lengths-eq-some :
    (start : ℕ) (ts : List Text) {n : ℕ}
    → add_lengths start ts ≡ some n
    → n ≡ start + texts_bytes ts
unfolding add_lengths texts_bytes
add_lengths-eq-some start [] h = ground arith
add_lengths-eq-some start (t ∷ ts) {n} h =
    go (checked_add start (byte_length t)) refl h (λ sum. add_lengths-eq-some sum ts)
  where
    go :
        (o : Option ℕ)
        → checked_add start (byte_length t) ≡ o
        → elim o [ none ↦ none | some sum ↦ add_lengths sum ts ] ≡ some n
        → ((sum : ℕ) → add_lengths sum ts ≡ some n → n ≡ sum + texts_bytes ts)
        → n ≡ start + (byte_length t + texts_bytes ts)
    go none e h' more = cc
    go (some sum) e h' more = omega (arith, checked_add-eq-some _ _ e, more sum h')

-- What the check of a signature does to the counters.
record Counts (f : ExpressionFunction) (usage u : ExpressionFunctionUsage) : Type 0 where
  functions : u.functions ≡ usage.functions + 1
  parameters : u.parameters ≡ usage.parameters + length f.params
  name_bytes : u.name_bytes ≡ usage.name_bytes + signature_bytes f
  same_nodes : u.body_nodes ≡ usage.body_nodes
  same_scalars : u.body_scalar_bytes ≡ usage.body_scalar_bytes
  same_edges : u.call_edges ≡ usage.call_edges

signature-Counts :
    (limits : ExpressionFunctionLimits) (f : ExpressionFunction) (usage : ExpressionFunctionUsage)
    → IsWithin limits usage
    → Ends (λ u. Counts f usage u × IsWithin limits u) (charge_signature limits f usage)
unfolding charge_signature
signature-Counts limits f usage w =
    Ends-bind (checked_charge-Ends usage.functions 1 limits.max_functions _ _) λ n (fe, fw).
      Ends-bind
        (checked_charge-Ends usage.parameters (length f.params) limits.max_total_parameters _ _)
        λ p (pe, pw). Ends-ok_or (add_lengths (byte_length f.name) f.params) _ λ bytes be.
          Ends-bind (checked_charge-Ends usage.name_bytes bytes limits.max_total_name_bytes _ _)
            λ name_bytes (ne, nw). Ends-bind (parts-Ends f.name f.params _) λ u _. accepts (
              record {
                functions = fe;
                parameters = pe;
                name_bytes = omega (arith, ne, add_lengths-eq-some _ _ be);
                same_nodes = refl;
                same_scalars = refl;
                same_edges = refl;
              },
              record {
                functions_fit = fw;
                parameters_fit = pw;
                names_fit = nw;
                nodes_fit = w.nodes_fit;
                scalars_fit = w.scalars_fit;
                edges_fit = w.edges_fit;
              },
            )

-- What the check of a body does to the counters.
record Holds (limits : ExpressionFunctionLimits) (f : ExpressionFunction)
    (usage u : ExpressionFunctionUsage) : Type 0 where
  same_functions : u.functions ≡ usage.functions
  same_parameters : u.parameters ≡ usage.parameters
  same_names : u.name_bytes ≡ usage.name_bytes
  nodes : u.body_nodes ≡ usage.body_nodes + node_count f.expression
  scalars : u.body_scalar_bytes ≡ usage.body_scalar_bytes + scalar_bytes f.expression
  edges : u.call_edges ≡ usage.call_edges + call_count f.expression
  is_body : IsBody limits f

first_error-Verdict {ℓ κ} :
    {A : Type 0} {P : A → Type ℓ} {Bad : Type κ} (g : Diagnostic → Diagnostic)
    {r : Result DiagnosticReport A}
    → Verdict P Bad r
    → Ends P (first_error g r)
first_error-Verdict g (accepts h) = accepts h
first_error-Verdict g (refuses h) = refuses tt

module _ (limits : ExpressionFunctionLimits) (nodes_usize : limits.max_total_body_nodes ≤ usize_max)
    (scalars_usize : limits.max_total_body_scalar_bytes ≤ usize_max) where
  body-Holds :
      (f : ExpressionFunction) (usage : ExpressionFunctionUsage)
      → IsWithin limits usage
      → Ends (λ u. Holds limits f usage u × IsWithin limits u) (charge_body limits f usage)
  unfolding charge_body
  body-Holds f usage w =
      Ends-bind
        (first_error-Verdict (λ d. d)
          (preflight_ast-Verdict limits.max_total_body_nodes
            (min limits.max_body_depth max_expression_function_body_depth) nodes_usize (omega arith)
            f.expression))
        λ body (be, (few, shallow)).
          Ends-bind
            (first_error-Verdict
              (rename_message (codes "AST scalar byte limit exceeded") body_bytes_exceeded)
              (validate_ast_syntax-Verdict
                (limits.max_total_body_scalar_bytes - usage.body_scalar_bytes)
                (omega (arith, scalars_usize)) f.expression))
            λ syntax (se, (well, short)).
              Ends-bind
                (checked_charge-Ends usage.body_nodes body.nodes limits.max_total_body_nodes _ _)
                λ n (ne, nw).
                  Ends-bind
                    (checked_charge-Ends usage.body_scalar_bytes syntax.scalar_bytes
                      limits.max_total_body_scalar_bytes _ _)
                    λ s (ste, sw).
                      Ends-bind
                        (checked_charge-Ends usage.call_edges syntax.function_calls
                          limits.max_total_call_edges _ _)
                        λ c (ce, cw). accepts (
                          record {
                            same_functions = refl;
                            same_parameters = refl;
                            same_names = refl;
                            nodes = ne ∙ ap (λ (m : AstMetrics). usage.body_nodes + m.nodes) be;
                            scalars =
                                ste
                                ∙ ap
                                    (λ (m : AstSyntaxMetrics).
                                      usage.body_scalar_bytes + m.scalar_bytes)
                                    se;
                            edges =
                                ce
                                ∙ ap (λ (m : AstSyntaxMetrics). usage.call_edges + m.function_calls)
                                    se
                                ∙ ap (λ k. usage.call_edges + k)
                                    (omega (arith, calls-le f.expression, few, nodes_usize));
                            is_body = (well, shallow);
                          },
                          record {
                            functions_fit = w.functions_fit;
                            parameters_fit = w.parameters_fit;
                            names_fit = w.names_fit;
                            nodes_fit = nw;
                            scalars_fit = sw;
                            edges_fit = cw;
                          },
                        )

  -- The counters after some functions, from those before.
  abbrev Totals :
      List ExpressionFunction → ExpressionFunctionUsage → ExpressionFunctionUsage → Type 0
  Totals fs usage u =
      (u.functions ≡ usage.functions + length fs)
      × (u.parameters ≡ usage.parameters + total (λ f. length f.params) fs)
      × (u.name_bytes ≡ usage.name_bytes + total signature_bytes fs)
      × (u.body_nodes ≡ usage.body_nodes + total (λ f. node_count f.expression) fs)
      × (u.body_scalar_bytes ≡ usage.body_scalar_bytes + total (λ f. scalar_bytes f.expression) fs)
      × (u.call_edges ≡ usage.call_edges + total (λ f. call_count f.expression) fs)

  Totals-cons :
      (f : ExpressionFunction) (fs : List ExpressionFunction)
      (usage named charged u : ExpressionFunctionUsage)
      → Counts f usage named
      → Holds limits f named charged
      → Totals fs charged u
      → Totals (f ∷ fs) usage u
  unfolding total
  Totals-cons f fs usage named charged u n c t = ground (arith, n, c, t)

  functions-Totals :
      (fs : List ExpressionFunction) (usage : ExpressionFunctionUsage)
      → IsWithin limits usage
      → Ends
          (λ u. Totals fs usage u × IsWithin limits u × AreBodies limits fs)
          (validate_functions limits fs usage)
  unfolding validate_functions total
  functions-Totals [] usage w = accepts (ground arith, w, tt)
  functions-Totals (f ∷ fs) usage w = Ends-bind (signature-Counts limits f usage w) λ named (n, nw).
      Ends-bind (body-Holds f named nw) λ charged (c, cw).
        Ends-map
          (λ u (t, uw, bodies).
            (Totals-cons f fs usage named charged u n c t, uw, (c.is_body, bodies)))
          (functions-Totals fs charged cw)

no_usage-IsWithin : (limits : ExpressionFunctionLimits) → IsWithin limits no_usage
no_usage-IsWithin limits = record {
  functions_fit = omega arith;
  parameters_fit = omega arith;
  names_fit = omega arith;
  nodes_fit = omega arith;
  scalars_fit = omega arith;
  edges_fit = omega arith;
}

-- For limits on the nodes and the scalar bytes of bodies that a usize holds, the check of any list of
-- expression functions ends. If it accepts them, then its counters are exactly the functions, their
-- parameters, the bytes of their names and parameters, and the nodes, scalar bytes and calls of their
-- bodies, summed up; each of these is within its limit; and each body is well formed and no deeper
-- than the limit and 128.
pub validate_functions-usage :
    (limits : ExpressionFunctionLimits) (fs : List ExpressionFunction)
    → limits.max_total_body_nodes ≤ usize_max
    → limits.max_total_body_scalar_bytes ≤ usize_max
    → Ends
        (λ u. (u ≡ usage_of fs) × IsWithin limits (usage_of fs) × AreBodies limits fs)
        (validate_functions limits fs no_usage)
validate_functions-usage limits fs nodes_usize scalars_usize =
    Ends-map
      (λ u (t, w, bodies).
        let same : u ≡ usage_of fs = ground (arith, t) in
        (same, subst (IsWithin limits) same w, bodies))
      (functions-Totals limits nodes_usize scalars_usize fs no_usage (no_usage-IsWithin limits))
