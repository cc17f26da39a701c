-- ===== src/Formatter/Correct.antt =====
-- The task loop against the recursive printer.
use online_dsl_forge.Base.{
  ℕ, zero, suc, ◌+◌, ◌*◌, ◌≤◌, ◌<◌, Bool, true, false, List, [], ◌∷◌, ◌++◌, ◌≡◌, refl, arith, Text,
  Result, ◌>>=◌, ltb, ltb→lt, ltb→le, Verdict, accepts, Verdict-fail_if, Verdict-ok_or,
  Verdict-bind, byte_length, byte_length-nil, byte_length-append, append_assoc, append-nil, codes,
  if◌then◌else◌,
}
use online_dsl_forge.Base.Usize.{usize_max, checked_add, checked_add-eq-none, checked_add-eq-some}
use online_dsl_forge.Syntax.{
  AstExpression, ExprKind, Expressions, ast, null, bool, int, float, array, identifier, member,
  function_call, method_call, unary, binary, nil, cons, DiagnosticReport, SourceSpan, F64,
}
use online_dsl_forge.Syntax.Measure.{node_count, kind_nodes, list_nodes}
use online_dsl_forge.Formatter.{
  ChildSide, root, Task, expression, text, owned, escaped, schedule_rest, schedule_sequence,
  schedule_kind, schedule_expression, escape_char, push_str, push_escaped, format_loop,
}
use online_dsl_forge.Formatter.Print.{
  escape, parenthesize, print, print_kind, print_items, print_rest,
}

-- The steps that a task can cost, itself included.
weight : Task → ℕ
weight (expression (ast k s) parent side) = 8 + 9 * kind_nodes k
weight _ = 1

weights : List Task → ℕ
weights [] = 0
weights (t ∷ ts) = weight t + weights ts

weights-schedule_rest :
    (stack : List Task) (es : Expressions)
    → weights (schedule_rest stack es) ≤ 9 * list_nodes es + weights stack
unfolding schedule_rest weights weight node_count
weights-schedule_rest stack nil = omega arith
weights-schedule_rest stack (cons (ast k s) es) = omega (arith, weights-schedule_rest stack es)

weights-schedule_sequence :
    (stack : List Task) (es : Expressions)
    → weights (schedule_sequence stack es) ≤ 9 * list_nodes es + weights stack
unfolding schedule_sequence schedule_rest weights weight node_count
weights-schedule_sequence stack nil = omega arith
weights-schedule_sequence stack (cons (ast k s) es) = omega (arith, weights-schedule_rest stack es)

module _ (show_f64 : F64 → Text) where
  -- What the tasks will write.
  written : Task → Text
  written (expression e parent side) = print show_f64 e parent side
  written (text t) = t
  written (owned t) = t
  written (escaped t) = escape t

  all_written : List Task → Text
  all_written [] = []
  all_written (t ∷ ts) = written t ++ all_written ts

  schedule_rest_written :
      (stack : List Task) (es : Expressions)
      → all_written (schedule_rest stack es) ≡ print_rest show_f64 es ++ all_written stack
  unfolding schedule_rest all_written written print
  schedule_rest_written stack nil = refl
  schedule_rest_written stack (cons e es) = simp (schedule_rest_written stack es, append_assoc)

  schedule_sequence_written :
      (stack : List Task) (es : Expressions)
      → all_written (schedule_sequence stack es) ≡ print_items show_f64 es ++ all_written stack
  unfolding schedule_sequence schedule_rest all_written written print
  schedule_sequence_written stack nil = refl
  schedule_sequence_written stack (cons e es) = simp (schedule_rest_written stack es, append_assoc)

  schedule_kind_written :
      (stack : List Task) (k : ExprKind)
      → all_written (schedule_kind show_f64 stack k) ≡ print_kind show_f64 k ++ all_written stack
  unfolding schedule_kind all_written written print
  schedule_kind_written stack null = refl
  schedule_kind_written stack (bool true) = refl
  schedule_kind_written stack (bool false) = refl
  schedule_kind_written stack (int value) = refl
  schedule_kind_written stack (float value) = refl
  schedule_kind_written stack (identifier name) = refl
  schedule_kind_written stack _ = simp (schedule_sequence_written, append_assoc)

  weights-schedule_kind :
      (stack : List Task) (k : ExprKind)
      → weights (schedule_kind show_f64 stack k) ≤ 5 + 9 * kind_nodes k + weights stack
  unfolding schedule_kind weights weight node_count
  weights-schedule_kind stack (array items) =
      omega (arith, weights-schedule_sequence (text (codes "]") ∷ stack) items)
  weights-schedule_kind stack (function_call name args) =
      omega (arith, weights-schedule_sequence (text (codes ")") ∷ stack) args)
  weights-schedule_kind stack (method_call (ast k s) name args) =
      omega (arith, weights-schedule_sequence (text (codes ")") ∷ stack) args)
  weights-schedule_kind stack (member (ast k s) name) = omega arith
  weights-schedule_kind stack (unary op (ast k s)) = omega arith
  weights-schedule_kind stack (binary (ast k s) op (ast k' s')) = omega arith
  weights-schedule_kind stack (bool true) = omega arith
  weights-schedule_kind stack (bool false) = omega arith
  weights-schedule_kind stack _ = omega arith

  parenthesize_written :
      (b : Bool) (stack : List Task) (k : ExprKind)
      → all_written (
          if b
          then text (codes "(") ∷ schedule_kind show_f64 (text (codes ")") ∷ stack) k
          else schedule_kind show_f64 stack k)
        ≡ parenthesize b (print_kind show_f64 k) ++ all_written stack
  unfolding all_written written
  parenthesize_written true stack k = simp (schedule_kind_written, append_assoc)
  parenthesize_written false stack k = schedule_kind_written stack k

  parenthesize_weights :
      (b : Bool) (stack : List Task) (k : ExprKind)
      → weights (
          if b
          then text (codes "(") ∷ schedule_kind show_f64 (text (codes ")") ∷ stack) k
          else schedule_kind show_f64 stack k)
        ≤ 7 + 9 * kind_nodes k + weights stack
  unfolding weights weight
  parenthesize_weights true stack k =
      omega (arith, weights-schedule_kind (text (codes ")") ∷ stack) k)
  parenthesize_weights false stack k = omega (arith, weights-schedule_kind stack k)

  schedule_expression_written :
      (stack : List Task) (k : ExprKind) (s : SourceSpan) (parent : ℕ) (side : ChildSide)
      → all_written (schedule_expression show_f64 stack k parent side)
        ≡ print show_f64 (ast k s) parent side ++ all_written stack
  unfolding schedule_expression print
  schedule_expression_written stack k s parent side = parenthesize_written _ stack k

  weights-schedule_expression :
      (stack : List Task) (k : ExprKind) (parent : ℕ) (side : ChildSide)
      → weights (schedule_expression show_f64 stack k parent side)
        ≤ 7 + 9 * kind_nodes k + weights stack
  unfolding schedule_expression
  weights-schedule_expression stack k parent side = parenthesize_weights _ stack k

longer : (a b c : Text) → byte_length (a ++ b) ≤ byte_length (a ++ (b ++ c))
longer a b c =
    omega (arith, byte_length-append a b, byte_length-append a (b ++ c), byte_length-append b c)

module _ (limit : ℕ) (span : SourceSpan) (limit_usize : limit ≤ usize_max) where
  -- The output becomes `out`, within the limit; or it would go over the limit.
  abbrev Becomes : Text → Text → Type 0
  Becomes out a = (a ≡ out) × (byte_length out ≤ limit)

  push_str-Verdict :
      (output value : Text)
      → Verdict
          (Becomes (output ++ value))
          (limit < byte_length (output ++ value))
          (push_str limit span output value)
  unfolding push_str
  push_str-Verdict output value =
      Verdict-ok_or (checked_add (byte_length output) (byte_length value)) _
        (λ t. omega (arith, checked_add-eq-none _ _ t, byte_length-append output value))
        λ n e.
          Verdict-fail_if (ltb limit n) _
            (λ t.
              omega
                (arith, ltb→lt _ _ t, checked_add-eq-some _ _ e, byte_length-append output value))
            λ few. accepts (
              refl,
              omega (
                arith,
                ltb→le _ _ few,
                checked_add-eq-some _ _ e,
                byte_length-append output value,
              ),
            )

  push_escaped-Verdict :
      (value output : Text)
      → byte_length output ≤ limit
      → Verdict
          (Becomes (output ++ escape value))
          (limit < byte_length (output ++ escape value))
          (push_escaped limit span output value)
  unfolding push_escaped escape
  push_escaped-Verdict [] output h = accepts (rw append-nil (refl, h))
  push_escaped-Verdict (c ∷ cs) output h =
      Verdict-bind (push_str-Verdict output (escape_char c))
        (λ b. omega (arith, longer output (escape_char c) (escape cs)))
        λ o (e, fits).
          rw e (rw append_assoc at (push_escaped-Verdict cs (output ++ escape_char c) fits))

  module _ (show_f64 : F64 → Text) where
    -- After a task that wrote `t`, the loop `next` writes the rest.
    written_rest :
        (rest output t : Text) {r : Result DiagnosticReport Text}
        (next : Text → Result DiagnosticReport Text)
        → ((o : Text)
            → byte_length o ≤ limit
            → Verdict (Becomes (o ++ rest)) (limit < byte_length (o ++ rest)) (next o))
        → Verdict (Becomes (output ++ t)) (limit < byte_length (output ++ t)) r
        → Verdict
            (Becomes (output ++ (t ++ rest)))
            (limit < byte_length (output ++ (t ++ rest)))
            (r >>= next)
    written_rest rest output t next k v =
        Verdict-bind v (λ b. omega (arith, longer output t rest))
          λ o (e, fits). rw e (rw append_assoc at (k (output ++ t) fits))

    format_loop-Verdict :
        (fuel : ℕ) (stack : List Task) (output : Text)
        → weights stack < fuel
        → byte_length output ≤ limit
        → Verdict
            (Becomes (output ++ all_written show_f64 stack))
            (limit < byte_length (output ++ all_written show_f64 stack))
            (format_loop limit span show_f64 fuel stack output)
    unfolding format_loop weights weight all_written written
    format_loop-Verdict zero stack output hf ho = absurd (omega arith)
    format_loop-Verdict (suc fuel) [] output hf ho = accepts (rw append-nil (refl, ho))
    format_loop-Verdict (suc fuel) (expression (ast k s) parent side ∷ stack) output hf ho =
        rw (← schedule_expression_written show_f64 stack k s parent side) (
          format_loop-Verdict fuel (schedule_expression show_f64 stack k parent side) output
            (omega (arith, weights-schedule_expression show_f64 stack k parent side)) ho)
    format_loop-Verdict (suc fuel) (text t ∷ stack) output hf ho =
        written_rest _ output t _ (λ o h. format_loop-Verdict fuel stack o (omega arith) h)
          (push_str-Verdict output t)
    format_loop-Verdict (suc fuel) (owned t ∷ stack) output hf ho =
        written_rest _ output t _ (λ o h. format_loop-Verdict fuel stack o (omega arith) h)
          (push_str-Verdict output t)
    format_loop-Verdict (suc fuel) (escaped t ∷ stack) output hf ho =
        written_rest _ output (escape t) _ (λ o h. format_loop-Verdict fuel stack o (omega arith) h)
          (push_escaped-Verdict t output ho)

    expression_weight : (e : AstExpression) → weights (expression e 0 root ∷ []) < 9 * node_count e
    unfolding weights weight node_count
    expression_weight (ast k s) = omega arith

    -- The whole run: the print of the expression, if it is within the limit.
    pub format_root-Verdict :
        (e : AstExpression)
        → Verdict
            (Becomes (print show_f64 e 0 root))
            (limit < byte_length (print show_f64 e 0 root))
            (format_loop limit span show_f64 (9 * node_count e) (expression e 0 root ∷ []) [])
    unfolding all_written written
    format_root-Verdict e = rw append-nil at (
        format_loop-Verdict (9 * node_count e) (expression e 0 root ∷ []) [] (expression_weight e)
          (omega (arith, byte_length-nil)))
