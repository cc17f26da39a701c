-- ===== src/Validation/Correct.antt =====
-- `validate_ast_syntax` against the recursive measures.
use online_dsl_forge.Base.{
  ℕ, zero, suc, ◌+◌, ◌≤◌, ◌<◌, min, Bool, true, false, not, ◌&&◌, List, [], ◌∷◌, ◌≡◌, ◌≢◌, ◌↔◌, ◌⊎◌,
  inl, inr, arith, Text, ok, out_of_fuel, ltb, ltb→lt, ltb→le, Verdict, accepts, Verdict-fail_if,
  Verdict-ok_or, Verdict-bind, Verdict-map, Verdict-eq-ok_iff, Verdict-ends, byte_length,
}
use online_dsl_forge.Base.Usize.{usize_max, checked_add, checked_add-eq-none, checked_add-eq-some}
use online_dsl_forge.Syntax.{
  AstExpression, ExprKind, Expressions, ast, float, string, array, identifier, member,
  function_call, method_call, unary, binary, nil, cons, SourceSpan, NameKind, is_finite,
}
use online_dsl_forge.Syntax.Measure.{node_count, kind_nodes, list_nodes}
use online_dsl_forge.Validation.Measure.{
  is_well_formed, kind_well_formed, list_well_formed, scalar_bytes, kind_scalar_bytes,
  list_scalar_bytes, call_count, kind_call_count, list_call_count,
}
use online_dsl_forge.Validation.{
  AstSyntaxMetrics, Walk, is_valid_identifier, validate_name, charge_scalar, charge_name, push_all,
  validate_step, validate_loop, validate_ast_syntax,
}

-- What is still to be visited.
unfoldable pub pending_nodes : List AstExpression → ℕ
pending_nodes [] = 0
pending_nodes (e ∷ pending) = node_count e + pending_nodes pending

unfoldable pub pending_bytes : List AstExpression → ℕ
pending_bytes [] = 0
pending_bytes (e ∷ pending) = scalar_bytes e + pending_bytes pending

unfoldable pub pending_calls : List AstExpression → ℕ
pending_calls [] = 0
pending_calls (e ∷ pending) = call_count e + pending_calls pending

unfoldable pub pending_well_formed : List AstExpression → Bool
pending_well_formed [] = true
pending_well_formed (e ∷ pending) = is_well_formed e && pending_well_formed pending

pub push_all_lem :
    (es : Expressions) (pending : List AstExpression)
    → (pending_nodes (push_all es pending) ≡ list_nodes es + pending_nodes pending)
      × (pending_bytes (push_all es pending) ≡ list_scalar_bytes es + pending_bytes pending)
      × (pending_calls (push_all es pending) ≡ list_call_count es + pending_calls pending)
      × (pending_well_formed (push_all es pending)
          ≡ (list_well_formed es && pending_well_formed pending))
unfolding push_all pending_nodes pending_bytes pending_calls pending_well_formed node_count
    scalar_bytes call_count is_well_formed
push_all_lem nil pending = ground arith
push_all_lem (cons e es) pending = ground (arith, push_all_lem es pending)

module _ (limit : ℕ) (limit_usize : limit ≤ usize_max) where
  charge_scalar-Verdict :
      (m : AstSyntaxMetrics) (bytes : ℕ) (span : SourceSpan)
      → Verdict
          (λ m'.
            (m' ≡ record m { scalar_bytes = m.scalar_bytes + bytes })
            × (m.scalar_bytes + bytes ≤ limit))
          (limit < m.scalar_bytes + bytes)
          (charge_scalar m bytes limit span)
  unfolding charge_scalar
  charge_scalar-Verdict m bytes span =
      Verdict-ok_or (checked_add m.scalar_bytes bytes) _
        (λ t. omega (arith, checked_add-eq-none _ _ t))
        λ total e.
          Verdict-fail_if (ltb limit total) _
            (λ t. omega (arith, ltb→lt _ _ t, checked_add-eq-some _ _ e))
            λ fits. accepts (
              ground (arith, checked_add-eq-some _ _ e),
              omega (arith, ltb→le _ _ fits, checked_add-eq-some _ _ e),
            )

  charge_name-Verdict :
      (m : AstSyntaxMetrics) (name : Text) (kind : NameKind) (span : SourceSpan)
      → Verdict
          (λ m'.
            (m' ≡ record m { scalar_bytes = m.scalar_bytes + byte_length name })
            × (m.scalar_bytes + byte_length name ≤ limit)
            × (is_valid_identifier name ≡ true))
          ((is_valid_identifier name ≡ false) ⊎ (limit < m.scalar_bytes + byte_length name))
          (charge_name m limit name kind span)
  unfolding charge_name validate_name
  charge_name-Verdict m name kind span =
      Verdict-bind (charge_scalar-Verdict m (byte_length name) span) inr λ m' (e, fits).
        Verdict-fail_if (not (is_valid_identifier name)) _ (λ t. inl (ground arith))
          λ t. accepts (e, fits, ground arith)

  -- The measures of the whole walk, seen from one of its states.
  abbrev Rejects : Bool → ℕ → Type 0
  Rejects well bytes = (well ≡ false) ⊎ (limit < bytes)

  record Keeps (nodes bytes calls : ℕ) (well : Bool) (w : Walk) : Type 0 where
    fewer : suc (pending_nodes w.pending) ≡ nodes
    same_bytes : w.metrics.scalar_bytes + pending_bytes w.pending ≡ bytes
    same_calls :
        min (w.metrics.function_calls + pending_calls w.pending) usize_max ≡ min calls usize_max
    same_well : pending_well_formed w.pending ≡ well
    fits : w.metrics.scalar_bytes ≤ limit
    calls_fit : w.metrics.function_calls ≤ usize_max

  validate_step-Verdict :
      (k : ExprKind) (s : SourceSpan) (pending : List AstExpression) (m : AstSyntaxMetrics)
      → m.scalar_bytes ≤ limit
      → m.function_calls ≤ usize_max
      → Verdict
          (Keeps
            (suc (kind_nodes k + pending_nodes pending))
            (m.scalar_bytes + (kind_scalar_bytes k + pending_bytes pending))
            (m.function_calls + (kind_call_count k + pending_calls pending))
            (kind_well_formed k && pending_well_formed pending))
          (Rejects
            (kind_well_formed k && pending_well_formed pending)
            (m.scalar_bytes + (kind_scalar_bytes k + pending_bytes pending)))
          (validate_step limit k s pending m)
  unfolding validate_step pending_nodes pending_bytes pending_calls pending_well_formed node_count
      scalar_bytes call_count is_well_formed
  validate_step-Verdict (string t) s pending m hb hc =
      Verdict-bind (charge_scalar-Verdict m (byte_length t) s) (λ b. inr (omega arith))
        λ m' (e, fits). accepts (rw e (ground arith))
  validate_step-Verdict (identifier name) s pending m hb hc =
      Verdict-bind (charge_name-Verdict m name NameKind.identifier s) (λ b. ground arith)
        λ m' (e, fits, valid). accepts (rw e (ground arith))
  validate_step-Verdict (member r name) s pending m hb hc =
      Verdict-bind (charge_name-Verdict m name NameKind.member s) (λ b. ground arith)
        λ m' (e, fits, valid). accepts (rw e (ground arith))
  validate_step-Verdict (function_call name args) s pending m hb hc =
      Verdict-bind (charge_name-Verdict m name NameKind.function s) (λ b. ground arith)
        λ m' (e, fits, valid). accepts (rw e (ground (arith, push_all_lem args pending)))
  validate_step-Verdict (method_call r name args) s pending m hb hc =
      Verdict-bind (charge_name-Verdict m name NameKind.method s) (λ b. ground arith)
        λ m' (e, fits, valid). accepts (rw e (ground (arith, push_all_lem args pending)))
  validate_step-Verdict (array items) s pending m hb hc =
      accepts (ground (arith, push_all_lem items pending))
  validate_step-Verdict (unary op e) s pending m hb hc = accepts (ground arith)
  validate_step-Verdict (binary l op r) s pending m hb hc = accepts (ground arith)
  validate_step-Verdict (float x) s pending m hb hc =
      Verdict-fail_if (not (is_finite x)) _ (λ t. inl (ground arith)) λ t. accepts (ground arith)
  validate_step-Verdict _ s pending m hb hc = accepts (ground arith)

  validate_loop-Verdict :
      (fuel : ℕ) (pending : List AstExpression) (m : AstSyntaxMetrics)
      → pending_nodes pending < fuel
      → m.scalar_bytes ≤ limit
      → m.function_calls ≤ usize_max
      → Verdict
          (λ m'.
            (m' ≡ record {
              scalar_bytes = m.scalar_bytes + pending_bytes pending;
              function_calls = min (m.function_calls + pending_calls pending) usize_max;
            })
            × ((pending_well_formed pending ≡ true)
                × (m.scalar_bytes + pending_bytes pending ≤ limit)))
          (Rejects (pending_well_formed pending) (m.scalar_bytes + pending_bytes pending))
          (validate_loop limit fuel pending m)
  unfolding validate_loop pending_nodes pending_bytes pending_calls pending_well_formed node_count
      scalar_bytes call_count is_well_formed
  validate_loop-Verdict zero pending m hf hb hc = absurd (omega arith)
  validate_loop-Verdict (suc fuel) [] m hf hb hc = accepts (ground arith)
  validate_loop-Verdict (suc fuel) (ast k s ∷ pending) m hf hb hc =
      Verdict-bind (validate_step-Verdict k s pending m hb hc) (λ b. b)
        λ w keeps.
          Verdict-map (λ m' (e, h). ground (arith, keeps)) (λ b. ground (arith, keeps))
            (validate_loop-Verdict fuel w.pending w.metrics (omega arith) keeps.fits
              keeps.calls_fit)

  pub validate_ast_syntax-Verdict :
      (e : AstExpression)
      → Verdict
          (λ m.
            (m ≡ record {
              scalar_bytes = scalar_bytes e;
              function_calls = min (call_count e) usize_max;
            })
            × ((is_well_formed e ≡ true) × (scalar_bytes e ≤ limit)))
          (Rejects (is_well_formed e) (scalar_bytes e))
          (validate_ast_syntax e limit)
  unfolding validate_ast_syntax pending_nodes pending_bytes pending_calls pending_well_formed
  validate_ast_syntax-Verdict e =
      Verdict-map (λ m (q, h). ground arith) (λ b. ground arith)
        (validate_loop-Verdict (suc (node_count e)) (e ∷ [])
          (record { scalar_bytes = 0; function_calls = 0 }) (omega arith) (omega arith)
          (omega arith))

-- For a `usize` limit the syntax check never runs out of fuel, and it accepts exactly the trees
-- whose names are all valid identifiers, whose floats are all finite, and whose names and string
-- literals have at most `limit` bytes together; it then returns those bytes and the number of
-- function calls (saturated at `usize::MAX`).
pub validate_ast_syntax-eq-ok_iff :
    (e : AstExpression) (limit : ℕ) (m : AstSyntaxMetrics)
    → limit ≤ usize_max
    → ((validate_ast_syntax e limit ≡ ok m) ↔ (
        (m
          ≡ record { scalar_bytes = scalar_bytes e; function_calls = min (call_count e) usize_max })
        × ((is_well_formed e ≡ true) × (scalar_bytes e ≤ limit))))
      × (validate_ast_syntax e limit ≢ out_of_fuel)
validate_ast_syntax-eq-ok_iff e limit m h =
    let verdict = validate_ast_syntax-Verdict limit h e in
    (Verdict-eq-ok_iff _ verdict (λ good bad. ground arith) m, Verdict-ends verdict)
