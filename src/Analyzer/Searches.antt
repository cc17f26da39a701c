-- ===== src/Analyzer/Searches.antt =====
-- The check of the expression functions ends, and it only complains.
use online_dsl_forge.Base.{
  ◌≡◌, refl, ◌≤◌, arith, [], ◌∷◌, true, false, Bool, Returns, accepts, ℕ, Text, Option, List,
  Returns-map, Returns-bind, inl, inr, Bool-cases, Option-cases,
}
use online_dsl_forge.Analyzer.{Analyzer}
use online_dsl_forge.Analyzer.State.{AnalyzeState, FunctionKey}
use online_dsl_forge.Analyzer.Moves.{Quiet, stay, then}
use online_dsl_forge.Analyzer.Graph.{
  Adjacency, Functions, validate_host_function_call, problem_if, edges_of, adjacency_of, search_all,
  push_all_problems, validate_functions_dialect, validate_function_cycles, validate_function_graph,
  total_edges, function_diagnostic_limit_reached, by_key,
}
use online_dsl_forge.Analyzer.Dialect.{FunctionCallSite, function_calls, visit_call}
use online_dsl_forge.Schema.{
  RegexFlavor, RuntimeSchema, ExpressionFunction, ExpressionFunctionScope, SignatureMatch,
  signature_accepts, expression_function_for_scope, all_functions,
}
use online_dsl_forge.Syntax.{SourceSpan, Diagnostic}
use online_dsl_forge.Analyzer.Walks.{validate_dialect-Returns, walk_all-Returns}
use online_dsl_forge.Analyzer.Cycles.{white, problem-Quiet, weight, visited, search_loop-Returns}
use online_dsl_forge.Map.{contains_key}
use online_dsl_forge.Analyzer.Expressions.{key_eq}

white-le-total :
    (adjacency : Adjacency) (permanent active : List FunctionKey)
    → white adjacency permanent active ≤ total_edges adjacency
unfolding white total_edges
white-le-total [] permanent active = omega arith
white-le-total ((k, edges) ∷ rest) permanent active =
    elim (Bool-cases (visited permanent active k)) [
      | inl e ↦ rw (white, e) (omega (arith, white-le-total rest permanent active))
      | inr e ↦ rw (white, e) (omega (arith, white-le-total rest permanent active))
    ]

module _ (compile : RegexFlavor → Text → ℕ → Option Text) (analyzer : Analyzer)
    (schema : RuntimeSchema) where
  host_call-Quiet :
      (name : Text) (arity : ℕ) (span : SourceSpan) (σ : AnalyzeState)
      → Quiet σ (validate_host_function_call compile analyzer schema name arity span σ)
  unfolding validate_host_function_call
  host_call-Quiet name arity span σ = go (signature_accepts schema.functions name arity) refl
    where
      go :
          (match : SignatureMatch)
          → signature_accepts schema.functions name arity ≡ match
          → Quiet σ (validate_host_function_call compile analyzer schema name arity span σ)
      go SignatureMatch.matches e = rw (e, validate_host_function_call) (stay σ)
      go SignatureMatch.unknown e = elim (Bool-cases analyzer.options.allow_unknown_functions) [
        | inl allowed ↦ rw (e, validate_host_function_call, allowed) (stay σ)
        | inr refused ↦
            rw (e, validate_host_function_call, refused)
              (problem-Quiet compile analyzer schema _ span σ)
      ]
      go SignatureMatch.arity_mismatch e =
          rw (e, validate_host_function_call) (problem-Quiet compile analyzer schema _ span σ)

  problem_if-Quiet :
      (b : Bool) (message : Text) (span : SourceSpan) (σ : AnalyzeState)
      → Quiet σ (problem_if compile analyzer schema b message span σ)
  problem_if-Quiet true message span σ = problem-Quiet compile analyzer schema message span σ
  problem_if-Quiet false message span σ = stay σ

  edges_of-Quiet :
      (scope : ExpressionFunctionScope) (calls : List FunctionCallSite) (edges : List FunctionKey)
      (σ : AnalyzeState)
      → Quiet σ (edges_of compile analyzer schema scope calls edges σ).1
  unfolding edges_of
  edges_of-Quiet scope [] edges σ = stay σ
  edges_of-Quiet scope (call ∷ calls) edges σ =
      elim (Option-cases (expression_function_for_scope schema call.name scope)) [
        | inl e ↦
            rw (e, edges_of)
              (then (host_call-Quiet call.name call.arity call.span σ)
                (edges_of-Quiet scope calls edges _))
        | inr (callee, e) ↦
            rw (e, edges_of)
              (then (problem_if-Quiet _ _ call.span σ) (edges_of-Quiet scope calls _ _))
      ]

  adjacency_of-Returns :
      (functions : Functions) (adjacency : Adjacency) (σ : AnalyzeState)
      → Returns (λ r. Quiet σ r.1) (adjacency_of compile analyzer schema functions adjacency σ)
  unfolding adjacency_of function_calls
  adjacency_of-Returns [] adjacency σ = accepts (stay σ)
  adjacency_of-Returns ((key, function) ∷ rest) adjacency σ =
      Returns-bind (walk_all-Returns visit_call function.expression []) λ calls h.
        Returns-map (λ r q. then (edges_of-Quiet function.scope calls [] σ) q)
          (adjacency_of-Returns rest _ _)

  search_all-Returns :
      (functions : Functions) (adjacency : Adjacency) (starts : Functions)
      (permanent : List FunctionKey) (σ : AnalyzeState)
      → Returns
          (λ r. Quiet σ r.1)
          (search_all compile analyzer schema functions adjacency starts permanent σ)
  unfolding search_all weight
  search_all-Returns functions adjacency [] permanent σ = accepts (stay σ)
  search_all-Returns functions adjacency ((start, f) ∷ rest) permanent σ =
      elim (Bool-cases (contains_key key_eq start permanent)) [
        | inl done ↦ rw (done, search_all) (search_all-Returns functions adjacency rest permanent σ)
        | inr fresh ↦
            rw (fresh, search_all)
              (Returns-bind
                (search_loop-Returns compile analyzer schema functions adjacency _ permanent []
                  ((start, false) ∷ []) σ (omega (arith, white-le-total adjacency permanent [])))
                λ (done, σ') q.
                  Returns-map (λ r q'. then q q')
                    (search_all-Returns functions adjacency rest done σ'))
      ]

  push_all_problems-Quiet :
      (ds : List Diagnostic) (σ : AnalyzeState)
      → Quiet σ (push_all_problems compile analyzer schema ds σ)
  unfolding push_all_problems
  push_all_problems-Quiet [] σ = stay σ
  push_all_problems-Quiet (d ∷ ds) σ =
      then (problem-Quiet compile analyzer schema _ d.span σ) (push_all_problems-Quiet ds _)

  functions_dialect-Returns :
      (fs : List ExpressionFunction) (σ : AnalyzeState)
      → Returns (λ r. Quiet σ r.1) (validate_functions_dialect compile analyzer schema fs σ)
  unfolding validate_functions_dialect
  functions_dialect-Returns [] σ = accepts (stay σ)
  functions_dialect-Returns (f ∷ fs) σ =
      elim (Bool-cases (function_diagnostic_limit_reached compile analyzer schema σ)) [
        | inl reached ↦ rw (reached, validate_functions_dialect) (accepts (stay σ))
        | inr below ↦
            rw (below, validate_functions_dialect)
              (Returns-bind (validate_dialect-Returns analyzer.dialect f.expression []) λ ds h.
                Returns-map (λ r q. then (push_all_problems-Quiet ds σ) q)
                  (functions_dialect-Returns fs _))
      ]

  cycles-Returns :
      (σ : AnalyzeState)
      → Returns (λ r. Quiet σ r.1) (validate_function_cycles compile analyzer schema σ)
  unfolding validate_function_cycles
  cycles-Returns σ =
      Returns-bind (adjacency_of-Returns (by_key (all_functions schema) []) [] σ)
        λ (adjacency, σ') q.
          Returns-map (λ r q'. then q q')
            (search_all-Returns (by_key (all_functions schema) []) adjacency _ [] σ')

  pub validate_function_graph-Returns :
      (σ : AnalyzeState)
      → Returns (λ r. Quiet σ r.1) (validate_function_graph compile analyzer schema σ)
  unfolding validate_function_graph
  validate_function_graph-Returns σ =
      Returns-bind (functions_dialect-Returns (all_functions schema) σ)
        λ (u, σ') q. Returns-map (λ r q'. then q q') (cycles-Returns σ')
