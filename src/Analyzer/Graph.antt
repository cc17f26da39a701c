-- ===== src/Analyzer/Graph.antt =====
-- source/src/sema/analyzer/functions.rs: the expression functions and the cycles of their calls.
use online_dsl_forge.Base.{
  zero, suc, none, some, [], ◌∷◌, ◌++◌, ◌>>=◌ as ◌>>=ᴿ◌, List, Bool, Text, ℕ, Option, ok,
  out_of_fuel, ◌*◌, ◌+◌, leb, true, length, max, false, not, ◌==◌, codes,
}
use online_dsl_forge.Analyzer.{Analyzer}
use online_dsl_forge.Analyzer.State.{AnalyzeState, Analyze, ◌>>=◌, ◌>>◌, FunctionKey}
use online_dsl_forge.Analyzer.Expressions.{
  key_eq, function_key, function_problem, recursive_text, wrong_arity_text,
}
use online_dsl_forge.Schema.{
  RegexFlavor, SignatureMatch, ExpressionFunction, RuntimeSchema, ExpressionFunctionScope,
  all_functions, signature_accepts, expression_function_for_scope,
}
use online_dsl_forge.Map.{insert, lookup, contains_key, insert_key, text_lt}
use online_dsl_forge.Syntax.{SourceSpan, Diagnostic, span_of}
use online_dsl_forge.Analyzer.Dialect.{FunctionCallSite, function_calls, validate_dialect}
use online_dsl_forge.Syntax.Messages.{message_text}
use online_dsl_forge.Schema.Functions.{diagnostic_limit, diagnostic_name}

abbrev pub key_lt : FunctionKey → FunctionKey → Bool
key_lt (ExpressionFunctionScope.global, a) (ExpressionFunctionScope.local, b) = true
key_lt (ExpressionFunctionScope.local, a) (ExpressionFunctionScope.global, b) = false
key_lt (s, a) (t, b) = text_lt a b

abbrev pub Functions : Type 0
Functions = List (FunctionKey × ExpressionFunction)

abbrev pub Adjacency : Type 0
Adjacency = List (FunctionKey × List FunctionKey)

-- `collect` into a map.
unfoldable pub by_key : List ExpressionFunction → Functions → Functions
by_key [] functions = functions
by_key (f ∷ fs) functions = by_key fs (insert key_eq key_lt (function_key f) f functions)

-- `BTreeSet::remove`.
unfoldable pub remove_key : FunctionKey → List FunctionKey → List FunctionKey
remove_key k [] = []
remove_key k (key ∷ keys) = elim (key_eq key k) [
  | true ↦ remove_key k keys
  | false ↦ key ∷ remove_key k keys
]

abbrev pub reverse_onto {ℓ} : {A : Type ℓ} → List A → List A → List A
reverse_onto [] ys = ys
reverse_onto (x ∷ xs) ys = reverse_onto xs (x ∷ ys)

-- The stack of the search: a key, and whether it is left.
abbrev pub Search : Type 0
Search = List (FunctionKey × Bool)

-- `unwrap_or_default`.
abbrev pub or_empty {ℓ} : {A : Type ℓ} → Option (List A) → List A
or_empty none = []
or_empty (some xs) = xs

abbrev pub edges_at : Adjacency → FunctionKey → List FunctionKey
edges_at adjacency key = or_empty (lookup key_eq key adjacency)

unfoldable pub total_edges : Adjacency → ℕ
total_edges [] = 0
total_edges ((key, edges) ∷ rest) = 2 * length edges + total_edges rest

-- Each key is entered once, which pushes its edges; two rounds are for the start.
abbrev pub search_fuel : Adjacency → ℕ
search_fuel adjacency = total_edges adjacency + 3

module _ (compile : RegexFlavor → Text → ℕ → Option Text) (analyzer : Analyzer)
    (schema : RuntimeSchema) where
  abbrev pub problem : Text → SourceSpan → AnalyzeState → AnalyzeState
  problem message span σ = function_problem compile analyzer schema message span σ

  -- A host function that an expression function calls.
  unfoldable pub validate_host_function_call : Text → ℕ → SourceSpan → AnalyzeState → AnalyzeState
  validate_host_function_call name arity span σ =
      elim (signature_accepts schema.functions name arity) [
        | SignatureMatch.matches ↦ σ
        | SignatureMatch.unknown ↦ elim analyzer.options.allow_unknown_functions [
          | true ↦ σ
          | false ↦ problem (codes "unknown function " ++ diagnostic_name name) span σ
        ]
        | SignatureMatch.arity_mismatch ↦ problem (wrong_arity_text name arity) span σ
      ]

  abbrev pub problem_if : Bool → Text → SourceSpan → AnalyzeState → AnalyzeState
  problem_if b message span σ = elim b [ true ↦ problem message span σ | false ↦ σ ]

  -- The edges of a function, with what is wrong with its calls.
  unfoldable pub edges_of :
      ExpressionFunctionScope
      → List FunctionCallSite
      → List FunctionKey
      → AnalyzeState
      → List FunctionKey × AnalyzeState
  edges_of scope [] edges σ = (edges, σ)
  edges_of scope (call ∷ calls) edges σ =
      elim (expression_function_for_scope schema call.name scope) [
        | none ↦
            edges_of scope calls edges
              (validate_host_function_call call.name call.arity call.span σ)
        | some callee ↦ edges_of scope calls (edges ++ function_key callee ∷ []) (
            problem_if (not (length callee.params == call.arity))
              (wrong_arity_text call.name call.arity) call.span σ)
      ]

  unfoldable pub adjacency_of : Functions → Adjacency → Analyze Adjacency
  adjacency_of [] adjacency σ = ok (adjacency, σ)
  adjacency_of ((key, function) ∷ rest) adjacency σ =
      ◌>>=ᴿ◌ (function_calls function.expression) λ calls.
        let found = edges_of function.scope calls [] σ in
        adjacency_of rest (insert key_eq key_lt key found.0 adjacency) found.1

  -- A function that calls itself, if there is one of this key.
  unfoldable pub report_recursive : Functions → FunctionKey → AnalyzeState → AnalyzeState
  report_recursive functions key σ = elim (lookup key_eq key functions) [
    | none ↦ σ
    | some function ↦ problem (recursive_text function.name) (span_of function.expression) σ
  ]

  -- The edges, from the last to the first.
  unfoldable pub push_edges :
      Functions
      → List FunctionKey
      → List FunctionKey
      → List FunctionKey
      → Search
      → AnalyzeState
      → Search × AnalyzeState
  push_edges functions permanent active [] stack σ = (stack, σ)
  push_edges functions permanent active (edge ∷ edges) stack σ =
      elim (contains_key key_eq edge active) [
        | true ↦
            push_edges functions permanent active edges stack (report_recursive functions edge σ)
        | false ↦ elim (contains_key key_eq edge permanent) [
          | true ↦ push_edges functions permanent active edges stack σ
          | false ↦ push_edges functions permanent active edges ((edge, false) ∷ stack) σ
        ]
      ]

  -- The search returns the keys that it is done with.
  unfoldable pub search_loop :
      Functions
      → Adjacency
      → ℕ
      → List FunctionKey
      → List FunctionKey
      → Search
      → Analyze (List FunctionKey)
  search_loop functions adjacency zero permanent active stack σ = out_of_fuel
  search_loop functions adjacency (suc fuel) permanent active [] σ = ok (permanent, σ)
  search_loop functions adjacency (suc fuel) permanent active ((key, true) ∷ stack) σ =
      search_loop functions adjacency fuel (insert_key key_eq key_lt key permanent)
        (remove_key key active) stack σ
  search_loop functions adjacency (suc fuel) permanent active ((key, false) ∷ stack) σ =
      elim (contains_key key_eq key permanent) [
        | true ↦ search_loop functions adjacency fuel permanent active stack σ
        | false ↦ elim (contains_key key_eq key active) [
          | true ↦
              search_loop functions adjacency fuel permanent active stack
                (report_recursive functions key σ)
          | false ↦
              let entered = insert_key key_eq key_lt key active in
              let pushed =
                push_edges functions permanent entered (reverse_onto (edges_at adjacency key) [])
                  ((key, true) ∷ stack) σ in
              search_loop functions adjacency fuel permanent entered pushed.0 pushed.1
        ]
      ]

  unfoldable pub search_all :
      Functions
      → Adjacency
      → List (FunctionKey × ExpressionFunction)
      → List FunctionKey
      → Analyze (Unit {0})
  search_all functions adjacency [] permanent σ = ok (tt, σ)
  search_all functions adjacency ((start, f) ∷ rest) permanent σ =
      elim (contains_key key_eq start permanent) [
        | true ↦ search_all functions adjacency rest permanent σ
        | false ↦
            ◌>>=ᴿ◌
              (search_loop functions adjacency (search_fuel adjacency) permanent []
                ((start, false) ∷ []) σ)
              λ (done, σ'). search_all functions adjacency rest done σ'
      ]

  unfoldable pub validate_function_cycles : Analyze (Unit {0})
  validate_function_cycles = do
    let functions = by_key (all_functions schema) []
    adjacency ← adjacency_of functions []
    search_all functions adjacency functions []

  unfoldable pub function_diagnostic_limit_reached : AnalyzeState → Bool
  function_diagnostic_limit_reached σ =
      leb (max (diagnostic_limit schema.expression_function_limits) 1) (length σ.diagnostics)

  unfoldable pub push_all_problems : List Diagnostic → AnalyzeState → AnalyzeState
  push_all_problems [] σ = σ
  push_all_problems (d ∷ ds) σ = push_all_problems ds (problem (message_text d.message) d.span σ)

  unfoldable pub validate_functions_dialect : List ExpressionFunction → Analyze (Unit {0})
  validate_functions_dialect [] σ = ok (tt, σ)
  validate_functions_dialect (f ∷ fs) σ = elim (function_diagnostic_limit_reached σ) [
    | true ↦ ok (tt, σ)
    | false ↦
        ◌>>=ᴿ◌ (validate_dialect analyzer.dialect f.expression [])
          λ diagnostics. validate_functions_dialect fs (push_all_problems diagnostics σ)
  ]

  unfoldable pub validate_function_graph : Analyze (Unit {0})
  validate_function_graph =
      validate_functions_dialect (all_functions schema) >> validate_function_cycles
