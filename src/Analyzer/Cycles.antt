-- ===== src/Analyzer/Cycles.antt =====
-- The search for recursive expression functions ends, and it only complains.
use online_dsl_forge.Base.{
  ◌≡◌, refl, ◌∙◌, sym, ap, subst, ◌≤◌, ◌<◌, ◌+◌, ◌*◌, arith, [], ◌∷◌, true, false, Bool, suc, zero,
  Returns, accepts, ℕ, Text, Option, List, Returns-map, inl, inr, Bool-cases, Option-cases, length,
  ◌||◌, text_eq_iff, ◌⊎◌, text_eq,
}
use online_dsl_forge.Analyzer.{Analyzer}
use online_dsl_forge.Analyzer.State.{AnalyzeState, FunctionKey}
use online_dsl_forge.Analyzer.Moves.{Quiet, stay, then}
use online_dsl_forge.Analyzer.Charges.{problem-Loud}
use online_dsl_forge.Map.{contains_key, insert_key, lookup}
use online_dsl_forge.Map.Keys.{
  insert_key-same, insert_key-kept, contains-other, lookup-here, lookup-next,
}
use online_dsl_forge.Analyzer.Graph.{
  Adjacency, Functions, Search, remove_key, key_lt, reverse_onto, edges_at, or_empty, problem,
  report_recursive, push_edges, search_loop,
}
use online_dsl_forge.Schema.{RegexFlavor, RuntimeSchema, ExpressionFunctionScope}
use online_dsl_forge.Schema.Integrity.{scope_eq}
use online_dsl_forge.Syntax.{SourceSpan}
use online_dsl_forge.Analyzer.Expressions.{key_eq}
use online_dsl_forge.Runtime.Tickets.{and_both}

scope_eq_lem : (s t : ExpressionFunctionScope) → scope_eq s t ≡ true → s ≡ t
scope_eq_lem ExpressionFunctionScope.global ExpressionFunctionScope.global h = refl
scope_eq_lem ExpressionFunctionScope.local ExpressionFunctionScope.local h = refl
scope_eq_lem ExpressionFunctionScope.global ExpressionFunctionScope.local h = cc
scope_eq_lem ExpressionFunctionScope.local ExpressionFunctionScope.global h = cc

key_eq_lem : (a b : FunctionKey) → key_eq a b ≡ true → a ≡ b
key_eq_lem (s, a) (t, b) h =
    let (p, q) = and_both (scope_eq s t) (text_eq a b) h in
    let e = scope_eq_lem s t p in let f = (text_eq_iff a b).0 q in cc

key_eq_refl : (k : FunctionKey) → key_eq k k ≡ true
key_eq_refl (ExpressionFunctionScope.global, a) = (text_eq_iff a a).1 refl
key_eq_refl (ExpressionFunctionScope.local, a) = (text_eq_iff a a).1 refl

-- A key that the search is done with, or in.
unfoldable pub visited : List FunctionKey → List FunctionKey → FunctionKey → Bool
visited permanent active k = contains_key key_eq k permanent || contains_key key_eq k active

visited-left :
    (permanent active : List FunctionKey) (k : FunctionKey)
    → contains_key key_eq k permanent ≡ true
    → visited permanent active k ≡ true
unfolding visited
visited-left permanent active k h = rw (visited, h) refl

visited-right :
    (permanent active : List FunctionKey) (k : FunctionKey)
    → contains_key key_eq k active ≡ true
    → visited permanent active k ≡ true
unfolding visited
visited-right permanent active k h = elim (Bool-cases (contains_key key_eq k permanent)) [
  | inl e ↦ rw (visited, e) refl
  | inr e ↦ rw (visited, e) h
]

visited-cases :
    (permanent active : List FunctionKey) (k : FunctionKey)
    → visited permanent active k ≡ true
    → (contains_key key_eq k permanent ≡ true) ⊎ (contains_key key_eq k active ≡ true)
unfolding visited
visited-cases permanent active k h = elim (Bool-cases (contains_key key_eq k permanent)) [
  | inl e ↦ inl e
  | inr e ↦ inr (cc)
]

unvisited :
    (permanent active : List FunctionKey) (k : FunctionKey)
    → contains_key key_eq k permanent ≡ false
    → contains_key key_eq k active ≡ false
    → visited permanent active k ≡ false
unfolding visited
unvisited permanent active k p a = rw (visited, p) a

-- A key that is not taken out is kept.
remove_key-kept :
    (q k : FunctionKey) (keys : List FunctionKey)
    → key_eq k q ≡ false
    → contains_key key_eq q keys ≡ true
    → contains_key key_eq q (remove_key k keys) ≡ true
unfolding remove_key contains_key
remove_key-kept q k [] other h = cc
remove_key-kept q k (key ∷ keys) other h = elim (Bool-cases (key_eq key k)) [
  | inl out ↦
      rw (remove_key, out)
        (remove_key-kept q k keys other (
          sym (
            contains-other key_eq key_lt q key keys
              (ap (λ x. key_eq x q) (key_eq_lem key k out) ∙ other))
          ∙ h))
  | inr kept ↦ elim (Bool-cases (key_eq key q)) [
    | inl found ↦ rw (remove_key, kept, contains_key, found) refl
    | inr missing ↦
        rw (remove_key, kept, contains_key, missing)
          (remove_key-kept q k keys other
            (sym (contains-other key_eq key_lt q key keys missing) ∙ h))
  ]
]

-- What the search has still to push.
unfoldable pub white : Adjacency → List FunctionKey → List FunctionKey → ℕ
white [] permanent active = 0
white ((k, edges) ∷ rest) permanent active =
    elim (visited permanent active k) [ true ↦ 0 | false ↦ 2 * length edges ]
    + white rest permanent active

unfoldable pub weight : Search → ℕ
weight [] = 0
weight ((k, true) ∷ stack) = 1 + weight stack
weight ((k, false) ∷ stack) = 2 + weight stack

-- No key is forgotten.
abbrev Kept : List FunctionKey → List FunctionKey → List FunctionKey → List FunctionKey → Type 0
Kept permanent active permanent' active' =
    (q : FunctionKey) → visited permanent active q ≡ true → visited permanent' active' q ≡ true

module _ (permanent active permanent' active' : List FunctionKey)
    (kept : Kept permanent active permanent' active') where
  white-le :
      (adjacency : Adjacency)
      → white adjacency permanent' active' ≤ white adjacency permanent active
  unfolding white
  white-le [] = omega arith
  white-le ((k, edges) ∷ rest) = elim (Bool-cases (visited permanent active k)) [
    | inl e ↦ let e' = kept k e in rw (white, e, e') (omega (arith, white-le rest))
    | inr e ↦ elim (Bool-cases (visited permanent' active' k)) [
      | inl e' ↦ rw (white, e, e') (omega (arith, white-le rest))
      | inr e' ↦ rw (white, e, e') (omega (arith, white-le rest))
    ]
  ]

  -- A key that is entered leaves its edges.
  white-entered :
      (k : FunctionKey) (adjacency : Adjacency)
      → visited permanent active k ≡ false
      → visited permanent' active' k ≡ true
      → white adjacency permanent' active' + 2 * length (edges_at adjacency k)
        ≤ white adjacency permanent active
  unfolding white lookup
  white-entered k [] before after = omega arith
  white-entered k ((key, edges) ∷ rest) before after = elim (Bool-cases (key_eq key k)) [
    | inl same ↦
        let w = sym (key_eq_lem key k same) in
        let b : visited permanent active key ≡ false =
          subst (λ x. visited permanent active x ≡ false) w before in
        let a : visited permanent' active' key ≡ true =
          subst (λ x. visited permanent' active' x ≡ true) w after in
        let n = ap (λ o. length (or_empty o)) (lookup-here key_eq k key edges rest same) in
        rw (white, b, a) (omega (arith, n, white-le rest))
    | inr other ↦
        let n = ap (λ o. length (or_empty o)) (lookup-next key_eq k key edges rest other) in
        let m = white-entered k rest before after in
        elim (Bool-cases (visited permanent active key)) [
          | inl e ↦ let e' = kept key e in rw (white, e, e') (omega (arith, n, m))
          | inr e ↦ elim (Bool-cases (visited permanent' active' key)) [
            | inl e' ↦ rw (white, e, e') (omega (arith, n, m))
            | inr e' ↦ rw (white, e, e') (omega (arith, n, m))
          ]
        ]
  ]

entered-Kept :
    (permanent active : List FunctionKey) (k : FunctionKey)
    → Kept permanent active permanent (insert_key key_eq key_lt k active)
entered-Kept permanent active k q h = elim (visited-cases permanent active q h) [
  | inl p ↦ visited-left permanent _ q p
  | inr a ↦ visited-right permanent _ q (insert_key-kept key_eq key_lt q k active a)
]

entered-visited :
    (permanent active : List FunctionKey) (k : FunctionKey)
    → visited permanent (insert_key key_eq key_lt k active) k ≡ true
entered-visited permanent active k =
    visited-right permanent _ k (insert_key-same key_eq key_lt k active (key_eq_refl k))

left-Kept :
    (permanent active : List FunctionKey) (k : FunctionKey)
    → Kept permanent active (insert_key key_eq key_lt k permanent) (remove_key k active)
left-Kept permanent active k q h = elim (Bool-cases (key_eq k q)) [
  | inl same ↦ visited-left _ _ q (
      subst (λ x. contains_key key_eq x (insert_key key_eq key_lt k permanent) ≡ true)
        (key_eq_lem k q same) (insert_key-same key_eq key_lt k permanent (key_eq_refl k)))
  | inr other ↦ elim (visited-cases permanent active q h) [
    | inl p ↦ visited-left _ _ q (insert_key-kept key_eq key_lt q k permanent p)
    | inr a ↦ visited-right _ _ q (remove_key-kept q k active other a)
  ]
]

length-reverse_onto {ℓ} :
    {A : Type ℓ} (xs ys : List A) → length (reverse_onto xs ys) ≡ length xs + length ys
length-reverse_onto [] ys = omega arith
length-reverse_onto (x ∷ xs) ys = omega (arith, length-reverse_onto xs (x ∷ ys))

module _ (compile : RegexFlavor → Text → ℕ → Option Text) (analyzer : Analyzer)
    (schema : RuntimeSchema) where
  pub problem-Quiet :
      (message : Text) (span : SourceSpan) (σ : AnalyzeState)
      → Quiet σ (problem compile analyzer schema message span σ)
  problem-Quiet message span σ = (problem-Loud schema.expression_function_limits message span σ).0

  recursive-Quiet :
      (functions : Functions) (key : FunctionKey) (σ : AnalyzeState)
      → Quiet σ (report_recursive compile analyzer schema functions key σ)
  unfolding report_recursive
  recursive-Quiet functions key σ = elim (Option-cases (lookup key_eq key functions)) [
    | inl e ↦ rw (e, report_recursive) (stay σ)
    | inr (function, e) ↦ rw (e, report_recursive) (problem-Quiet _ _ σ)
  ]

  -- Each edge that is pushed weighs 2.
  pushed_lem :
      (functions : Functions) (permanent active edges : List FunctionKey) (stack : Search)
      (σ : AnalyzeState)
      → (weight (push_edges compile analyzer schema functions permanent active edges stack σ).0
          ≤ 2 * length edges + weight stack)
        × Quiet σ (push_edges compile analyzer schema functions permanent active edges stack σ).1
  unfolding push_edges weight
  pushed_lem functions permanent active [] stack σ = (omega arith, stay σ)
  pushed_lem functions permanent active (edge ∷ edges) stack σ =
      elim (Bool-cases (contains_key key_eq edge active)) [
        | inl on ↦
            rw (on, push_edges)
              (let (w, q) =
                  pushed_lem functions permanent active edges stack
                    (report_recursive compile analyzer schema functions edge σ) in
                (omega (arith, w), then (recursive-Quiet functions edge σ) q))
        | inr off ↦ elim (Bool-cases (contains_key key_eq edge permanent)) [
          | inl done ↦
              rw (off, push_edges, done)
                (let (w, q) = pushed_lem functions permanent active edges stack σ in
                  (omega (arith, w), q))
          | inr fresh ↦
              rw (off, push_edges, fresh)
                (let (w, q) =
                    pushed_lem functions permanent active edges ((edge, false) ∷ stack) σ in
                  (omega (arith, w), q))
        ]
      ]

  pub search_loop-Returns :
      (functions : Functions) (adjacency : Adjacency) (fuel : ℕ)
      (permanent active : List FunctionKey) (stack : Search) (σ : AnalyzeState)
      → weight stack + white adjacency permanent active < fuel
      → Returns
          (λ r. Quiet σ r.1)
          (search_loop compile analyzer schema functions adjacency fuel permanent active stack σ)
  unfolding search_loop weight
  search_loop-Returns functions adjacency zero permanent active stack σ lt =
      absurd (omega (arith, lt))
  search_loop-Returns functions adjacency (suc fuel) permanent active [] σ lt = accepts (stay σ)
  search_loop-Returns functions adjacency (suc fuel) permanent active ((key, true) ∷ stack) σ lt =
      search_loop-Returns functions adjacency fuel _ _ stack σ (
        omega (arith, lt, white-le permanent active _ _ (left-Kept permanent active key) adjacency))
  search_loop-Returns functions adjacency (suc fuel) permanent active ((key, false) ∷ stack) σ lt =
      elim (Bool-cases (contains_key key_eq key permanent)) [
        | inl done ↦
            rw (done, search_loop)
              (search_loop-Returns functions adjacency fuel permanent active stack σ
                (omega (arith, lt)))
        | inr fresh ↦ elim (Bool-cases (contains_key key_eq key active)) [
          | inl on ↦
              rw (fresh, search_loop, on)
                (Returns-map (λ r q. then (recursive-Quiet functions key σ) q)
                  (search_loop-Returns functions adjacency fuel permanent active stack _
                    (omega (arith, lt))))
          | inr off ↦
              rw (fresh, search_loop, off)
                (let entered = insert_key key_eq key_lt key active in
                  let edges = reverse_onto (edges_at adjacency key) [] in
                  let (w, q) =
                    pushed_lem functions permanent entered edges ((key, true) ∷ stack) σ in
                  let n = length-reverse_onto (edges_at adjacency key) [] in
                  let m =
                    white-entered permanent active permanent entered
                      (entered-Kept permanent active key) key adjacency
                      (unvisited permanent active key fresh off)
                      (entered-visited permanent active key) in
                  Returns-map (λ r q'. then q q')
                    (search_loop-Returns functions adjacency fuel permanent entered _ _
                      (omega (arith, lt, w, n, m))))
        ]
      ]
