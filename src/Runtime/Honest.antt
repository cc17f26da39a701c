-- ===== src/Runtime/Honest.antt =====
-- What is asked of registered handlers, and what calls of them then do.
use online_dsl_forge.Base.{
  ℕ, ◌+◌, ◌≤◌, List, [], ◌∷◌, ◌≡◌, subst, Text, some, Result, out_of_fuel, ltb, ltb→le, Ends,
  Ends-fail_if, Ends-ok_or, accepts, refuses, length, ◌≢◌, Bool-cases, text_eq, inl, inr, ◌==◌,
}
use online_dsl_forge.Base.Usize.{checked_add, checked_add-eq-some}
use online_dsl_forge.Syntax.{SourceSpan, UnaryOp, BinaryOp}
use online_dsl_forge.Value.{Value}
use online_dsl_forge.Runtime.{EvalError}
use online_dsl_forge.Runtime.Registry.{
  RuntimeCallContext, FunctionEntry, MethodEntry, UnaryEntry, BinaryEntry, DynamicRegistry, get,
  at_span, find_function, find_method, call_function, call_method, charge_work,
}

-- A handler returns, and the bytes it leaves charged are those it was given and more, within the
-- budget: it can only charge by `charge_work`.
abbrev pub Charges : RuntimeCallContext → Result EvalError (Value × ℕ) → Type 0
Charges context = Ends λ r. (context.processed_bytes ≤ r.1) × (r.1 ≤ context.max_total_bytes)

abbrev pub AreFunctions : List FunctionEntry → Type 0
AreFunctions [] = Unit {0}
AreFunctions (e ∷ es) =
    ((context : RuntimeCallContext) (args : List Value)
      → context.processed_bytes ≤ context.max_total_bytes
      → Charges context (e.handler context args))
    × AreFunctions es

abbrev pub AreMethods : List MethodEntry → Type 0
AreMethods [] = Unit {0}
AreMethods (e ∷ es) =
    ((context : RuntimeCallContext) (receiver : Value) (args : List Value)
      → context.processed_bytes ≤ context.max_total_bytes
      → Charges context (e.handler context receiver args))
    × AreMethods es

abbrev pub AreNamed {ℓ} : {A : Type ℓ} → (A → Type 0) → List (Text × A) → Type 0
AreNamed P [] = Unit {0}
AreNamed P ((name, a) ∷ rest) = P a × AreNamed P rest

pub record IsHonest (registry : DynamicRegistry) : Type 0 where
  pub functions_charge : AreNamed AreFunctions registry.functions
  pub methods_charge : AreNamed AreMethods registry.methods
  pub unary_return :
      (op : UnaryOp) {entry : UnaryEntry}
      → registry.unary_ops op ≡ some entry
      → (v : Value) → entry.handler v ≢ out_of_fuel
  pub binary_return :
      (op : BinaryOp) {entry : BinaryEntry}
      → registry.binary_ops op ≡ some entry
      → (v w : Value) → entry.handler v w ≢ out_of_fuel

-- What a handler charges is added, if the budget allows it.
pub charge_work-Ends :
    (context : RuntimeCallContext) (bytes : ℕ)
    → Ends
        (λ (c : RuntimeCallContext).
          (c.processed_bytes ≡ context.processed_bytes + bytes)
          × (c.processed_bytes ≤ context.max_total_bytes))
        (charge_work context bytes)
unfolding charge_work
charge_work-Ends context bytes =
    Ends-ok_or (checked_add context.processed_bytes bytes) _ λ processed e.
      Ends-fail_if (ltb context.max_total_bytes processed) _
        λ t. accepts (checked_add-eq-some _ _ e, ltb→le _ _ t)

get-AreNamed {ℓ} :
    {A : Type ℓ} (P : A → Type 0) (name : Text) (named : List (Text × A)) {a : A}
    → AreNamed P named
    → get name named ≡ some a
    → P a
unfolding get
get-AreNamed P name [] all e = cc
get-AreNamed P name ((key, a) ∷ rest) all e = elim (Bool-cases (text_eq key name)) [
  | inl t ↦ subst P (cc) all.0
  | inr t ↦ get-AreNamed P name rest all.1 (cc)
]

at_span-Charges :
    (context : RuntimeCallContext) (span : SourceSpan) {r : Result EvalError (Value × ℕ)}
    → Charges context r
    → Charges context (at_span span r)
at_span-Charges context span (accepts h) = accepts h
at_span-Charges context span (refuses b) = refuses tt

find_function-Charges :
    (n : ℕ) (entries : List FunctionEntry) {e : FunctionEntry}
    → AreFunctions entries
    → find_function n entries ≡ some e
    → (context : RuntimeCallContext) (args : List Value)
    → context.processed_bytes ≤ context.max_total_bytes
    → Charges context (e.handler context args)
unfolding find_function
find_function-Charges n [] all h context args fits = cc
find_function-Charges n (e ∷ es) {e = found} all h context args fits =
    elim (Bool-cases (e.arity == n)) [
      | inl t ↦
          let same : e ≡ found = cc in
          subst (λ (f : FunctionEntry). Charges context (f.handler context args)) same
            (all.0 context args fits)
      | inr t ↦ find_function-Charges n es {e = found} all.1 (cc) context args fits
    ]

find_method-Charges :
    (n : ℕ) (entries : List MethodEntry) {e : MethodEntry}
    → AreMethods entries
    → find_method n entries ≡ some e
    → (context : RuntimeCallContext) (receiver : Value) (args : List Value)
    → context.processed_bytes ≤ context.max_total_bytes
    → Charges context (e.handler context receiver args)
unfolding find_method
find_method-Charges n [] all h context receiver args fits = cc
find_method-Charges n (e ∷ es) {e = found} all h context receiver args fits =
    elim (Bool-cases (e.arity == n)) [
      | inl t ↦
          let same : e ≡ found = cc in
          subst (λ (f : MethodEntry). Charges context (f.handler context receiver args)) same
            (all.0 context receiver args fits)
      | inr t ↦ find_method-Charges n es {e = found} all.1 (cc) context receiver args fits
    ]

module _ (registry : DynamicRegistry) (honest : IsHonest registry) where
  pub call_function-Charges :
      (context : RuntimeCallContext) (name : Text) (args : List Value) (span : SourceSpan)
      → context.processed_bytes ≤ context.max_total_bytes
      → Charges context (call_function registry context name args span)
  unfolding call_function
  call_function-Charges context name args span fits =
      Ends-ok_or (get name registry.functions) _ λ entries e.
        Ends-ok_or (find_function (length args) entries) _ λ found f. at_span-Charges context span (
          find_function-Charges (length args) entries
            (get-AreNamed AreFunctions name registry.functions honest.functions_charge e) f context
            args fits)

  pub call_method-Charges :
      (context : RuntimeCallContext) (receiver : Value) (name : Text) (args : List Value)
      (span : SourceSpan)
      → context.processed_bytes ≤ context.max_total_bytes
      → Charges context (call_method registry context receiver name args span)
  unfolding call_method
  call_method-Charges context receiver name args span fits =
      Ends-ok_or (get name registry.methods) _ λ entries e.
        Ends-ok_or (find_method (length args) entries) _ λ found f. at_span-Charges context span (
          find_method-Charges (length args) entries
            (get-AreNamed AreMethods name registry.methods honest.methods_charge e) f context
            receiver args fits)
