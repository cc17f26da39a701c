-- ===== src/Runtime/Registered.antt =====
-- What a registry provides after a handler was registered.
use online_dsl_forge.Runtime.Registration.{
  push_at, register_function_capability_with_context, register_method_capability_with_context,
}
use online_dsl_forge.Runtime.Provided.{AreProvided, verify_runtime_capabilities-eq-ok_iff}
use online_dsl_forge.Runtime.Capabilities.{
  capability_of_kind, capability_for_ticket, function_capability_of, method_capability_of,
  function_found, method_found, verify_runtime_capabilities,
}
use online_dsl_forge.Base.{
  refl, Text, Option, List, ℕ, some, none, text_eq, if◌then◌else◌, ◌∷◌, ◌≡◌, ◌&&◌, text_eq_iff,
  false, Bool-cases, ◌++◌, ◌==◌, inl, [], inr, ◌∙◌, sym, true, ap, ◌⊎◌, subst, ok,
}
use online_dsl_forge.Schema.{CapabilityMeta}
use online_dsl_forge.Verified.{CapabilityKind, CapabilityTicket}
use online_dsl_forge.Runtime.Registry.{
  get, FunctionHandler, MethodHandler, DynamicRegistry, find_function, find_method, FunctionEntry,
  MethodEntry,
}
use online_dsl_forge.Map.{insert, text_lt}
use online_dsl_forge.Runtime.Evaluator.{kind_eq}
use online_dsl_forge.Schema.Builders.{or_default}
use online_dsl_forge.Analyzer.Program.{VerifiedProgram}

-- source/src/runtime.rs: the calls by which a host registers its handlers.

-- A capability that was there before stays, and else one is offered.
abbrev pub or_else {ℓ} : {A : Type ℓ} → Option A → Option A → Option A
or_else (some a) other = some a
or_else none other = other

-- The capability answers the tickets of its kind, its name and its arity.
abbrev pub offered : CapabilityKind → CapabilityMeta → CapabilityTicket → Option CapabilityMeta
offered kind c t =
    if kind_eq t.kind kind && text_eq c.name t.name && (c.arity == t.arity) then some c else none

get_here {ℓ} :
    {A : Type ℓ} (name : Text) (a : A) (rest : List (Text × A))
    → get name ((name, a) ∷ rest) ≡ some a
unfolding get
get_here name a rest = let h = (text_eq_iff name name).1 refl in rw (h) refl

get_next {ℓ} :
    {A : Type ℓ} (name key : Text) (a : A) (rest : List (Text × A))
    → text_eq key name ≡ false
    → get name ((key, a) ∷ rest) ≡ get name rest
unfolding get
get_next name key a rest h = rw (h) refl

get-cons {ℓ} :
    {A : Type ℓ} (q key : Text) (b : A) (xs ys : List (Text × A))
    → get q xs ≡ get q ys
    → get q ((key, b) ∷ xs) ≡ get q ((key, b) ∷ ys)
unfolding get
get-cons q key b xs ys h = elim (Bool-cases (text_eq key q)) [
  | inl here ↦ rw (get, here) refl
  | inr next ↦ rw (get, next) h
]

get-insert {ℓ} :
    {A : Type ℓ} (name : Text) (a : A) (entries : List (Text × A))
    → get name (insert text_eq text_lt name a entries) ≡ some a
unfolding insert
get-insert name a [] = get_here name a []
get-insert name a ((key, b) ∷ rest) = elim (Bool-cases (text_eq key name)) [
  | inl same ↦ rw (insert, same) (get_here name a rest)
  | inr other ↦ elim (Bool-cases (text_lt name key)) [
    | inl before ↦ rw (insert, other, before) (get_here name a ((key, b) ∷ rest))
    | inr after ↦
        rw (insert, other, after)
          (get_next name key b (insert text_eq text_lt name a rest) other ∙ get-insert name a rest)
  ]
]

get-insert_other {ℓ} :
    {A : Type ℓ} (q name : Text) (a : A) (entries : List (Text × A))
    → text_eq name q ≡ false
    → get q (insert text_eq text_lt name a entries) ≡ get q entries
unfolding insert
get-insert_other q name a [] h = get_next q name a [] h
get-insert_other q name a ((key, b) ∷ rest) h = elim (Bool-cases (text_eq key name)) [
  | inl same ↦
      let k = (text_eq_iff key name).0 same in
      rw (insert, same)
        (get_next q name a rest h ∙ sym (get_next q key b rest (ap (λ t. text_eq t q) k ∙ h)))
  | inr other ↦ elim (Bool-cases (text_lt name key)) [
    | inl before ↦ rw (insert, other, before) (get_next q name a ((key, b) ∷ rest) h)
    | inr after ↦
        rw (insert, other, after) (get-cons q key b _ _ (get-insert_other q name a rest h))
  ]
]

find_function-snoc :
    (n : ℕ) (e : FunctionEntry) (entries : List FunctionEntry)
    → function_capability_of (find_function n (entries ++ e ∷ []))
      ≡ or_else
          (function_capability_of (find_function n entries))
          (if e.arity == n then some e.capability else none)
unfolding find_function
find_function-snoc n e [] = elim (Bool-cases (e.arity == n)) [
  | inl same ↦ rw (find_function, same) refl
  | inr other ↦ rw (find_function, other) refl
]
find_function-snoc n e (x ∷ xs) = elim (Bool-cases (x.arity == n)) [
  | inl same ↦ rw (find_function, same) refl
  | inr other ↦ rw (find_function, other) (find_function-snoc n e xs)
]

find_method-snoc :
    (n : ℕ) (e : MethodEntry) (entries : List MethodEntry)
    → method_capability_of (find_method n (entries ++ e ∷ []))
      ≡ or_else
          (method_capability_of (find_method n entries))
          (if e.arity == n then some e.capability else none)
unfolding find_method
find_method-snoc n e [] = elim (Bool-cases (e.arity == n)) [
  | inl same ↦ rw (find_method, same) refl
  | inr other ↦ rw (find_method, other) refl
]
find_method-snoc n e (x ∷ xs) = elim (Bool-cases (x.arity == n)) [
  | inl same ↦ rw (find_method, same) refl
  | inr other ↦ rw (find_method, other) (find_method-snoc n e xs)
]

or_else_none {ℓ} : {A : Type ℓ} (o : Option A) → or_else o none ≡ o
or_else_none (some a) = refl
or_else_none none = refl

-- What is looked up under a name after a push: the old list, or the old list with the new entry.
get-push_at {ℓ} :
    {A : Type ℓ} (q name : Text) (a : A) (entries : List (Text × List A))
    → ((text_eq name q ≡ true)
        × (get q (push_at name a entries) ≡ some (or_default (get q entries) ++ a ∷ [])))
      ⊎ ((text_eq name q ≡ false) × (get q (push_at name a entries) ≡ get q entries))
unfolding push_at
get-push_at q name a entries = elim (Bool-cases (text_eq name q)) [
  | inl same ↦ inl (
    same,
    subst
        (λ k.
          get k (insert text_eq text_lt name (or_default (get name entries) ++ a ∷ []) entries)
          ≡ some (or_default (get k entries) ++ a ∷ []))
        ((text_eq_iff name q).0 same) (get-insert name _ entries),
  )
  | inr other ↦ inr (other, get-insert_other q name _ entries other)
]

function_found-or_default :
    (arity : ℕ) (o : Option (List FunctionEntry))
    → function_capability_of (find_function arity (or_default o)) ≡ function_found arity o
unfolding find_function
function_found-or_default arity none = refl
function_found-or_default arity (some entries) = refl

function_found-push_at :
    (name q : Text) (arity : ℕ) (e : FunctionEntry) (entries : List (Text × List FunctionEntry))
    → function_found arity (get q (push_at name e entries))
      ≡ or_else
          (function_found arity (get q entries))
          (if text_eq name q && (e.arity == arity) then some e.capability else none)
function_found-push_at name q arity e entries = elim (get-push_at q name e entries) [
  | inl (same, found) ↦ rw (same) (
      ap (function_found arity) found
      ∙ find_function-snoc arity e (or_default (get q entries))
      ∙ ap (λ o. or_else o (if e.arity == arity then some e.capability else none))
          (function_found-or_default arity (get q entries)))
  | inr (other, found) ↦
      rw (other) (
        ap (function_found arity) found ∙ sym (or_else_none (function_found arity (get q entries))))
]

method_found-or_default :
    (arity : ℕ) (o : Option (List MethodEntry))
    → method_capability_of (find_method arity (or_default o)) ≡ method_found arity o
unfolding find_method
method_found-or_default arity none = refl
method_found-or_default arity (some entries) = refl

method_found-push_at :
    (name q : Text) (arity : ℕ) (e : MethodEntry) (entries : List (Text × List MethodEntry))
    → method_found arity (get q (push_at name e entries))
      ≡ or_else
          (method_found arity (get q entries))
          (if text_eq name q && (e.arity == arity) then some e.capability else none)
method_found-push_at name q arity e entries = elim (get-push_at q name e entries) [
  | inl (same, found) ↦ rw (same) (
      ap (method_found arity) found
      ∙ find_method-snoc arity e (or_default (get q entries))
      ∙ ap (λ o. or_else o (if e.arity == arity then some e.capability else none))
          (method_found-or_default arity (get q entries)))
  | inr (other, found) ↦
      rw (other)
        (ap (method_found arity) found ∙ sym (or_else_none (method_found arity (get q entries))))
]

function_registered :
    (c : CapabilityMeta) (handler : FunctionHandler) (registry : DynamicRegistry)
    (kind : CapabilityKind) (name : Text) (arity : ℕ)
    → capability_of_kind kind
        (register_function_capability_with_context c handler registry)
        name
        arity
      ≡ or_else (capability_of_kind kind registry name arity) (
          if kind_eq kind CapabilityKind.function && text_eq c.name name && (c.arity == arity)
          then some c
          else none)
unfolding capability_of_kind register_function_capability_with_context
function_registered c handler registry CapabilityKind.function name arity =
    function_found-push_at c.name name arity _ registry.functions
function_registered c handler registry CapabilityKind.method name arity = sym (or_else_none _)
function_registered c handler registry CapabilityKind.unary_op name arity = sym (or_else_none _)
function_registered c handler registry CapabilityKind.binary_op name arity = sym (or_else_none _)

method_registered :
    (c : CapabilityMeta) (handler : MethodHandler) (registry : DynamicRegistry)
    (kind : CapabilityKind) (name : Text) (arity : ℕ)
    → capability_of_kind kind
        (register_method_capability_with_context c handler registry)
        name
        arity
      ≡ or_else (capability_of_kind kind registry name arity) (
          if kind_eq kind CapabilityKind.method && text_eq c.name name && (c.arity == arity)
          then some c
          else none)
unfolding capability_of_kind register_method_capability_with_context
method_registered c handler registry CapabilityKind.function name arity = sym (or_else_none _)
method_registered c handler registry CapabilityKind.method name arity =
    method_found-push_at c.name name arity _ registry.methods
method_registered c handler registry CapabilityKind.unary_op name arity = sym (or_else_none _)
method_registered c handler registry CapabilityKind.binary_op name arity = sym (or_else_none _)

-- After a function is registered, a ticket is answered as before, if it was answered. Else it is
-- answered exactly if it is for a function of the registered name and arity, with the registered
-- capability. The same holds of methods.
pub register-capability_for_ticket :
    (c : CapabilityMeta) (function : FunctionHandler) (method : MethodHandler)
    (registry : DynamicRegistry) (t : CapabilityTicket)
    → (capability_for_ticket (register_function_capability_with_context c function registry) t
        ≡ or_else (capability_for_ticket registry t) (offered CapabilityKind.function c t))
      × (capability_for_ticket (register_method_capability_with_context c method registry) t
          ≡ or_else (capability_for_ticket registry t) (offered CapabilityKind.method c t))
register-capability_for_ticket c function method registry t = (
  function_registered c function registry t.kind t.name t.arity,
  method_registered c method registry t.kind t.name t.arity,
)

or_else-some {ℓ} :
    {A : Type ℓ} {o : Option A} {a : A} (p : Option A) → o ≡ some a → or_else o p ≡ some a
or_else-some p e = ap (λ o. or_else o p) e

kept :
    (r r' : DynamicRegistry)
    → ((t : CapabilityTicket) (c : CapabilityMeta)
        → capability_for_ticket r t ≡ some c
        → capability_for_ticket r' t ≡ some c)
    → (required : List (CapabilityTicket × CapabilityMeta)) → AreProvided r required
    → AreProvided r' required
kept r r' more [] h = tt
kept r r' more ((t, c) ∷ rest) h = (more t c h.0, kept r r' more rest h.1)

-- A program that is admitted to a registry is still admitted after a function is registered, whatever
-- its name, arity and metadata, and also after a method is.
pub register-admitted :
    (program : VerifiedProgram) (c : CapabilityMeta) (function : FunctionHandler)
    (method : MethodHandler) (registry : DynamicRegistry)
    → verify_runtime_capabilities program registry ≡ ok tt
    → (verify_runtime_capabilities program
          (register_function_capability_with_context c function registry)
        ≡ ok tt)
      × (verify_runtime_capabilities program
            (register_method_capability_with_context c method registry)
          ≡ ok tt)
register-admitted program c function method registry admitted =
    let required = program.required_capability_metadata in
    let provided = (verify_runtime_capabilities-eq-ok_iff program registry).0 admitted in
    let r = register_function_capability_with_context c function registry in
    let r' = register_method_capability_with_context c method registry in
    (
      (verify_runtime_capabilities-eq-ok_iff program r).1 (
          kept registry r
            (λ t _ e.
              (register-capability_for_ticket c function method registry t).0 ∙ or_else-some _ e)
            required provided),
      (verify_runtime_capabilities-eq-ok_iff program r').1 (
          kept registry r'
            (λ t _ e.
              (register-capability_for_ticket c function method registry t).1 ∙ or_else-some _ e)
            required provided),
    )
