-- ===== src/Schema/Identified.antt =====
-- In a schema that passes the integrity check, each capability is under its own ticket.
use online_dsl_forge.Base.{
  ◌≡◌, refl, ◌∙◌, some, none, [], ◌∷◌, ok, err, inl, inr, true, false, out_of_fuel, ◌>>◌, Bool,
  Text, List, ℕ, fail_if, not, ◌&&◌, ==_iff, text_eq, ◌==◌, length, text_eq_iff, Option,
  Option-cases, sym, subst, codes,
}
use online_dsl_forge.Runtime.Tickets.{ticket_of, and_both, kind_eq_lem, same_ticket}
use online_dsl_forge.Schema.{
  ticket, RuntimeSchema, CapabilityMeta, signature_capability, nat_eq, unary_operator_capability,
  binary_operator_capability, Signatures, signature_accepts, SignatureMatch,
}
use online_dsl_forge.Schema.Integrity.{
  Checked, validate_capability, validate_signatures, identity_matches, regex_args_fit,
  validate_capability_map, validate_operator_map, validate_integrity, identity_error, binary_names,
  validate_variables,
}
use online_dsl_forge.Syntax.{Diagnostic, UnaryOp, unary_as_str, BinaryOp, binary_as_str}
use online_dsl_forge.Map.{lookup, contains_key}
use online_dsl_forge.Verified.{CapabilityKind}
use online_dsl_forge.Runtime.Evaluator.{kind_eq}
use online_dsl_forge.Map.Keys.{lookup-nil, lookup-cons}

pub record AreIdentified (schema : RuntimeSchema) : Type 0 where
  pub functions_named :
      (name : Text) (arity : ℕ) (c : CapabilityMeta)
      → signature_capability schema.functions name arity ≡ some c
      → ticket c ≡ ticket_of CapabilityKind.function name arity
  pub methods_named :
      (name : Text) (arity : ℕ) (c : CapabilityMeta)
      → signature_capability schema.methods name arity ≡ some c
      → ticket c ≡ ticket_of CapabilityKind.method name arity
  pub unary_named :
      (op : UnaryOp) (c : CapabilityMeta)
      → unary_operator_capability schema op ≡ some c
      → ticket c ≡ ticket_of CapabilityKind.unary_op (unary_as_str op) 1
  pub binary_named :
      (op : BinaryOp) (c : CapabilityMeta)
      → binary_operator_capability schema op ≡ some c
      → ticket c ≡ ticket_of CapabilityKind.binary_op (binary_as_str op) 2

pub both_ok : (m k : Checked) → (m >> k) ≡ ok tt → (m ≡ ok tt) × (k ≡ ok tt)
both_ok (ok tt') k h = (refl, h)
both_ok (err e) k h = cc
both_ok out_of_fuel k h = cc

not_failed : (b : Bool) (d : Diagnostic) → fail_if (not b) d ≡ ok tt → b ≡ true
not_failed true d h = refl
not_failed false d h = cc

capability_named :
    (c : CapabilityMeta) (kind : CapabilityKind) (name : Text) (arity : ℕ) (label : Text)
    → validate_capability c kind name arity label ≡ ok tt
    → ticket c ≡ ticket_of kind name arity
unfolding validate_capability identity_matches
capability_named c kind name arity label h =
    let all = not_failed (identity_matches c kind name arity) _ h in
    let (front, _) =
      and_both
        (kind_eq c.kind kind && text_eq c.name name && c.arity == arity && length c.args == arity)
        (regex_args_fit c.regex_args arity) all in
    let (front', _) =
      and_both (kind_eq c.kind kind && text_eq c.name name && c.arity == arity)
        (length c.args == arity) front in
    let (named, arities) =
      and_both (kind_eq c.kind kind && text_eq c.name name) (c.arity == arity) front' in
    let (kinds, names) = and_both (kind_eq c.kind kind) (text_eq c.name name) named in
    same_ticket (ticket c) (ticket_of kind name arity) (kind_eq_lem c.kind kind kinds)
      ((text_eq_iff c.name name).0 names) ((==_iff c.arity arity).0 arities)

signatures_named :
    (signatures : List (ℕ × CapabilityMeta)) (kind : CapabilityKind) (name label : Text)
    → validate_signatures signatures kind name label ≡ ok tt
    → (arity : ℕ) (c : CapabilityMeta) → lookup nat_eq arity signatures ≡ some c
    → ticket c ≡ ticket_of kind name arity
unfolding validate_signatures
signatures_named [] kind name label h arity c e = absurd (lookup-nil nat_eq arity e)
signatures_named ((a, d) ∷ rest) kind name label h arity c e =
    let (first, others) =
      both_ok (validate_capability d kind name a label) (validate_signatures rest kind name label)
        h in
    elim (lookup-cons nat_eq arity a d rest e) [
      | inl (same, same') ↦
          rw (← same', ← (==_iff a arity).0 same) (capability_named d kind name a label first)
      | inr later ↦ signatures_named rest kind name label others arity c later
    ]

entries_named :
    (signatures : Signatures) (kind : CapabilityKind) (label name : Text)
    → validate_capability_map signatures kind label ≡ ok tt
    → (entries : List (ℕ × CapabilityMeta)) → lookup text_eq name signatures ≡ some entries
    → (arity : ℕ) (c : CapabilityMeta) → lookup nat_eq arity entries ≡ some c
    → ticket c ≡ ticket_of kind name arity
unfolding validate_capability_map
entries_named [] kind label name h entries found arity c e = absurd (lookup-nil text_eq name found)
entries_named ((key, own) ∷ rest) kind label name h entries found arity c e =
    let (first, others) =
      both_ok (validate_signatures own kind key label) (validate_capability_map rest kind label)
        h in
    elim (lookup-cons text_eq name key own rest found) [
      | inl (same, same') ↦
          subst (λ n. ticket c ≡ ticket_of kind n arity) ((text_eq_iff key name).0 same)
            (signatures_named own kind key label first arity c (rw same' e))
      | inr later ↦ entries_named rest kind label name others entries later arity c e
    ]

none_some {ℓ} : {A : Type ℓ} {a : A} → ¬ (Path (Option A) none (some a))
none_some h = cc

signature_found :
    (signatures : Signatures) (name : Text) (arity : ℕ) {entries : List (ℕ × CapabilityMeta)}
    → lookup text_eq name signatures ≡ some entries
    → signature_capability signatures name arity ≡ lookup nat_eq arity entries
unfolding signature_capability
signature_found signatures name arity h = rw (signature_capability, h) refl

signature_missing :
    (signatures : Signatures) (name : Text) (arity : ℕ)
    → lookup text_eq name signatures ≡ none
    → signature_capability signatures name arity ≡ none
unfolding signature_capability
signature_missing signatures name arity h = rw (signature_capability, h) refl

map_named :
    (signatures : Signatures) (kind : CapabilityKind) (label : Text)
    → validate_capability_map signatures kind label ≡ ok tt
    → (name : Text) (arity : ℕ) (c : CapabilityMeta)
    → signature_capability signatures name arity ≡ some c
    → ticket c ≡ ticket_of kind name arity
map_named signatures kind label h name arity c e =
    elim (Option-cases (lookup text_eq name signatures)) [
      | inl missing ↦ absurd (none_some (sym (signature_missing signatures name arity missing) ∙ e))
      | inr (entries, found) ↦
          entries_named signatures kind label name h entries found arity c
            (sym (signature_found signatures name arity found) ∙ e)
    ]

operators_named :
    (operators : List (Text × CapabilityMeta)) (kind : CapabilityKind) (arity : ℕ)
    (names : List Text) (label : Text)
    → validate_operator_map operators kind arity names label ≡ ok tt
    → (name : Text) (c : CapabilityMeta) → lookup text_eq name operators ≡ some c
    → ticket c ≡ ticket_of kind name arity
unfolding validate_operator_map
operators_named [] kind arity names label h name c e = absurd (lookup-nil text_eq name e)
operators_named ((key, d) ∷ rest) kind arity names label h name c e =
    let (_, checked) =
      both_ok
        (fail_if (not (contains_key text_eq key names)) (identity_error label key (some arity)))
        (validate_capability d kind key arity label
          >> validate_operator_map rest kind arity names label)
        h in
    let (first, others) =
      both_ok (validate_capability d kind key arity label)
        (validate_operator_map rest kind arity names label) checked in
    elim (lookup-cons text_eq name key d rest e) [
      | inl (same, same') ↦
          rw (← same', ← (text_eq_iff key name).0 same)
            (capability_named d kind key arity label first)
      | inr later ↦ operators_named rest kind arity names label others name c later
    ]

-- A signature that matches has a capability.
pub matches-some :
    (signatures : Signatures) (name : Text) (arity : ℕ)
    → signature_accepts signatures name arity ≡ SignatureMatch.matches
    → (c : CapabilityMeta) × (signature_capability signatures name arity ≡ some c)
unfolding signature_accepts
matches-some signatures name arity h = elim (Option-cases (lookup text_eq name signatures)) [
  | inl missing ↦ absurd (let p = unknown_signature missing in cc)
  | inr (entries, found) ↦ elim (Option-cases (lookup nat_eq arity entries)) [
    | inr (c, e) ↦ (c, signature_found signatures name arity found ∙ e)
    | inl e ↦ absurd (let p = mismatched entries found e in cc)
  ]
]
  where
    unknown_signature :
        lookup text_eq name signatures ≡ none
        → signature_accepts signatures name arity ≡ SignatureMatch.unknown
    unknown_signature e = rw (signature_accepts, e) refl

    mismatched :
        (entries : List (ℕ × CapabilityMeta))
        → lookup text_eq name signatures ≡ some entries
        → lookup nat_eq arity entries ≡ none
        → signature_accepts signatures name arity ≡ SignatureMatch.arity_mismatch
    mismatched entries e e' = rw (signature_accepts, e, e') refl

-- In a schema that passes the integrity check, each capability has the kind, the name and the arity
-- that it is found under.
pub validate_integrity-AreIdentified :
    (schema : RuntimeSchema) → validate_integrity schema ≡ ok tt → AreIdentified schema
unfolding validate_integrity unary_operator_capability binary_operator_capability
validate_integrity-AreIdentified schema h =
    let (_, h₁) = both_ok (validate_variables schema.variables) _ h in
    let (functions, h₂) =
      both_ok (validate_capability_map schema.functions CapabilityKind.function (codes "function"))
        _ h₁ in
    let (methods, h₃) =
      both_ok (validate_capability_map schema.methods CapabilityKind.method (codes "method")) _
        h₂ in
    let (unary, h₄) =
      both_ok
        (validate_operator_map schema.unary_ops CapabilityKind.unary_op 1
          (codes "!" ∷ codes "-" ∷ []) (codes "unary operator"))
        _ h₃ in
    let (binary, _) =
      both_ok
        (validate_operator_map schema.binary_ops CapabilityKind.binary_op 2 binary_names
          (codes "binary operator"))
        _ h₄ in
    record {
      functions_named =
          map_named schema.functions CapabilityKind.function (codes "function") functions;
      methods_named = map_named schema.methods CapabilityKind.method (codes "method") methods;
      unary_named = unary_lem unary;
      binary_named = binary_lem binary;
    }
  where
    unary_lem :
        validate_operator_map schema.unary_ops CapabilityKind.unary_op 1
            (codes "!" ∷ codes "-" ∷ [])
            (codes "unary operator")
          ≡ ok tt
        → (op : UnaryOp) (c : CapabilityMeta) → unary_operator_capability schema op ≡ some c
        → ticket c ≡ ticket_of CapabilityKind.unary_op (unary_as_str op) 1
    unary_lem h op c e =
        operators_named schema.unary_ops CapabilityKind.unary_op 1 _ _ h (unary_as_str op) c e

    binary_lem :
        validate_operator_map schema.binary_ops CapabilityKind.binary_op 2 binary_names
            (codes "binary operator")
          ≡ ok tt
        → (op : BinaryOp) (c : CapabilityMeta) → binary_operator_capability schema op ≡ some c
        → ticket c ≡ ticket_of CapabilityKind.binary_op (binary_as_str op) 2
    binary_lem h op c e =
        operators_named schema.binary_ops CapabilityKind.binary_op 2 _ _ h (binary_as_str op) c e
