-- ===== src/Schema/Intact.antt =====
-- The integrity of a schema as a record, and what an insertion does to it.
use online_dsl_forge.Base.{
  ◌≡◌, refl, ◌∙◌, sym, ap, subst, [], ◌∷◌, true, not, Bool, none, some, ok, err, out_of_fuel, ◌>>◌,
  fail_if, ℕ, Text, Option, List, inl, inr, Bool-cases, text_eq, text_eq_iff, length, ltb, ◌||◌,
  codes,
}
use online_dsl_forge.Map.{insert, lookup, text_lt, contains_key}
use online_dsl_forge.Map.Keys.{lookup-nil, lookup-cons}
use online_dsl_forge.Schema.{
  RuntimeSchema, VariableMeta, CapabilityMeta, Signatures, ExpressionFunction,
  ExpressionFunctionScope, nat_eq,
}
use online_dsl_forge.Schema.Integrity.{
  Checked, validate_integrity, identity_matches, validate_capability_map, validate_variables,
  validate_operator_map, scope_eq, validate_expression_functions, validate_signatures,
  validate_capability, identity_error, binary_names,
}
use online_dsl_forge.Schema.Builders.{add_signature, or_default}
use online_dsl_forge.Verified.{CapabilityKind}
use online_dsl_forge.Schema.Identified.{both_ok}
use online_dsl_forge.Syntax.{Diagnostic}

pub ok_both : {m k : Checked} → m ≡ ok tt → k ≡ ok tt → (m >> k) ≡ ok tt
ok_both {m} {k} h h' = ap (λ x. x >> k) h ∙ h'

then_assoc : (a b c : Checked) → (a >> (b >> c)) ≡ ((a >> b) >> c)
then_assoc (ok tt) b c = refl
then_assoc (err e) b c = refl
then_assoc out_of_fuel b c = refl

pub passed : {b : Bool} (d : Diagnostic) → b ≡ true → fail_if (not b) d ≡ ok tt
passed d h = ap (λ x. fail_if (not x) d) h

-- A check that goes over the entries of a map.
module _ {ℓ κ} {K : Type ℓ} {A : Type κ} (eq lt : K → K → Bool) (check : K → A → Checked)
    (check_all : List (K × A) → Checked) (none_left : check_all [] ≡ ok tt)
    (step : (k : K) (a : A) (rest : List (K × A))
      → check_all ((k, a) ∷ rest) ≡ (check k a >> check_all rest)) where
  insert-ok :
      (k : K) (a : A) (m : List (K × A))
      → check_all m ≡ ok tt
      → check k a ≡ ok tt
      → check_all (insert eq lt k a m) ≡ ok tt
  unfolding insert
  insert-ok k a [] h h' = step k a [] ∙ ok_both h' none_left
  insert-ok k a ((key, b) ∷ rest) h h' =
      let (here, there) = both_ok (check key b) (check_all rest) (sym (step key b rest) ∙ h) in
      elim (Bool-cases (eq key k)) [
        | inl same ↦ rw (insert, same) (step k a rest ∙ ok_both h' there)
        | inr other ↦ elim (Bool-cases (lt k key)) [
          | inl before ↦ rw (insert, other, before) (step k a _ ∙ ok_both h' h)
          | inr after ↦
              rw (insert, other, after) (step key b _ ∙ ok_both here (insert-ok k a rest there h'))
        ]
      ]

  lookup-ok :
      (k : K) (a : A) (m : List (K × A))
      → check_all m ≡ ok tt
      → lookup eq k m ≡ some a
      → (key : K) × (eq key k ≡ true) × (check key a ≡ ok tt)
  lookup-ok k a [] h e = absurd (lookup-nil eq k e)
  lookup-ok k a ((key, b) ∷ rest) h e =
      let (here, there) = both_ok (check key b) (check_all rest) (sym (step key b rest) ∙ h) in
      elim (lookup-cons eq k key b rest e) [
        | inl (same, same') ↦ (key, same, subst (λ x. check key x ≡ ok tt) same' here)
        | inr later ↦ lookup-ok k a rest there later
      ]

-- An entry that has the kind, the name and the arity that it is found under.
abbrev pub IsNamed : CapabilityKind → CapabilityMeta → Type 0
IsNamed kind c = identity_matches c kind c.name c.arity ≡ true

pub signature-ok :
    (kind : CapabilityKind) (label : Text) (c : CapabilityMeta) (m : Signatures)
    → IsNamed kind c
    → validate_capability_map m kind label ≡ ok tt
    → validate_capability_map (add_signature c m) kind label ≡ ok tt
unfolding add_signature validate_capability_map validate_signatures validate_capability
signature-ok kind label c m named h =
    insert-ok text_eq text_lt (λ name ss. validate_signatures ss kind name label)
      (λ m. validate_capability_map m kind label) refl (λ k a rest. refl) c.name _ m h
      (insert-ok nat_eq ltb (λ arity c'. validate_capability c' kind c.name arity label)
        (λ ss. validate_signatures ss kind c.name label) refl (λ k a rest. refl) c.arity c _
        (entries-ok (lookup text_eq c.name m) refl) (passed _ named))
  where
    entries-ok :
        (o : Option (List (ℕ × CapabilityMeta)))
        → lookup text_eq c.name m ≡ o
        → validate_signatures (or_default o) kind c.name label ≡ ok tt
    entries-ok none e = refl
    entries-ok (some entries) e =
        let (key, same, checked) =
          lookup-ok text_eq text_lt (λ name ss. validate_signatures ss kind name label)
            (λ m. validate_capability_map m kind label) refl (λ k a rest. refl) c.name entries m h
            e in
        subst (λ name. validate_signatures entries kind name label ≡ ok tt)
          ((text_eq_iff key c.name).0 same) checked

pub variable-ok :
    (v : VariableMeta) (m : List (Text × VariableMeta))
    → validate_variables m ≡ ok tt
    → validate_variables (insert text_eq text_lt v.name v m) ≡ ok tt
unfolding validate_variables
variable-ok v m h =
    insert-ok text_eq text_lt
      (λ name v'.
        fail_if (not (text_eq v'.name name)) (identity_error (codes "variable") name none))
      validate_variables refl (λ k a rest. refl) v.name v m h
      (passed _ ((text_eq_iff v.name v.name).1 refl))

pub operator-ok :
    (kind : CapabilityKind) (arity : ℕ) (names : List Text) (label : Text) (c : CapabilityMeta)
    (m : List (Text × CapabilityMeta))
    → contains_key text_eq c.name names ≡ true
    → identity_matches c kind c.name arity ≡ true
    → validate_operator_map m kind arity names label ≡ ok tt
    → validate_operator_map (insert text_eq text_lt c.name c m) kind arity names label ≡ ok tt
unfolding validate_operator_map validate_capability
operator-ok kind arity names label c m listed named h =
    insert-ok text_eq text_lt
      (λ name c'.
        fail_if (not (contains_key text_eq name names)) (identity_error label name (some arity))
        >> validate_capability c' kind name arity label)
      (λ m. validate_operator_map m kind arity names label) refl
      (λ k a rest.
        then_assoc
          (fail_if (not (contains_key text_eq k names)) (identity_error label k (some arity)))
          (validate_capability a kind k arity label)
          (validate_operator_map rest kind arity names label))
      c.name c m h (ok_both (passed _ listed) (passed _ named))

scope_same : (s : ExpressionFunctionScope) → scope_eq s s ≡ true
scope_same ExpressionFunctionScope.global = refl
scope_same ExpressionFunctionScope.local = refl

pub function-ok :
    (label : Text) (f : ExpressionFunction) (m : List (Text × ExpressionFunction))
    → validate_expression_functions m f.scope label ≡ ok tt
    → validate_expression_functions (insert text_eq text_lt f.name f m) f.scope label ≡ ok tt
unfolding validate_expression_functions
function-ok label f m h =
    insert-ok text_eq text_lt
      (λ name f'.
        fail_if (not (text_eq f'.name name) || not (scope_eq f'.scope f.scope))
          (identity_error label name (some (length f'.params))))
      (λ m. validate_expression_functions m f.scope label) refl (λ k a rest. refl) f.name f m h
      (both_passed _ ((text_eq_iff f.name f.name).1 refl) (scope_same f.scope))
  where
    both_passed :
        {a b : Bool} (d : Diagnostic) → a ≡ true → b ≡ true → fail_if (not a || not b) d ≡ ok tt
    both_passed {a} {b} d h h' = ap (λ x. fail_if (not x || not b) d) h ∙ passed d h'

-- The parts of the integrity check.
pub record IsIntact (schema : RuntimeSchema) : Type 0 where
  pub variables_ok : validate_variables schema.variables ≡ ok tt
  pub functions_ok :
      validate_capability_map schema.functions CapabilityKind.function (codes "function") ≡ ok tt
  pub methods_ok :
      validate_capability_map schema.methods CapabilityKind.method (codes "method") ≡ ok tt
  pub unary_ok :
      validate_operator_map schema.unary_ops CapabilityKind.unary_op 1
        (codes "!" ∷ codes "-" ∷ [])
        (codes "unary operator")
      ≡ ok tt
  pub binary_ok :
      validate_operator_map schema.binary_ops CapabilityKind.binary_op 2 binary_names
        (codes "binary operator")
      ≡ ok tt
  pub globals_ok :
      validate_expression_functions schema.expression_functions ExpressionFunctionScope.global
        (codes "global expression function")
      ≡ ok tt
  pub locals_ok :
      validate_expression_functions schema.local_expression_functions ExpressionFunctionScope.local
        (codes "local expression function")
      ≡ ok tt

pub IsIntact-validate_integrity :
    {schema : RuntimeSchema} → IsIntact schema → validate_integrity schema ≡ ok tt
unfolding validate_integrity
IsIntact-validate_integrity i = ok_both i.variables_ok (
    ok_both i.functions_ok (
      ok_both i.methods_ok
        (ok_both i.unary_ok (ok_both i.binary_ok (ok_both i.globals_ok i.locals_ok)))))
