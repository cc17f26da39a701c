-- ===== src/Map/Keys.antt =====
-- What inserting a key does to the keys of a set.
use online_dsl_forge.Base.{
  ◌≡◌, refl, sym, ◌∙◌, false, Bool, true, List, [], ◌∷◌, Bool-cases, inl, inr, some, ◌⊎◌,
}
use online_dsl_forge.Map.{contains_key, insert_key, lookup}

module _ {ℓ} {K : Type ℓ} (eq lt : K → K → Bool) where
  pub insert_key-same :
      (k : K) (xs : List K) → eq k k ≡ true → contains_key eq k (insert_key eq lt k xs) ≡ true
  unfolding contains_key insert_key
  insert_key-same k [] h = rw (contains_key, h) refl
  insert_key-same k (x ∷ xs) h = elim (Bool-cases (eq x k)) [
    | inl same ↦ rw (insert_key, same, contains_key, same) refl
    | inr other ↦ elim (Bool-cases (lt k x)) [
      | inl before ↦ rw (insert_key, other, before, contains_key, h) refl
      | inr after ↦ rw (insert_key, other, after, contains_key, other) (insert_key-same k xs h)
    ]
  ]

  pub contains-other :
      (q x : K) (xs : List K) → eq x q ≡ false → contains_key eq q (x ∷ xs) ≡ contains_key eq q xs
  unfolding contains_key
  contains-other q x xs h = rw (contains_key, h) refl

  pub insert_key-kept :
      (q k : K) (xs : List K)
      → contains_key eq q xs ≡ true
      → contains_key eq q (insert_key eq lt k xs) ≡ true
  unfolding contains_key insert_key
  insert_key-kept q k [] h = cc
  insert_key-kept q k (x ∷ xs) h = elim (Bool-cases (eq x k)) [
    | inl same ↦ rw (insert_key, same) h
    | inr other ↦ elim (Bool-cases (lt k x)) [
      | inl before ↦ rw (insert_key, other, before) (later (eq k q) h)
      | inr after ↦ elim (Bool-cases (eq x q)) [
        | inl found ↦ rw (insert_key, other, after, contains_key, found) refl
        | inr missing ↦
            rw (insert_key, other, after, contains_key, missing)
              (insert_key-kept q k xs (sym (contains-other q x xs missing) ∙ h))
      ]
    ]
  ]
    where
      later :
          (b : Bool)
          → contains_key eq q (x ∷ xs) ≡ true
          → elim b [ true ↦ true | false ↦ contains_key eq q (x ∷ xs) ] ≡ true
      later true h = refl
      later false h = h

module _ {ℓ κ} {K : Type ℓ} {A : Type κ} (eq : K → K → Bool) where
  pub lookup-here :
      (k key : K) (a : A) (rest : List (K × A))
      → eq key k ≡ true
      → lookup eq k ((key, a) ∷ rest) ≡ some a
  unfolding lookup
  lookup-here k key a rest h = rw (lookup, h) refl

  pub lookup-next :
      (k key : K) (a : A) (rest : List (K × A))
      → eq key k ≡ false
      → lookup eq k ((key, a) ∷ rest) ≡ lookup eq k rest
  unfolding lookup
  lookup-next k key a rest h = rw (lookup, h) refl

  pub lookup-nil : (k : K) {a : A} → ¬ (lookup eq k [] ≡ some a)
  unfolding lookup
  lookup-nil k h = cc

  -- What is found is the first entry, or is found behind it.
  pub lookup-cons :
      (k key : K) (a : A) (rest : List (K × A)) {c : A}
      → lookup eq k ((key, a) ∷ rest) ≡ some c
      → ((eq key k ≡ true) × (a ≡ c)) ⊎ (lookup eq k rest ≡ some c)
  lookup-cons k key a rest {c} h = elim (Bool-cases (eq key k)) [
    | inl e ↦ inl (e, let p = lookup-here k key a rest e in cc)
    | inr e ↦ inr (sym (lookup-next k key a rest e) ∙ h)
  ]
