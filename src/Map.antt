-- ===== src/Map.antt =====
-- `BTreeMap` and `BTreeSet`: the list of the entries, in the order of their keys.
pub mod Keys
use online_dsl_forge.Base.{
  Bool, true, false, List, [], ◌∷◌, Text, Option, none, some, ltb, ◌==◌, if◌then◌else◌,
}

-- The order of `str`, which is that of the code points.
unfoldable pub text_lt : Text → Text → Bool
text_lt [] [] = false
text_lt [] (y ∷ ys) = true
text_lt (x ∷ xs) [] = false
text_lt (x ∷ xs) (y ∷ ys) = if x == y then text_lt xs ys else ltb x y

module _ {ℓ κ} {K : Type ℓ} {A : Type κ} (eq : K → K → Bool) where
  unfoldable pub lookup : K → List (K × A) → Option A
  lookup k [] = none
  lookup k ((key, a) ∷ rest) = elim (eq key k) [ true ↦ some a | false ↦ lookup k rest ]

  module _ (lt : K → K → Bool) where
    unfoldable pub insert : K → A → List (K × A) → List (K × A)
    insert k a [] = (k, a) ∷ []
    insert k a ((key, b) ∷ rest) = elim (eq key k) [
      | true ↦ (k, a) ∷ rest
      | false ↦ elim (lt k key) [
        | true ↦ (k, a) ∷ (key, b) ∷ rest
        | false ↦ (key, b) ∷ insert k a rest
      ]
    ]

module _ {ℓ} {K : Type ℓ} (eq : K → K → Bool) where
  unfoldable pub contains_key : K → List K → Bool
  contains_key k [] = false
  contains_key k (key ∷ rest) = elim (eq key k) [ true ↦ true | false ↦ contains_key k rest ]

  unfoldable pub insert_key : (K → K → Bool) → K → List K → List K
  insert_key lt k [] = k ∷ []
  insert_key lt k (key ∷ rest) = elim (eq key k) [
    | true ↦ key ∷ rest
    | false ↦ elim (lt k key) [ true ↦ k ∷ key ∷ rest | false ↦ key ∷ insert_key lt k rest ]
  ]
