-- ===== src/Base/Outcome.antt =====
-- `Result<A, E>` with `?`, and a third outcome for a loop that ran out of fuel.
use mathlib.Core.Path.{◌≡◌, refl, subst}
use mathlib.Core.Logic.{◌≢◌, ◌↔◌}
use mathlib.Core.Bool.{Bool, true, false}
use mathlib.Core.Option.{Option, none, some}

pub data Result {ℓ κ} (E : Type ℓ) (A : Type κ) : Type (ℓ ⊔ κ) where
  ok : A → Result E A
  err : E → Result E A
  out_of_fuel : Result E A

module _ {ℓ κ ι} {E : Type ℓ} {A : Type κ} {B : Type ι} where
  infixl 5 ◌>>=◌
  abbrev pub ◌>>=◌ : Result E A → (A → Result E B) → Result E B
  ok a >>= f = f a
  err e >>= f = err e
  out_of_fuel >>= f = out_of_fuel

-- `if b { return Err(e) }`.
abbrev pub fail_if {ℓ} : {E : Type ℓ} → Bool → E → Result E (Unit {0})
fail_if true e = err e
fail_if false e = ok tt

module _ {ℓ κ} {E : Type ℓ} {B : Type κ} where
  infixl 5 ◌>>◌
  abbrev pub ◌>>◌ : Result E (Unit {0}) → Result E B → Result E B
  m >> k = m >>= λ _. k

  abbrev pub ok_or : Option B → E → Result E B
  ok_or none e = err e
  ok_or (some b) e = ok b

  abbrev pub map_err : (E → E) → Result E B → Result E B
  map_err f (ok b) = ok b
  map_err f (err e) = err (f e)
  map_err f out_of_fuel = out_of_fuel

-- A run that ends: with a value of which `Good` holds, or with an error in a case that is `Bad`.
pub data Verdict {ℓ κ ι ι'} {E : Type ℓ} {A : Type κ} (Good : A → Type ι) (Bad : Type ι')
    : Result E A → Type (ℓ ⊔ κ ⊔ ι ⊔ ι') where
  accepts : {a : A} → Good a → Verdict Good Bad (ok a)
  refuses : {e : E} → Bad → Verdict Good Bad (err e)

module _ {ℓ κ ι ι'} {E : Type ℓ} {A : Type κ} {Good : A → Type ι} {Bad : Type ι'} where
  pub Verdict-ok : {r : Result E A} {a : A} → Verdict Good Bad r → r ≡ ok a → Good a
  Verdict-ok (accepts h) e = subst Good (cc) h
  Verdict-ok (refuses h) e = cc

  pub Verdict-good : {r : Result E A} → Verdict Good Bad r → ¬ Bad → (a : A) × (r ≡ ok a) × Good a
  Verdict-good (accepts {a} h) e = (a, refl, h)
  Verdict-good (refuses h) e = absurd (e h)

  pub Verdict-err : {r : Result E A} {e : E} → Verdict Good Bad r → r ≡ err e → Bad
  Verdict-err (accepts h) p = cc
  Verdict-err (refuses h) p = h

  pub Verdict-bad :
      {r : Result E A} → Verdict Good Bad r → ((a : A) → ¬ Good a) → (e : E) × (r ≡ err e)
  Verdict-bad (accepts {a} h) no_good = absurd (no_good a h)
  Verdict-bad (refuses {e} h) no_good = (e, refl)

  pub Verdict-ends : {r : Result E A} → Verdict Good Bad r → r ≢ out_of_fuel
  Verdict-ends (accepts h) = cc
  Verdict-ends (refuses h) = cc

  pub Verdict-fail_if :
      (b : Bool) (e : E) {r : Result E A}
      → (b ≡ true → Bad)
      → (b ≡ false → Verdict Good Bad r)
      → Verdict Good Bad (fail_if b e >> r)
  Verdict-fail_if true e bad good = refuses (bad refl)
  Verdict-fail_if false e bad good = good refl

  pub Verdict-ok_or {ι''} :
      {B : Type ι''} (o : Option B) (e : E) {f : B → Result E A}
      → (o ≡ none → Bad)
      → ((b : B) → o ≡ some b → Verdict Good Bad (f b))
      → Verdict Good Bad (ok_or o e >>= f)
  Verdict-ok_or none e bad good = refuses (bad refl)
  Verdict-ok_or (some b) e bad good = good b refl

  pub Verdict-some :
      (o : Option A) (e : E)
      → (o ≡ none → Bad)
      → ((a : A) → o ≡ some a → Good a)
      → Verdict Good Bad (ok_or o e)
  Verdict-some none e bad good = refuses (bad refl)
  Verdict-some (some a) e bad good = accepts (good a refl)

  pub Verdict-bind {ι'' κ' κ''} :
      {B : Type ι''} {Good' : B → Type κ'} {Bad' : Type κ''} {r : Result E B} {f : B → Result E A}
      → Verdict Good' Bad' r
      → (Bad' → Bad)
      → ((b : B) → Good' b → Verdict Good Bad (f b))
      → Verdict Good Bad (r >>= f)
  Verdict-bind (accepts {a} h) bad k = k a h
  Verdict-bind (refuses h) bad k = refuses (bad h)

  pub Verdict-map {κ' κ''} :
      {Good' : A → Type κ'} {Bad' : Type κ''} {r : Result E A}
      → ((a : A) → Good a → Good' a)
      → (Bad → Bad')
      → Verdict Good Bad r
      → Verdict Good' Bad' r
  Verdict-map g b (accepts {a} h) = accepts (g a h)
  Verdict-map g b (refuses h) = refuses (b h)

module _ {ℓ κ ι ι'} {E : Type ℓ} {A : Type κ} {Bad : Type ι'} where
  -- A run that ends returns `spec` exactly in the good cases.
  pub Verdict-eq-ok_iff :
      {r : Result E A} (spec : A) {P : Type ι}
      → Verdict (λ a. (a ≡ spec) × P) Bad r
      → (P → ¬ Bad)
      → (a : A) → (r ≡ ok a) ↔ ((a ≡ spec) × P)
  Verdict-eq-ok_iff spec (accepts (e, p)) good a = (λ q. (cc, p), λ h. let q = h.0 in cc)
  Verdict-eq-ok_iff spec (refuses b) good a = (λ q. cc, λ h. absurd (good h.1 b))

-- A check that ends passes exactly if `P` holds.
pub Verdict-iff {ℓ κ} :
    {E : Type ℓ} {P : Type κ} {r : Result E (Unit {0})} → Verdict (λ _. P) (¬ P) r → (r ≡ ok tt) ↔ P
Verdict-iff (accepts p) = (λ e. p, λ p'. cc)
Verdict-iff (refuses b) = (λ e. cc, λ p. absurd (b p))

-- A run that ends, and of whose value `Good` holds if it has one.
abbrev pub Ends {ℓ κ ι} : {E : Type ℓ} {A : Type κ} → (A → Type ι) → Result E A → Type (ℓ ⊔ κ ⊔ ι)
Ends Good = Verdict Good (Unit {0})

module _ {ℓ κ ι κ' ι'} {E : Type ℓ} {A : Type κ} {B : Type κ'} {P : A → Type ι}
    {Q : B → Type ι'} where
  pub Ends-bind :
      {r : Result E A} {f : A → Result E B}
      → Ends P r
      → ((a : A) → P a → Ends Q (f a))
      → Ends Q (r >>= f)
  Ends-bind v k = Verdict-bind v (λ b. b) k

module _ {ℓ κ ι} {E : Type ℓ} {A : Type κ} {P : A → Type ι} where
  pub Ends-fail_if :
      (b : Bool) (e : E) {r : Result E A} → (b ≡ false → Ends P r) → Ends P (fail_if b e >> r)
  Ends-fail_if b e k = Verdict-fail_if b e (λ _. tt) k

  pub Ends-ok_or {ι'} :
      {B : Type ι'} (o : Option B) (e : E) {f : B → Result E A}
      → ((b : B) → o ≡ some b → Ends P (f b))
      → Ends P (ok_or o e >>= f)
  Ends-ok_or o e k = Verdict-ok_or o e (λ _. tt) k

pub ok_or-Ends {ℓ κ ι} :
    {E : Type ℓ} {A : Type κ} {P : A → Type ι} (o : Option A) (e : E)
    → ((a : A) → o ≡ some a → P a)
    → Ends P (ok_or o e)
ok_or-Ends none e k = refuses tt
ok_or-Ends (some a) e k = accepts (k a refl)

pub Ends-map {ℓ κ ι} :
    {E : Type ℓ} {A : Type κ} {P Q : A → Type ι} {r : Result E A}
    → ((a : A) → P a → Q a)
    → Ends P r
    → Ends Q r
Ends-map f (accepts h) = accepts (f _ h)
Ends-map f (refuses b) = refuses b

-- A run that returns a value for which `Good` holds.
abbrev pub Returns {ℓ κ ι} :
    {E : Type ℓ} {A : Type κ} → (A → Type ι) → Result E A → Type (ℓ ⊔ κ ⊔ ι)
Returns Good = Verdict Good ⊥

module _ {ℓ κ ι κ' ι'} {E : Type ℓ} {A : Type κ} {B : Type κ'} {P : A → Type ι}
    {Q : B → Type ι'} where
  pub Returns-bind :
      {r : Result E A} {f : A → Result E B}
      → Returns P r
      → ((a : A) → P a → Returns Q (f a))
      → Returns Q (r >>= f)
  Returns-bind v k = Verdict-bind v (λ b. b) k

pub Returns-map {ℓ κ ι ι'} :
    {E : Type ℓ} {A : Type κ} {P : A → Type ι} {Q : A → Type ι'} {r : Result E A}
    → ((a : A) → P a → Q a)
    → Returns P r
    → Returns Q r
Returns-map f v = Verdict-map f (λ b. b) v
