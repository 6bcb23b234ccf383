-- ===== src/Prelude/Results.antt =====
-- Fallible code: a value or the error that is thrown.
use mathlib.Core.Path.{◌≡◌, refl}
use mathlib.Core.Logic.{◌⊎◌, inl, inr}
use mathlib.Core.Bool.{Bool, true, false, not}
use mathlib.Core.Option.{Option, none, some}

pub data Result {ε α} (E : Type ε) (A : Type α) : Type (ε ⊔ α) where
  err : E → Result E A
  ok : A → Result E A

module _ {ε α β} {E : Type ε} {A : Type α} {B : Type β} where
  -- `await m`, the code after it being `rest`: an error skips the rest.
  infixl 5 ◌>>=◌
  abbrev pub ◌>>=◌ : (m : Result E A) (rest : A → Result E B) → Result E B
  err thrown >>= rest = err thrown
  ok value >>= rest = rest value

module _ {ε β} {E : Type ε} {B : Type β} where
  infixl 5 ◌>>◌
  abbrev pub ◌>>◌ : (m : Result E (Unit {0})) (rest : Result E B) → Result E B
  err thrown >> rest = err thrown
  ok tt >> rest = rest

-- `if (c) throw e`
abbrev pub throw_if {ℓ} : {E : Type ℓ} → Bool → E → Result E (Unit {0})
throw_if true e = err e
throw_if false e = ok tt

-- `if (!o) throw e`
abbrev pub or_throw {ℓ κ} : {E : Type ℓ} {A : Type κ} → Option A → E → Result E A
or_throw none e = err e
or_throw (some a) e = ok a

abbrev pub is_ok {ℓ κ} : {E : Type ℓ} {A : Type κ} → Result E A → Bool
is_ok (ok _) = true
is_ok (err _) = false

pub Result-cases {ℓ κ} :
    {E : Type ℓ} {A : Type κ} (r : Result E A) → ((a : A) × (r ≡ ok a)) ⊎ ((e : E) × (r ≡ err e))
Result-cases (ok a) = inl (a, refl)
Result-cases (err e) = inr (e, refl)

-- The inversion of a chain that succeeds.
module _ {ε α β} {E : Type ε} {A : Type α} {B : Type β} where
  pub >>=-eq-ok :
      (m : Result E A) (rest : A → Result E B) {b : B}
      → (m >>= rest) ≡ ok b
      → (a : A) × (m ≡ ok a) × (rest a ≡ ok b)
  >>=-eq-ok (err thrown) rest done = cc
  >>=-eq-ok (ok value) rest done = (value, refl, done)

module _ {ε β} {E : Type ε} {B : Type β} where
  pub >>-eq-ok :
      (m : Result E (Unit {0})) (rest : Result E B) {b : B}
      → (m >> rest) ≡ ok b
      → (m ≡ ok tt) × (rest ≡ ok b)
  >>-eq-ok (err thrown) rest done = cc
  >>-eq-ok (ok tt) rest done = (refl, done)

pub or_throw-eq-ok {ℓ κ} :
    {E : Type ℓ} {A : Type κ} (o : Option A) (e : E) {a : A} → or_throw o e ≡ ok a → o ≡ some a
or_throw-eq-ok none e h = cc
or_throw-eq-ok (some a) e h = cc

pub throw_if-eq-ok {ℓ} : {E : Type ℓ} (b : Bool) (e : E) → throw_if b e ≡ ok tt → b ≡ false
throw_if-eq-ok true e h = cc
throw_if-eq-ok false e h = refl

pub ok-injective {ℓ κ} :
    {E : Type ℓ} {A : Type κ} {a b : A} → ◌≡◌ {A = Result E A} (ok a) (ok b) → a ≡ b
ok-injective h = cc

-- The inversion of a step behind a guard, a requirement or a search.
module _ {ε β} {E : Type ε} {B : Type β} where
  pub guard-eq-ok :
      (b : Bool) (e : E) (rest : Result E B) {r : B}
      → (throw_if b e >> rest) ≡ ok r
      → (b ≡ false) × (rest ≡ ok r)
  guard-eq-ok true e rest h = cc
  guard-eq-ok false e rest h = (refl, h)

  pub require-eq-ok :
      (b : Bool) (e : E) (rest : Result E B) {r : B}
      → (throw_if (not b) e >> rest) ≡ ok r
      → (b ≡ true) × (rest ≡ ok r)
  require-eq-ok true e rest h = (refl, h)
  require-eq-ok false e rest h = cc

module _ {ε α β} {E : Type ε} {A : Type α} {B : Type β} where
  pub found-eq-ok :
      (o : Option A) (e : E) (rest : A → Result E B) {r : B}
      → (or_throw o e >>= rest) ≡ ok r
      → (a : A) × (o ≡ some a) × (rest a ≡ ok r)
  found-eq-ok none e rest h = cc
  found-eq-ok (some a) e rest h = (a, refl, h)
