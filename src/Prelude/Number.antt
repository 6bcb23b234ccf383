-- ===== src/Prelude/Number.antt =====
-- JavaScript numbers, as far as the program computes with them: literals, the four operations,
-- the order and rounding. The finite doubles are a parameter; the laws are those that IEEE 754
-- rounding keeps (it is monotone, and exact where the result is one of the operands).
use Prim.Native.Nat.{ℕ, ◌+◌, ◌-◌, ◌*◌, ◌/◌, ◌^◌}
use mathlib.Core.Path.{◌≡◌}
use mathlib.Core.Logic.{◌⊎◌}
use mathlib.Core.Bool.{Bool, true, false, not}
use native.Mathlib.Omega.{arith}
use fox_passport_republic_ap.Prelude.Tests.{leb}

pub record Number {ℓ} (N : Type ℓ) : Type ℓ where
  pub literal : ℕ → ℕ → N  -- `literal m e` is m / 10^e
  pub add : N → N → N
  pub sub : N → N → N
  pub mul : N → N → N
  pub div : N → N → N
  pub le : N → N → Bool
  pub floor : N → ℕ  -- `Math.floor`, of a number that is not negative
  pub round : N → ℕ  -- `Math.round`, likewise
  pub ceil : N → ℕ  -- `Math.ceil`, likewise

infixl 65 ◌+ₙ◌ ◌-ₙ◌
infixl 70 ◌*ₙ◌ ◌/ₙ◌
infix 50 ◌≼◌
abbrev pub ◌+ₙ◌ {ℓ} : {N : Type ℓ} ⦃n : Number N⦄ → N → N → N
◌+ₙ◌ ⦃n⦄ = n.add

abbrev pub ◌-ₙ◌ {ℓ} : {N : Type ℓ} ⦃n : Number N⦄ → N → N → N
◌-ₙ◌ ⦃n⦄ = n.sub

abbrev pub ◌*ₙ◌ {ℓ} : {N : Type ℓ} ⦃n : Number N⦄ → N → N → N
◌*ₙ◌ ⦃n⦄ = n.mul

abbrev pub ◌/ₙ◌ {ℓ} : {N : Type ℓ} ⦃n : Number N⦄ → N → N → N
◌/ₙ◌ ⦃n⦄ = n.div

-- `a < b`, which for numbers other than NaN is the negation of `b <= a`.
abbrev pub lt_n {ℓ} : {N : Type ℓ} ⦃n : Number N⦄ → N → N → Bool
lt_n ⦃n⦄ a b = not (n.le b a)

abbrev pub ◌≼◌ {ℓ} : {N : Type ℓ} ⦃n : Number N⦄ → N → N → Type 0
◌≼◌ ⦃n⦄ a b = n.le a b ≡ true

abbrev pub integer {ℓ} : {N : Type ℓ} ⦃n : Number N⦄ → ℕ → N
integer ⦃n⦄ k = n.literal k 0

abbrev pub nought {ℓ} : {N : Type ℓ} ⦃n : Number N⦄ → N
nought ⦃n⦄ = n.literal 0 0

pub record IsRounded {ℓ} (N : Type ℓ) ⦃n : Number N⦄ : Type ℓ where
  pub le_total : (a b : N) → (a ≼ b) ⊎ (b ≼ a)
  pub le_trans : (a b c : N) → a ≼ b → b ≼ c → a ≼ c
  pub literal_nonneg : (m e : ℕ) → nought ≼ n.literal m e
  pub add-nonneg_le : (a b : N) → nought ≼ b → a ≼ (a +ₙ b)
  pub sub_nonneg : (a b : N) → b ≼ a → nought ≼ (a -ₙ b)
  pub sub-nonneg_le : (a b : N) → nought ≼ b → (a -ₙ b) ≼ a
  pub mul_nonneg : (a b : N) → nought ≼ a → nought ≼ b → nought ≼ (a *ₙ b)
  pub div_nonneg : (a b : N) → nought ≼ a → nought ≼ b → nought ≼ (a /ₙ b)

-- What follows for the strict order.
module _ {ℓ} {N : Type ℓ} ⦃n : Number N⦄ (laws : IsRounded N) where
  pub lt_n_trans : (a b c : N) → lt_n a b ≡ true → lt_n b c ≡ true → lt_n a c ≡ true
  lt_n_trans a b c p q = ground (arith, laws.le_total a b, laws.le_trans c a b)

  pub lt_n_weak : (a b c : N) → lt_n a b ≡ false → lt_n a c ≡ true → lt_n b c ≡ true
  lt_n_weak a b c p q = ground (arith, laws.le_trans c b a)

  pub lt_n_asym : (a b : N) → lt_n a b ≡ true → lt_n b a ≡ false
  lt_n_asym a b p = ground (arith, laws.le_total a b)

  pub le_of_not_lt_n : (a b : N) → lt_n a b ≡ false → b ≼ a
  le_of_not_lt_n a b p = ground arith

  pub le_of_lt_n : (a b : N) → lt_n a b ≡ true → a ≼ b
  le_of_lt_n a b p = ground (arith, laws.le_total a b)

  pub le_refl_n : (a : N) → a ≼ a
  le_refl_n a = ground (arith, laws.le_total a a)

-- The laws can be met: fixed point with four decimals, results rounded down.
abbrev pub Fixed : Type 0
Fixed = ℕ

abbrev pub scale : ℕ
scale = 10_000

instance abbrev pub fixed_number : Number Fixed
fixed_number = record {
  literal = λ m e. m * scale / 10 ^ e;
  add = λ a b. a + b;
  sub = λ a b. a - b;
  mul = λ a b. a * b / scale;
  div = λ a b. a * scale / b;
  le = leb;
  floor = λ a. a / scale;
  round = λ a. (a + 5000) / scale;
  ceil = λ a. (a + 9999) / scale;
}

pub Fixed-IsRounded : IsRounded Fixed
Fixed-IsRounded = record {
  le_total = λ a b. ground arith;
  le_trans = λ a b c. ground arith;
  literal_nonneg = λ m e. ground arith;
  add-nonneg_le = λ a b. ground arith;
  sub_nonneg = λ a b. ground arith;
  sub-nonneg_le = λ a b. ground arith;
  mul_nonneg = λ a b. ground arith;
  div_nonneg = λ a b. ground arith;
}
