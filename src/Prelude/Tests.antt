-- ===== src/Prelude/Tests.antt =====
-- Boolean tests and the conditional, and the program's identifiers and short strings.
use Prim.Native.Nat.{ℕ, ◌≤◌, ◌<◌, compare, Ordering}
use mathlib.Core.Path.{◌≡◌, refl}
use mathlib.Core.Logic.{◌↔◌, ◌⊎◌, inl, inr}
use mathlib.Core.Bool.{Bool, true, false, not, ◌&&◌}
use mathlib.Core.Option.{Option, none, some}
use native.Mathlib.Omega.{arith}

abbrev pub ltb : ℕ → ℕ → Bool
ltb a b = elim (compare a b) [ Ordering.lt ↦ true | _ ↦ false ]

abbrev pub leb : ℕ → ℕ → Bool
leb a b = elim (compare a b) [ Ordering.gt ↦ false | _ ↦ true ]

infix 50 ◌==◌
abbrev pub ◌==◌ : ℕ → ℕ → Bool
a == b = elim (compare a b) [ Ordering.eq ↦ true | _ ↦ false ]

infix 1 if◌then◌else◌
abbrev pub if◌then◌else◌ {ℓ} : {A : Type ℓ} → Bool → A → A → A
if true then x else y = x
if false then x else y = y

pub ltb→lt : (a b : ℕ) → ltb a b ≡ true → a < b
ltb→lt a b h = ground arith

pub lt→ltb : (a b : ℕ) → a < b → ltb a b ≡ true
lt→ltb a b h = ground arith

pub leb→le : (a b : ℕ) → leb a b ≡ true → a ≤ b
leb→le a b h = ground arith

pub ==_iff : (a b : ℕ) → ((a == b) ≡ true) ↔ (a ≡ b)
==_iff a b = ground arith

pub ==_refl : (a : ℕ) → (a == a) ≡ true
==_refl a = ground arith

pub Bool-cases : (b : Bool) → (b ≡ true) ⊎ (b ≡ false)
Bool-cases true = inl refl
Bool-cases false = inr refl

pub Option-cases {ℓ} : {A : Type ℓ} (o : Option A) → (o ≡ none) ⊎ ((a : A) × (o ≡ some a))
Option-cases none = inl refl
Option-cases (some a) = inr (a, refl)

-- Identifiers and the strings that the program only compares are numbers, and 0 is the empty
-- string, which JavaScript reads as false.
abbrev pub Text : Type 0
Text = ℕ

-- A `Date`, in milliseconds since the epoch.
abbrev pub Time : Type 0
Time = ℕ

abbrev pub is_some {ℓ} : {A : Type ℓ} → Option A → Bool
is_some none = false
is_some (some _) = true

-- `o ?? d`
abbrev pub or_else {ℓ} : {A : Type ℓ} → Option A → A → A
or_else none d = d
or_else (some a) d = a

-- The test of `if (s)` on a string that may be null or undefined.
abbrev pub truthy : Option Text → Bool
truthy none = false
truthy (some t) = not (t == 0)

-- `s === t` on two present strings, and false if one is missing.
abbrev pub same : Option Text → Option Text → Bool
same (some s) (some t) = s == t
same _ _ = false

-- `s && s !== t`: a scope that is set and that `t` does not meet.
abbrev pub excludes : Option Text → Option Text → Bool
excludes scope t = truthy scope && not (same scope t)

pub ==→eq : (a b : ℕ) → (a == b) ≡ true → a ≡ b
==→eq a b t = ground arith

pub and-false : (a : Bool) → (a && false) ≡ true → ⊥
and-false true h = cc
and-false false h = cc

pub is_some-false : {A : Type 0} (o : Option A) → is_some o ≡ false → o ≡ none
is_some-false none e = refl
is_some-false (some a) e = cc

pub not-false : (b : Bool) → not b ≡ false → b ≡ true
not-false true e = refl
not-false false e = cc

pub and_false : (a : Bool) → (a && false) ≡ false
and_false true = refl
and_false false = refl
