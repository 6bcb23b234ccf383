-- ===== src/Prelude/Searches.antt =====
-- The searches of lists by a test, and how they agree.
use Prim.Native.Nat.{ℕ, ◌+◌, ◌≤◌}
use mathlib.Core.Path.{◌≡◌, refl}
use mathlib.Core.Logic.{inl, inr}
use mathlib.Core.Bool.{Bool, false, ◌&&◌, ◌||◌}
use mathlib.Core.List.{List, [], ◌∷◌, map}
use mathlib.Core.Option.{Option, none, some}
use native.Mathlib.Omega.{arith}
use fox_passport_republic_ap.Prelude.Tests.{Bool-cases}
use fox_passport_republic_ap.Prelude.Lists.{All, any_of, select, find_first, count_where}
use fox_passport_republic_ap.Prelude.Counts.{count_where-0}

-- `o?.test ?? false`
abbrev pub found_holds : {A : Type 0} → (A → Bool) → Option A → Bool
found_holds q none = false
found_holds q (some a) = q a

pub any_of-ext :
    {A : Type 0} (p q : A → Bool) (xs : List A) → ((a : A) → p a ≡ q a) → any_of p xs ≡ any_of q xs
any_of-ext p q [] k = refl
any_of-ext p q (x ∷ xs) k = rw (k x, any_of-ext p q xs k) refl

pub any_of-select :
    {A : Type 0} (p q : A → Bool) (xs : List A)
    → any_of q (select p xs) ≡ any_of (λ a. p a && q a) xs
any_of-select p q [] = refl
any_of-select p q (x ∷ xs) = elim (Bool-cases (p x)) [
  | inl t ↦ rw (t, any_of-select p q xs) refl
  | inr n ↦ rw (n, any_of-select p q xs) refl
]

pub any_of-map :
    {A B : Type 0} (f : A → B) (q : B → Bool) (xs : List A)
    → any_of q (map f xs) ≡ any_of (λ a. q (f a)) xs
any_of-map f q [] = refl
any_of-map f q (x ∷ xs) = rw (any_of-map f q xs) refl

pub any_of-none :
    {A : Type 0} (p q : A → Bool) (xs : List A)
    → All (λ a. p a ≡ false) xs
    → any_of (λ a. p a && q a) xs ≡ false
any_of-none p q [] _ = refl
any_of-none p q (x ∷ xs) (h, hs) = rw (h, any_of-none p q xs hs) refl

or-none : (a b : Bool) → b ≡ false → (a || b) ≡ a
or-none a b h = ground arith

fewer : (n : ℕ) → 0 + n ≤ 1 → n ≤ 1
fewer n h = omega (arith, h)

none_left : (n : ℕ) → 1 + n ≤ 1 → n ≤ 0
none_left n h = omega (arith, h)

-- The only row that passes a test is the one that is found.
pub any_of-found :
    {A : Type 0} (p q : A → Bool) (xs : List A)
    → count_where p xs ≤ 1
    → any_of (λ a. p a && q a) xs ≡ found_holds q (find_first p xs)
any_of-found p q [] c = refl
any_of-found p q (x ∷ xs) c = elim (Bool-cases (p x)) [
  | inl t ↦ rw t (
      or-none (q x) _
        (any_of-none p q xs (count_where-0 p xs (none_left (count_where p xs) (rw t at c)))))
  | inr n ↦ rw n (any_of-found p q xs (fewer (count_where p xs) (rw n at c)))
]
