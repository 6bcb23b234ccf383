-- ===== src/Prelude/Lists.antt =====
-- Lists measured by native numbers, the searches of JavaScript's arrays, and tables as lists of
-- rows with the reads and writes that the database's client makes.
use Prim.Native.Nat.{ℕ, suc, ◌+◌}
use mathlib.Core.Path.{◌≡◌, subst}
use mathlib.Core.Logic.{◌↔◌, ◌⊎◌, inl, inr}
use mathlib.Core.Bool.{Bool, true, false, ◌||◌}
use mathlib.Core.List.{List, [], ◌∷◌, ◌++◌, map}
use mathlib.Core.Option.{Option, none, some, some-injective}
use native.Mathlib.Omega.{arith}
use fox_passport_republic_ap.Prelude.Tests.{if◌then◌else◌, Bool-cases}

module _ {ℓ} {A : Type ℓ} where
  abbrev pub length : List A → ℕ
  length [] = 0
  length (x ∷ xs) = suc (length xs)

  pub length-append : (xs ys : List A) → length (xs ++ ys) ≡ length xs + length ys
  length-append [] ys = omega arith
  length-append (x ∷ xs) ys = omega (arith, length-append xs ys)

  -- Every element satisfies `P`.
  abbrev pub All {κ} : (A → Type κ) → List A → Type κ
  All P [] = Unit
  All P (x ∷ xs) = P x × All P xs

  -- Some element satisfies `P`, and which one is kept.
  abbrev pub Any : (A → Type 0) → List A → Type 0
  Any P [] = ⊥
  Any P (x ∷ xs) = P x ⊎ Any P xs

  pub All-append {κ} : (P : A → Type κ) (xs ys : List A) → All P xs → All P ys → All P (xs ++ ys)
  All-append P [] ys _ q = q
  All-append P (x ∷ xs) ys (p, ps) q = (p, All-append P xs ys ps q)

  pub All-map {κ} : {P Q : A → Type κ} (xs : List A) → ((x : A) → P x → Q x) → All P xs → All Q xs
  All-map [] f _ = tt
  All-map (x ∷ xs) f (p, ps) = (f x p, All-map xs f ps)

  -- What holds of everything holds of every element.
  pub All-everywhere {κ} : {P : A → Type κ} (xs : List A) → ((x : A) → P x) → All P xs
  All-everywhere [] f = tt
  All-everywhere (x ∷ xs) f = (f x, All-everywhere xs f)

  -- `xs.some(p)`
  abbrev pub any_of : (A → Bool) → List A → Bool
  any_of p [] = false
  any_of p (x ∷ xs) = p x || any_of p xs

  -- `xs.filter(p)`, `findMany`
  abbrev pub select : (A → Bool) → List A → List A
  select p [] = []
  select p (x ∷ xs) = if p x then x ∷ select p xs else select p xs

  -- `xs.find(p)`, `findFirst`, `findUnique`
  abbrev pub find_first : (A → Bool) → List A → Option A
  find_first p [] = none
  find_first p (x ∷ xs) = if p x then some x else find_first p xs

  -- `count`
  abbrev pub count_where : (A → Bool) → List A → ℕ
  count_where p [] = 0
  count_where p (x ∷ xs) = (if p x then 1 else 0) + count_where p xs

  -- `_sum`, `reduce`
  abbrev pub sum_of : (A → ℕ) → List A → ℕ
  sum_of f [] = 0
  sum_of f (x ∷ xs) = f x + sum_of f xs

  -- `update`, `updateMany`
  abbrev pub update_where : (A → Bool) → (A → A) → List A → List A
  update_where p f [] = []
  update_where p f (x ∷ xs) = (if p x then f x else x) ∷ update_where p f xs

  -- A search that finds a row finds one that passes the test.
  pub find_first_sound :
      (p : A → Bool) (xs : List A) (a : A) → find_first p xs ≡ some a → p a ≡ true
  find_first_sound p [] a e = cc
  find_first_sound p (x ∷ xs) a e = ground (arith, find_first_sound p xs a)

  pub find_first-All :
      (P : A → Type 0) (p : A → Bool) (xs : List A) (a : A)
      → All P xs
      → find_first p xs ≡ some a
      → P a
  find_first-All P p [] a h e = cc
  find_first-All P p (x ∷ xs) a (h, hs) e = elim (Bool-cases (p x)) [
    | inl t ↦ subst P (some-injective x a (rw t at e)) h
    | inr f ↦ find_first-All P p xs a hs (rw f at e)
  ]

  pub All-select : (P : A → Type 0) (p : A → Bool) (xs : List A) → All P xs → All P (select p xs)
  All-select P p [] h = tt
  All-select P p (x ∷ xs) (h, hs) = elim (Bool-cases (p x)) [
    | inl t ↦ rw t (h, All-select P p xs hs)
    | inr f ↦ rw f (All-select P p xs hs)
  ]

module _ {A : Type 0} where
  -- What holds of every element holds of one that is in the list.
  pub All-both :
      {P Q R : A → Type 0} (xs : List A)
      → ((x : A) → P x → Q x → R x)
      → All P xs
      → All Q xs
      → All R xs
  All-both [] f _ _ = tt
  All-both (x ∷ xs) f (p, ps) (q, qs) = (f x p q, All-both xs f ps qs)

  pub append-All : (P : A → Type 0) (xs ys : List A) → All P (xs ++ ys) → All P xs × All P ys
  append-All P [] ys h = (tt, h)
  append-All P (x ∷ xs) ys (h, hs) = let rest = append-All P xs ys hs in ((h, rest.0), rest.1)

  pub select-All :
      (P : A → Type 0) (p : A → Bool) (xs : List A)
      → All P (select p xs)
      → All (λ x. p x ≡ true → P x) xs
  select-All P p [] h = tt
  select-All P p (x ∷ xs) h = elim (Bool-cases (p x)) [
    | inl t ↦ (let (k, ks) = rw t at h in (λ _. k, select-All P p xs ks))
    | inr f ↦ (let ks = rw f at h in (λ t. cc (t, f), select-All P p xs ks))
  ]

  pub All-selected : (p : A → Bool) (xs : List A) → All (λ x. p x ≡ true) (select p xs)
  All-selected p [] = tt
  All-selected p (x ∷ xs) = elim (Bool-cases (p x)) [
    | inl t ↦ rw t (t, All-selected p xs)
    | inr f ↦ rw f (All-selected p xs)
  ]

  pub All-Any : (P : A → Type 0) (xs : List A) (a : A) → All P xs → Any (λ x. x ≡ a) xs → P a
  All-Any P (x ∷ xs) a (h, hs) (inl e) = subst P e h
  All-Any P (x ∷ xs) a (h, hs) (inr m) = All-Any P xs a hs m
  All-Any P [] a h m = elim m [ ]

  pub find_first-Any :
      (p : A → Bool) (xs : List A) (a : A) → find_first p xs ≡ some a → Any (λ x. x ≡ a) xs
  find_first-Any p [] a e = cc
  find_first-Any p (x ∷ xs) a e = elim (Bool-cases (p x)) [
    | inl t ↦ inl (some-injective x a (rw t at e))
    | inr f ↦ inr (find_first-Any p xs a (rw f at e))
  ]

  pub Any-map : {P Q : A → Type 0} (xs : List A) → ((x : A) → P x → Q x) → Any P xs → Any Q xs
  Any-map [] f m = elim m [ ]
  Any-map (x ∷ xs) f (inl p) = inl (f x p)
  Any-map (x ∷ xs) f (inr m) = inr (Any-map xs f m)

pub map-All :
    {A B : Type 0} (P : B → Type 0) (f : A → B) (xs : List A)
    → All P (map f xs) ↔ All (λ x. P (f x)) xs
map-All P f [] = (λ _. tt, λ _. tt)
map-All P f (x ∷ xs) = (λ h. (h.0, (map-All P f xs).0 h.1), λ h. (h.0, (map-All P f xs).1 h.1))
