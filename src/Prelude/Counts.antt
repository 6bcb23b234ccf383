-- ===== src/Prelude/Counts.antt =====
-- How many rows of a table pass a test, and how writes change that number.
use Prim.Native.Nat.{ℕ, ◌+◌, ◌≤◌}
use mathlib.Core.Path.{◌≡◌, refl, subst}
use mathlib.Core.Logic.{inl, inr}
use mathlib.Core.Bool.{Bool, true, false}
use mathlib.Core.List.{List, [], ◌∷◌, ◌++◌}
use mathlib.Core.Option.{none, some, some-injective}
use native.Mathlib.Omega.{arith}
use fox_passport_republic_ap.Prelude.Tests.{if◌then◌else◌, Bool-cases}
use fox_passport_republic_ap.Prelude.Lists.{All, All-map, count_where, find_first, update_where}

one_le_zero : (n : ℕ) → 1 + n ≤ 0 → ⊥
one_le_zero n h = omega (arith, h)

add_zero_le : (n m : ℕ) → 0 + n ≤ m → n ≤ m
add_zero_le n m h = omega (arith, h)

pub true_not_false : (b : Bool) → b ≡ true → b ≡ false → ⊥
true_not_false true t f = cc
true_not_false false t f = cc

module _ {A : Type 0} where
  pub count_where-append :
      (p : A → Bool) (xs ys : List A)
      → count_where p (xs ++ ys) ≡ count_where p xs + count_where p ys
  count_where-append p [] ys = omega arith
  count_where-append p (x ∷ xs) ys = omega (arith, count_where-append p xs ys)

  -- If every row passes `p` after a write only if it passed `p'` before it, there are no more.
  pub count_where-update_where :
      (p p' q : A → Bool) (f : A → A) (xs : List A)
      → All (λ a. p (if q a then f a else a) ≡ true → p' a ≡ true) xs
      → count_where p (update_where q f xs) ≤ count_where p' xs
  count_where-update_where p p' q f [] _ = omega arith
  count_where-update_where p p' q f (x ∷ xs) (h, hs) =
      let rest = count_where-update_where p p' q f xs hs in
      elim (Bool-cases (p (if q x then f x else x))) [
        | inl t ↦ rw (t, h t) (omega (arith, rest))
        | inr n ↦ rw n (omega (arith, rest))
      ]

  pub find_first-none :
      (p : A → Bool) (xs : List A) → find_first p xs ≡ none → All (λ a. p a ≡ false) xs
  find_first-none p [] e = tt
  find_first-none p (x ∷ xs) e = elim (Bool-cases (p x)) [
    | inl t ↦ (let impossible = rw t at e in cc)
    | inr n ↦ (n, find_first-none p xs (rw n at e))
  ]

  pub count_where-none :
      (p : A → Bool) (xs : List A) → find_first p xs ≡ none → count_where p xs ≡ 0
  count_where-none p [] e = refl
  count_where-none p (x ∷ xs) e = elim (Bool-cases (p x)) [
    | inl t ↦ (let impossible = rw t at e in cc)
    | inr n ↦ rw n (omega (arith, count_where-none p xs (rw n at e)))
  ]

  pub count_where-0 :
      (p : A → Bool) (xs : List A) → count_where p xs ≤ 0 → All (λ a. p a ≡ false) xs
  count_where-0 p [] c = tt
  count_where-0 p (x ∷ xs) c = elim (Bool-cases (p x)) [
    | inl t ↦ elim (one_le_zero (count_where p xs) (rw t at c)) [ ]
    | inr n ↦ (n, count_where-0 p xs (add_zero_le (count_where p xs) 0 (rw n at c)))
  ]

  -- The only row that passes the test is the one that the search finds.
  pub find_first-only :
      (p : A → Bool) (xs : List A) (a : A)
      → find_first p xs ≡ some a
      → count_where p xs ≤ 1
      → All (λ x. p x ≡ true → x ≡ a) xs
  find_first-only p [] a e c = tt
  find_first-only p (x ∷ xs) a e c = elim (Bool-cases (p x)) [
    | inl t ↦ (
      λ _. some-injective x a (rw t at e),
      All-map xs (λ y n h. elim (true_not_false (p y) h n) [ ])
          (count_where-0 p xs (omega (arith, rw t at c))),
    )
    | inr n ↦ (
      λ h. elim (true_not_false (p x) h n) [ ],
      find_first-only p xs a (rw n at e) (add_zero_le (count_where p xs) 1 (rw n at c)),
    )
  ]

  -- A write that no row's test notices leaves the number.
  pub count_where-kept :
      (p q : A → Bool) (f : A → A) (xs : List A)
      → ((a : A) → p (f a) ≡ p a)
      → count_where p (update_where q f xs) ≡ count_where p xs
  count_where-kept p q f [] k = refl
  count_where-kept p q f (x ∷ xs) k =
      let rest = count_where-kept p q f xs k in
      elim (Bool-cases (q x)) [
        | inl t ↦ rw (t, k x) (omega (arith, rest))
        | inr n ↦ rw n (omega (arith, rest))
      ]

  -- After a write that fails the test wherever it is made, and is made wherever the test holds.
  pub count_where-cleared :
      (p q : A → Bool) (f : A → A) (xs : List A)
      → ((a : A) → p (if q a then f a else a) ≡ false)
      → count_where p (update_where q f xs) ≡ 0
  count_where-cleared p q f [] k = refl
  count_where-cleared p q f (x ∷ xs) k =
      let rest = count_where-cleared p q f xs k in rw (k x) (omega (arith, rest))

  pub count_where-found :
      (p q : A → Bool) (xs : List A) (a : A)
      → find_first p xs ≡ some a
      → q a ≡ true
      → 1 ≤ count_where q xs
  count_where-found p q [] a e t = cc
  count_where-found p q (x ∷ xs) a e t = elim (Bool-cases (p x)) [
    | inl y ↦ rw (some-injective x a (rw y at e), t) (omega arith)
    | inr n ↦ (let rest = count_where-found p q xs a (rw n at e) t in omega (arith, rest))
  ]

  pub count_where-same :
      (p q : A → Bool) (xs : List A) → ((a : A) → p a ≡ q a) → count_where p xs ≡ count_where q xs
  count_where-same p q [] k = refl
  count_where-same p q (x ∷ xs) k =
      let rest = count_where-same p q xs k in rw (k x) (omega (arith, rest))

  -- A row that one search finds is found by every test that it alone passes.
  pub find_first-again :
      (p q : A → Bool) (xs : List A) (a : A)
      → find_first p xs ≡ some a
      → q a ≡ true
      → count_where q xs ≤ 1
      → find_first q xs ≡ some a
  find_first-again p q [] a e t c = cc
  find_first-again p q (x ∷ xs) a e t c = elim (Bool-cases (p x)) [
    | inl y ↦ (let own = some-injective x a (rw y at e) in rw (own, t) refl)
    | inr n ↦
        (let later = count_where-found p q xs a (rw n at e) t in
          elim (Bool-cases (q x)) [
            | inl y ↦ elim (one_le_zero 0 (let c' = rw y at c in omega (arith, c', later))) [ ]
            | inr m ↦ rw m (
                find_first-again p q xs a (rw n at e) t
                  (add_zero_le (count_where q xs) 1 (rw m at c)))
          ])
  ]

  -- The row that a search finds, after a write to it that the test does not notice.
  pub find_first-update_where :
      (p q : A → Bool) (f : A → A) (xs : List A) (a : A)
      → ((x : A) → p (f x) ≡ p x)
      → find_first p xs ≡ some a
      → q a ≡ true
      → find_first p (update_where q f xs) ≡ some (f a)
  find_first-update_where p q f [] a k e t = cc
  find_first-update_where p q f (x ∷ xs) a k e t = elim (Bool-cases (p x)) [
    | inl y ↦
        (let own = some-injective x a (rw y at e) in
          rw (own, t, k a, subst (λ b. p b ≡ true) own y) refl)
    | inr n ↦ elim (Bool-cases (q x)) [
      | inl y ↦ rw (y, k x, n) (find_first-update_where p q f xs a k (rw n at e) t)
      | inr m ↦ rw (m, n) (find_first-update_where p q f xs a k (rw n at e) t)
    ]
  ]

  pub find_first-absent :
      (p q : A → Bool) (f : A → A) (xs : List A)
      → All (λ x. p (if q x then f x else x) ≡ false) xs
      → find_first p (update_where q f xs) ≡ none
  find_first-absent p q f [] _ = refl
  find_first-absent p q f (x ∷ xs) (h, hs) = rw h (find_first-absent p q f xs hs)

  -- The row that a search finds, after a write that passes it by.
  pub find_first-untouched :
      (p q : A → Bool) (f : A → A) (xs : List A) (a : A)
      → ((x : A) → p (f x) ≡ p x)
      → find_first p xs ≡ some a
      → q a ≡ false
      → find_first p (update_where q f xs) ≡ some a
  find_first-untouched p q f [] a k e t = cc
  find_first-untouched p q f (x ∷ xs) a k e t = elim (Bool-cases (p x)) [
    | inl y ↦
        (let own = some-injective x a (rw y at e) in
          rw (own, t, subst (λ b. p b ≡ true) own y) refl)
    | inr n ↦ elim (Bool-cases (q x)) [
      | inl y ↦ rw (y, k x, n) (find_first-untouched p q f xs a k (rw n at e) t)
      | inr m ↦ rw (m, n) (find_first-untouched p q f xs a k (rw n at e) t)
    ]
  ]

  -- Fewer rows pass a test that asks for more.
  pub count_where-fewer :
      (p q : A → Bool) (xs : List A)
      → ((a : A) → p a ≡ true → q a ≡ true)
      → count_where p xs ≤ count_where q xs
  count_where-fewer p q [] k = omega arith
  count_where-fewer p q (x ∷ xs) k =
      let rest = count_where-fewer p q xs k in
      elim (Bool-cases (p x)) [
        | inl t ↦ rw (t, k x t) (omega (arith, rest))
        | inr n ↦ rw n (omega (arith, rest))
      ]
