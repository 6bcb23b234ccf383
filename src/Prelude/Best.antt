-- ===== src/Prelude/Best.antt =====
-- The first of the best elements of a list, and the loop that keeps the best one so far and
-- replaces it only by a better one.
use mathlib.Core.Path.{◌≡◌, refl}
use mathlib.Core.Logic.{◌⊎◌, inl, inr}
use mathlib.Core.Bool.{Bool, true, false, ◌&&◌}
use mathlib.Core.Option.{Option, none, some}
use mathlib.Core.List.{List, [], ◌∷◌}
use native.Mathlib.Omega.{arith}
use fox_passport_republic_ap.Prelude.Tests.{if◌then◌else◌, Bool-cases}
use fox_passport_republic_ap.Prelude.Lists.{All, Any}

-- Of the elements that pass `test`, `b` is above all before it and not below any behind it.
module _ {A : Type 0} (test : A → Bool) (lt : A → A → Bool) (b : A) where
  pub data First : List A → Type 0 where
    here :
        {xs : List A}
        → test b ≡ true
        → All (λ x. test x ≡ true → lt b x ≡ false) xs
        → First (b ∷ xs)
    there : {x : A} {xs : List A} → (test x ≡ true → lt x b ≡ true) → First xs → First (x ∷ xs)

module _ {A : Type 0} (test : A → Bool) (lt : A → A → Bool) (b : A) where
  pub First-test : {xs : List A} → First test lt b xs → test b ≡ true
  First-test (here t h) = t
  First-test (there h f) = First-test f

  pub First-Any : {xs : List A} → First test lt b xs → Any (λ x. x ≡ b) xs
  First-Any (here t h) = inl refl
  First-Any (there h f) = inr (First-Any f)

  -- Under an asymmetric order nothing in the list is above the first best element.
  pub First-All :
      ((x y : A) → lt x y ≡ true → lt y x ≡ false)
      → {xs : List A} → First test lt b xs
      → All (λ x. test x ≡ true → lt b x ≡ false) xs
  First-All asym (here t h) = (λ _. irrefl (Bool-cases (lt b b)), h)
    where
      irrefl : (lt b b ≡ true) ⊎ (lt b b ≡ false) → lt b b ≡ false
      irrefl (inl l) = asym b b l
      irrefl (inr l) = l
  First-All asym (there {x = x} h f) = (λ t. asym x b (h t), First-All asym f)

module _ {A : Type 0} (test : A → Bool) (lt : A → A → Bool) where
  -- `o` is the first best element, or no element passes the test.
  abbrev pub IsFirstBest : List A → Option A → Type 0
  IsFirstBest xs none = All (λ x. test x ≡ false) xs
  IsFirstBest xs (some b) = First test lt b xs

  abbrev pub beats : Option A → A → Bool
  beats none x = true
  beats (some b) x = lt b x

  unfoldable pub pick : Option A → List A → Option A
  pick best [] = best
  pick best (x ∷ xs) = pick (if test x && beats best x then some x else best) xs

  IsFirstBest-skip :
      (x : A) (xs : List A) (o : Option A)
      → test x ≡ false
      → IsFirstBest xs o
      → IsFirstBest (x ∷ xs) o
  IsFirstBest-skip x xs none f h = (f, h)
  IsFirstBest-skip x xs (some b) f h = there (λ t. cc) h

  module _ (trans : (a b c : A) → lt a b ≡ true → lt b c ≡ true → lt a c ≡ true)
      (weak : (a b c : A) → lt a b ≡ false → lt a c ≡ true → lt b c ≡ true) where
    -- An element is overtaken by a better one behind it.
    First-below :
        (a x r : A) {xs : List A}
        → test x ≡ true
        → lt a x ≡ true
        → First test lt r (x ∷ xs)
        → First test lt r (a ∷ x ∷ xs)
    First-below a x r tx l (here t h) = there (λ _. l) (here t h)
    First-below a x r tx l (there h f) = there (λ _. trans a x r l (h tx)) (there h f)

    -- An element that is no better than the one before it is passed over.
    First-skip :
        (a x r : A) {xs : List A}
        → test a ≡ true
        → (test x ≡ true → lt a x ≡ false)
        → First test lt r (a ∷ xs)
        → First test lt r (a ∷ x ∷ xs)
    First-skip a x r ta l (here t h) = here t (l, h)
    First-skip a x r ta l (there h f) = there h (there (λ tx. weak a x r (l tx) (h ta)) f)

    pick_kept :
        (b : A) (xs : List A)
        → test b ≡ true
        → (r : A) × (pick (some b) xs ≡ some r) × First test lt r (b ∷ xs)
    unfolding pick
    pick_kept b [] t = (b, refl, here t tt)
    pick_kept b (x ∷ xs) t = elim (Bool-cases (test x && lt b x)) [
      | inl wins ↦
          let tx : test x ≡ true = ground arith in
          let l : lt b x ≡ true = ground arith in
          let (r, e, f) = pick_kept x xs tx in rw wins (r, e, First-below b x r tx l f)
      | inr loses ↦
          let l : (test x ≡ true → lt b x ≡ false) = λ tx. ground arith in
          let (r, e, f) = pick_kept b xs t in rw loses (r, e, First-skip b x r t l f)
    ]

    -- The loop returns the first best element.
    pub pick-IsFirstBest : (xs : List A) → IsFirstBest xs (pick none xs)
    unfolding pick
    pick-IsFirstBest [] = tt
    pick-IsFirstBest (x ∷ xs) = elim (Bool-cases (test x)) [
      | inl t ↦ let (r, e, f) = pick_kept x xs t in rw (t, e) f
      | inr f ↦ rw f (IsFirstBest-skip x xs (pick none xs) f (pick-IsFirstBest xs))
    ]
