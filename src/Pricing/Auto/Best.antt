-- ===== src/Pricing/Auto/Best.antt =====
-- Which automatic promotion applies: `findAutoApplyDiscount` of
-- src/modules/pricing/pricing.service.ts.
use fox_passport_republic_ap.Prelude.{
  Bool, true, false, ◌&&◌, ◌≡◌, refl, Option, none, some, List, [], ◌∷◌, Time, select,
  if◌then◌else◌, arith, All, All-map,
}
use fox_passport_republic_ap.Prelude.Number.{
  Number, IsRounded, ◌≼◌, lt_n, lt_n_trans, lt_n_weak, lt_n_asym, le_of_not_lt_n,
}
use fox_passport_republic_ap.Prelude.Best.{
  First, IsFirstBest, beats, pick, pick-IsFirstBest, First-All,
}
use fox_passport_republic_ap.Pricing.Data.{Voucher, Shop, Context}
use fox_passport_republic_ap.Pricing.Voucher.{qualifies, calculate_discount_amount}
use fox_passport_republic_ap.Pricing.Auto.{
  is_candidate, consider, best_of, find_auto_apply_discount,
}

module _ {N : Type 0} ⦃n : Number N⦄ (shop : Shop N) (now : Time) (subtotal : N)
    (context : Context) where
  abbrev amount : Voucher N → N
  amount voucher = calculate_discount_amount voucher.promotion subtotal

  abbrev smaller : Voucher N → Voucher N → Bool
  smaller v w = lt_n (amount v) (amount w)

  abbrev with_amount : Option (Voucher N) → Option (Voucher N × N)
  with_amount none = none
  with_amount (some v) = some (v, amount v)

  abbrev next : Option (Voucher N) → Voucher N → Option (Voucher N)
  next b v =
      if qualifies shop now subtotal context v
        && beats (qualifies shop now subtotal context) smaller b v
      then some v
      else b

  consider-with_amount :
      (b : Option (Voucher N)) (v : Voucher N)
      → consider shop now subtotal context (with_amount b) v ≡ with_amount (next b v)
  unfolding consider
  consider-with_amount none v = ground arith
  consider-with_amount (some b) v = ground arith

  best_of-eq-pick :
      (b : Option (Voucher N)) (vouchers : List (Voucher N))
      → best_of shop now subtotal context (with_amount b) vouchers
        ≡ with_amount (pick (qualifies shop now subtotal context) smaller b vouchers)
  unfolding best_of pick
  best_of-eq-pick b [] = refl
  best_of-eq-pick b (v ∷ vouchers) =
      rw (consider-with_amount b v) (best_of-eq-pick (next b v) vouchers)

  -- What the search returns for a list of candidates.
  abbrev pub IsBestDiscount : List (Voucher N) → Option (Voucher N × N) → Type 0
  IsBestDiscount vouchers none = All (λ v. qualifies shop now subtotal context v ≡ false) vouchers
  IsBestDiscount vouchers (some (b, amount)) =
      (amount ≡ calculate_discount_amount b.promotion subtotal)
      × First (qualifies shop now subtotal context) smaller b vouchers
      × All
          (λ v.
            qualifies shop now subtotal context v ≡ true
            → calculate_discount_amount v.promotion subtotal ≼ amount)
          vouchers

  module _ (laws : IsRounded N) where
    IsFirstBest-IsBestDiscount :
        (vouchers : List (Voucher N)) (o : Option (Voucher N))
        → IsFirstBest (qualifies shop now subtotal context) smaller vouchers o
        → IsBestDiscount vouchers (with_amount o)
    IsFirstBest-IsBestDiscount vouchers none h = h
    IsFirstBest-IsBestDiscount vouchers (some b) h = (
      refl,
      h,
      All-map vouchers (λ v f q. le_of_not_lt_n laws (amount b) (amount v) (f q))
          (First-All (qualifies shop now subtotal context) smaller b
            (λ x y. lt_n_asym laws (amount x) (amount y)) h),
    )

    -- The automatic discount is the amount of the first of the best candidates that qualify, so no candidate
    -- that qualifies would take off more; there is none only if no candidate qualifies.
    pub find_auto_apply_discount-IsBestDiscount :
        (scoped_only : Bool)
        → IsBestDiscount
            (select (is_candidate scoped_only) shop.vouchers)
            (find_auto_apply_discount shop now subtotal context scoped_only)
    unfolding find_auto_apply_discount
    find_auto_apply_discount-IsBestDiscount scoped_only =
        let vouchers = select (is_candidate scoped_only) shop.vouchers in
        rw (best_of-eq-pick none vouchers) (
          IsFirstBest-IsBestDiscount vouchers _ (
            pick-IsFirstBest (qualifies shop now subtotal context) smaller
              (λ a b c. lt_n_trans laws (amount a) (amount b) (amount c))
              (λ a b c. lt_n_weak laws (amount a) (amount b) (amount c)) vouchers))
