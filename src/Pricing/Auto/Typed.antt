-- ===== src/Pricing/Auto/Typed.antt =====
-- The automatic discount and the discounts that typed codes are given: `findAutoApplyDiscount` and
-- `validateAndCalculateVoucher` of src/modules/pricing/pricing.service.ts.
use fox_passport_republic_ap.Prelude.{
  ◌==◌, Time, All, select, find_first, All-select, All-both, select-All, All-selected, All-Any,
  Result, err, ok, ◌>>◌, is_ok, ok-injective, ◌≡◌, refl, ap, subst, Bool, true, ◌&&◌, Option, none,
  some,
}
use fox_passport_republic_ap.Prelude.Number.{Number, IsRounded, ◌≼◌}
use fox_passport_republic_ap.Prelude.Best.{First-test, First-Any}
use fox_passport_republic_ap.Pricing.Data.{Voucher, Shop, Context}
use fox_passport_republic_ap.Pricing.Voucher.{
  qualifies, calculate_discount_amount, validate_and_calculate_voucher,
}
use fox_passport_republic_ap.Pricing.Auto.{is_candidate, find_auto_apply_discount}
use fox_passport_republic_ap.Pricing.Auto.Best.{
  IsBestDiscount, find_auto_apply_discount-IsBestDiscount,
}

both_ok :
    {E A : Type 0} {x : A} (r s : Result E (Unit {0}))
    → (is_ok r && is_ok s) ≡ true
    → (r >> (s >> ok x)) ≡ ok x
both_ok (ok _) (ok _) _ = refl
both_ok (ok _) (err _) e = cc
both_ok (err _) s e = cc

ok_both :
    {E A : Type 0} (x y : A) (r s : Result E (Unit {0}))
    → (r >> (s >> ok x)) ≡ ok y
    → ((is_ok r && is_ok s) ≡ true) × (x ≡ y)
ok_both x y (ok _) (ok _) e = (refl, ok-injective e)
ok_both x y (ok _) (err _) e = cc
ok_both x y (err _) s e = cc

module _ {N : Type 0} where
  -- The code of a voucher is its own.
  abbrev pub HasOwnCode : Shop N → Voucher N → Type 0
  HasOwnCode shop voucher = find_first (λ v. v.code == voucher.code) shop.vouchers ≡ some voucher

module _ {N : Type 0} ⦃n : Number N⦄ (shop : Shop N) (now : Time) (subtotal : N)
    (context : Context) where
  qualifies-validate :
      (v : Voucher N)
      → HasOwnCode shop v
      → qualifies shop now subtotal context v ≡ true
      → validate_and_calculate_voucher shop now v.code subtotal context
        ≡ ok (v, calculate_discount_amount v.promotion subtotal)
  unfolding qualifies validate_and_calculate_voucher
  qualifies-validate v own q = rw own (both_ok _ _ q)

  validate-qualifies :
      (v w : Voucher N) (a : N)
      → HasOwnCode shop v
      → validate_and_calculate_voucher shop now v.code subtotal context ≡ ok (w, a)
      → (qualifies shop now subtotal context v ≡ true)
        × (calculate_discount_amount v.promotion subtotal ≡ a)
  unfolding qualifies validate_and_calculate_voucher
  validate-qualifies v w a own e =
      let (q, same_pair) = ok_both _ _ _ _ (rw own at e) in (q, ap (λ p. p.1) same_pair)

  -- What typing the code of a candidate gives, against what was found for the customer.
  abbrev pub IsBestTyped : Bool → Option (Voucher N × N) → Type 0
  IsBestTyped scoped_only none =
      All
        (λ v.
          is_candidate scoped_only v ≡ true
          → (w : Voucher N) (a : N)
          → ¬ (validate_and_calculate_voucher shop now v.code subtotal context ≡ ok (w, a)))
        shop.vouchers
  IsBestTyped scoped_only (some (b, amount)) =
      (is_candidate scoped_only b ≡ true)
      × (validate_and_calculate_voucher shop now b.code subtotal context ≡ ok (b, amount))
      × All
          (λ v.
            is_candidate scoped_only v ≡ true
            → (w : Voucher N) (a : N)
            → validate_and_calculate_voucher shop now v.code subtotal context ≡ ok (w, a)
            → a ≼ amount)
          shop.vouchers

  best-IsBestTyped :
      (scoped_only : Bool) (found : Option (Voucher N × N))
      → All (HasOwnCode shop) shop.vouchers
      → IsBestDiscount shop now subtotal context
          (select (is_candidate scoped_only) shop.vouchers)
          found
      → IsBestTyped scoped_only found
  best-IsBestTyped scoped_only none own h =
      All-both shop.vouchers (λ v o f t w a e. cc (f t, (validate-qualifies v w a o e).0)) own
        (select-All _ (is_candidate scoped_only) shop.vouchers h)
  best-IsBestTyped scoped_only (some (b, amount)) own (e, first, h) =
      let candidates = select (is_candidate scoped_only) shop.vouchers in
      let found = First-Any (qualifies shop now subtotal context) _ b first in
      let own_code =
        All-Any (HasOwnCode shop) candidates b
          (All-select (HasOwnCode shop) (is_candidate scoped_only) shop.vouchers own) found in
      (
        All-Any (λ v. is_candidate scoped_only v ≡ true) candidates b
            (All-selected (is_candidate scoped_only) shop.vouchers) found,
        rw e (
            qualifies-validate b own_code
              (First-test (qualifies shop now subtotal context) _ b first)),
        All-both shop.vouchers
            (λ v o f t w a accepted.
              let (q, same_amount) = validate-qualifies v w a o accepted in
              subst (λ x. x ≼ amount) same_amount (f t q))
            own (select-All _ (is_candidate scoped_only) shop.vouchers h),
      )

  -- Where every voucher's code is its own, and under the laws of rounded arithmetic: the code of
  -- the automatic discount, which is that of a candidate, is accepted when it is typed, for the same
  -- amount, and the code of no candidate is accepted for a greater amount. If there is no automatic
  -- discount, the code of no candidate is accepted.
  pub find_auto_apply_discount-typed :
      (scoped_only : Bool)
      → IsRounded N
      → All (HasOwnCode shop) shop.vouchers
      → IsBestTyped scoped_only (find_auto_apply_discount shop now subtotal context scoped_only)
  find_auto_apply_discount-typed scoped_only laws own =
      best-IsBestTyped scoped_only _ own
        (find_auto_apply_discount-IsBestDiscount shop now subtotal context laws scoped_only)
