-- ===== src/Pricing/Voucher/Bounds.antt =====
-- The bounds of a voucher's discount: `calculateDiscountAmount` of
-- src/modules/pricing/pricing.service.ts.
use fox_passport_republic_ap.Prelude.{Option, none, some, arith, All}
use fox_passport_republic_ap.Prelude.Number.{Number, IsRounded, ◌≼◌, nought, le_refl_n}
use fox_passport_republic_ap.Pricing.Data.{Promotion, Shop, Rule, DiscountType, percentage, fixed}
use fox_passport_republic_ap.Pricing.Voucher.{capped, raw_discount, calculate_discount_amount}

module _ {N : Type 0} ⦃n : Number N⦄ where
  -- An amount that is not negative, where there is one.
  abbrev pub IsNonneg : Option N → Type 0
  IsNonneg none = Unit
  IsNonneg (some a) = nought ≼ a

  pub record IsSoundPromotion (promo : Promotion N) : Type 0 where
    pub value_nonneg : nought ≼ promo.discount_value
    pub cap_nonneg : IsNonneg promo.max_discount

  pub record IsSoundRule (rule : Rule N) : Type 0 where
    pub percentage_nonneg : IsNonneg rule.percentage
    pub fixed_nonneg : IsNonneg rule.fixed_amount

  -- The tables hold no negative amount.
  pub record IsSound (shop : Shop N) : Type 0 where
    pub vouchers_sound : All (λ v. IsSoundPromotion v.promotion) shop.vouchers
    pub rules_sound : All IsSoundRule shop.rules

  -- The cap of a promotion, where it has one.
  abbrev pub IsWithin : Option N → N → Type 0
  IsWithin none a = Unit
  IsWithin (some cap) a = a ≼ cap

  module _ (laws : IsRounded N) where
    capped_bounds :
        (cap : Option N) (a : N)
        → IsNonneg cap
        → nought ≼ a
        → (nought ≼ capped cap a) × (capped cap a ≼ a) × IsWithin cap (capped cap a)
    unfolding capped
    capped_bounds none a c h = (h, le_refl_n laws a, tt)
    capped_bounds (some cap) a c h =
        ground (arith, laws.le_total cap a, le_refl_n laws a, le_refl_n laws cap)

    raw_discount_nonneg :
        (type : DiscountType) (value subtotal : N)
        → nought ≼ value
        → nought ≼ subtotal
        → nought ≼ raw_discount type value subtotal
    unfolding raw_discount
    raw_discount_nonneg percentage value subtotal v s =
        laws.div_nonneg _ _ (laws.mul_nonneg _ _ s v) (laws.literal_nonneg 100 0)
    raw_discount_nonneg fixed value subtotal v s = v

    -- A discount is not negative, and exceeds neither the subtotal nor the promotion's cap.
    pub calculate_discount_amount_bounds :
        (promo : Promotion N) (subtotal : N)
        → IsSoundPromotion promo
        → nought ≼ subtotal
        → let d = calculate_discount_amount promo subtotal in
          (nought ≼ d) × (d ≼ subtotal) × IsWithin promo.max_discount d
    unfolding calculate_discount_amount
    calculate_discount_amount_bounds promo subtotal h s =
        let raw = raw_discount promo.discount_type promo.discount_value subtotal in
        let r =
          raw_discount_nonneg promo.discount_type promo.discount_value subtotal h.value_nonneg s in
        let (a, b, c) = capped_bounds promo.max_discount raw h.cap_nonneg r in
        let (d, e, f) = capped_bounds (some subtotal) (capped promo.max_discount raw) s a in
        (d, f, IsWithin-trans promo.max_discount _ _ e c)
      where
        IsWithin-trans : (cap : Option N) (a b : N) → a ≼ b → IsWithin cap b → IsWithin cap a
        IsWithin-trans none a b p q = tt
        IsWithin-trans (some cap) a b p q = laws.le_trans a b cap p q
