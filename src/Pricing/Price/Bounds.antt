-- ===== src/Pricing/Price/Bounds.antt =====
-- The bounds of prices: `calculatePrice` of src/modules/pricing/pricing.service.ts.
use fox_passport_republic_ap.Prelude.{
  Bool, true, false, ◌≡◌, refl, inl, inr, Option, none, some, Time, Text, select, find_first-All,
  if◌then◌else◌, Bool-cases, ok, ◌==◌, ◌&&◌, truthy, or_else, subst, >>=-eq-ok, >>-eq-ok,
  or_throw-eq-ok, ok-injective, All-select, All-Any,
}
use fox_passport_republic_ap.Prelude.Best.{First-Any}
use fox_passport_republic_ap.Prelude.Number.{Number, IsRounded, ◌≼◌, ◌+ₙ◌, ◌-ₙ◌, nought, le_refl_n}
use fox_passport_republic_ap.Pricing.Data.{Voucher, Shop, Context, Rule, Breakdown}
use fox_passport_republic_ap.Pricing.Voucher.{validate_and_calculate_voucher}
use fox_passport_republic_ap.Pricing.Auto.{is_candidate, find_auto_apply_discount}
use fox_passport_republic_ap.Pricing.Auto.Best.{
  IsBestDiscount, find_auto_apply_discount-IsBestDiscount,
}
use fox_passport_republic_ap.Pricing.Price.{
  is_effective, applied_voucher, discount_amount, platform_fee, fee_of_rule, calculate_price,
}
use fox_passport_republic_ap.Pricing.Price.Rules.{IsChosen, resolve_pricing_rule-IsChosen}
use fox_passport_republic_ap.Pricing.Voucher.Bounds.{
  IsNonneg, IsSoundPromotion, IsSoundRule, IsSound, calculate_discount_amount_bounds,
}

-- What a price breakdown satisfies.
pub record IsPriced {N : Type 0} ⦃n : Number N⦄ (context : Context) (b : Breakdown N) : Type 0 where
  pub discounted_nonneg : nought ≼ b.discounted_subtotal
  pub discounted_le : b.discounted_subtotal ≼ b.subtotal
  pub fee_nonneg : nought ≼ b.platform_fee.amount
  pub final_sum : b.final_amount ≡ b.discounted_subtotal +ₙ b.platform_fee.amount
  pub final_ge : b.discounted_subtotal ≼ b.final_amount
  pub perk_free : context.has_lower_fees ≡ true → b.platform_fee.amount ≡ nought

module _ {N : Type 0} ⦃n : Number N⦄ (laws : IsRounded N) where
  module _ (shop : Shop N) (now : Time) (subtotal : N) (context : Context) (sound : IsSound shop)
      (s : nought ≼ subtotal) where
    validate-IsBounded :
        (code : Text) {v : Voucher N} {amount : N}
        → validate_and_calculate_voucher shop now code subtotal context ≡ ok (v, amount)
        → (nought ≼ amount) × (amount ≼ subtotal)
    unfolding validate_and_calculate_voucher
    validate-IsBounded code e =
        let (v, f, rest) = >>=-eq-ok _ _ e in
        let done = ok-injective (>>-eq-ok _ _ (>>-eq-ok _ _ rest).1).1 in
        let (a, b, _) =
          calculate_discount_amount_bounds laws v.promotion subtotal
            (find_first-All (λ w. IsSoundPromotion w.promotion) (λ w. w.code == code) shop.vouchers
              v sound.vouchers_sound (or_throw-eq-ok _ _ f))
            s in
        subst (λ p. (nought ≼ p.1) × (p.1 ≼ subtotal)) done (a, b)

    pub auto-IsBounded :
        (scoped_only : Bool) (o : Option (Voucher N × N))
        → IsBestDiscount shop now subtotal context
            (select (is_candidate scoped_only) shop.vouchers)
            o
        → (nought ≼ discount_amount o) × (discount_amount o ≼ subtotal)
    unfolding discount_amount
    auto-IsBounded scoped_only none h = (le_refl_n laws nought, s)
    auto-IsBounded scoped_only (some (v, amount)) (e, f, _) =
        let member = First-Any _ _ v f in
        let (a, b, _) =
          calculate_discount_amount_bounds laws v.promotion subtotal
            (All-Any (λ w. IsSoundPromotion w.promotion) _ v
              (All-select (λ w. IsSoundPromotion w.promotion) (is_candidate scoped_only)
                shop.vouchers sound.vouchers_sound)
              member)
            s in
        rw e (a, b)

    applied-IsBounded :
        (o : Option (Voucher N × N))
        → applied_voucher shop now subtotal context ≡ ok o
        → (nought ≼ discount_amount o) × (discount_amount o ≼ subtotal)
    unfolding applied_voucher discount_amount
    applied-IsBounded o e =
        elim (Bool-cases (truthy context.voucher_code && truthy context.user_id)) [
          | inl typed ↦
              let ((v, amount), f, g) = >>=-eq-ok _ _ (rw typed at e) in
              subst IsBounded (ok-injective g)
                (validate-IsBounded (or_else context.voucher_code 0) f)
          | inr automatic ↦ subst IsBounded (ok-injective (rw automatic at e)) chosen
        ]
      where
        IsBounded : Option (Voucher N × N) → Type 0
        IsBounded o = (nought ≼ discount_amount o) × (discount_amount o ≼ subtotal)

        chosen : IsBounded (
            if truthy context.user_id
            then find_auto_apply_discount shop now subtotal context false
            else none)
        chosen = elim (Bool-cases (truthy context.user_id)) [
          | inl known ↦ rw known (
              auto-IsBounded false _
                (find_auto_apply_discount-IsBestDiscount shop now subtotal context laws false))
          | inr anonymous ↦ rw anonymous (le_refl_n laws nought, s)
        ]

    or_else_nonneg : (o : Option N) → IsNonneg o → nought ≼ or_else o nought
    or_else_nonneg none h = le_refl_n laws nought
    or_else_nonneg (some a) h = h

    fee_of_rule_nonneg :
        (percent discounted : N) (o : Option (Rule N))
        → nought ≼ percent
        → nought ≼ discounted
        → IsChosen context (select (is_effective now) shop.rules) o
        → nought ≼ (fee_of_rule percent discounted o).amount
    unfolding fee_of_rule
    fee_of_rule_nonneg percent discounted none p d c =
        laws.div_nonneg _ _ (laws.mul_nonneg _ _ d p) (laws.literal_nonneg 100 0)
    fee_of_rule_nonneg percent discounted (some rule) p d (_, _, member, _) =
        let r =
          All-Any IsSoundRule _ rule
            (All-select IsSoundRule (is_effective now) shop.rules sound.rules_sound) member in
        laws.le_trans _ _ _
          (laws.div_nonneg _ _
            (laws.mul_nonneg _ _ d (or_else_nonneg rule.percentage r.percentage_nonneg))
            (laws.literal_nonneg 100 0))
          (laws.add-nonneg_le _ _ (or_else_nonneg rule.fixed_amount r.fixed_nonneg))

    platform_fee_nonneg :
        (percent discounted : N)
        → nought ≼ percent
        → nought ≼ discounted
        → nought ≼ (platform_fee percent shop now discounted context).amount
    unfolding platform_fee
    platform_fee_nonneg percent discounted p d = elim (Bool-cases context.has_lower_fees) [
      | inl perk ↦ simp perk (le_refl_n laws nought)
      | inr standard ↦ simp standard (
          fee_of_rule_nonneg percent discounted _ p d
            (resolve_pricing_rule-IsChosen shop now context))
    ]

    fee_of_perk :
        (percent discounted : N)
        → context.has_lower_fees ≡ true
        → (platform_fee percent shop now discounted context).amount ≡ nought
    unfolding platform_fee
    fee_of_perk percent discounted perk = simp perk

    -- A price that is calculated: the subtotal less the discount is not negative and at most the
    -- subtotal, the fee is not negative, the final amount is their sum and no less than the
    -- discounted subtotal, and with the passport perk the fee is zero. The subtotal, the fee
    -- percentage and the amounts of the vouchers and rules must not be negative.
    pub calculate_price_bounds :
        (percent : N) (b : Breakdown N)
        → nought ≼ percent
        → calculate_price percent shop now subtotal context ≡ ok b
        → IsPriced context b
    unfolding calculate_price
    calculate_price_bounds percent b p e =
        let (o, f, g) = >>=-eq-ok _ _ e in
        let (low, high) = applied-IsBounded o f in
        let discounted = subtotal -ₙ discount_amount o in
        let d = laws.sub_nonneg subtotal (discount_amount o) high in
        let fee = platform_fee_nonneg percent discounted p d in
        subst (IsPriced context) (ok-injective g) (record {
          discounted_nonneg = d;
          discounted_le = laws.sub-nonneg_le subtotal (discount_amount o) low;
          fee_nonneg = fee;
          final_sum = refl;
          final_ge = laws.add-nonneg_le discounted _ fee;
          perk_free = fee_of_perk percent discounted;
        })
