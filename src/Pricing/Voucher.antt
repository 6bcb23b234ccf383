-- ===== src/Pricing/Voucher.antt =====
-- The checks and the amount of one voucher: `evaluateVoucherEligibility`, `checkVoucherLimits`,
-- `calculateDiscountAmount` and `validateAndCalculateVoucher` of
-- src/modules/pricing/pricing.service.ts.
pub mod Bounds
use fox_passport_republic_ap.Prelude.{
  ℕ, ◌≡◌, ◌==◌, Bool, true, false, not, ◌&&◌, ◌||◌, Option, none, some, List, Text, Time, leb, ltb,
  truthy, same, excludes, is_some, if◌then◌else◌, find_first, count_where, Result, ok, err, ◌>>=◌,
  ◌>>◌, throw_if, or_throw, is_ok,
}
use fox_passport_republic_ap.Prelude.Number.{Number, ◌*ₙ◌, ◌/ₙ◌, lt_n, integer}
use fox_passport_republic_ap.Pricing.Data.{
  DiscountType, percentage, fixed, Promotion, Voucher, Redemption, Shop, Context, Refusal,
  invalid_code, other_user, not_yet_active, expired, below_minimum, wrong_type, wrong_category,
  wrong_listing, usage_limit_reached, user_limit_reached,
}

-- `promo.startDate && promo.startDate > now`
starts_later : Time → Option Time → Bool
starts_later now none = false
starts_later now (some start) = ltb now start

-- `promo.endDate && promo.endDate < now`
has_ended : Time → Option Time → Bool
has_ended now none = false
has_ended now (some end) = ltb end now

-- `limit !== null && used >= limit`
is_used_up : Option ℕ → ℕ → Bool
is_used_up none used = false
is_used_up (some limit) used = leb limit used

-- `voucherRedemption.count`, over a promotion and over one user of it
abbrev pub global_usage : List Redemption → Text → ℕ
global_usage redemptions promotion_id =
    count_where (λ r. r.promotion_id == promotion_id) redemptions

abbrev pub user_usage : List Redemption → Text → Option Text → ℕ
user_usage redemptions promotion_id user_id =
    count_where (λ r. r.promotion_id == promotion_id && same (some r.user_id) user_id) redemptions

unfoldable pub check_voucher_limits :
    List Redemption → Text → Option ℕ → Option ℕ → Option Text → Result Refusal (Unit {0})
unfolding is_used_up
check_voucher_limits redemptions promotion_id usage_limit per_user_limit user_id = do
  throw_if (is_used_up usage_limit (global_usage redemptions promotion_id)) usage_limit_reached
  throw_if
      (truthy user_id && is_used_up per_user_limit (user_usage redemptions promotion_id user_id))
      user_limit_reached

module _ {N : Type 0} ⦃n : Number N⦄ where
  -- `promo.minSubtotal && subtotal < promo.minSubtotal`
  is_below : Option N → N → Bool
  is_below none subtotal = false
  is_below (some minimum) subtotal = lt_n subtotal minimum

  unfoldable pub evaluate_voucher_eligibility :
      Time → Voucher N → N → Context → Result Refusal (Unit {0})
  unfolding starts_later has_ended is_below
  evaluate_voucher_eligibility now voucher subtotal context = do
    let promo = voucher.promotion
    throw_if (not voucher.active || not promo.active) invalid_code
    throw_if (excludes voucher.owner_user_id context.user_id) other_user
    throw_if (starts_later now promo.start_date) not_yet_active
    throw_if (has_ended now promo.end_date) expired
    throw_if (is_below promo.min_subtotal subtotal) below_minimum
    throw_if (excludes promo.transaction_type (some context.transaction_type)) wrong_type
    throw_if (excludes promo.category context.category) wrong_category
    throw_if (excludes promo.asset_id context.asset_id) wrong_listing
    throw_if (excludes promo.service_id context.service_id) wrong_listing
    throw_if (excludes promo.venue_id context.venue_id) wrong_listing

  -- `if (cap && amount > cap) amount = cap`
  capped : Option N → N → N
  capped none amount = amount
  capped (some cap) amount = if lt_n cap amount then cap else amount

  -- The discount before its caps.
  raw_discount : DiscountType → N → N → N
  raw_discount percentage value subtotal = (subtotal *ₙ value) /ₙ integer 100
  raw_discount fixed value subtotal = value

  unfoldable pub calculate_discount_amount : Promotion N → N → N
  unfolding capped raw_discount
  calculate_discount_amount promo subtotal =
      capped (some subtotal)
        (capped promo.max_discount (raw_discount promo.discount_type promo.discount_value subtotal))

  unfoldable pub validate_and_calculate_voucher :
      Shop N → Time → Text → N → Context → Result Refusal (Voucher N × N)
  unfolding evaluate_voucher_eligibility check_voucher_limits calculate_discount_amount
  validate_and_calculate_voucher shop now code subtotal context = do
    voucher ← or_throw (find_first (λ v. v.code == code) shop.vouchers) invalid_code
    evaluate_voucher_eligibility now voucher subtotal context
    let promo = voucher.promotion
    check_voucher_limits shop.redemptions promo.id promo.usage_limit promo.per_user_limit
        context.user_id
    ok (voucher, calculate_discount_amount promo subtotal)

  -- Eligible and within its limits: what `continue` in the search for the best one tests.
  unfoldable pub qualifies : Shop N → Time → N → Context → Voucher N → Bool
  unfolding evaluate_voucher_eligibility check_voucher_limits
  qualifies shop now subtotal context voucher =
      let promo = voucher.promotion in
      is_ok (evaluate_voucher_eligibility now voucher subtotal context)
      && is_ok (
          check_voucher_limits shop.redemptions promo.id promo.usage_limit promo.per_user_limit
            context.user_id)
