-- ===== src/Pricing/Price.antt =====
-- The platform fee and the price: `resolvePricingRule` and `calculatePrice` of
-- src/modules/pricing/pricing.service.ts.
pub mod Rules
pub mod Bounds
use fox_passport_republic_ap.Prelude.{
  ℕ, Bool, true, false, ◌&&◌, ◌||◌, not, Option, none, some, List, [], ◌∷◌, Text, Time, is_some,
  if◌then◌else◌, select, truthy, same, excludes, leb, ltb, or_else, Result, ok, err, ◌>>=◌,
}
use fox_passport_republic_ap.Prelude.Int.{ℤ, pos, negsuc, ◌+ℤ◌, ltb_ℤ}
use fox_passport_republic_ap.Prelude.Number.{Number, ◌+ₙ◌, ◌-ₙ◌, ◌*ₙ◌, ◌/ₙ◌, integer, nought}
use fox_passport_republic_ap.Pricing.Data.{
  Promotion, Voucher, Shop, Context, Rule, Refusal, Discount, Fee, FeeName, passport_perk,
  standard_fee, named_rule, Breakdown,
}
use fox_passport_republic_ap.Pricing.Voucher.{validate_and_calculate_voucher}
use fox_passport_republic_ap.Pricing.Auto.{find_auto_apply_discount}

-- `if (test) score += amount`
abbrev pub points : Bool → ℕ → ℤ
points test amount = pos (if test then amount else 0)

module _ {N : Type 0} where
  -- The `where` of the query.
  unfoldable pub is_effective : Time → Rule N → Bool
  is_effective now rule =
      rule.active
      && leb rule.effective_from now
      && elim rule.effective_until [ none ↦ true | some until ↦ ltb now until ]

  -- Whether a scope that the rule sets is another than the context's.
  unfoldable pub is_excluded : Context → Rule N → Bool
  is_excluded context rule =
      excludes rule.transaction_type (some context.transaction_type)
      || excludes rule.category context.category
      || excludes rule.subcategory context.subcategory

  unfoldable pub score : Context → Rule N → ℤ
  unfolding ◌+ℤ◌
  score context rule =
      points (same rule.transaction_type (some context.transaction_type)) 10
      +ℤ points (same rule.category context.category) 100
      +ℤ points (same rule.subcategory context.subcategory) 1000
      +ℤ rule.priority

  -- The loop, on `bestMatch` and `matchScore`.
  match_rules : Context → Option (Rule N) → ℤ → List (Rule N) → Option (Rule N)
  match_rules context best match_score [] = best
  match_rules context best match_score (rule ∷ rules) =
      let wins = not (is_excluded context rule) && ltb_ℤ match_score (score context rule) in
      match_rules context (if wins then some rule else best)
        (if wins then score context rule else match_score) rules

  unfoldable pub resolve_pricing_rule : Shop N → Time → Context → Option (Rule N)
  unfolding is_effective match_rules is_excluded score
  resolve_pricing_rule shop now context =
      match_rules context none (negsuc 0) (select (is_effective now) shop.rules)

module _ {N : Type 0} ⦃n : Number N⦄ where
  -- The voucher that applies: a typed code, else the best automatic one, else none.
  applied_voucher : Shop N → Time → N → Context → Result Refusal (Option (Voucher N × N))
  applied_voucher shop now subtotal context =
      if truthy context.voucher_code && truthy context.user_id
      then (do
        applied ←
            validate_and_calculate_voucher shop now (or_else context.voucher_code 0) subtotal
              context
        ok (some applied))
      else ok (
          if truthy context.user_id
          then find_auto_apply_discount shop now subtotal context false
          else none)

  -- The `discount` of the breakdown, and the amount taken off.
  discount_entry : Option (Voucher N × N) → Option (Discount N)
  discount_entry none = none
  discount_entry (some (voucher, amount)) = some (record {
    voucher_id = voucher.id;
    code = voucher.code;
    type = voucher.promotion.discount_type;
    value = voucher.promotion.discount_value;
    amount = amount;
  })

  unfoldable pub discount_amount : Option (Voucher N × N) → N
  discount_amount none = nought
  discount_amount (some (voucher, amount)) = amount

  -- `PLATFORM_FEE_PERCENT` is the environment's.
  fee_of_rule : N → N → Option (Rule N) → Fee N
  fee_of_rule platform_fee_percent discounted (some rule) =
      let percentage = or_else rule.percentage nought in
      let fixed_amount = or_else rule.fixed_amount nought in
      record {
        rule_id = some rule.id;
        name = named_rule rule.name;
        percentage = percentage;
        fixed_amount = fixed_amount;
        amount = (discounted *ₙ percentage) /ₙ integer 100 +ₙ fixed_amount;
      }
  fee_of_rule platform_fee_percent discounted none = record {
    rule_id = none;
    name = standard_fee;
    percentage = platform_fee_percent;
    fixed_amount = nought;
    amount = (discounted *ₙ platform_fee_percent) /ₙ integer 100;
  }

  platform_fee : N → Shop N → Time → N → Context → Fee N
  unfolding fee_of_rule
  platform_fee platform_fee_percent shop now discounted context =
      if context.has_lower_fees
      then record {
        rule_id = none;
        name = passport_perk;
        percentage = nought;
        fixed_amount = nought;
        amount = nought;
      }
      else fee_of_rule platform_fee_percent discounted (resolve_pricing_rule shop now context)

  unfoldable pub calculate_price : N → Shop N → Time → N → Context → Result Refusal (Breakdown N)
  unfolding applied_voucher discount_entry discount_amount platform_fee
  calculate_price platform_fee_percent shop now subtotal context = do
    applied ← applied_voucher shop now subtotal context
    let discounted = subtotal -ₙ discount_amount applied
    let fee = platform_fee platform_fee_percent shop now discounted context
    ok (record {
      subtotal = subtotal;
      discount = discount_entry applied;
      discounted_subtotal = discounted;
      platform_fee = fee;
      final_amount = discounted +ₙ fee.amount;
    })
