-- ===== src/Pricing/Data.antt =====
-- The rows and the context that pricing reads: src/modules/pricing/pricing.service.ts. Amounts are
-- JavaScript numbers (`Decimal.toNumber()`), a parameter of every definition.
use fox_passport_republic_ap.Prelude.{ℕ, Bool, Option, List, Text, Time}
use fox_passport_republic_ap.Prelude.Int.{ℤ}

pub data DiscountType : Type 0 where
  percentage fixed : DiscountType

-- A `Promotion`, with the columns that the service reads.
pub record Promotion {ℓ} (N : Type ℓ) : Type ℓ where
  pub id : Text
  pub active : Bool
  pub auto_apply : Bool
  pub start_date : Option Time
  pub end_date : Option Time
  pub min_subtotal : Option N
  pub transaction_type : Option Text
  pub category : Option Text
  pub asset_id : Option Text
  pub service_id : Option Text
  pub venue_id : Option Text
  pub discount_type : DiscountType
  pub discount_value : N
  pub max_discount : Option N
  pub usage_limit : Option ℕ
  pub per_user_limit : Option ℕ

pub record Voucher {ℓ} (N : Type ℓ) : Type ℓ where
  pub id : Text
  pub code : Text
  pub active : Bool
  pub owner_user_id : Option Text
  pub promotion : Promotion N

-- A `VoucherRedemption`, joined with its voucher's promotion.
pub record Redemption : Type 0 where
  pub promotion_id : Text
  pub user_id : Text

-- A `PlatformFeeConfig`
pub record Rule {ℓ} (N : Type ℓ) : Type ℓ where
  pub id : Text
  pub name : Text
  pub transaction_type : Option Text
  pub category : Option Text
  pub subcategory : Option Text
  pub percentage : Option N
  pub fixed_amount : Option N
  pub priority : ℤ
  pub active : Bool
  pub effective_from : Time
  pub effective_until : Option Time

-- The tables, in the order that the queries ask for: vouchers by their promotion's age, the newest
-- first, and rules by priority, the highest first.
pub record Shop {ℓ} (N : Type ℓ) : Type ℓ where
  pub vouchers : List (Voucher N)
  pub redemptions : List Redemption
  pub rules : List (Rule N)

-- `PricingContext`; `hasLowerFees` left out is false.
pub record Context : Type 0 where
  pub transaction_type : Text
  pub category : Option Text
  pub subcategory : Option Text
  pub voucher_code : Option Text
  pub user_id : Option Text
  pub asset_id : Option Text
  pub service_id : Option Text
  pub venue_id : Option Text
  pub has_lower_fees : Bool

-- Why a voucher is turned down.
pub data Refusal : Type 0 where
  invalid_code other_user not_yet_active expired below_minimum wrong_type wrong_category : Refusal
  wrong_listing usage_limit_reached user_limit_reached : Refusal
  second_blanket_code applies_to_nothing item_already_claimed : Refusal

-- `PricingBreakdown`
pub record Discount {ℓ} (N : Type ℓ) : Type ℓ where
  pub voucher_id : Text
  pub code : Text
  pub type : DiscountType
  pub value : N
  pub amount : N

pub data FeeName : Type 0 where
  passport_perk standard_fee : FeeName
  named_rule : Text → FeeName

pub record Fee {ℓ} (N : Type ℓ) : Type ℓ where
  pub rule_id : Option Text
  pub name : FeeName
  pub percentage : N
  pub fixed_amount : N
  pub amount : N

pub record Breakdown {ℓ} (N : Type ℓ) : Type ℓ where
  pub subtotal : N
  pub discount : Option (Discount N)
  pub discounted_subtotal : N
  pub platform_fee : Fee N
  pub final_amount : N
