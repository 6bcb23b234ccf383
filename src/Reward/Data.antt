-- ===== src/Reward/Data.antt =====
-- The rows of the coin wallet: prisma/schema/reward.prisma, the coins of prisma/schema/passport.prisma,
-- and the parameters of src/modules/reward/reward.types.ts.
use fox_passport_republic_ap.Prelude.Number.{Number}
use fox_passport_republic_ap.Prelude.{ℕ, ◌*◌, Bool, Option, List, Text, Time}

pub data UserPath : Type 0 where
  user gear_foxer service_foxer event_foxer venue_foxer : UserPath
  performer_foxer investor organizer provider_foxer : UserPath

-- RewardRule
pub record Rule : Type 0 where
  pub action : Text
  pub xp : ℕ
  pub coins : ℕ
  pub daily_cap : Option ℕ
  pub once_only : Bool
  pub active : Bool

-- RewardEvent, an immutable grant.
pub record Event : Type 0 where
  pub id : Text
  pub user_id : Text
  pub path : UserPath
  pub action : Text
  pub ref_type : Text
  pub ref_id : Text
  pub xp : ℕ
  pub coins : ℕ
  pub idempotency_key : Text
  pub created_at : Time

-- RewardLifecycleType; the code writes no EXPIRY.
pub data LifecycleType : Type 0 where
  release redemption reversal : LifecycleType

-- RewardLifecycle; `coinsDelta` is `amount` for a release and minus `amount` for the others.
pub record Lifecycle : Type 0 where
  pub grant_event_id : Text
  pub user_id : Text
  pub kind : LifecycleType
  pub amount : ℕ

pub record Passport : Type 0 where
  pub user_id : Text
  pub coins : ℕ

-- CoinReward. Amounts of money in cents, percentages in hundredths.
pub record CoinReward : Type 0 where
  pub id : Text
  pub coin_cost : ℕ
  pub discount_php : Option ℕ
  pub discount_percentage : Option ℕ
  pub min_level : ℕ
  pub active : Bool

-- The promotion and the voucher that a redemption creates, each to be used once.
pub record RewardVoucher : Type 0 where
  pub code : Text
  pub owner_user_id : Text
  pub is_percentage : Bool
  pub discount_value : ℕ
  pub min_subtotal : ℕ
  pub end_date : Time

-- CoinRedemption
pub record Redemption : Type 0 where
  pub user_id : Text
  pub reward_id : Text
  pub coins_spent : ℕ
  pub expires_at : Time

-- A call of PassportSvc.awardXP; `is_taken_back` is a negative amount.
pub record XpAward : Type 0 where
  pub user_id : Text
  pub path : UserPath
  pub amount : ℕ
  pub is_taken_back : Bool

-- Events in the order of creation, the latest first.
pub record Store : Type 0 where
  pub rules : List Rule
  pub rewards : List CoinReward
  pub events : List Event
  pub lifecycles : List Lifecycle
  pub passports : List Passport
  pub redemptions : List Redemption
  pub vouchers : List RewardVoucher
  pub xp_awards : List XpAward

pub record GrantParams : Type 0 where
  pub user_id : Text
  pub path : UserPath
  pub action : Text
  pub ref_type : Text
  pub ref_id : Text
  pub xp_override : Option ℕ
  pub coins_override : Option ℕ
  pub idempotency_key : Text
  pub booking_fee_amount : Option ℕ

pub record ReverseParams : Type 0 where
  pub ref_type : Text
  pub ref_id : Text
  pub action : Option Text
  pub user_id : Option Text

pub record RedeemParams : Type 0 where
  pub user_id : Text
  pub path : UserPath
  pub reward_id : Text

pub record Granted : Type 0 where
  pub xp_awarded : ℕ
  pub coins_awarded : ℕ
  pub is_idempotent_replay : Bool

pub record Reversed : Type 0 where
  pub reversed : Bool
  pub xp_reversed : ℕ
  pub coins_reversed : ℕ

pub data Error : Type 0 where
  reward_not_found passport_not_found passport_missing level_too_low insufficient_coins : Error

-- JavaScript's numbers, with the number that an amount in cents is read as, and the level of a path
-- after the XP awards.
pub record Env : Type 1 where
  pub booking_type : Text
  pub Money : Type 0
  pub number : Number Money
  pub amount : ℕ → Money
  pub level_of : List XpAward → Text → UserPath → ℕ

-- `Math.floor(feeNum * 0.4 * 5)`: 40 percent of the fee, at five coins for a peso.
abbrev pub budget_of : Env → ℕ → ℕ
budget_of env fee =
    let n = env.number in n.floor (n.mul (n.mul (env.amount fee) (n.literal 4 1)) (n.literal 5 0))

-- `Math.ceil(Number(discountPhp) * 40)`, in cents.
abbrev pub min_subtotal_of : Env → ℕ → ℕ
min_subtotal_of env discount =
    let n = env.number in n.ceil (n.mul (env.amount discount) (n.literal 40 0)) * 100
