-- ===== src/Payout/Data.antt =====
-- The rows of the payout ledger, in prisma/schema/money.prisma and prisma/schema/investment.prisma,
-- that src/modules/payout/payout.service.ts reads and writes.
use fox_passport_republic_ap.Prelude.{ℕ, Bool, Option, List, Text}

-- PayoutSourceType
pub data SourceType : Type 0 where
  event_asset_transaction event_service_transaction event_venue_transaction : SourceType
  event_host_markup sponsorship investor_revenue_share : SourceType

-- PayoutStatus
pub data Status : Type 0 where
  pending paid failed : Status

pub record Payout (N : Type 0) : Type 0 where
  pub id : Text
  pub provider_id : Text
  pub source_type : SourceType
  pub source_id : Text
  pub payout_amount : N
  pub status : Status
  pub provider_reference : Option Text

-- What a payout is made for: the argument of createPayoutRecord and createAndFire.
pub record Job (N : Type 0) : Type 0 where
  pub provider_id : Text
  pub source_type : SourceType
  pub source_id : Text
  pub amount : N

pub record PaymentAccount : Type 0 where
  pub stripe_account_id : Option Text
  pub stripe_payouts_enabled : Bool

pub record Recipient : Type 0 where
  pub id : Text
  pub payment_account : Option PaymentAccount
  pub stripe_account_id : Option Text
  pub stripe_payouts_enabled : Bool

-- A call of Stripe's transfers.create that moved money, in minor units.
pub record Transfer : Type 0 where
  pub payout_id : Text
  pub amount : ℕ
  pub destination : Text

-- A call of transfers.createReversal.
pub record Reversal : Type 0 where
  pub transfer_id : Text
  pub amount : ℕ

-- How a call of transfers.create and the updates behind it end: `sent` with the transfer's
-- identifier in the row; `refused` without a transfer; `lost` with a transfer, when the call or the
-- update behind it throws, and a row that is written as failed. The last two are the cases in which the
-- update to failed throws too, and the row stays as it was.
pub data Outcome : Type 0 where
  sent : Text → Outcome
  refused lost sent_unwritten refused_unwritten : Outcome

-- An active PartnerInvestment in a venue or an event; the percentage may be null.
pub record Investment (N : Type 0) : Type 0 where
  pub partner_id : Text
  pub target_venue_id : Option Text
  pub target_event_id : Option Text
  pub is_active : Bool
  pub revenue_share_percent : Option N

-- A voucher, with the owner of its promotion.
pub record Voucher : Type 0 where
  pub id : Text
  pub promotion_provider_id : Option Text

pub record Store (N : Type 0) : Type 0 where
  pub payouts : List (Payout N)
  pub transfers : List Transfer
  pub reversals : List Reversal
  pub recipients : List Recipient
  pub investments : List (Investment N)
  pub vouchers : List Voucher
