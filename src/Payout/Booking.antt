-- ===== src/Payout/Booking.antt =====
-- Who is paid for a completed booking: createPayoutsForAssetBooking, createPayoutsForServiceBooking
-- and createPayoutsForEventBooking of src/modules/payout/payout.service.ts.
pub mod Shape
pub mod Settled
pub mod Kept
pub mod Known
pub mod Event
mod Tests
use fox_passport_republic_ap.Prelude.{
  ℕ, ◌+◌, Bool, true, false, not, ◌&&◌, Option, none, some, List, [], ◌∷◌, ◌++◌, map, length, Text,
  ◌==◌, is_some, truthy, or_else, find_first, if◌then◌else◌,
}
use fox_passport_republic_ap.Prelude.Number.{Number, ◌+ₙ◌, ◌-ₙ◌, nought}
use fox_passport_republic_ap.Payout.Data.{
  SourceType, event_asset_transaction, event_service_transaction, event_venue_transaction,
  event_host_markup, investor_revenue_share, Payout, Job, Outcome, Investment, Voucher, Store,
}
use fox_passport_republic_ap.Payout.{create_payout_record, fire_transfer}
use fox_passport_republic_ap.Payout.Split.{
  Target, target_venue, target_event, Cut, Split, resolve_investor_split,
}

-- A direct booking of an asset or a service, with its listing's owner.
pub record DirectBooking (N : Type 0) : Type 0 where
  pub id : Text
  pub owner_id : Text
  pub total_amount : N
  pub platform_fee_amount : N
  pub discount_amount : N
  pub voucher_id : Option Text

-- A transaction that is included in a booking; the venue is that of a venue transaction.
pub record Line (N : Type 0) : Type 0 where
  pub id : Text
  pub provider_id : Text
  pub agreed_price : N
  pub venue_id : Text

-- A booking of an event, with the columns of the event.
pub record EventBooking (N : Type 0) : Type 0 where
  pub id : Text
  pub event_id : Text
  pub organizer_id : Text
  pub voucher_id : Option Text
  pub discount_amount : N
  pub host_markup_amount : N
  pub asset_transactions : List (Line N)
  pub service_transactions : List (Line N)
  pub venue_transactions : List (Line N)

-- The voucher that is there belongs to a provider.
abbrev pub is_owned : Option Voucher → Bool
is_owned none = false
is_owned (some v) = is_some v.promotion_provider_id

pub is_provider_funded_discount : Option Text → List Voucher → Bool
is_provider_funded_discount voucher_id vouchers =
    truthy voucher_id && is_owned (find_first (λ v. v.id == or_else voucher_id 0) vouchers)

module _ {N : Type 0} ⦃n : Number N⦄ where
  pub direct_amount : DirectBooking N → List Voucher → N
  unfolding is_provider_funded_discount
  direct_amount booking vouchers =
      if is_provider_funded_discount booking.voucher_id vouchers
      then booking.total_amount -ₙ booking.platform_fee_amount
      else (booking.total_amount -ₙ booking.platform_fee_amount) +ₙ booking.discount_amount

  pub direct_job : SourceType → DirectBooking N → List Voucher → Job N
  unfolding direct_amount
  direct_job source_type booking vouchers = record {
    provider_id = booking.owner_id;
    source_type = source_type;
    source_id = booking.id;
    amount = direct_amount booking vouchers;
  }

  abbrev pub line_job : SourceType → Line N → Job N
  line_job source_type line = record {
    provider_id = line.provider_id;
    source_type = source_type;
    source_id = line.id;
    amount = line.agreed_price;
  }

  abbrev pub cut_job : Text → Cut N → Job N
  cut_job source_id cut = record {
    provider_id = cut.partner_id;
    source_type = investor_revenue_share;
    source_id = source_id;
    amount = cut.amount;
  }

  -- splitForInvestors, and the job for the owner's part that its callers push behind.
  pub split_jobs : List (Investment N) → Target → Job N → List (Job N)
  split_jobs investments target job =
      let split = resolve_investor_split investments job.amount target in
      map (cut_job job.source_id) split.investor_cuts
      ++ record job { amount = split.owner_amount } ∷ []

  pub is_direct_venue_booking : EventBooking N → Bool
  is_direct_venue_booking booking =
      length booking.venue_transactions == 1
      && length booking.asset_transactions == 0
      && length booking.service_transactions == 0

  pub venue_discount_add_back : EventBooking N → List Voucher → N
  unfolding is_direct_venue_booking is_provider_funded_discount
  venue_discount_add_back booking vouchers =
      if is_direct_venue_booking booking && is_provider_funded_discount booking.voucher_id vouchers
      then nought
      else booking.discount_amount

  pub venue_price : EventBooking N → List Voucher → Line N → N
  unfolding is_direct_venue_booking venue_discount_add_back
  venue_price booking vouchers line =
      if is_direct_venue_booking booking
      then line.agreed_price +ₙ venue_discount_add_back booking vouchers
      else line.agreed_price

  abbrev pub venue_job : EventBooking N → List Voucher → Line N → Job N
  venue_job booking vouchers line = record (line_job event_venue_transaction line) {
    amount = venue_price booking vouchers line;
  }

  pub venue_jobs :
      EventBooking N → List (Investment N) → List Voucher → List (Line N) → List (Job N)
  unfolding venue_price split_jobs
  venue_jobs booking investments vouchers [] = []
  venue_jobs booking investments vouchers (line ∷ lines) =
      split_jobs investments (target_venue line.venue_id) (venue_job booking vouchers line)
      ++ venue_jobs booking investments vouchers lines

  abbrev pub host_job : EventBooking N → Job N
  host_job booking = record {
    provider_id = booking.organizer_id;
    source_type = event_host_markup;
    source_id = booking.id;
    amount = booking.host_markup_amount;
  }

  -- The jobs in the order in which they are started.
  pub event_jobs : EventBooking N → List (Investment N) → List Voucher → List (Job N)
  unfolding venue_jobs split_jobs
  event_jobs booking investments vouchers =
      map (line_job event_asset_transaction) booking.asset_transactions
      ++ (map (line_job event_service_transaction) booking.service_transactions
          ++ (venue_jobs booking investments vouchers booking.venue_transactions
              ++ split_jobs investments (target_event booking.event_id) (host_job booking)))

module _ {N : Type 0} ⦃n : Number N⦄ (stored : N → N) where
  pub fire_created : Outcome → Option (Payout N × Store N) → Store N → Store N
  fire_created outcome none store = store
  fire_created outcome (some (payout, created)) store = fire_transfer outcome payout.id created

  -- A job that throws is logged and leaves the store.
  pub create_and_fire : Text × Outcome → Job N → Store N → Store N
  unfolding fire_created
  create_and_fire (new_id, outcome) job store =
      fire_created outcome (create_payout_record stored new_id job store) store

  -- One job after the other, each with the identifier and the outcome that it meets.
  pub run_jobs : (ℕ → Text × Outcome) → ℕ → List (Job N) → Store N → Store N
  unfolding create_and_fire
  run_jobs draw k [] store = store
  run_jobs draw k (job ∷ jobs) store =
      run_jobs draw (k + 1) jobs (create_and_fire (draw k) job store)

  pub create_payouts_for_event_booking : (ℕ → Text × Outcome) → EventBooking N → Store N → Store N
  unfolding event_jobs run_jobs
  create_payouts_for_event_booking draw booking store =
      run_jobs draw 0 (event_jobs booking store.investments store.vouchers) store

  pub create_payouts_for_asset_booking : Text × Outcome → DirectBooking N → Store N → Store N
  unfolding direct_job create_and_fire
  create_payouts_for_asset_booking draw booking store =
      create_and_fire draw (direct_job event_asset_transaction booking store.vouchers) store

  pub create_payouts_for_service_booking : Text × Outcome → DirectBooking N → Store N → Store N
  unfolding direct_job create_and_fire
  create_payouts_for_service_booking draw booking store =
      create_and_fire draw (direct_job event_service_transaction booking store.vouchers) store
