-- ===== src/Payout.antt =====
-- The payout ledger: createPayoutRecord, fireTransfer and reversePayoutForSource of
-- src/modules/payout/payout.service.ts. What Stripe did is kept in two logs; how each call of it
-- ends, and the rounding of a stored amount to Decimal(12, 2), are arguments.
pub mod Data
pub mod Split
pub mod Booking
pub mod Ledger
pub mod Once
mod Tests
use fox_passport_republic_ap.Prelude.{
  ℕ, Bool, true, false, not, ◌&&◌, Option, none, some, List, [], ◌∷◌, Text, ◌==◌, truthy,
  find_first, update_where, if◌then◌else◌, is_some,
}
use fox_passport_republic_ap.Prelude.Number.{Number, ◌*ₙ◌, lt_n, integer, nought}
use Data.*

abbrev pub source_code : SourceType → ℕ
source_code event_asset_transaction = 0
source_code event_service_transaction = 1
source_code event_venue_transaction = 2
source_code event_host_markup = 3
source_code sponsorship = 4
source_code investor_revenue_share = 5

abbrev pub is_pending : Status → Bool
is_pending pending = true
is_pending _ = false

-- Whether the row's new status gets to the database.
abbrev pub is_written : Outcome → Bool
is_written sent_unwritten = false
is_written refused_unwritten = false
is_written _ = true

abbrev pub is_of : Text → Recipient → Bool
is_of user_id r = r.id == user_id

-- `recipient.paymentAccount?.stripeAccountId || recipient.stripeAccountId`
pub stripe_account_id : Recipient → Option Text
stripe_account_id r =
    let own : Option Text = elim r.payment_account [
      | none ↦ none
      | some account ↦ account.stripe_account_id
    ] in
    if truthy own then own else r.stripe_account_id

-- `recipient.paymentAccount?.stripePayoutsEnabled ?? recipient.stripePayoutsEnabled`
pub stripe_payouts_enabled : Recipient → Bool
stripe_payouts_enabled r = elim r.payment_account [
  | none ↦ r.stripe_payouts_enabled
  | some account ↦ account.stripe_payouts_enabled
]

-- The account that a transfer can go to.
pub destination : Recipient → Option Text
unfolding stripe_account_id stripe_payouts_enabled
destination r =
    if truthy (stripe_account_id r) && stripe_payouts_enabled r then stripe_account_id r else none

module _ {N : Type 0} where
  abbrev pub has_id : Text → Payout N → Bool
  has_id id p = p.id == id

  -- The unique constraint (sourceType, sourceId, providerId).
  abbrev pub has_key : Job N → Payout N → Bool
  has_key job p =
      source_code p.source_type == source_code job.source_type
      && p.source_id == job.source_id
      && p.provider_id == job.provider_id

  abbrev pub set_status : Status → Payout N → Payout N
  set_status status p = record p { status = status }

  pub set_paid : Text → Payout N → Payout N
  set_paid reference p = record p { status = paid; provider_reference = some reference }

module _ {N : Type 0} (stored : N → N) where
  pub created : Text → Job N → Payout N
  created new_id job = record {
    id = new_id;
    provider_id = job.provider_id;
    source_type = job.source_type;
    source_id = job.source_id;
    payout_amount = stored job.amount;
    status = pending;
    provider_reference = none;
  }

  create_missing : Text → Job N → Option (Payout N) → Store N → Option (Payout N × Store N)
  unfolding created
  create_missing new_id job (some payout) store = some (payout, store)
  create_missing new_id job none store =
      if is_some (find_first (has_id new_id) store.payouts)
      then none
      else some (created new_id job, record store { payouts = created new_id job ∷ store.payouts })

  -- The upsert; `none` is the exception of the primary key, for an identifier that is taken.
  pub create_payout_record : Text → Job N → Store N → Option (Payout N × Store N)
  unfolding create_missing
  create_payout_record new_id job store =
      create_missing new_id job (find_first (has_key job) store.payouts) store

module _ {N : Type 0} ⦃n : Number N⦄ where
  -- toStripeCents
  abbrev pub to_stripe_cents : N → ℕ
  to_stripe_cents amount = n.round (amount *ₙ integer 100)

  pub transfer_of : Payout N → Text → Transfer
  transfer_of p account = record {
    payout_id = p.id;
    amount = to_stripe_cents p.payout_amount;
    destination = account;
  }

  -- The call of Stripe and the updates of the row behind it.
  pub settle : Outcome → Payout N → Text → Store N → Store N
  unfolding transfer_of set_paid
  settle (sent reference) p account store = record store {
    transfers = transfer_of p account ∷ store.transfers;
    payouts = update_where (has_id p.id) (set_paid reference) store.payouts;
  }
  settle refused p account store = record store {
    payouts = update_where (has_id p.id) (set_status failed) store.payouts;
  }
  settle lost p account store = record store {
    transfers = transfer_of p account ∷ store.transfers;
    payouts = update_where (has_id p.id) (set_status failed) store.payouts;
  }
  settle sent_unwritten p account store = record store {
    transfers = transfer_of p account ∷ store.transfers;
  }
  settle refused_unwritten p account store = store

  fire_pending : Outcome → Payout N → Option Text → Store N → Store N
  unfolding settle
  fire_pending outcome p (some account) store = settle outcome p account store
  fire_pending outcome p none store =
      if is_written outcome
      then record store { payouts = update_where (has_id p.id) (set_status failed) store.payouts }
      else store

  -- The recipient's row is there by a foreign key.
  fire_to : Outcome → Payout N → Option Recipient → Store N → Store N
  unfolding fire_pending destination
  fire_to outcome p none store = store
  fire_to outcome p (some r) store = fire_pending outcome p (destination r) store

  fire_found : Outcome → Option (Payout N) → Store N → Store N
  unfolding fire_to
  fire_found outcome none store = store
  fire_found outcome (some p) store =
      if is_pending p.status
      then fire_to outcome p (find_first (is_of p.provider_id) store.recipients) store
      else store

  pub fire_transfer : Outcome → Text → Store N → Store N
  unfolding fire_found
  fire_transfer outcome payout_id store =
      fire_found outcome (find_first (has_id payout_id) store.payouts) store

  -- Math.min
  abbrev pub min_n : N → N → N
  min_n a b = if lt_n b a then b else a

  reverse_by_status : Status → Payout N → N → Store N → Store N
  reverse_by_status paid p refunded store = elim p.provider_reference [
    | none ↦ store
    | some reference ↦ record store {
      reversals =
          record {
            transfer_id = reference;
            amount = to_stripe_cents (min_n refunded p.payout_amount);
          }
          ∷ store.reversals;
    }
  ]
  reverse_by_status pending p refunded store = record store {
    payouts = update_where (has_id p.id) (set_status failed) store.payouts;
  }
  reverse_by_status failed p refunded store = store

  reverse_found : Option (Payout N) → N → Store N → Store N
  unfolding reverse_by_status
  reverse_found none refunded store = store
  reverse_found (some p) refunded store =
      if lt_n nought refunded then reverse_by_status p.status p refunded store else store

  -- The first payout of the source only. The log of reversals has the calls, whatever Stripe answers:
  -- a refusal is only printed.
  pub reverse_payout_for_source : Text → N → Store N → Store N
  unfolding reverse_found
  reverse_payout_for_source source_id refunded store =
      reverse_found (find_first (λ p. p.source_id == source_id) store.payouts) refunded store
