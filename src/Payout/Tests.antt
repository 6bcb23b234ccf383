-- ===== src/Payout/Tests.antt =====
-- Runs of src/modules/payout/payout.service.ts on a small ledger, and the hypotheses of the theorems
-- met by them.
use fox_passport_republic_ap.Prelude.{
  count_where, ℕ, ◌+◌, ◌*◌, ◌/◌, ◌≤◌, ◌≡◌, refl, true, false, none, some, List, [], ◌∷◌, arith,
}
use fox_passport_republic_ap.Prelude.Number.{Fixed, scale, fixed_number}
use fox_passport_republic_ap.Payout.Data.{
  event_asset_transaction, Job, Recipient, sent, sent_unwritten, Investment, Store,
}
use fox_passport_republic_ap.Payout.{
  stripe_account_id, stripe_payouts_enabled, destination, set_paid, created, create_missing,
  create_payout_record, transfer_of, settle, fire_pending, fire_to, fire_found, fire_transfer,
  reverse_by_status, reverse_found, reverse_payout_for_source,
}
use fox_passport_republic_ap.Payout.Ledger.{is_transfer_of, waits, IsLedger}
use fox_passport_republic_ap.Payout.Once.{
  Request, create_request, fire_request, reverse_request, run, is_unwritten, run-pays_once,
}

abbrev pub pesos : ℕ → Fixed
pesos n = n * scale

-- Decimal(12, 2), of a number with four decimals.
abbrev pub centavos : Fixed → Fixed
centavos a = a / 100 * 100

abbrev pub foxer : Recipient
foxer = record {
  id = 20;
  payment_account = some (record { stripe_account_id = some 500; stripe_payouts_enabled = true });
  stripe_account_id = none;
  stripe_payouts_enabled = false;
}

abbrev pub half : Investment Fixed
half = record {
  partner_id = 30;
  target_venue_id = some 7;
  target_event_id = none;
  is_active = true;
  revenue_share_percent = some (pesos 50);
}

abbrev pub empty : Store Fixed
empty = record {
  payouts = [];
  transfers = [];
  reversals = [];
  recipients = foxer ∷ record foxer { id = 30 } ∷ [];
  investments = half ∷ half ∷ half ∷ [];
  vouchers = [];
}

pub empty-IsLedger : IsLedger (λ _. 0) empty
empty-IsLedger = record {
  keyed = record { one_id = λ id. omega arith; one_key = λ job. omega arith };
  paid_once = λ id. omega arith;
}

abbrev pub job : Job Fixed
job = record {
  provider_id = 20;
  source_type = event_asset_transaction;
  source_id = 9;
  amount = pesos 150;
}

abbrev requests : List (Request Fixed)
requests =
    create_request 1 job
    ∷ fire_request (sent 900) 1
    ∷ create_request 2 job
    ∷ fire_request (sent 901) 1
    ∷ reverse_request 9 (pesos 200)
    ∷ []

abbrev after : Store Fixed
after = run centavos requests empty

transfers_after :
    after.transfers ≡ record { payout_id = 1; amount = 15_000; destination = 500 } ∷ []
unfolding create_payout_record create_missing created fire_transfer reverse_payout_for_source
    fire_found fire_to fire_pending settle set_paid transfer_of destination stripe_account_id
    stripe_payouts_enabled reverse_found reverse_by_status
transfers_after = refl

-- No more is taken back than was paid.
reversals_after : after.reversals ≡ record { transfer_id = 900; amount = 15_000 } ∷ []
unfolding create_payout_record create_missing created fire_transfer reverse_payout_for_source
    fire_found fire_to fire_pending settle set_paid transfer_of destination stripe_account_id
    stripe_payouts_enabled reverse_found reverse_by_status
reversals_after = refl

run-pays_once_example :
    (count_where (is_transfer_of 1) (run centavos requests empty).transfers
      ≤ 1 + count_where (is_unwritten 1) requests)
    × (1 ≤ count_where (waits 1) (run centavos requests empty).payouts
        → count_where (is_transfer_of 1) (run centavos requests empty).transfers
          ≤ count_where (is_unwritten 1) requests)
run-pays_once_example = run-pays_once centavos requests empty 1 empty-IsLedger

-- A transfer whose row could not be written is made a second time.
paid_again :
    (run centavos
      (create_request 1 job ∷ fire_request sent_unwritten 1 ∷ fire_request (sent 901) 1 ∷ [])
      empty).transfers
    ≡ record { payout_id = 1; amount = 15_000; destination = 500 }
      ∷ record { payout_id = 1; amount = 15_000; destination = 500 }
      ∷ []
unfolding create_payout_record create_missing created fire_transfer fire_found fire_to fire_pending
    settle set_paid transfer_of destination stripe_account_id stripe_payouts_enabled
paid_again = refl
