-- ===== src/Payout/Booking/Tests.antt =====
-- Runs of the payout jobs of src/modules/payout/payout.service.ts, and the hypotheses of the theorems
-- met by them.
use fox_passport_republic_ap.Prelude.{Text, ℕ, ◌+◌, ◌≡◌, refl, none, [], ◌∷◌, arith}
use fox_passport_republic_ap.Prelude.Number.{Fixed, fixed_number}
use fox_passport_republic_ap.Payout.Data.{Recipient, Outcome, sent, refused}
use fox_passport_republic_ap.Payout.Tests.{pesos, centavos, foxer, empty, empty-IsLedger, job}
use fox_passport_republic_ap.Payout.Booking.{
  Line, EventBooking, create_and_fire, create_payouts_for_event_booking,
}
use fox_passport_republic_ap.Payout.Booking.Settled.{Settled, create_and_fire-twice}
use fox_passport_republic_ap.Payout.Booking.Event.{
  AreFresh, IsPaidOut, create_payouts_for_event_booking-IsPaidOut,
}

create_and_fire-twice_example :
    Settled (create_and_fire centavos (5, sent 900) job empty) job
    × (create_and_fire centavos
          (6, refused)
          (record job { amount = pesos 40 })
          (create_and_fire centavos (5, sent 900) job empty)
        ≡ create_and_fire centavos (5, sent 900) job empty)
create_and_fire-twice_example =
    create_and_fire-twice centavos 5 (sent 900) (6, refused) job (pesos 40) empty foxer refl
      empty-IsLedger.keyed refl refl

abbrev investor : Recipient
investor = record foxer { id = 30 }

abbrev line : Line Fixed
line = record { id = 9; provider_id = 20; agreed_price = pesos 150; venue_id = 0 }

abbrev booking : EventBooking Fixed
booking = record {
  id = 40;
  event_id = 41;
  organizer_id = 20;
  voucher_id = none;
  discount_amount = 0;
  host_markup_amount = pesos 10;
  asset_transactions = line ∷ [];
  service_transactions = record line { id = 10 } ∷ [];
  venue_transactions = record line { id = 11; venue_id = 7 } ∷ [];
}

abbrev draws : ℕ → Text × Outcome
draws k = (k + 60, sent (k + 900))

draws-AreFresh : AreFresh draws 0 empty
draws-AreFresh = record { distinct = λ i j before. ground (arith, before); unused = λ j _. refl }

create_payouts_for_event_booking-IsPaidOut_example :
    IsPaidOut booking (create_payouts_for_event_booking centavos draws booking empty)
    × (create_payouts_for_event_booking centavos draws booking
          (create_payouts_for_event_booking centavos draws booking empty)
        ≡ create_payouts_for_event_booking centavos draws booking empty)
create_payouts_for_event_booking-IsPaidOut_example =
    create_payouts_for_event_booking-IsPaidOut centavos draws draws booking empty
      empty-IsLedger.keyed draws-AreFresh (λ j. refl) ((foxer, refl), tt) ((foxer, refl), tt)
      ((foxer, refl), tt) ((investor, refl), ((investor, refl), ((investor, refl), tt)))
      (foxer, refl)
