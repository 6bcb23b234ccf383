-- ===== src/Refund/Tests.antt =====
-- Runs of src/modules/refund/refund.service.ts on small policies, and the hypotheses of the theorems
-- met by them.
use fox_passport_republic_ap.Prelude.{
  ◌≡◌, ◌≤◌, ◌<◌, ◌*◌, ◌⊎◌, refl, arith, true, false, none, some, List, [], ◌∷◌, ◌==◌, find_first,
}
use fox_passport_republic_ap.Refund.{
  Rule, insert_rule, sort_rules, percent_of, compute_refund, Booking, Eligibility, policy_of,
  total_paid, is_eligible, check_eligibility,
}
use fox_passport_republic_ap.Refund.Best.{
  IsChosen, IsMonotone, compute_refund-IsChosen, compute_refund-earlier,
}
use fox_passport_republic_ap.Refund.Bounds.{IsPercentage, check_eligibility_bounds}

abbrev rules : List Rule
rules =
    record { hours_before_event = 24; refund_percent = 50 }
    ∷ record { hours_before_event = 72; refund_percent = 100 }
    ∷ []

-- 48 hours before the start, and exactly 72.
two_days : (compute_refund 1_000_000_000 rules 827_200_000).refund_percent ≡ 50
unfolding compute_refund sort_rules insert_rule percent_of
two_days = refl

three_days : (compute_refund 1_000_000_000 rules 740_800_000).refund_percent ≡ 100
unfolding compute_refund sort_rules insert_rule percent_of
three_days = refl

compute_refund-IsChosen_example :
    IsChosen 1_000_000_000 827_200_000 rules (compute_refund 1_000_000_000 rules 827_200_000)
compute_refund-IsChosen_example = compute_refund-IsChosen 1_000_000_000 827_200_000 rules

compute_refund-earlier_example :
    (compute_refund 1_000_000_000 rules 827_200_000).refund_percent
    ≤ (compute_refund 1_000_000_000 rules 740_800_000).refund_percent
unfolding IsMonotone
compute_refund-earlier_example =
    compute_refund-earlier 1_000_000_000 740_800_000 827_200_000 rules
      (
        ((λ _. omega arith), ((λ _. omega arith), tt)),
        (((λ h. omega arith), ((λ _. omega arith), tt)), tt),
      )
      (omega arith)

abbrev booking : Booking
booking = record {
  id = 9;
  user_id = 20;
  is_cancelled = false;
  start_at = 1_000_000_000;
  template_policy = none;
  venue_policy = some rules;
  service_policy = none;
  payments =
      record { amount = 5000; is_paid = true } ∷ record { amount = 700; is_paid = false } ∷ [];
}

abbrev result : Eligibility
result = record {
  eligible = true;
  refund_percent = 50;
  total_paid = 5000;
  estimated_refund = 250_000;
}

check_eligibility_bounds_example :
    (b : Booking) × (find_first (λ b'. b'.id == 9) (booking ∷ []) ≡ some b)
    × ((b.user_id == 20) ≡ true)
    × (b.is_cancelled ≡ false)
    × ((result.eligible ≡ false) ⊎ (827_200_000 < b.start_at))
    × (result.total_paid ≡ total_paid b.payments)
    × (result.estimated_refund ≤ total_paid b.payments * 100)
unfolding check_eligibility policy_of compute_refund sort_rules insert_rule percent_of is_eligible
    total_paid IsPercentage
check_eligibility_bounds_example =
    check_eligibility_bounds (booking ∷ []) 9 20 827_200_000 result
      ((omega arith, (omega arith, tt)), tt) refl
