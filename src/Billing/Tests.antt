-- ===== src/Billing/Tests.antt =====
-- Billing periods of src/utils/pricing.ts at a few dates.
use fox_passport_republic_ap.Prelude.{◌≡◌, refl}
use fox_passport_republic_ap.Billing.{hourly, daily, period_ms, calculate_billing_periods}
use fox_passport_republic_ap.Billing.Cover.{Covers, calculate_billing_periods-Covers}

-- A day and an hour are two days, and a booking that ends where it starts is one.
two_days : calculate_billing_periods 0 90_000_000 daily ≡ 2
unfolding calculate_billing_periods
two_days = refl

no_time : calculate_billing_periods 500 500 hourly ≡ 1
unfolding calculate_billing_periods
no_time = refl

calculate_billing_periods-Covers_example :
    Covers 0 90_000_000 (period_ms daily) (calculate_billing_periods 0 90_000_000 daily)
calculate_billing_periods-Covers_example = calculate_billing_periods-Covers 0 90_000_000 daily
