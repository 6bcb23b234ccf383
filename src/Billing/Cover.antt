-- ===== src/Billing/Cover.antt =====
-- The periods of a booking cover it, in src/utils/pricing.ts.
use fox_passport_republic_ap.Prelude.{
  Time, ℕ, ◌+◌, ◌-◌, ◌*◌, ◌≤◌, ◌<◌, ◌≡◌, refl, ◌⊎◌, Option, none, some, arith,
}
use fox_passport_republic_ap.Billing.{
  Rate, one_time, hourly, daily, weekly, monthly, yearly, period_ms, calculate_billing_periods,
}

-- So many periods of a length cover the time between two dates, and one fewer does not unless it is
-- the only one.
abbrev pub Covers : Time → Time → Option ℕ → ℕ → Type 0
Covers start_date end_date none periods = periods ≡ 1
Covers start_date end_date (some unit) periods =
    (1 ≤ periods)
    × (end_date ≤ start_date + periods * unit)
    × ((periods ≡ 1) ⊎ (start_date + (periods - 1) * unit < end_date))

-- A booking is charged for the least number of whole periods that cover it, and for one at least; a
-- single charge for one.
pub calculate_billing_periods-Covers :
    (start_date end_date : Time) (rate : Rate)
    → Covers start_date end_date
        (period_ms rate)
        (calculate_billing_periods start_date end_date rate)
unfolding calculate_billing_periods
calculate_billing_periods-Covers s e one_time = refl
calculate_billing_periods-Covers s e hourly = (omega arith, omega arith, ground arith)
calculate_billing_periods-Covers s e daily = (omega arith, omega arith, ground arith)
calculate_billing_periods-Covers s e weekly = (omega arith, omega arith, ground arith)
calculate_billing_periods-Covers s e monthly = (omega arith, omega arith, ground arith)
calculate_billing_periods-Covers s e yearly = (omega arith, omega arith, ground arith)
