-- ===== src/Billing.antt =====
-- Billing periods and the total of direct bookings: src/utils/pricing.ts.
pub mod Cover
mod Tests
use fox_passport_republic_ap.Prelude.{
  ltb, leb, ◌==◌, if◌then◌else◌, ltb→lt, lt→ltb, leb→le, ==_iff, ==_refl, Bool-cases, Option-cases,
  Text, Time, is_some, or_else, truthy, same, excludes, ==→eq, and-false, is_some-false, not-false,
  and_false, length, length-append, All, Any, All-append, All-map, All-everywhere, any_of, select,
  find_first, count_where, sum_of, update_where, find_first_sound, find_first-All, All-select,
  All-Any, find_first-Any, Any-map, Result, err, ok, ◌>>=◌, ◌>>◌, throw_if, or_throw, is_ok,
  Result-cases, >>=-eq-ok, >>-eq-ok, or_throw-eq-ok, throw_if-eq-ok, ok-injective, guard-eq-ok,
  require-eq-ok, found-eq-ok, true_not_false, count_where-append, count_where-update_where,
  find_first-none, count_where-none, count_where-0, find_first-only, count_where-kept,
  count_where-cleared, count_where-found, count_where-same, find_first-again,
  find_first-update_where, find_first-absent, find_first-untouched, count_where-fewer, found_holds,
  any_of-ext, any_of-select, any_of-map, any_of-none, any_of-found, ℕ, zero, suc, ◌+◌, ◌-◌, ◌*◌,
  ◌/◌, ◌%◌, ◌^◌, ◌≤◌, ◌<◌, min, max, ◌≡◌, refl, sym, ap, ◌∙◌, subst, ◌≢◌, ◌↔◌, ◌⊎◌, inl, inr, Bool,
  true, false, not, ◌&&◌, ◌||◌, Option, none, some, some-injective, List, [], ◌∷◌, ◌++◌, map, arith,
}
use fox_passport_republic_ap.Prelude.Number.{
  Number, ◌+ₙ◌, ◌-ₙ◌, ◌*ₙ◌, ◌/ₙ◌, lt_n, ◌≼◌, integer, nought, IsRounded, lt_n_trans, lt_n_weak,
  lt_n_asym, le_of_not_lt_n, le_of_lt_n, le_refl_n, Fixed, scale, fixed_number, Fixed-IsRounded,
}

-- BillingRate
pub data Rate : Type 0 where
  one_time hourly daily weekly monthly yearly : Rate

abbrev pub ms_per_hour : ℕ
ms_per_hour = 3_600_000

abbrev pub ms_per_day : ℕ
ms_per_day = 86_400_000

-- The length of a period; a single charge has none.
abbrev pub period_ms : Rate → Option ℕ
period_ms one_time = none
period_ms hourly = some ms_per_hour
period_ms daily = some ms_per_day
period_ms weekly = some (ms_per_day * 7)
period_ms monthly = some (ms_per_day * 30)
period_ms yearly = some (ms_per_day * 365)

-- `Math.max(1, Math.ceil(spanMs / unit))`
abbrev pub periods_of : ℕ → Option ℕ → ℕ
periods_of span none = 1
periods_of span (some unit) = max 1 ((span + (unit - 1)) / unit)

-- The span is not less than 0, as it is by the subtraction here.
pub calculate_billing_periods : Time → Time → Rate → ℕ
calculate_billing_periods start_date end_date rate =
    periods_of (end_date - start_date) (period_ms rate)

module _ {N : Type 0} ⦃n : Number N⦄ where
  pub calculate_items_total : N → ℕ → Time → Time → Rate → N
  unfolding calculate_billing_periods
  calculate_items_total price quantity start_date end_date rate =
      (price *ₙ integer quantity) *ₙ integer (calculate_billing_periods start_date end_date rate)
