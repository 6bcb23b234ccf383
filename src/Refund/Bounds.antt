-- ===== src/Refund/Bounds.antt =====
-- What src/modules/refund/refund.service.ts promises to a citizen, in money.
use native.Mathlib.Nat.{mul-le-mul_left}
use fox_passport_republic_ap.Prelude.{
  ◌*◌, ◌≤◌, ◌<◌, ◌≡◌, refl, subst, ◌⊎◌, inl, inr, arith, Bool, true, false, not, some, List, Text,
  Time, leb, ◌==◌, find_first, ok, or_throw, throw_if, Bool-cases, All, All-Any, >>=-eq-ok,
  >>-eq-ok, ok-injective, or_throw-eq-ok, throw_if-eq-ok, find_first-All,
}
use fox_passport_republic_ap.Refund.{
  Rule, Refund, compute_refund, Booking, Eligibility, policy_of, total_paid, is_eligible,
  check_eligibility, booking_not_found, unauthorized, already_cancelled,
}
use fox_passport_republic_ap.Refund.Best.{IsChosen, chosen, no_rule, compute_refund-IsChosen}

-- Percentages as the policies' validation leaves them.
unfoldable pub IsPercentage : Rule → Type 0
IsPercentage rule = rule.refund_percent ≤ 100

IsChosen-percent :
    (start_at now : Time) (rules : List Rule) (refund : Refund)
    → All IsPercentage rules
    → IsChosen start_at now rules refund
    → refund.refund_percent ≤ 100
unfolding IsPercentage
IsChosen-percent start_at now rules _ ps (chosen rule mine t longest) =
    All-Any (λ r. r.refund_percent ≤ 100) rules rule ps mine
IsChosen-percent start_at now rules _ ps (no_rule none_applies) = omega arith

not-false : (b : Bool) → not b ≡ false → b ≡ true
not-false true h = refl
not-false false h = cc

eligible-early :
    (start_at now : Time) (refund : Refund)
    → (is_eligible start_at now refund ≡ false) ⊎ (now < start_at)
unfolding is_eligible
eligible-early start_at now refund = elim (Bool-cases (leb start_at now)) [
  | inl t ↦ inl (rw t refl)
  | inr n ↦ inr (ground arith)
]

-- Who is told what a cancellation gives back owns the booking, which is not cancelled; it is
-- declared possible only before the event starts, and under policies with percentages up to 100
-- the estimate, in hundredths of cents, is at most what was paid.
pub check_eligibility_bounds :
    (bookings : List Booking) (booking_id user_id : Text) (now : Time) (result : Eligibility)
    → All (λ b. All IsPercentage (policy_of b)) bookings
    → check_eligibility bookings booking_id user_id now ≡ ok result
    → (booking : Booking) × (find_first (λ b. b.id == booking_id) bookings ≡ some booking)
      × ((booking.user_id == user_id) ≡ true)
      × (booking.is_cancelled ≡ false)
      × ((result.eligible ≡ false) ⊎ (now < booking.start_at))
      × (result.total_paid ≡ total_paid booking.payments)
      × (result.estimated_refund ≤ total_paid booking.payments * 100)
unfolding check_eligibility
check_eligibility_bounds bookings booking_id user_id now result ps e =
    let (booking, at, e1) =
      >>=-eq-ok (or_throw (find_first (λ b. b.id == booking_id) bookings) booking_not_found) _ e in
    let (owned, e2) = >>-eq-ok (throw_if (not (booking.user_id == user_id)) unauthorized) _ e1 in
    let (live, e3) = >>-eq-ok (throw_if booking.is_cancelled already_cancelled) _ e2 in
    let found = or_throw-eq-ok _ booking_not_found at in
    let done = ok-injective e3 in
    let refund = compute_refund booking.start_at (policy_of booking) now in
    let percent =
      IsChosen-percent booking.start_at now (policy_of booking) refund
        (find_first-All (λ b. All IsPercentage (policy_of b)) _ bookings booking ps found)
        (compute_refund-IsChosen booking.start_at now (policy_of booking)) in
    (
      booking,
      found,
      not-false _ (throw_if-eq-ok _ unauthorized owned),
      throw_if-eq-ok _ already_cancelled live,
      subst (λ r. (r.eligible ≡ false) ⊎ (now < booking.start_at)) done
          (eligible-early booking.start_at now refund),
      subst (λ r. r.total_paid ≡ total_paid booking.payments) done refl,
      subst (λ r. r.estimated_refund ≤ total_paid booking.payments * 100) done
          (mul-le-mul_left (total_paid booking.payments) percent),
    )
