-- ===== src/Refund.antt =====
-- What a cancelled booking gives back: computeRefund and checkEligibility of
-- src/modules/refund/refund.service.ts, under a policy of src/modules/cancellation-policy.
-- `hoursUntilEvent >= h` is read in milliseconds, `now + h * 3600000 <= startAt`; the messages are
-- left out. Array.prototype.sort is stable.
pub mod Best
pub mod Bounds
mod Tests
use fox_passport_republic_ap.Prelude.{
  ℕ, ◌+◌, ◌*◌, Bool, true, false, not, Option, none, some, List, [], ◌∷◌, Text, Time, ltb, leb,
  ◌==◌, find_first, sum_of, Result, ok, err, ◌>>=◌, ◌>>◌, throw_if, or_throw, if◌then◌else◌,
}

pub record Rule : Type 0 where
  pub hours_before_event : ℕ
  pub refund_percent : ℕ

-- The result of computeRefund.
pub record Refund : Type 0 where
  pub refund_percent : ℕ
  pub matched_rule : Option Rule

-- `rules.sort((a, b) => b.hoursBeforeEvent - a.hoursBeforeEvent)`
pub insert_rule : Rule → List Rule → List Rule
insert_rule r [] = r ∷ []
insert_rule r (x ∷ xs) =
    let rest = insert_rule r xs in
    if ltb x.hours_before_event r.hours_before_event then r ∷ x ∷ xs else x ∷ rest

pub sort_rules : List Rule → List Rule
unfolding insert_rule
sort_rules [] = []
sort_rules (r ∷ rs) = insert_rule r (sort_rules rs)

-- `hoursUntilEvent >= rule.hoursBeforeEvent`
abbrev pub applies : Time → Time → Rule → Bool
applies start_at now rule = leb (now + rule.hours_before_event * 3_600_000) start_at

pub percent_of : Option Rule → ℕ
percent_of none = 0
percent_of (some rule) = rule.refund_percent

-- A policy that is missing has no rules.
pub compute_refund : Time → List Rule → Time → Refund
unfolding percent_of sort_rules
compute_refund start_at rules now =
    let matched = find_first (applies start_at now) (sort_rules rules) in
    record { refund_percent = percent_of matched; matched_rule = matched }

pub data Error : Type 0 where
  booking_not_found unauthorized already_cancelled : Error

-- A payment, in cents.
pub record Payment : Type 0 where
  pub amount : ℕ
  pub is_paid : Bool

-- A booking with its payments and the policies of its event's template, and of the first venue and
-- the first service of the event.
pub record Booking : Type 0 where
  pub id : Text
  pub user_id : Text
  pub is_cancelled : Bool
  pub start_at : Time
  pub template_policy : Option (List Rule)
  pub venue_policy : Option (List Rule)
  pub service_policy : Option (List Rule)
  pub payments : List Payment

-- `estimated_refund` is in hundredths of cents: the total in cents times the percentage.
pub record Eligibility : Type 0 where
  pub eligible : Bool
  pub refund_percent : ℕ
  pub total_paid : ℕ
  pub estimated_refund : ℕ

-- `template ?? venue ?? service`, and no rules if all are missing.
pub policy_of : Booking → List Rule
policy_of booking = elim booking.template_policy [
  | some rules ↦ rules
  | none ↦ elim booking.venue_policy [
    | some rules ↦ rules
    | none ↦ elim booking.service_policy [ some rules ↦ rules | none ↦ [] ]
  ]
]

pub total_paid : List Payment → ℕ
total_paid payments = sum_of (λ p. if p.is_paid then p.amount else 0) payments

-- Before the start, with a rule that applies or some percentage.
pub is_eligible : Time → Time → Refund → Bool
is_eligible start_at now refund =
    if leb start_at now
    then false
    else elim refund.matched_rule [ none ↦ ltb 0 refund.refund_percent | some rule ↦ true ]

pub check_eligibility : List Booking → Text → Text → Time → Result Error Eligibility
unfolding policy_of compute_refund is_eligible total_paid
check_eligibility bookings booking_id user_id now = do
  booking ← or_throw (find_first (λ b. b.id == booking_id) bookings) booking_not_found
  throw_if (not (booking.user_id == user_id)) unauthorized
  throw_if booking.is_cancelled already_cancelled
  let refund = compute_refund booking.start_at (policy_of booking) now
  let total = total_paid booking.payments
  ok (record {
    eligible = is_eligible booking.start_at now refund;
    refund_percent = refund.refund_percent;
    total_paid = total;
    estimated_refund = total * refund.refund_percent;
  })
