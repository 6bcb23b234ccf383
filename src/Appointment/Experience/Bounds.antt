-- ===== src/Appointment/Experience/Bounds.antt =====
-- The most that an Organizer earns from one event, in
-- src/modules/appointment/organizer-xp.service.ts.
use fox_passport_republic_ap.Prelude.{
  leb, Bool-cases, Text, All, select, count_where, sum_of, ℕ, ◌+◌, ◌-◌, ◌*◌, ◌≤◌, ◌≡◌, refl, inl,
  inr, Bool, true, false, not, none, some, List, [], ◌∷◌, arith,
}
use fox_passport_republic_ap.Appointment.Experience.{
  event_completed_xp, guest_checked_in_xp, check_in_cap_per_event, Row, Ledger, organizers_of,
  has_key, pay, has_room, add_check_in, is_open, complete, has_first, on_guest_checked_in,
  pay_completed, on_event_completed, Occasion, checked_in, completed, step, run,
}
use fox_passport_republic_ap.Appointment.Experience.Earned.{worth, earned, IsPaid, pay-IsPaid}

check_in-within :
    (xp : ℕ)
    → leb xp (check_in_cap_per_event - guest_checked_in_xp) ≡ true
    → xp + guest_checked_in_xp ≤ check_in_cap_per_event
check_in-within xp h = ground arith

check_in-IsPaid :
    (u e : Text) (l : Ledger)
    → IsPaid l
    → IsPaid (pay has_room add_check_in guest_checked_in_xp u e l)
check_in-IsPaid u e l paid =
    pay-IsPaid has_room add_check_in guest_checked_in_xp u e l (λ u' e' r. refl)
      (λ r h. omega arith) (λ r h b. check_in-within r.check_in_xp h) paid

not-true : (b : Bool) → not b ≡ true → b ≡ false
not-true true h = cc
not-true false h = refl

complete-worth : (r : Row) → is_open r ≡ true → worth (complete r) ≡ worth r + event_completed_xp
complete-worth r h = rw (not-true r.is_completed h) (omega arith)

completed-IsPaid :
    (e : Text) (ids : List Text) (l : Ledger) → IsPaid l → IsPaid (pay_completed e ids l)
unfolding pay_completed
completed-IsPaid e [] l paid = paid
completed-IsPaid e (u ∷ ids) l paid =
    completed-IsPaid e ids (pay is_open complete event_completed_xp u e l) (
      pay-IsPaid is_open complete event_completed_xp u e l (λ u' e' r. refl) complete-worth
        (λ r h b. b) paid)

step-IsPaid : (o : Occasion) (l : Ledger) → IsPaid l → IsPaid (step o l)
unfolding on_guest_checked_in on_event_completed
step-IsPaid (checked_in t e u) l paid = elim (Bool-cases (has_first (organizers_of t e (some u)))) [
  | inl h ↦ rw h (check_in-IsPaid u e l paid)
  | inr n ↦ rw n paid
]
step-IsPaid (completed t e) l paid = completed-IsPaid e (organizers_of t e none) l paid

run-IsPaid : (os : List Occasion) (l : Ledger) → IsPaid l → IsPaid (run os l)
run-IsPaid [] l paid = paid
run-IsPaid (o ∷ os) l paid = run-IsPaid os (step o l) (step-IsPaid o l paid)

worth_bound :
    (r : Row)
    → r.check_in_xp ≤ check_in_cap_per_event
    → worth r ≤ check_in_cap_per_event + event_completed_xp
worth_bound r h = elim (Bool-cases r.is_completed) [
  | inl t ↦ rw t (omega (arith, h))
  | inr n ↦ rw n (omega (arith, h))
]

recorded_bound :
    (key : Row → Bool) (rows : List Row)
    → All (λ r. r.check_in_xp ≤ check_in_cap_per_event) rows
    → sum_of worth (select key rows) ≤ 250 * count_where key rows
recorded_bound key [] _ = omega arith
recorded_bound key (r ∷ rows) (h, hs) =
    let rest = recorded_bound key rows hs in
    elim (Bool-cases (key r)) [
      | inl t ↦ rw t (omega (arith, rest, worth_bound r h))
      | inr n ↦ rw n (omega (arith, rest))
    ]

-- From a ledger whose rows are one for each person and event, within the cap, and say what has been
-- awarded: over any sequence of guests checked in and completions of events, whoever organizes then,
-- a person is awarded for an event what the ledger's row says, and at most the cap of the check-ins
-- and one completion.
pub run_bounds :
    (os : List Occasion) (l : Ledger) (u e : Text)
    → IsPaid l
    → (earned u e (run os l) ≡ sum_of worth (select (has_key u e) (run os l).rows))
      × (earned u e (run os l) ≤ check_in_cap_per_event + event_completed_xp)
run_bounds os l u e paid =
    let after = run-IsPaid os l paid in
    let bound = recorded_bound (has_key u e) (run os l).rows after.capped in
    (after.balanced u e, omega (arith, after.balanced u e, bound, after.one_row u e))
