-- ===== src/Appointment/Team/Calls/Tests.antt =====
-- Runs of src/modules/appointment on a small table, and the hypotheses of the theorems met by them.
use fox_passport_republic_ap.Prelude.{
  Bool-cases, Time, find_first, count_where, ◌≤◌, ◌≡◌, refl, inl, inr, Bool, true, false, none,
  some, List, [], ◌∷◌, map, arith,
}
use fox_passport_republic_ap.Appointment.Data.{
  organizer, check_in_helper, requested, active, declined, ongoing_event, user, event_manage_bids,
  venue_calendar, event_target, venue_target, Appointment, Event, Venue, Tables,
  event_organizer_permissions,
}
use fox_passport_republic_ap.Appointment.Access.{
  can_on_event, can_on_venue, has_text, staff_ids, event_scope, venue_scope,
}
use fox_passport_republic_ap.Appointment.Access.Scope.{can_on_venue-agree}
use fox_passport_republic_ap.Appointment.Team.{
  Caller, by_id, by_email, has_id, is_live_for, resolve_target, retire_if_expired, insert,
  appointed, replace_expired, appoint, join_reason, requested_row, request_to_join,
}
use fox_passport_republic_ap.Appointment.Team.Invariant.{IsTeams}
use fox_passport_republic_ap.Appointment.Team.Limit.{HasFewRequests}
use fox_passport_republic_ap.Appointment.Team.Calls.{
  own_invitation, accept, Call, appoint_call, request_to_join_call, accept_call, step, run,
}
use fox_passport_republic_ap.Appointment.Team.Calls.Run.{run-IsTeams, run-dead, run-HasFewRequests}
use fox_passport_republic_ap.Appointment.Granted.{IsTeams-OneActive, run-agree}

abbrev party : Event
party = record {
  id = 7;
  organizer_id = 1;
  start_at = 1_000_000_000;
  end_at = 1_010_000_000;
  event_status = ongoing_event;
  accepts_organizer_requests = false;
}

abbrev hall : Venue
hall = record { id = 8; mayor_id = 2; accepts_organizer_requests = true }

abbrev tables : Tables
tables = record {
  appointments = [];
  events = party ∷ [];
  venues = hall ∷ [];
  users =
      record { id = 1; email = 101; is_organizer = false }
      ∷ record { id = 3; email = 103; is_organizer = true }
      ∷ record { id = 4; email = 104; is_organizer = false }
      ∷ [];
  venue_bookings = record { event_id = 7; venue_id = 8; is_approved = true } ∷ [];
}

abbrev owner : Caller
owner = record { user_id = 1; system_role = user }

-- The owner invites the Organizer, who accepts, and names a helper; the Organizer asks the venue.
abbrev calls : List (Time × Call)
calls =
    (10, appoint_call (event_target 7) owner organizer (by_email 103) 50)
    ∷ (20, accept_call 50 3)
    ∷ (30, appoint_call (event_target 7) owner check_in_helper (by_id 4) 51)
    ∷ (40, request_to_join_call (venue_target 8) 3 52)
    ∷ []

tables-IsTeams : IsTeams tables.appointments
tables-IsTeams = record {
  one_id = λ id. omega arith;
  one_live = λ target user_id. omega arith;
  fixed = tt;
}

-- The helper and the request are there, before the accepted invitation.
statuses : map (λ a. a.status) (run calls tables).appointments ≡ requested ∷ active ∷ active ∷ []
unfolding run step appoint resolve_target replace_expired retire_if_expired insert appointed
    request_to_join join_reason requested_row accept own_invitation
statuses = refl

run-IsTeams_example : IsTeams (run calls tables).appointments
run-IsTeams_example = run-IsTeams calls tables tables-IsTeams

-- The Organizer may reject bids until seven days after the event, and the helper never.
run-agree_example :
    (can_on_event (run calls tables) (some 7) 3 event_manage_bids 1_500_000_000
      ≡ has_text 3 (staff_ids (run calls tables) (event_target 7) event_manage_bids 1_500_000_000))
    × (can_on_event (run calls tables) (some 7) 3 event_manage_bids 1_500_000_000
        ≡ event_scope (run calls tables) 3 event_manage_bids 1_500_000_000 party)
unfolding run step appoint resolve_target replace_expired retire_if_expired insert appointed
    request_to_join join_reason requested_row accept own_invitation
run-agree_example =
    run-agree calls tables 7 3 event_manage_bids 1_500_000_000 party tables-IsTeams refl refl refl

can_on_venue-agree_example :
    (can_on_venue (run calls tables) (some 8) 2 venue_calendar
      ≡ venue_scope (run calls tables) 2 venue_calendar hall)
    × (can_on_venue (run calls tables) (some 8) 2 venue_calendar
        ≡ has_text 2 (staff_ids (run calls tables) (venue_target 8) venue_calendar 0))
unfolding run step appoint resolve_target replace_expired retire_if_expired insert appointed
    request_to_join join_reason requested_row accept own_invitation
can_on_venue-agree_example =
    can_on_venue-agree (run calls tables) 8 2 venue_calendar 0 hall
      (IsTeams-OneActive (run calls tables) (run-IsTeams calls tables tables-IsTeams)) refl refl

abbrev declined_row : Appointment
declined_row = record {
  id = 60;
  kind = organizer;
  status = declined;
  target = event_target 7;
  user_id = 3;
  appointed_by_id = 1;
  permissions = event_organizer_permissions;
  expires_at = some 100;
  responded_at = some 5;
  ended_at = none;
  ended_by_id = none;
  end_reason = none;
}

abbrev with_declined : Tables
with_declined = record tables { appointments = declined_row ∷ [] }

abbrev late_calls : List (Time × Call)
late_calls = (5, accept_call 60 3) ∷ calls

count_one : {A : Type 0} (p : A → Bool) (a : A) → count_where p (a ∷ []) ≤ 1
count_one p a = elim (Bool-cases (p a)) [ inl t ↦ rw t (omega arith) | inr n ↦ rw n (omega arith) ]

-- It cannot be accepted any more.
run-dead_example :
    find_first (has_id 60) (run late_calls with_declined).appointments ≡ some declined_row
run-dead_example =
    run-dead late_calls with_declined 60 declined_row
      (record {
        one_id = λ id. count_one (has_id id) declined_row;
        one_live = λ target user_id. count_one (is_live_for target user_id) declined_row;
        fixed = (refl, tt);
      })
      refl refl

run-HasFewRequests_example : HasFewRequests 50 (run calls tables).appointments
run-HasFewRequests_example =
    run-HasFewRequests 0 50 calls tables tables-IsTeams
      (omega arith, (omega arith, (omega arith, (omega arith, omega arith))))
      (λ user_id. omega arith)
