-- ===== src/Appointment/Granted.antt =====
-- After any calls of src/modules/appointment/appointment.service.ts, the readings of the permissions in
-- appointment.access.ts agree.
use fox_passport_republic_ap.Prelude.{
  ◌==◌, Text, Time, truthy, All-map, find_first, count_where-fewer, ◌≡◌, true, false, some, List,
  arith,
}
use fox_passport_republic_ap.Appointment.Data.{
  Kind, organizer, check_in_helper, Permission, Target, event_target, Event, Tables,
  permissions_for_appointment, is_same_target, is_active, is_live_status, is_organizer_kind,
}
use fox_passport_republic_ap.Appointment.Access.{
  is_event, includes, is_active_for, is_check_in, can_on_event, has_text, staff_ids, event_scope,
}
use fox_passport_republic_ap.Appointment.Access.Agree.{
  OneActive, HelpersCheckIn, can_on_event-staff_ids,
}
use fox_passport_republic_ap.Appointment.Access.Scope.{can_on_event-event_scope}
use fox_passport_republic_ap.Appointment.Team.{is_live_for}
use fox_passport_republic_ap.Appointment.Team.Change.{active-live}
use fox_passport_republic_ap.Appointment.Team.Limit.{and3-map}
use fox_passport_republic_ap.Appointment.Team.Invariant.{IsTeams}
use fox_passport_republic_ap.Appointment.Team.Calls.{Call, run}
use fox_passport_republic_ap.Appointment.Team.Calls.Run.{run-IsTeams}

pub IsTeams-OneActive : (t : Tables) → IsTeams t.appointments → OneActive t
IsTeams-OneActive t wf target u =
    let fewer =
      count_where-fewer (is_active_for target u) (is_live_for target u) t.appointments (λ a.
        and3-map (is_same_target target a.target) (a.user_id == u) (is_active a.status)
          (is_live_status a.status) (active-live a.status)) in
    omega (arith, fewer, wf.one_live target u)

helper-lacks :
    (kind : Kind) (target : Target) (permission : Permission)
    → is_check_in permission ≡ false
    → is_organizer_kind kind ≡ false
    → includes permission (permissions_for_appointment kind target) ≡ false
helper-lacks organizer target permission other helper = cc
helper-lacks check_in_helper target permission other helper = ground arith

IsTeams-HelpersCheckIn : (t : Tables) → IsTeams t.appointments → HelpersCheckIn t
IsTeams-HelpersCheckIn t wf permission other =
    All-map t.appointments
      (λ a own helper. rw own (helper-lacks a.kind a.target permission other helper)) wf.fixed

-- From well-formed teams, after any sequence of calls and for every permission but the check-in: the
-- users who may do it on an event are those in its list of staff, and the event passes the filter of
-- exactly these users.
pub run-agree :
    (calls : List (Time × Call)) (t : Tables) (id u : Text) (permission : Permission) (now : Time)
    (event : Event)
    → IsTeams t.appointments
    → truthy (some id) ≡ true
    → find_first (is_event id) (run calls t).events ≡ some event
    → is_check_in permission ≡ false
    → (can_on_event (run calls t) (some id) u permission now
        ≡ has_text u (staff_ids (run calls t) (event_target id) permission now))
      × (can_on_event (run calls t) (some id) u permission now
          ≡ event_scope (run calls t) u permission now event)
run-agree calls t id u permission now event wf named at other =
    let after = run-IsTeams calls t wf in
    let one = IsTeams-OneActive (run calls t) after in
    (
      can_on_event-staff_ids (run calls t) id u permission now one named other,
      can_on_event-event_scope (run calls t) id u permission now event one
          (IsTeams-HelpersCheckIn (run calls t) after) named at other,
    )
