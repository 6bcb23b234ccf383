-- ===== src/Appointment/Team/Calls/Answer.antt =====
-- The calls of src/modules/appointment/appointment.service.ts that answer or end an appointment change
-- one live row.
use fox_passport_republic_ap.Prelude.{
  if◌then◌else◌, Text, Time, find_first, ok, >>=-eq-ok, ok-injective, guard-eq-ok, require-eq-ok,
  found-eq-ok, ◌≡◌, refl, ap, ◌∙◌, subst, Bool, true, ◌||◌, some, List,
}
use fox_passport_republic_ap.Appointment.Data.{
  Status, invited, requested, active, declined, ended, removed, left, Target, Appointment, Tables,
  is_active, is_live_status, is_invited,
}
use fox_passport_republic_ap.Appointment.Team.{
  not_manager, not_organizer, request_not_found, request_expired, invitation_not_found,
  already_answered, invitation_expired, appointment_not_found, not_on_team, already_ended, Caller,
  has_id, resolve_target, respond, end,
}
use fox_passport_republic_ap.Appointment.Team.Change.{
  Change, answered, respond-IsAnswer, answer-not_requested, end-IsAnswer, requested-live,
  invited-live, active-live,
}
use fox_passport_republic_ap.Appointment.Team.Calls.{
  respond_to_request, withdraw_request, own_invitation, accept, decline, leave, remove,
}

-- The rows of a call that succeeds.
pub respond_to_request-Change :
    (t : Tables) (target : Target) (id : Text) (caller : Caller) (accepted : Bool) (now : Time)
    (rows : List Appointment)
    → respond_to_request t target id caller accepted now ≡ ok rows
    → Change now t.appointments rows
unfolding respond_to_request
respond_to_request-Change t target id caller accepted now rows e =
    let (_, _, e1) = >>=-eq-ok (resolve_target t target) _ e in
    let (_, e2) = require-eq-ok _ not_manager _ e1 in
    let (a, at, e3) = found-eq-ok _ request_not_found _ e2 in
    let (waits, e4) = require-eq-ok _ request_not_found _ e3 in
    let (_, e5) = require-eq-ok _ request_not_found _ e4 in
    let (_, e6) = require-eq-ok _ request_expired _ e5 in
    let (_, e7) = guard-eq-ok _ not_organizer _ e6 in
    subst (Change now t.appointments) (ok-injective e7) (
      answered t.appointments id a (respond (if accepted then active else declined) now) at
        (requested-live a.status waits) (respond-IsAnswer _ now (answer-not_requested accepted)))

pub withdraw_request-Change :
    (t : Tables) (id user_id : Text) (now : Time) (rows : List Appointment)
    → withdraw_request t id user_id now ≡ ok rows
    → Change now t.appointments rows
unfolding withdraw_request
withdraw_request-Change t id user_id now rows e =
    let (a, at, e1) = found-eq-ok _ request_not_found _ e in
    let (_, e2) = require-eq-ok _ request_not_found _ e1 in
    let (waits, e3) = require-eq-ok _ request_not_found _ e2 in
    subst (Change now t.appointments) (ok-injective e3) (
      answered t.appointments id a (end left user_id now) at (requested-live a.status waits)
        (end-IsAnswer left user_id now))

own_invitation-found :
    (t : Tables) (id user_id : Text) (a : Appointment)
    → own_invitation t id user_id ≡ ok a
    → (find_first (has_id id) t.appointments ≡ some a) × (is_live_status a.status ≡ true)
unfolding own_invitation
own_invitation-found t id user_id a e =
    let (b, at, e1) = found-eq-ok _ invitation_not_found _ e in
    let (_, e2) = require-eq-ok _ invitation_not_found _ e1 in
    let (waits, e3) = require-eq-ok _ already_answered _ e2 in
    let own = ok-injective e3 in
    (
      at ∙ ap some own,
      subst (λ c. is_live_status c.status ≡ true) own (invited-live b.status waits),
    )

pub accept-Change :
    (t : Tables) (id user_id : Text) (now : Time) (rows : List Appointment)
    → accept t id user_id now ≡ ok rows
    → Change now t.appointments rows
unfolding accept
accept-Change t id user_id now rows e =
    let (a, own, e1) = >>=-eq-ok (own_invitation t id user_id) _ e in
    let (_, e2) = require-eq-ok _ invitation_expired _ e1 in
    let (_, e3) = require-eq-ok _ not_organizer _ e2 in
    let (at, live) = own_invitation-found t id user_id a own in
    subst (Change now t.appointments) (ok-injective e3)
      (answered t.appointments id a (respond active now) at live (respond-IsAnswer active now refl))

pub decline-Change :
    (t : Tables) (id user_id : Text) (now : Time) (rows : List Appointment)
    → decline t id user_id now ≡ ok rows
    → Change now t.appointments rows
unfolding decline
decline-Change t id user_id now rows e =
    let (a, own, e1) = >>=-eq-ok (own_invitation t id user_id) _ e in
    let (_, e2) = require-eq-ok _ invitation_expired _ e1 in
    let (at, live) = own_invitation-found t id user_id a own in
    subst (Change now t.appointments) (ok-injective e2) (
      answered t.appointments id a (respond declined now) at live
        (respond-IsAnswer declined now refl))

pub leave-Change :
    (t : Tables) (id user_id : Text) (now : Time) (rows : List Appointment)
    → leave t id user_id now ≡ ok rows
    → Change now t.appointments rows
unfolding leave
leave-Change t id user_id now rows e =
    let (a, at, e1) = found-eq-ok _ appointment_not_found _ e in
    let (_, e2) = require-eq-ok _ appointment_not_found _ e1 in
    let (works, e3) = require-eq-ok _ not_on_team _ e2 in
    subst (Change now t.appointments) (ok-injective e3) (
      answered t.appointments id a (end left user_id now) at (active-live a.status works)
        (end-IsAnswer left user_id now))

either-live : (s : Status) → (is_active s || is_invited s) ≡ true → is_live_status s ≡ true
either-live active h = refl
either-live invited h = refl
either-live requested h = refl
either-live declined h = cc
either-live ended h = cc

pub remove-Change :
    (t : Tables) (target : Target) (id : Text) (caller : Caller) (now : Time)
    (rows : List Appointment)
    → remove t target id caller now ≡ ok rows
    → Change now t.appointments rows
unfolding remove
remove-Change t target id caller now rows e =
    let (_, _, e1) = >>=-eq-ok (resolve_target t target) _ e in
    let (_, e2) = require-eq-ok _ not_manager _ e1 in
    let (a, at, e3) = found-eq-ok _ appointment_not_found _ e2 in
    let (_, e4) = require-eq-ok _ appointment_not_found _ e3 in
    let (stands, e5) = require-eq-ok _ already_ended _ e4 in
    subst (Change now t.appointments) (ok-injective e5) (
      answered t.appointments id a (end removed caller.user_id now) at (either-live a.status stands)
        (end-IsAnswer removed caller.user_id now))
