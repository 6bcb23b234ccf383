-- ===== src/Appointment/Team/Calls.antt =====
-- How appointments are answered and ended, and all calls of
-- src/modules/appointment/appointment.service.ts that write.
pub mod Answer
pub mod Insert
pub mod Run
mod Tests
use fox_passport_republic_ap.Prelude.{
  ltb, leb, ◌==◌, if◌then◌else◌, ltb→lt, lt→ltb, leb→le, ==_iff, ==_refl, Bool-cases, Option-cases,
  Text, Time, is_some, or_else, truthy, same, excludes, ==→eq, and-false, length, length-append,
  All, Any, All-append, All-map, All-everywhere, any_of, select, find_first, count_where, sum_of,
  update_where, find_first_sound, find_first-All, All-select, All-Any, find_first-Any, Any-map,
  Result, err, ok, ◌>>=◌, ◌>>◌, throw_if, or_throw, is_ok, Result-cases, >>=-eq-ok, >>-eq-ok,
  or_throw-eq-ok, throw_if-eq-ok, ok-injective, true_not_false, count_where-append,
  count_where-update_where, find_first-none, count_where-none, count_where-0, find_first-only,
  count_where-kept, count_where-cleared, count_where-found, count_where-same, find_first-again,
  find_first-update_where, found_holds, any_of-ext, any_of-select, any_of-map, any_of-none,
  any_of-found, ℕ, zero, suc, ◌+◌, ◌-◌, ◌*◌, ◌/◌, ◌%◌, ◌^◌, ◌≤◌, ◌<◌, min, max, ◌≡◌, refl, sym, ap,
  ◌∙◌, subst, ◌≢◌, ◌↔◌, ◌⊎◌, inl, inr, Bool, true, false, not, ◌&&◌, ◌||◌, Option, none, some,
  some-injective, List, [], ◌∷◌, ◌++◌, map, arith,
}
use fox_passport_republic_ap.Appointment.Data.{
  Kind, organizer, check_in_helper, Status, invited, requested, active, declined, ended, EndReason,
  removed, left, role_revoked, owner_role_revoked, EventStatus, draft_event, pending_event,
  ongoing_event, completed_event, cancelled_event, SystemRole, user, admin_secretary, admin,
  Permission, booking_check_in, event_approve_bookings, event_message_attendees,
  event_message_suppliers, event_manage_bids, event_view_sales, venue_calendar,
  venue_approve_affiliations, venue_reply, venue_edit_listing, venue_view_bookings, Target,
  event_target, venue_target, Appointment, Event, Venue, User, VenueBooking, Tables,
  permission_code, event_organizer_permissions, venue_organizer_permissions,
  permissions_for_appointment, is_same_target, is_active, is_live_status, is_answerable,
  is_requested, is_invited, is_organizer_kind, is_cancelled,
}
use fox_passport_republic_ap.Appointment.Access.{is_invitation_open, is_event, is_venue}
use fox_passport_republic_ap.Appointment.Team.{
  Error, event_not_found, venue_not_found, not_manager, event_is_over, user_not_found, is_owner,
  not_organizer, already_on_team, is_closed, too_many_requests, request_not_found, request_expired,
  invitation_not_found, already_answered, invitation_expired, appointment_not_found, not_on_team,
  already_ended, duplicate_id, Caller, Invitee, by_id, by_email, max_open_requests,
  may_manage_organizers, has_id, is_live_for, is_open_request, resolve_target, can_manage, is_over,
  is_over_target, find_invitee, find_user, respond, expire, end, is_expired, retire_if_expired,
  insert, appointed, replace_expired, appoint, accepts_requests, Reason, owner_reason,
  not_organizer_reason, on_team_reason, invited_reason, requested_reason, closed_reason,
  open_reason, standing_reason, first_reason, join_reason, reason_error, refuse, requested_row,
  request_to_join,
}

abbrev pub user_is_organizer : Tables → Text → Bool
user_is_organizer t user_id = found_holds (λ u. u.is_organizer) (find_user t user_id)

-- respondToRequest
pub respond_to_request :
    Tables → Target → Text → Caller → Bool → Time → Result Error (List Appointment)
unfolding resolve_target
respond_to_request t target id caller accepted now = do
  owner ← resolve_target t target
  throw_if (not (can_manage owner caller)) not_manager
  a ← or_throw (find_first (has_id id) t.appointments) request_not_found
  throw_if (not (is_requested a.status)) request_not_found
  throw_if (not (is_same_target target a.target)) request_not_found
  throw_if (not (is_invitation_open a now)) request_expired
  throw_if (accepted && not (user_is_organizer t a.user_id)) not_organizer
  ok (update_where (has_id id) (respond (if accepted then active else declined) now) t.appointments)

-- withdrawRequest
pub withdraw_request : Tables → Text → Text → Time → Result Error (List Appointment)
withdraw_request t id user_id now = do
  a ← or_throw (find_first (has_id id) t.appointments) request_not_found
  throw_if (not (a.user_id == user_id)) request_not_found
  throw_if (not (is_requested a.status)) request_not_found
  ok (update_where (has_id id) (end left user_id now) t.appointments)

-- ownInvitation
pub own_invitation : Tables → Text → Text → Result Error Appointment
own_invitation t id user_id = do
  a ← or_throw (find_first (has_id id) t.appointments) invitation_not_found
  throw_if (not (a.user_id == user_id)) invitation_not_found
  throw_if (not (is_invited a.status)) already_answered
  ok a

pub accept : Tables → Text → Text → Time → Result Error (List Appointment)
unfolding own_invitation
accept t id user_id now = do
  a ← own_invitation t id user_id
  throw_if (not (is_invitation_open a now)) invitation_expired
  throw_if (not (user_is_organizer t user_id)) not_organizer
  ok (update_where (has_id id) (respond active now) t.appointments)

pub decline : Tables → Text → Text → Time → Result Error (List Appointment)
unfolding own_invitation
decline t id user_id now = do
  a ← own_invitation t id user_id
  throw_if (not (is_invitation_open a now)) invitation_expired
  ok (update_where (has_id id) (respond declined now) t.appointments)

pub leave : Tables → Text → Text → Time → Result Error (List Appointment)
leave t id user_id now = do
  a ← or_throw (find_first (has_id id) t.appointments) appointment_not_found
  throw_if (not (a.user_id == user_id)) appointment_not_found
  throw_if (not (is_active a.status)) not_on_team
  ok (update_where (has_id id) (end left user_id now) t.appointments)

pub remove : Tables → Target → Text → Caller → Time → Result Error (List Appointment)
unfolding resolve_target
remove t target id caller now = do
  owner ← resolve_target t target
  throw_if (not (can_manage owner caller)) not_manager
  a ← or_throw (find_first (has_id id) t.appointments) appointment_not_found
  throw_if (not (is_same_target target a.target)) appointment_not_found
  throw_if (not (is_active a.status || is_invited a.status)) already_ended
  ok (update_where (has_id id) (end removed caller.user_id now) t.appointments)

-- endMany, on the live appointments of a scope.
abbrev pub end_many :
    (Appointment → Bool) → EndReason → Text → Time → List Appointment → List Appointment
end_many scope reason by now =
    update_where (λ a. scope a && is_live_status a.status) (end reason by now)

pub end_for_revoked_organizer : Tables → Text → Text → Time → List Appointment
end_for_revoked_organizer t user_id actor_id now =
    end_many (λ a. a.user_id == user_id && is_organizer_kind a.kind) role_revoked actor_id now
      t.appointments

-- The appointments that an owner loses with the roles of a venue's and of an event's owner.
abbrev pub is_lost : Tables → Text → Bool → Bool → Target → Bool
is_lost t owner_id venues events (venue_target id) =
    venues && found_holds (λ v. v.mayor_id == owner_id) (find_first (is_venue id) t.venues)
is_lost t owner_id venues events (event_target id) =
    events && found_holds (λ e. e.organizer_id == owner_id) (find_first (is_event id) t.events)

pub end_for_revoked_owner : Tables → Text → Bool → Bool → Text → Time → List Appointment
end_for_revoked_owner t owner_id venues events actor_id now =
    end_many (λ a. is_lost t owner_id venues events a.target) owner_role_revoked actor_id now
      t.appointments

-- setAcceptsRequests
abbrev pub set_accepts : Target → Bool → Tables → Tables
set_accepts (event_target id) accepts t = record t {
  events =
      update_where (is_event id) (λ e. record e { accepts_organizer_requests = accepts }) t.events;
}
set_accepts (venue_target id) accepts t = record t {
  venues =
      update_where (is_venue id) (λ v. record v { accepts_organizer_requests = accepts }) t.venues;
}

pub set_settings : Tables → Target → Caller → Bool → Result Error Tables
unfolding resolve_target
set_settings t target caller accepts = do
  owner ← resolve_target t target
  throw_if (not (can_manage owner caller)) not_manager
  ok (set_accepts target accepts t)

-- A call, with what it is given; the new identifiers are those that the database draws.
pub data Call : Type 0 where
  appoint_call : Target → Caller → Kind → Invitee → Text → Call
  request_to_join_call : Target → Text → Text → Call
  respond_to_request_call : Target → Text → Caller → Bool → Call
  withdraw_request_call accept_call decline_call leave_call : Text → Text → Call
  remove_call : Target → Text → Caller → Call
  revoke_organizer_call : Text → Text → Call
  revoke_owner_call : Text → Bool → Bool → Text → Call
  set_settings_call : Target → Caller → Bool → Call

-- An error leaves the tables.
abbrev pub written : Tables → Result Error (List Appointment) → Tables
written t (ok rows) = record t { appointments = rows }
written t (err _) = t

abbrev pub settled : Tables → Result Error Tables → Tables
settled t (ok t') = t'
settled t (err _) = t

pub step : Call → Time → Tables → Tables
unfolding appoint request_to_join respond_to_request withdraw_request accept decline leave remove
    end_for_revoked_organizer end_for_revoked_owner set_settings
step (appoint_call target caller kind invitee new_id) now t =
    written t (appoint t target caller kind invitee new_id now)
step (request_to_join_call target user_id new_id) now t =
    written t (request_to_join t target user_id new_id now)
step (respond_to_request_call target id caller accepted) now t =
    written t (respond_to_request t target id caller accepted now)
step (withdraw_request_call id user_id) now t = written t (withdraw_request t id user_id now)
step (accept_call id user_id) now t = written t (accept t id user_id now)
step (decline_call id user_id) now t = written t (decline t id user_id now)
step (leave_call id user_id) now t = written t (leave t id user_id now)
step (remove_call target id caller) now t = written t (remove t target id caller now)
step (revoke_organizer_call user_id actor_id) now t = record t {
  appointments = end_for_revoked_organizer t user_id actor_id now;
}
step (revoke_owner_call owner_id venues events actor_id) now t = record t {
  appointments = end_for_revoked_owner t owner_id venues events actor_id now;
}
step (set_settings_call target caller accepts) now t =
    settled t (set_settings t target caller accepts)

pub run : List (Time × Call) → Tables → Tables
unfolding step
run [] t = t
run ((now, call) ∷ calls) t = run calls (step call now t)
