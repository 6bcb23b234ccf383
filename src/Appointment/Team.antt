-- ===== src/Appointment/Team.antt =====
-- How appointments are made, answered and ended: src/modules/appointment/appointment.service.ts on
-- the queries of appointment.repository.ts. Notifications and profile searches are left out.
pub mod Calls
pub mod Change
pub mod Invariant
pub mod Final
pub mod Limit
use fox_passport_republic_ap.Prelude.{
  ltb, leb, ◌==◌, if◌then◌else◌, ltb→lt, lt→ltb, leb→le, ==_iff, ==_refl, Bool-cases, Option-cases,
  Text, Time, is_some, or_else, truthy, same, excludes, ==→eq, and-false, length, length-append,
  All, Any, All-append, All-map, All-everywhere, any_of, select, find_first, count_where, sum_of,
  update_where, find_first_sound, find_first-All, All-select, All-Any, find_first-Any, Any-map,
  Result, err, ok, ◌>>=◌, ◌>>◌, throw_if, or_throw, is_ok, Result-cases, >>=-eq-ok, >>-eq-ok,
  or_throw-eq-ok, throw_if-eq-ok, ok-injective, true_not_false, count_where-append,
  count_where-update_where, find_first-none, count_where-none, count_where-0, find_first-only,
  count_where-kept, count_where-cleared, count_where-found, count_where-same, find_first-again,
  find_first-update_where, found_holds, any_of-ext, any_of-select, any_of-map, any_of-none,
  any_of-found, ℕ, zero, suc, ◌+◌, ◌-◌, ◌*◌, ◌/◌, ◌%◌, ◌^◌, ◌≤◌, ◌<◌, min, max, ◌≡◌, refl, sym, ap,
  ◌∙◌, subst, ◌≢◌, ◌↔◌, ◌⊎◌, inl, inr, Bool, true, false, not, ◌&&◌, ◌||◌, Option, none, some,
  some-injective, List, [], ◌∷◌, ◌++◌, map, arith,
}
use fox_passport_republic_ap.Appointment.Data.{
  Kind, organizer, check_in_helper, Status, invited, requested, active, declined, ended, EndReason,
  removed, left, role_revoked, owner_role_revoked, EventStatus, draft_event, pending_event,
  ongoing_event, completed_event, cancelled_event, SystemRole, user, admin_secretary, admin,
  Permission, booking_check_in, event_approve_bookings, event_message_attendees,
  event_message_suppliers, event_manage_bids, event_view_sales, venue_calendar,
  venue_approve_affiliations, venue_reply, venue_edit_listing, venue_view_bookings, Target,
  event_target, venue_target, Appointment, Event, Venue, User, VenueBooking, Tables,
  permission_code, event_organizer_permissions, venue_organizer_permissions,
  permissions_for_appointment, is_same_target, is_active, is_live_status, is_answerable,
  is_requested, is_invited, is_organizer_kind, is_cancelled,
}
use fox_passport_republic_ap.Appointment.Access.{
  invitation_ttl_ms, is_invitation_open, is_appointment_live, expires_after, is_event, is_venue,
}

pub data Error : Type 0 where
  event_not_found venue_not_found not_manager event_is_over user_not_found : Error
  is_owner not_organizer already_on_team : Error
  is_closed too_many_requests request_not_found request_expired : Error
  invitation_not_found already_answered invitation_expired : Error
  appointment_not_found not_on_team already_ended duplicate_id : Error

pub record Caller : Type 0 where
  pub user_id : Text
  pub system_role : SystemRole

-- `input.userId ? findUserById : findUserByEmail`
pub data Invitee : Type 0 where
  by_id by_email : Text → Invitee

abbrev pub max_open_requests : ℕ
max_open_requests = 5

-- `can(systemRole, "event:manage-organizers")`
abbrev pub may_manage_organizers : SystemRole → Bool
may_manage_organizers admin = true
may_manage_organizers _ = false

abbrev pub has_id : Text → Appointment → Bool
has_id id a = a.id == id

-- findLive
abbrev pub is_live_for : Target → Text → Appointment → Bool
is_live_for target user_id a =
    is_same_target target a.target && (a.user_id == user_id && is_live_status a.status)

abbrev pub is_open_request : Text → Time → Appointment → Bool
is_open_request user_id now a =
    a.user_id == user_id && (is_requested a.status && expires_after now a.expires_at)

-- The owner of the target.
pub resolve_target : Tables → Target → Result Error Text
resolve_target t (event_target id) = do
  event ← or_throw (find_first (is_event id) t.events) event_not_found
  ok event.organizer_id
resolve_target t (venue_target id) = do
  venue ← or_throw (find_first (is_venue id) t.venues) venue_not_found
  ok venue.mayor_id

abbrev pub can_manage : Text → Caller → Bool
can_manage owner caller = owner == caller.user_id || may_manage_organizers caller.system_role

abbrev pub is_over : EventStatus → Bool
is_over completed_event = true
is_over cancelled_event = true
is_over _ = false

abbrev pub is_over_target : Tables → Target → Bool
is_over_target t (event_target id) =
    found_holds (λ e. is_over e.event_status) (find_first (is_event id) t.events)
is_over_target t (venue_target id) = false

abbrev pub find_invitee : Tables → Invitee → Option User
find_invitee t (by_id id) = find_first (λ u. u.id == id) t.users
find_invitee t (by_email email) = find_first (λ u. u.email == email) t.users

abbrev pub find_user : Tables → Text → Option User
find_user t id = find_first (λ u. u.id == id) t.users

-- The updates of one row.
abbrev pub respond : Status → Time → Appointment → Appointment
respond status at a = record a { status = status; responded_at = some at }

abbrev pub expire : Time → Appointment → Appointment
expire at a = record a { status = declined; ended_at = some at }

abbrev pub end : EndReason → Text → Time → Appointment → Appointment
end reason by at a = record a {
  status = ended;
  end_reason = some reason;
  ended_by_id = some by;
  ended_at = some at;
}

abbrev pub is_expired : Time → Appointment → Bool
is_expired now a = is_answerable a.status && not (is_invitation_open a now)

-- The live appointment, unless it has expired and its row is closed, and the rows.
pub retire_if_expired :
    Time → Option Appointment → List Appointment → Option Appointment × List Appointment
retire_if_expired now none rows = (none, rows)
retire_if_expired now (some a) rows =
    if is_expired now a
    then (none, update_where (has_id a.id) (expire now) rows)
    else (some a, rows)

-- A new row; the primary key refuses an identifier that is taken.
pub insert : Appointment → List Appointment → Result Error (List Appointment)
insert a rows = do throw_if (is_some (find_first (has_id a.id) rows)) duplicate_id; ok (a ∷ rows)

pub appointed : Text → Target → Kind → Text → Text → Time → Appointment
appointed new_id target kind user_id by now = record {
  id = new_id;
  kind = kind;
  status = if is_organizer_kind kind then invited else active;
  target = target;
  user_id = user_id;
  appointed_by_id = by;
  permissions = permissions_for_appointment kind target;
  expires_at = if is_organizer_kind kind then some (now + invitation_ttl_ms) else none;
  responded_at = if is_organizer_kind kind then none else some now;
  ended_at = none;
  ended_by_id = none;
  end_reason = none;
}

-- A new appointment of a user who has no live one, behind an expired one if there is one.
pub replace_expired :
    Time → Target → Text → Appointment → List Appointment → Result Error (List Appointment)
unfolding retire_if_expired insert
replace_expired now target user_id a rows =
    let retired = retire_if_expired now (find_first (is_live_for target user_id) rows) rows in
    throw_if (is_some retired.0) already_on_team >> insert a retired.1

pub appoint :
    Tables → Target → Caller → Kind → Invitee → Text → Time → Result Error (List Appointment)
unfolding resolve_target replace_expired appointed
appoint t target caller kind invitee new_id now = do
  owner ← resolve_target t target
  throw_if (not (can_manage owner caller)) not_manager
  throw_if (is_over_target t target) event_is_over
  person ← or_throw (find_invitee t invitee) user_not_found
  throw_if (person.id == owner) is_owner
  throw_if (is_organizer_kind kind && not person.is_organizer) not_organizer
  replace_expired now target person.id (appointed new_id target kind person.id caller.user_id now)
      t.appointments

abbrev pub accepts_requests : Tables → Target → Bool
accepts_requests t (event_target id) =
    found_holds (λ e. e.accepts_organizer_requests) (find_first (is_event id) t.events)
accepts_requests t (venue_target id) =
    found_holds (λ v. v.accepts_organizer_requests) (find_first (is_venue id) t.venues)

-- Why a user cannot ask to join.
pub data Reason : Type 0 where
  owner_reason not_organizer_reason on_team_reason : Reason
  invited_reason requested_reason closed_reason : Reason

abbrev pub open_reason : Status → Reason
open_reason invited = invited_reason
open_reason _ = requested_reason

abbrev pub standing_reason : Option Appointment → Time → Option Reason
standing_reason none now = none
standing_reason (some a) now =
    if is_active a.status
    then some on_team_reason
    else if is_invitation_open a now
    then some (open_reason a.status)
    else none

abbrev pub first_reason : Option Reason → Option Reason → Option Reason
first_reason none later = later
first_reason (some reason) later = some reason

-- joinStatus
pub join_reason : Tables → Target → Text → Text → Time → Option Reason
join_reason t target owner user_id now =
    first_reason (if owner == user_id then some owner_reason else none) (
      first_reason
        (if found_holds (λ u. u.is_organizer) (find_user t user_id)
          then none
          else some not_organizer_reason)
        (first_reason (standing_reason (find_first (is_live_for target user_id) t.appointments) now)
          (if accepts_requests t target then none else some closed_reason)))

abbrev pub reason_error : Reason → Error
reason_error owner_reason = is_owner
reason_error not_organizer_reason = not_organizer
reason_error on_team_reason = already_on_team
reason_error invited_reason = already_on_team
reason_error requested_reason = already_on_team
reason_error closed_reason = is_closed

abbrev pub refuse : Option Reason → Result Error (Unit {0})
refuse none = ok tt
refuse (some reason) = err (reason_error reason)

pub requested_row : Text → Target → Text → Text → Time → Appointment
requested_row new_id target user_id owner now = record {
  id = new_id;
  kind = organizer;
  status = requested;
  target = target;
  user_id = user_id;
  appointed_by_id = owner;
  permissions = permissions_for_appointment organizer target;
  expires_at = some (now + invitation_ttl_ms);
  responded_at = none;
  ended_at = none;
  ended_by_id = none;
  end_reason = none;
}

pub request_to_join : Tables → Target → Text → Text → Time → Result Error (List Appointment)
unfolding resolve_target join_reason requested_row retire_if_expired insert
request_to_join t target user_id new_id now = do
  owner ← resolve_target t target
  refuse (join_reason t target owner user_id now)
  throw_if (leb max_open_requests (count_where (is_open_request user_id now) t.appointments))
      too_many_requests
  insert (requested_row new_id target user_id owner now)
      (retire_if_expired now (find_first (is_live_for target user_id) t.appointments)
        t.appointments).1
