-- ===== src/Appointment/Access.antt =====
-- The answer to "may this person do this here?": src/modules/appointment/appointment.access.ts.
pub mod Agree
pub mod Scope
mod Tests
use fox_passport_republic_ap.Prelude.{
  ltb, leb, ◌==◌, if◌then◌else◌, ltb→lt, lt→ltb, leb→le, ==_iff, ==_refl, Bool-cases, Option-cases,
  Text, Time, is_some, or_else, truthy, same, excludes, ==→eq, and-false, length, length-append,
  All, Any, All-append, All-map, All-everywhere, any_of, select, find_first, count_where, sum_of,
  update_where, find_first_sound, find_first-All, All-select, All-Any, find_first-Any, Any-map,
  Result, err, ok, ◌>>=◌, ◌>>◌, throw_if, or_throw, is_ok, Result-cases, >>=-eq-ok, >>-eq-ok,
  or_throw-eq-ok, throw_if-eq-ok, ok-injective, true_not_false, count_where-append,
  count_where-update_where, find_first-none, count_where-none, count_where-0, find_first-only,
  count_where-kept, count_where-cleared, count_where-found, count_where-same, find_first-again,
  find_first-update_where, found_holds, any_of-ext, any_of-select, any_of-map, any_of-none,
  any_of-found, ℕ, zero, suc, ◌+◌, ◌-◌, ◌*◌, ◌/◌, ◌%◌, ◌^◌, ◌≤◌, ◌<◌, min, max, ◌≡◌, refl, sym, ap,
  ◌∙◌, subst, ◌≢◌, ◌↔◌, ◌⊎◌, inl, inr, Bool, true, false, not, ◌&&◌, ◌||◌, Option, none, some,
  some-injective, List, [], ◌∷◌, ◌++◌, map, arith,
}
use fox_passport_republic_ap.Appointment.Data.{
  Kind, organizer, check_in_helper, Status, invited, requested, active, declined, ended, EndReason,
  removed, left, role_revoked, owner_role_revoked, EventStatus, draft_event, pending_event,
  ongoing_event, completed_event, cancelled_event, SystemRole, user, admin_secretary, admin,
  Permission, booking_check_in, event_approve_bookings, event_message_attendees,
  event_message_suppliers, event_manage_bids, event_view_sales, venue_calendar,
  venue_approve_affiliations, venue_reply, venue_edit_listing, venue_view_bookings, Target,
  event_target, venue_target, Appointment, Event, Venue, User, VenueBooking, Tables,
  permission_code, event_organizer_permissions, venue_organizer_permissions,
  permissions_for_appointment, is_same_target, is_active, is_live_status, is_answerable,
  is_organizer_kind, is_cancelled,
}

abbrev pub day_ms : ℕ
day_ms = 86_400_000

abbrev pub hour_ms : ℕ
hour_ms = 3_600_000

abbrev pub invitation_ttl_ms : ℕ
invitation_ttl_ms = 14 * day_ms

abbrev pub event_organizer_grace_ms : ℕ
event_organizer_grace_ms = 7 * day_ms

abbrev pub venue_check_in_margin_ms : ℕ
venue_check_in_margin_ms = 6 * hour_ms

-- `expiresAt !== null && expiresAt > now`
abbrev pub expires_after : Time → Option Time → Bool
expires_after now none = false
expires_after now (some at) = ltb now at

abbrev pub is_invitation_open : Appointment → Time → Bool
is_invitation_open a now = is_answerable a.status && expires_after now a.expires_at

abbrev pub lasts_until : Kind → Event → Time
lasts_until organizer event = event.end_at + event_organizer_grace_ms
lasts_until check_in_helper event = event.end_at

abbrev pub is_appointment_live : Appointment → Option Event → Time → Bool
is_appointment_live a none now = is_active a.status
is_appointment_live a (some event) now =
    is_active a.status
    && (not (is_cancelled event.event_status) && ltb now (lasts_until a.kind event))

-- A difference that would be negative is 0 here, and no time is less than either.
abbrev pub is_within_event_day : Event → Time → Bool
is_within_event_day event now =
    not (is_cancelled event.event_status)
    && (leb (event.start_at - venue_check_in_margin_ms) now
        && leb now (event.end_at + venue_check_in_margin_ms))

abbrev pub is_event_owner : Event → Text → Bool
is_event_owner event user_id = event.organizer_id == user_id

abbrev pub is_venue_mayor : Venue → Text → Bool
is_venue_mayor venue user_id = venue.mayor_id == user_id

abbrev pub is_event : Text → Event → Bool
is_event id event = event.id == id

abbrev pub is_venue : Text → Venue → Bool
is_venue id venue = venue.id == id

-- `permissions.includes(permission)`
abbrev pub includes : Permission → List Permission → Bool
includes permission = any_of (λ p. permission_code p == permission_code permission)

-- The active appointments of a user on a target.
abbrev pub is_active_for : Target → Text → Appointment → Bool
is_active_for target user_id a =
    is_same_target target a.target && (a.user_id == user_id && is_active a.status)

abbrev pub grants_check_in : Tables → Text → Venue → Bool
grants_check_in t user_id venue =
    is_venue_mayor venue user_id
    || any_of
        (λ a.
          is_active_for (venue_target venue.id) user_id a
          && includes booking_check_in a.permissions)
        t.appointments

-- The venue of a booking grants the check-in to the user.
abbrev pub is_staffed_booking : Tables → Text → Option Venue → Bool
is_staffed_booking t user_id none = false
is_staffed_booking t user_id (some venue) = grants_check_in t user_id venue

pub is_staff_of_event_venue : Tables → Text → Text → Bool
is_staff_of_event_venue t event_id user_id =
    any_of
      (λ b.
        b.event_id == event_id
        && (b.is_approved
            && is_staffed_booking t user_id (find_first (is_venue b.venue_id) t.venues)))
      t.venue_bookings

-- The appointment that is found holds the permission and is live.
abbrev pub appointment_allows : Option Appointment → Permission → Option Event → Time → Bool
appointment_allows none permission event now = false
appointment_allows (some a) permission event now =
    includes permission a.permissions && is_appointment_live a event now

abbrev pub is_check_in : Permission → Bool
is_check_in permission = permission_code permission == permission_code booking_check_in

pub can_on_found_event : Tables → Option Event → Text → Permission → Time → Bool
unfolding is_staff_of_event_venue
can_on_found_event t none user_id permission now = false
can_on_found_event t (some event) user_id permission now =
    is_event_owner event user_id
    || (appointment_allows
          (find_first (is_active_for (event_target event.id) user_id) t.appointments) permission
          (some event) now
        || (is_check_in permission
            && (is_within_event_day event now && is_staff_of_event_venue t event.id user_id)))

pub can_on_event : Tables → Option Text → Text → Permission → Time → Bool
unfolding can_on_found_event
can_on_event t event_id user_id permission now =
    truthy event_id
    && can_on_found_event t (find_first (is_event (or_else event_id 0)) t.events) user_id permission
        now

pub can_on_found_venue : Tables → Option Venue → Text → Permission → Bool
can_on_found_venue t none user_id permission = false
can_on_found_venue t (some venue) user_id permission =
    is_venue_mayor venue user_id
    || found_holds (λ a. includes permission a.permissions)
        (find_first (is_active_for (venue_target venue.id) user_id) t.appointments)

pub can_on_venue : Tables → Option Text → Text → Permission → Bool
unfolding can_on_found_venue
can_on_venue t venue_id user_id permission =
    truthy venue_id
    && can_on_found_venue t (find_first (is_venue (or_else venue_id 0)) t.venues) user_id permission

-- `[...new Set(ids)]`
abbrev pub has_text : Text → List Text → Bool
has_text id = any_of (λ i. i == id)

pub distinct_from : List Text → List Text → List Text
distinct_from seen [] = []
distinct_from seen (id ∷ ids) =
    let rest = distinct_from (id ∷ seen) ids in
    let skipped = distinct_from seen ids in if has_text id seen then skipped else id ∷ rest

pub distinct : List Text → List Text
unfolding distinct_from
distinct ids = distinct_from [] ids

abbrev pub holds : Target → Permission → Appointment → Bool
holds target permission a =
    is_same_target target a.target && (is_active a.status && includes permission a.permissions)

pub live_staff : Target → Option Event → Permission → Time → List Appointment → List Text
live_staff target event permission now rows =
    map (λ a. a.user_id)
      (select (λ a. is_appointment_live a event now) (select (holds target permission) rows))

pub staff_of_found_event : Tables → Option Event → Permission → Time → List Text
unfolding live_staff distinct
staff_of_found_event t none permission now = []
staff_of_found_event t (some event) permission now = distinct (
    event.organizer_id
    ∷ live_staff (event_target event.id) (some event) permission now t.appointments)

pub staff_of_found_venue : Tables → Option Venue → Permission → List Text
unfolding distinct
staff_of_found_venue t none permission = []
staff_of_found_venue t (some venue) permission = distinct (
    venue.mayor_id
    ∷ map (λ a. a.user_id) (select (holds (venue_target venue.id) permission) t.appointments))

pub staff_ids : Tables → Target → Permission → Time → List Text
unfolding staff_of_found_event staff_of_found_venue
staff_ids t (event_target id) permission now =
    staff_of_found_event t (find_first (is_event id) t.events) permission now
staff_ids t (venue_target id) permission now =
    staff_of_found_venue t (find_first (is_venue id) t.venues) permission

-- The filter of the events, as a test of a row; the difference of times is a sum on the other side.
pub event_scope : Tables → Text → Permission → Time → Event → Bool
event_scope t user_id permission now event =
    is_event_owner event user_id
    || (not (is_cancelled event.event_status)
        && (ltb now (event.end_at + event_organizer_grace_ms)
            && any_of
                (λ a.
                  is_active_for (event_target event.id) user_id a
                  && (is_organizer_kind a.kind && includes permission a.permissions))
                t.appointments))

pub venue_scope : Tables → Text → Permission → Venue → Bool
venue_scope t user_id permission venue =
    is_venue_mayor venue user_id
    || any_of
        (λ a. is_active_for (venue_target venue.id) user_id a && includes permission a.permissions)
        t.appointments
