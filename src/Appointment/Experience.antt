-- ===== src/Appointment/Experience.antt =====
-- What Organizers earn: src/modules/appointment/organizer-xp.service.ts. The calls of awardXP are kept
-- in a log.
pub mod Earned
pub mod Bounds
mod Tests
use fox_passport_republic_ap.Prelude.{
  ltb, leb, ◌==◌, if◌then◌else◌, ltb→lt, lt→ltb, leb→le, ==_iff, ==_refl, Bool-cases, Option-cases,
  Text, Time, is_some, or_else, truthy, same, excludes, ==→eq, and-false, is_some-false, not-false,
  and_false, length, length-append, All, Any, All-append, All-map, All-everywhere, any_of, select,
  find_first, count_where, sum_of, update_where, find_first_sound, find_first-All, All-select,
  All-Any, find_first-Any, Any-map, Result, err, ok, ◌>>=◌, ◌>>◌, throw_if, or_throw, is_ok,
  Result-cases, >>=-eq-ok, >>-eq-ok, or_throw-eq-ok, throw_if-eq-ok, ok-injective, guard-eq-ok,
  require-eq-ok, found-eq-ok, true_not_false, count_where-append, count_where-update_where,
  find_first-none, count_where-none, count_where-0, find_first-only, count_where-kept,
  count_where-cleared, count_where-found, count_where-same, find_first-again,
  find_first-update_where, find_first-absent, find_first-untouched, count_where-fewer, found_holds,
  any_of-ext, any_of-select, any_of-map, any_of-none, any_of-found, ℕ, zero, suc, ◌+◌, ◌-◌, ◌*◌,
  ◌/◌, ◌%◌, ◌^◌, ◌≤◌, ◌<◌, min, max, ◌≡◌, refl, sym, ap, ◌∙◌, subst, ◌≢◌, ◌↔◌, ◌⊎◌, inl, inr, Bool,
  true, false, not, ◌&&◌, ◌||◌, Option, none, some, some-injective, List, [], ◌∷◌, ◌++◌, map, arith,
}
use fox_passport_republic_ap.Appointment.Data.{
  Kind, organizer, check_in_helper, Status, invited, requested, active, declined, ended, EndReason,
  removed, left, role_revoked, owner_role_revoked, EventStatus, draft_event, pending_event,
  ongoing_event, completed_event, cancelled_event, SystemRole, user, admin_secretary, admin,
  Permission, booking_check_in, event_approve_bookings, event_message_attendees,
  event_message_suppliers, event_manage_bids, event_view_sales, venue_calendar,
  venue_approve_affiliations, venue_reply, venue_edit_listing, venue_view_bookings, Target,
  event_target, venue_target, Appointment, Event, Venue, User, VenueBooking, Tables,
  permission_code, event_organizer_permissions, venue_organizer_permissions,
  permissions_for_appointment, is_same_target, is_active, is_live_status, is_answerable,
  is_requested, is_invited, is_organizer_kind, is_cancelled,
}
use fox_passport_republic_ap.Appointment.Access.{
  day_ms, hour_ms, invitation_ttl_ms, event_organizer_grace_ms, venue_check_in_margin_ms,
  expires_after, is_invitation_open, lasts_until, is_appointment_live, is_within_event_day,
  is_event_owner, is_venue_mayor, is_event, is_venue, includes, is_active_for, grants_check_in,
  is_staffed_booking, is_staff_of_event_venue, appointment_allows, is_check_in, can_on_found_event,
  can_on_event, can_on_found_venue, can_on_venue, has_text, distinct_from, distinct, holds,
  live_staff, staff_of_found_event, staff_of_found_venue, staff_ids, event_scope, venue_scope,
}

abbrev pub event_completed_xp : ℕ
event_completed_xp = 150

abbrev pub guest_checked_in_xp : ℕ
guest_checked_in_xp = 5

abbrev pub check_in_cap_per_event : ℕ
check_in_cap_per_event = 100

-- OrganizerEventXp; `is_completed` is `completedAt !== null`.
pub record Row : Type 0 where
  pub user_id : Text
  pub event_id : Text
  pub check_in_xp : ℕ
  pub is_completed : Bool

pub record Award : Type 0 where
  pub user_id : Text
  pub event_id : Text
  pub amount : ℕ

pub record Ledger : Type 0 where
  pub rows : List Row
  pub awards : List Award

-- An approved booking of the venue by the event.
abbrev pub is_held_at : Tables → Text → Text → Bool
is_held_at t event_id venue_id =
    any_of (λ b. b.event_id == event_id && (b.venue_id == venue_id && b.is_approved))
      t.venue_bookings

abbrev pub organizes : Tables → Text → Target → Bool
organizes t event_id (event_target id) = id == event_id
organizes t event_id (venue_target id) = is_held_at t event_id id

-- `onlyUserId && { userId: onlyUserId }`
abbrev pub is_only : Option Text → Text → Bool
is_only only user_id = not (excludes only (some user_id))

pub organizers_of : Tables → Text → Option Text → List Text
organizers_of t event_id only = distinct (
    map (λ a. a.user_id)
      (select
        (λ a.
          is_organizer_kind a.kind
          && (is_active a.status && (is_only only a.user_id && organizes t event_id a.target)))
        t.appointments))

abbrev pub has_key : Text → Text → Row → Bool
has_key user_id event_id r = r.user_id == user_id && r.event_id == event_id

abbrev pub new_row : Text → Text → Row
new_row user_id event_id = record {
  user_id = user_id;
  event_id = event_id;
  check_in_xp = 0;
  is_completed = false;
}

pub ensure_ledger : Text → Text → List Row → List Row
ensure_ledger user_id event_id rows =
    if is_some (find_first (has_key user_id event_id) rows)
    then rows
    else new_row user_id event_id ∷ rows

-- The guarded update of the row, and the award if it was made.
pub pay : (Row → Bool) → (Row → Row) → ℕ → Text → Text → Ledger → Ledger
unfolding ensure_ledger
pay may f amount user_id event_id l =
    let rows = ensure_ledger user_id event_id l.rows in
    let count = count_where (λ r. has_key user_id event_id r && may r) rows in
    record {
      rows = update_where (λ r. has_key user_id event_id r && may r) f rows;
      awards =
          if count == 1
          then record { user_id = user_id; event_id = event_id; amount = amount } ∷ l.awards
          else l.awards;
    }

abbrev pub has_room : Row → Bool
has_room r = leb r.check_in_xp (check_in_cap_per_event - guest_checked_in_xp)

abbrev pub add_check_in : Row → Row
add_check_in r = record r { check_in_xp = r.check_in_xp + guest_checked_in_xp }

abbrev pub is_open : Row → Bool
is_open r = not r.is_completed

abbrev pub complete : Row → Row
complete r = record r { is_completed = true }

-- `const [organizer] = ...; if (!organizer) return`
abbrev pub has_first : List Text → Bool
has_first [] = false
has_first (id ∷ _) = truthy (some id)

pub on_guest_checked_in : Tables → Text → Text → Ledger → Ledger
unfolding organizers_of pay
on_guest_checked_in t event_id user_id l =
    if has_first (organizers_of t event_id (some user_id))
    then pay has_room add_check_in guest_checked_in_xp user_id event_id l
    else l

pub pay_completed : Text → List Text → Ledger → Ledger
unfolding pay
pay_completed event_id [] l = l
pay_completed event_id (user_id ∷ ids) l =
    pay_completed event_id ids (pay is_open complete event_completed_xp user_id event_id l)

pub on_event_completed : Tables → Text → Ledger → Ledger
unfolding organizers_of pay_completed
on_event_completed t event_id l = pay_completed event_id (organizers_of t event_id none) l

-- A call, with the appointments that it meets.
pub data Occasion : Type 0 where
  checked_in : Tables → Text → Text → Occasion
  completed : Tables → Text → Occasion

abbrev pub step : Occasion → Ledger → Ledger
step (checked_in t event_id user_id) l = on_guest_checked_in t event_id user_id l
step (completed t event_id) l = on_event_completed t event_id l

abbrev pub run : List Occasion → Ledger → Ledger
run [] l = l
run (o ∷ os) l = run os (step o l)
