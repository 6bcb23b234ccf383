-- ===== src/Appointment/Access/Tests.antt =====
-- Runs of src/modules/appointment/appointment.access.ts on a small table.
use fox_passport_republic_ap.Prelude.{Text, ◌≡◌, refl, true, false, none, some, [], ◌∷◌}
use fox_passport_republic_ap.Appointment.Data.{
  Kind, organizer, check_in_helper, active, ongoing_event, booking_check_in, event_manage_bids,
  event_view_sales, Target, event_target, venue_target, Appointment, Tables,
  permissions_for_appointment,
}
use fox_passport_republic_ap.Appointment.Access.{
  is_staff_of_event_venue, can_on_found_event, can_on_event, distinct_from, distinct, live_staff,
  staff_of_found_event, staff_ids,
}

abbrev row : Kind → Target → Text → Appointment
row kind target user_id = record {
  id = 50;
  kind = kind;
  status = active;
  target = target;
  user_id = user_id;
  appointed_by_id = 1;
  permissions = permissions_for_appointment kind target;
  expires_at = none;
  responded_at = none;
  ended_at = none;
  ended_by_id = none;
  end_reason = none;
}

abbrev tables : Tables
tables = record {
  appointments = row organizer (event_target 7) 3 ∷ row check_in_helper (venue_target 8) 4 ∷ [];
  events =
      record {
        id = 7;
        organizer_id = 1;
        start_at = 1_000_000_000;
        end_at = 1_010_000_000;
        event_status = ongoing_event;
        accepts_organizer_requests = false;
      }
      ∷ [];
  venues = record { id = 8; mayor_id = 2; accepts_organizer_requests = true } ∷ [];
  users = [];
  venue_bookings = record { event_id = 7; venue_id = 8; is_approved = true } ∷ [];
}

-- Within the seven days after the end, and after them.
grace : can_on_event tables (some 7) 3 event_manage_bids 1_600_000_000 ≡ true
unfolding can_on_event can_on_found_event
grace = refl

after_grace : can_on_event tables (some 7) 3 event_manage_bids 1_700_000_000 ≡ false
unfolding can_on_event can_on_found_event
after_grace = refl

-- The staff of the venue, on the event's day and the day before.
door : can_on_event tables (some 7) 4 booking_check_in 990_000_000 ≡ true
unfolding can_on_event can_on_found_event is_staff_of_event_venue
door = refl

early_door : can_on_event tables (some 7) 4 booking_check_in 970_000_000 ≡ false
unfolding can_on_event can_on_found_event is_staff_of_event_venue
early_door = refl

staff : staff_ids tables (event_target 7) event_view_sales 1_005_000_000 ≡ 1 ∷ 3 ∷ []
unfolding staff_ids staff_of_found_event live_staff distinct distinct_from
staff = refl
