-- ===== src/Appointment/Experience/Tests.antt =====
-- A run of src/modules/appointment/organizer-xp.service.ts, and the hypothesis of the theorem met by
-- it.
use fox_passport_republic_ap.Prelude.{select, sum_of, ◌≤◌, ◌≡◌, refl, none, List, [], ◌∷◌, arith}
use fox_passport_republic_ap.Appointment.Data.{
  organizer, active, event_target, Appointment, Tables, event_organizer_permissions,
}
use fox_passport_republic_ap.Appointment.Experience.{
  Ledger, has_key, Occasion, checked_in, completed, run,
}
use fox_passport_republic_ap.Appointment.Experience.Earned.{worth, earned}
use fox_passport_republic_ap.Appointment.Experience.Bounds.{run_bounds}

abbrev helper_row : Appointment
helper_row = record {
  id = 50;
  kind = organizer;
  status = active;
  target = event_target 7;
  user_id = 3;
  appointed_by_id = 1;
  permissions = event_organizer_permissions;
  expires_at = none;
  responded_at = none;
  ended_at = none;
  ended_by_id = none;
  end_reason = none;
}

abbrev tables : Tables
tables = record {
  appointments = helper_row ∷ [];
  events = [];
  venues = [];
  users = [];
  venue_bookings = [];
}

abbrev empty : Ledger
empty = record { rows = []; awards = [] }

-- Two guests, a completion that runs twice, and a guest of a person who does not organize.
abbrev occasions : List Occasion
occasions =
    checked_in tables 7 3
    ∷ completed tables 7
    ∷ checked_in tables 7 3
    ∷ completed tables 7
    ∷ checked_in tables 7 4
    ∷ []

run_bounds_example :
    (earned 3 7 (run occasions empty)
      ≡ sum_of worth (select (has_key 3 7) (run occasions empty).rows))
    × (earned 3 7 (run occasions empty) ≤ 250)
run_bounds_example =
    run_bounds occasions empty 3 7
      (record { one_row = λ u e. omega arith; capped = tt; balanced = λ u e. refl })
