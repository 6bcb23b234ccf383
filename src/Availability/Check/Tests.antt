-- ===== src/Availability/Check/Tests.antt =====
-- Runs of src/modules/availability/availability.service.ts on small tables, and the hypotheses of the
-- theorems met by them.
use fox_passport_republic_ap.Prelude.{err, ok, ◌≡◌, refl, none, some, [], ◌∷◌, arith}
use fox_passport_republic_ap.Availability.Schedule.{Names}
use fox_passport_republic_ap.Availability.Check.{
  asset, venue, CheckItem, pending, Transaction, Tables, conflict, lock_and_check_asset,
  insert_item, sort_deterministically, check_all, reserve,
}
use fox_passport_republic_ap.Availability.Check.Capacity.{
  HasCapacity, transacted, done, further, Steps-HasCapacity,
}

abbrev plain : Names
plain = record { normalize = λ t. t; segments = λ t. t ∷ [] }

-- Five chairs and a hall, of which nothing is reserved.
abbrev tables : Tables
tables = record {
  assets = record { id = 1; quantity = 5 } ∷ [];
  services = [];
  venues = record { id = 2; blocked_dates = 900 ∷ [] } ∷ [];
  event_places = [];
  asset_transactions = [];
  service_transactions = [];
  venue_transactions = [];
  asset_bookings = [];
  service_bookings = [];
}

abbrev chairs : CheckItem
chairs = record {
  kind = asset;
  item_id = 1;
  start = 100;
  end = 200;
  quantity = some 3;
  event_id = none;
  location = none;
}

abbrev hall : CheckItem
hall = record chairs { kind = venue; item_id = 2; quantity = none }

abbrev row : Transaction
row = record {
  item_id = 1;
  quantity = 3;
  status = pending;
  booking_id = none;
  event_id = 7;
  event_start = 100;
  event_end = 200;
  city = none;
}

abbrev taken : Tables
taken = record tables { asset_transactions = row ∷ [] }

-- Three more do not fit, in an overlapping time, and do behind it.
no_room :
    reserve plain taken (record chairs { start = 150; end = 250 } ∷ []) ≡ err (conflict asset 1)
unfolding reserve check_all sort_deterministically insert_item lock_and_check_asset
no_room = refl

later_room : reserve plain taken (record chairs { start = 200; end = 250 } ∷ []) ≡ ok tt
unfolding reserve check_all sort_deterministically insert_item lock_and_check_asset
later_room = refl

Steps-HasCapacity_example : HasCapacity taken
unfolding lock_and_check_asset
Steps-HasCapacity_example =
    Steps-HasCapacity tables taken
      (further tables taken taken
        (transacted tables chairs row refl refl (omega arith) (omega arith) (omega arith))
        (done taken))
      (λ id a x at. omega arith)

abbrev festival : Transaction
festival = record row { item_id = 2; quantity = 1 }

abbrev hosting : Tables
hosting = record tables { venue_transactions = festival ∷ [] }
