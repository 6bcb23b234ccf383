-- ===== src/Availability/Check.antt =====
-- Whether assets, services and venues are free: src/modules/availability/availability.service.ts. The
-- locks make a check and the insertion behind it one step. Rows of transactions have the columns of
-- their event; identifiers are ordered as their numbers.
pub mod Capacity
pub mod Reserve
pub mod Exclusive
mod Tests
use fox_passport_republic_ap.Prelude.{
  ltb, leb, ◌==◌, if◌then◌else◌, ltb→lt, lt→ltb, leb→le, ==_iff, ==_refl, Bool-cases, Option-cases,
  Text, Time, is_some, or_else, truthy, same, excludes, ==→eq, and-false, is_some-false, not-false,
  and_false, length, length-append, All, Any, All-append, All-map, All-everywhere, any_of, select,
  find_first, count_where, sum_of, update_where, find_first_sound, find_first-All, All-select,
  All-Any, find_first-Any, Any-map, Result, err, ok, ◌>>=◌, ◌>>◌, throw_if, or_throw, is_ok,
  Result-cases, >>=-eq-ok, >>-eq-ok, or_throw-eq-ok, throw_if-eq-ok, ok-injective, guard-eq-ok,
  require-eq-ok, found-eq-ok, true_not_false, count_where-append, count_where-update_where,
  find_first-none, count_where-none, count_where-0, find_first-only, count_where-kept,
  count_where-cleared, count_where-found, count_where-same, find_first-again,
  find_first-update_where, find_first-absent, find_first-untouched, count_where-fewer, found_holds,
  any_of-ext, any_of-select, any_of-map, any_of-none, any_of-found, ℕ, zero, suc, ◌+◌, ◌-◌, ◌*◌,
  ◌/◌, ◌%◌, ◌^◌, ◌≤◌, ◌<◌, min, max, ◌≡◌, refl, sym, ap, ◌∙◌, subst, ◌≢◌, ◌↔◌, ◌⊎◌, inl, inr, Bool,
  true, false, not, ◌&&◌, ◌||◌, Option, none, some, some-injective, List, [], ◌∷◌, ◌++◌, map, arith,
}
use fox_passport_republic_ap.Availability.Schedule.{
  day_ms, Place, Engagement, Names, has_day, but_last, local_parts, city_of, text_of, share_part,
  same_city, day_of, last_instant, days_from, day_keys, last_day, travel_around, Verdict, free,
  booked, travel, invalid_date, is_empty, meets, conflict_loop, find_schedule_conflict,
  needs_travel, Blocked, booked_of, travel_of, provider_blocked_days,
}

pub data ItemKind : Type 0 where
  asset service venue : ItemKind

-- AvailabilityCheckItem
pub record CheckItem : Type 0 where
  pub kind : ItemKind
  pub item_id : Text
  pub start : Time
  pub end : Time
  pub quantity : Option ℕ
  pub event_id : Option Text
  pub location : Option Text

-- TransactionStatus
pub data Status : Type 0 where
  pending_provider_confirmation pending approved rejected cancelled : Status

-- A row of one of the three transaction tables; only an asset's quantity is read.
pub record Transaction : Type 0 where
  pub item_id : Text
  pub quantity : ℕ
  pub status : Status
  pub booking_id : Option Text
  pub event_id : Text
  pub event_start : Time
  pub event_end : Time
  pub city : Option Text  -- `targetCity`, or the city of the event's first venue

pub record AssetBooking : Type 0 where
  pub asset_id : Text
  pub quantity : ℕ
  pub is_cancelled : Bool
  pub start_date : Time
  pub end_date : Time

pub record ServiceBooking : Type 0 where
  pub service_id : Text
  pub is_cancelled : Bool
  pub is_disputed : Bool
  pub scheduled_date : Time
  pub end_date : Option Time
  pub location : Option Text

pub record Asset : Type 0 where
  pub id : Text
  pub quantity : ℕ

pub record Service : Type 0 where
  pub id : Text
  pub owner_id : Text

pub record Venue : Type 0 where
  pub id : Text
  pub blocked_dates : List Time

pub record EventPlace : Type 0 where
  pub id : Text
  pub city : Option Text

pub record Tables : Type 0 where
  pub assets : List Asset
  pub services : List Service
  pub venues : List Venue
  pub event_places : List EventPlace
  pub asset_transactions : List Transaction
  pub service_transactions : List Transaction
  pub venue_transactions : List Transaction
  pub asset_bookings : List AssetBooking
  pub service_bookings : List ServiceBooking

pub data Error : Type 0 where
  not_found invalid_day : Error
  conflict : ItemKind → Text → Error

-- RESERVING_TRANSACTION_STATUSES
abbrev pub is_reserving : Status → Bool
is_reserving rejected = false
is_reserving cancelled = false
is_reserving _ = true

abbrev pub overlaps : Time → Time → Time → Time → Bool
overlaps start end from to = ltb from end && ltb start to

-- The rows of a booking itself are left out at its checkout, if it is named.
abbrev pub is_counted : Option Text → Option Text → Bool
is_counted none booking_id = true
is_counted (some excluded) none = true
is_counted (some excluded) (some booking_id) = excluded == 0 || not (booking_id == excluded)

abbrev pub takes : CheckItem → Option Text → Transaction → Bool
takes item excluded row =
    row.item_id == item.item_id
    && (is_reserving row.status
        && (overlaps item.start item.end row.event_start row.event_end
            && is_counted excluded row.booking_id))

abbrev pub takes_directly : CheckItem → AssetBooking → Bool
takes_directly item b =
    b.asset_id == item.item_id
    && (not b.is_cancelled && overlaps item.start item.end b.start_date b.end_date)

abbrev pub already_reserved : Tables → CheckItem → Option Text → ℕ
already_reserved t item excluded =
    sum_of (λ row. row.quantity) (select (takes item excluded) t.asset_transactions)
    + sum_of (λ b. b.quantity) (select (takes_directly item) t.asset_bookings)

pub lock_and_check_asset : Tables → CheckItem → Option Text → Result Error (Unit {0})
lock_and_check_asset t item excluded = do
  a ← or_throw (find_first (λ a. a.id == item.item_id) t.assets) not_found
  throw_if (ltb a.quantity (already_reserved t item excluded + or_else item.quantity 1))
      (conflict asset item.item_id)

-- A booking without an end is over on its own date.
abbrev pub service_end : ServiceBooking → Time
service_end b = or_else b.end_date b.scheduled_date

abbrev pub serves_directly : CheckItem → ServiceBooking → Bool
serves_directly item b =
    b.service_id == item.item_id
    && (not b.is_cancelled && overlaps item.start item.end b.scheduled_date (service_end b))

abbrev pub owns : Tables → Text → Text → Bool
owns t owner_id service_id =
    found_holds (λ s. s.owner_id == owner_id) (find_first (λ s. s.id == service_id) t.services)

-- `excludeEventId ? { eventId: { not: excludeEventId } } : {}`
abbrev pub is_other_event : Option Text → Text → Bool
is_other_event excluded event_id = not (truthy excluded && same excluded (some event_id))

abbrev pub transaction_engagement : Transaction → Engagement
transaction_engagement row = record {
  start = row.event_start;
  end = row.event_end;
  event_id = some row.event_id;
  place = record { city = row.city; text = none };
}

abbrev pub booking_engagement : ServiceBooking → Engagement
booking_engagement b = record {
  start = b.scheduled_date;
  end = service_end b;
  event_id = none;
  place = record { city = none; text = b.location };
}

-- Overlapping the range with two days on either side, the first of them added on the other side.
abbrev pub is_near : Time → Time → Time → Time → Bool
is_near start end from to = ltb from (end + 2 * day_ms) && ltb start (to + 2 * day_ms)

abbrev pub is_engaging : Tables → Text → CheckItem → Option Text → Transaction → Bool
is_engaging t owner_id item excluded row =
    owns t owner_id row.item_id
    && (is_reserving row.status
        && (is_near item.start item.end row.event_start row.event_end
            && (is_other_event item.event_id row.event_id && is_counted excluded row.booking_id)))

abbrev pub is_engaging_directly : Tables → Text → CheckItem → ServiceBooking → Bool
is_engaging_directly t owner_id item b =
    owns t owner_id b.service_id
    && (not (b.is_cancelled || b.is_disputed)
        && is_near item.start item.end b.scheduled_date (service_end b))

-- findProviderEngagements, in the buffered window of the item.
pub find_provider_engagements : Tables → Text → CheckItem → Option Text → List Engagement
find_provider_engagements t owner_id item excluded =
    map transaction_engagement
      (select (is_engaging t owner_id item excluded) t.service_transactions)
    ++ map booking_engagement (select (is_engaging_directly t owner_id item) t.service_bookings)

abbrev pub found_city : Option EventPlace → Option Text
found_city none = none
found_city (some e) = e.city

pub resolve_place : Tables → CheckItem → Place
resolve_place t item =
    if truthy item.event_id
    then record {
      city = found_city (find_first (λ e. e.id == or_else item.event_id 0) t.event_places);
      text = none;
    }
    else record { city = none; text = item.location }

abbrev pub refuse_clash : Text → Verdict → Result Error (Unit {0})
refuse_clash id free = ok tt
refuse_clash id invalid_date = err invalid_day
refuse_clash id _ = err (conflict service id)

abbrev pub kind_order : ItemKind → ℕ
kind_order asset = 0
kind_order service = 1
kind_order venue = 2

abbrev pub comes_first : CheckItem → CheckItem → Bool
comes_first a b =
    if kind_order a.kind == kind_order b.kind
    then leb a.item_id b.item_id
    else ltb (kind_order a.kind) (kind_order b.kind)

pub insert_item : CheckItem → List CheckItem → List CheckItem
insert_item a [] = a ∷ []
insert_item a (b ∷ items) =
    let later = insert_item a items in if comes_first a b then a ∷ (b ∷ items) else b ∷ later

-- A stable sort, by insertion.
pub sort_deterministically : List CheckItem → List CheckItem
unfolding insert_item
sort_deterministically [] = []
sort_deterministically (a ∷ items) = insert_item a (sort_deterministically items)

module _ (names : Names) where
  check_schedule : Tables → CheckItem → Option Text → Option Service → Result Error (Unit {0})
  unfolding find_provider_engagements resolve_place
  check_schedule t item excluded none = ok tt
  check_schedule t item excluded (some s) = refuse_clash item.item_id (
      find_schedule_conflict names item.start item.end (resolve_place t item)
        (find_provider_engagements t s.owner_id item excluded))

  pub lock_and_check_service : Tables → CheckItem → Option Text → Result Error (Unit {0})
  unfolding check_schedule
  lock_and_check_service t item excluded = do
    throw_if
        (any_of (takes item excluded) t.service_transactions
          || any_of (serves_directly item) t.service_bookings)
        (conflict service item.item_id)
    check_schedule t item excluded (find_first (λ s. s.id == item.item_id) t.services)

  pub lock_and_check_venue : Tables → CheckItem → Option Text → Result Error (Unit {0})
  lock_and_check_venue t item excluded = do
    v ← or_throw (find_first (λ v. v.id == item.item_id) t.venues) not_found
    throw_if (any_of (λ d. leb item.start d && ltb d item.end) v.blocked_dates)
        (conflict venue item.item_id)
    throw_if (any_of (takes item excluded) t.venue_transactions) (conflict venue item.item_id)

  abbrev pub lock_and_check_one : Tables → CheckItem → Option Text → Result Error (Unit {0})
  lock_and_check_one t item excluded = elim item.kind [
    | asset ↦ lock_and_check_asset t item excluded
    | service ↦ lock_and_check_service t item excluded
    | venue ↦ lock_and_check_venue t item excluded
  ]

  pub check_all : Tables → Option Text → List CheckItem → Result Error (Unit {0})
  check_all t excluded [] = ok tt
  check_all t excluded (item ∷ items) =
      lock_and_check_one t item excluded >> check_all t excluded items

  pub reserve : Tables → List CheckItem → Result Error (Unit {0})
  unfolding check_all sort_deterministically
  reserve t items = check_all t none (sort_deterministically items)

  pub validate_for_checkout : Tables → Text → List CheckItem → Result Error (Unit {0})
  unfolding check_all sort_deterministically
  validate_for_checkout t booking_id items =
      check_all t (some booking_id) (sort_deterministically items)
