-- ===== src/Availability/Check/Exclusive.antt =====
-- A venue and a service are never promised twice for one time: the checks of
-- src/modules/availability/availability.service.ts and the insertions behind them.
use fox_passport_republic_ap.Prelude.{
  ltb, leb, ◌==◌, Text, Time, Any, any_of, find_first, count_where, update_where, ok, ◌+◌, ◌≤◌, ◌≡◌,
  Bool, true, not, ◌&&◌, some, List, ◌∷◌,
}
use fox_passport_republic_ap.Availability.Schedule.{Names}
use fox_passport_republic_ap.Availability.Check.{
  service, venue, CheckItem, cancelled, Transaction, ServiceBooking, Venue, Tables, service_end,
  reserve,
}
use fox_passport_republic_ap.Availability.Check.Capacity.{is_out}

-- A direct booking of a service that takes place at an instant.
abbrev pub is_served : Text → Time → ServiceBooking → Bool
is_served id x b =
    b.service_id == id && (not b.is_cancelled && (leb b.scheduled_date x && ltb x (service_end b)))

-- At any instant a venue has at most one reservation, and a service at most one reservation or direct
-- booking; and no venue is reserved over a date that its owner blocked.
pub record IsExclusive (t : Tables) : Type 0 where
  pub one_event : (id : Text) (x : Time) → count_where (is_out id x) t.venue_transactions ≤ 1
  pub one_service :
      (id : Text) (x : Time)
      → count_where (is_out id x) t.service_transactions
          + count_where (is_served id x) t.service_bookings
        ≤ 1
  pub unblocked :
      (d : Time) (v : Venue)
      → find_first (λ w. w.id == v.id) t.venues ≡ some v
      → any_of (λ b. b == d) v.blocked_dates ≡ true
      → count_where (is_out v.id d) t.venue_transactions ≡ 0

abbrev cancel : Transaction → Transaction
cancel row = record row { status = cancelled }

-- An insertion behind a reservation of the item, within the item's range, or the end of a reservation.
pub data Step (names : Names) : Tables → Tables → Type 0 where
  venue_reserved :
      (t : Tables) (items : List CheckItem) (item : CheckItem) (row : Transaction)
      → reserve names t items ≡ ok tt
      → Any (λ i. i ≡ item) items
      → item.kind ≡ venue
      → row.item_id ≡ item.item_id
      → item.start ≤ row.event_start
      → row.event_end ≤ item.end
      → Step names t (record t { venue_transactions = row ∷ t.venue_transactions })
  service_reserved :
      (t : Tables) (items : List CheckItem) (item : CheckItem) (row : Transaction)
      → reserve names t items ≡ ok tt
      → Any (λ i. i ≡ item) items
      → item.kind ≡ service
      → row.item_id ≡ item.item_id
      → item.start ≤ row.event_start
      → row.event_end ≤ item.end
      → Step names t (record t { service_transactions = row ∷ t.service_transactions })
  service_booked :
      (t : Tables) (items : List CheckItem) (item : CheckItem) (b : ServiceBooking)
      → reserve names t items ≡ ok tt
      → Any (λ i. i ≡ item) items
      → item.kind ≡ service
      → b.service_id ≡ item.item_id
      → item.start ≤ b.scheduled_date
      → service_end b ≤ item.end
      → Step names t (record t { service_bookings = b ∷ t.service_bookings })
  released :
      (t : Tables) (q q' : Transaction → Bool)
      → Step names t (record t {
        venue_transactions = update_where q cancel t.venue_transactions;
        service_transactions = update_where q' cancel t.service_transactions;
      })

pub data Steps (names : Names) : Tables → Tables → Type 0 where
  finished : (t : Tables) → Steps names t t
  onward : (t mid t' : Tables) → Step names t mid → Steps names mid t' → Steps names t t'
