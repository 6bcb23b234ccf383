-- ===== src/Availability/Schedule/Tests.antt =====
-- Runs of src/modules/availability/provider-schedule.ts on a few engagements, and the hypotheses of
-- the theorems met by them.
use fox_passport_republic_ap.Prelude.{◌+◌, ◌*◌, ◌≡◌, refl, none, some, [], ◌∷◌, arith}
use fox_passport_republic_ap.Availability.Schedule.{
  day_ms, Place, Engagement, Names, same_city, last_instant, day_keys, free, booked, travel, meets,
  conflict_loop, find_schedule_conflict, provider_blocked_days,
}
use fox_passport_republic_ap.Availability.Schedule.Agree.{
  same_city-sym, verdict_of, find_schedule_conflict-calendar,
}

-- Names that are clean already, and texts of one segment.
abbrev plain : Names
plain = record { normalize = λ t. t; segments = λ t. t ∷ [] }

abbrev cebu : Place
cebu = record { city = some 5; text = none }

abbrev makati : Place
makati = record { city = none; text = some 6 }

-- Two days in Cebu, until a midnight.
abbrev engagement : Engagement
engagement = record {
  start = 10 * day_ms + 1000;
  end = 12 * day_ms;
  event_id = some 1;
  place = cebu;
}

two_days : day_keys engagement.start engagement.end ≡ 11 ∷ 12 ∷ []
unfolding day_keys last_instant
two_days = refl

same_day :
    find_schedule_conflict plain (11 * day_ms) (11 * day_ms + 1) cebu (engagement ∷ []) ≡ booked
unfolding find_schedule_conflict conflict_loop same_city day_keys last_instant
same_day = refl

next_day_elsewhere :
    find_schedule_conflict plain (12 * day_ms) (12 * day_ms + 1) makati (engagement ∷ []) ≡ travel
unfolding find_schedule_conflict conflict_loop same_city day_keys last_instant
next_day_elsewhere = refl

next_day_there :
    find_schedule_conflict plain (12 * day_ms) (12 * day_ms + 1) cebu (engagement ∷ []) ≡ free
unfolding find_schedule_conflict conflict_loop same_city day_keys last_instant
next_day_there = refl

same_city-sym_example : same_city plain cebu makati ≡ same_city plain makati cebu
same_city-sym_example = same_city-sym plain cebu makati

find_schedule_conflict-calendar_example :
    find_schedule_conflict plain (12 * day_ms) (12 * day_ms + 1) makati (engagement ∷ [])
    ≡ verdict_of
        (meets
          (day_keys (12 * day_ms) (12 * day_ms + 1))
          (provider_blocked_days plain (engagement ∷ []) (some makati)).booked_days)
        (meets
          (day_keys (12 * day_ms) (12 * day_ms + 1))
          (provider_blocked_days plain (engagement ∷ []) (some makati)).travel_days)
find_schedule_conflict-calendar_example =
    find_schedule_conflict-calendar plain (12 * day_ms) (12 * day_ms + 1) makati (engagement ∷ [])
      (omega arith, tt)
