-- ===== src/Availability/Schedule.antt =====
-- The days of a provider: src/modules/availability/provider-schedule.ts. Days are numbers, counted from
-- the day before the epoch, in place of their ISO strings; the clean-up of names by regular expressions
-- is a parameter.
pub mod Agree
mod Tests
use fox_passport_republic_ap.Prelude.{
  ltb, leb, ◌==◌, if◌then◌else◌, ltb→lt, lt→ltb, leb→le, ==_iff, ==_refl, Bool-cases, Option-cases,
  Text, Time, is_some, or_else, truthy, same, excludes, ==→eq, and-false, is_some-false, not-false,
  and_false, length, length-append, All, Any, All-append, All-map, All-everywhere, any_of, select,
  find_first, count_where, sum_of, update_where, find_first_sound, find_first-All, All-select,
  All-Any, find_first-Any, Any-map, Result, err, ok, ◌>>=◌, ◌>>◌, throw_if, or_throw, is_ok,
  Result-cases, >>=-eq-ok, >>-eq-ok, or_throw-eq-ok, throw_if-eq-ok, ok-injective, guard-eq-ok,
  require-eq-ok, found-eq-ok, true_not_false, count_where-append, count_where-update_where,
  find_first-none, count_where-none, count_where-0, find_first-only, count_where-kept,
  count_where-cleared, count_where-found, count_where-same, find_first-again,
  find_first-update_where, find_first-absent, find_first-untouched, count_where-fewer, found_holds,
  any_of-ext, any_of-select, any_of-map, any_of-none, any_of-found, ℕ, zero, suc, ◌+◌, ◌-◌, ◌*◌,
  ◌/◌, ◌%◌, ◌^◌, ◌≤◌, ◌<◌, min, max, ◌≡◌, refl, sym, ap, ◌∙◌, subst, ◌≢◌, ◌↔◌, ◌⊎◌, inl, inr, Bool,
  true, false, not, ◌&&◌, ◌||◌, Option, none, some, some-injective, List, [], ◌∷◌, ◌++◌, map, arith,
}

abbrev pub day_ms : ℕ
day_ms = 86_400_000

-- Where a booking happens; 0 is the empty string.
pub record Place : Type 0 where
  pub city : Option Text
  pub text : Option Text

pub record Engagement : Type 0 where
  pub start : Time
  pub end : Time
  pub event_id : Option Text
  pub place : Place

-- `normalize`, and `segments` of a text.
pub record Names : Type 0 where
  pub normalize : Text → Text
  pub segments : Text → List Text

abbrev pub has_day : ℕ → List ℕ → Bool
has_day d = any_of (λ e. e == d)

-- All but the last.
abbrev pub but_last : List Text → List Text
but_last [] = []
but_last (x ∷ []) = []
but_last (x ∷ (y ∷ xs)) = x ∷ but_last (y ∷ xs)

abbrev pub local_parts : List Text → List Text
local_parts [] = []
local_parts (x ∷ []) = x ∷ []
local_parts (x ∷ (y ∷ xs)) = but_last (x ∷ (y ∷ xs))

module _ (names : Names) where
  -- `place.city ? normalize(place.city) : ""`
  abbrev pub city_of : Place → Text
  city_of p = if truthy p.city then names.normalize (or_else p.city 0) else 0

  abbrev pub text_of : Place → Text
  text_of p = or_else p.text 0

  abbrev pub share_part : Text → Text → Bool
  share_part a b =
      any_of (λ s. has_day s (local_parts (names.segments a))) (local_parts (names.segments b))

  pub same_city : Place → Place → Bool
  same_city a b =
      if truthy (some (city_of a)) && truthy (some (city_of b))
      then city_of a == city_of b
      else if truthy (some (city_of a)) && truthy b.text
      then has_day (city_of a) (names.segments (text_of b))
      else if truthy (some (city_of b)) && truthy a.text
      then has_day (city_of b) (names.segments (text_of a))
      else truthy a.text && (truthy b.text && share_part (text_of a) (text_of b))

abbrev pub day_of : Time → ℕ
day_of t = t / day_ms + 1

-- An end at midnight belongs to the day before.
pub last_instant : Time → Time → Time
last_instant start end = if ltb start end && (end % day_ms == 0) then end - 1 else end

abbrev pub days_from : ℕ → ℕ → List ℕ
days_from first zero = []
days_from first (suc n) = first ∷ days_from (suc first) n

-- The days that a range touches, and none if it ends on a day before its first.
pub day_keys : Time → Time → List ℕ
unfolding last_instant
day_keys start end = days_from (day_of start) (suc (day_of (last_instant start end)) - day_of start)

abbrev pub last_day : ℕ → List ℕ → ℕ
last_day d [] = d
last_day d (e ∷ days) = last_day e days

-- The days of travel around the days of an engagement.
abbrev pub travel_around : List ℕ → List ℕ
travel_around [] = []
travel_around (d ∷ days) = (d - 1) ∷ (last_day d days + 1) ∷ []

pub data Verdict : Type 0 where
  free booked travel : Verdict
  -- An engagement without days: `shiftDay` throws.
  invalid_date : Verdict

abbrev pub is_empty : List ℕ → Bool
is_empty [] = true
is_empty _ = false

-- Some day of the second list is one of the first.
abbrev pub meets : List ℕ → List ℕ → Bool
meets wanted days = any_of (λ d. has_day d wanted) days

module _ (names : Names) where
  pub conflict_loop : List ℕ → Place → Bool → List Engagement → Verdict
  unfolding same_city
  conflict_loop wanted place seen_travel [] = if seen_travel then travel else free
  conflict_loop wanted place seen_travel (e ∷ es) =
      let days = day_keys e.start e.end in
      let asks = not seen_travel && not (same_city names place e.place) in
      let rest =
        conflict_loop wanted place (seen_travel || (asks && meets wanted (travel_around days)))
          es in
      if meets wanted days then booked else if asks && is_empty days then invalid_date else rest

  pub find_schedule_conflict : Time → Time → Place → List Engagement → Verdict
  unfolding conflict_loop day_keys
  find_schedule_conflict start end place engagements =
      conflict_loop (day_keys start end) place false engagements

  abbrev pub needs_travel : Option Place → Place → Bool
  needs_travel none there = true
  needs_travel (some here) there = not (same_city names here there)

  pub record Blocked : Type 0 where
    pub booked_days : List ℕ
    pub travel_days : List ℕ

  pub booked_of : List Engagement → List ℕ
  unfolding day_keys
  booked_of [] = []
  booked_of (e ∷ es) = day_keys e.start e.end ++ booked_of es

  pub travel_of : Option Place → List Engagement → List ℕ
  unfolding day_keys same_city
  travel_of request [] = []
  travel_of request (e ∷ es) =
      let rest = travel_of request es in
      if needs_travel request e.place then travel_around (day_keys e.start e.end) ++ rest else rest

  -- The two sets of days, of engagements that have days; their order is left out.
  pub provider_blocked_days : List Engagement → Option Place → Blocked
  unfolding booked_of travel_of
  provider_blocked_days es request = record {
    booked_days = booked_of es;
    travel_days = select (λ d. not (has_day d (booked_of es))) (travel_of request es);
  }
