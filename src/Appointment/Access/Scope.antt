-- ===== src/Appointment/Access/Scope.antt =====
-- The filters of events and venues in src/modules/appointment/appointment.access.ts agree with the
-- question of one event or venue.
use fox_passport_republic_ap.Prelude.{
  ltb, ◌==◌, Option-cases, Text, Time, truthy, All, any_of, select, find_first, find_first_sound,
  find_first-All, found_holds, any_of-ext, any_of-select, any_of-map, any_of-found, ◌+◌, ◌≡◌, refl,
  sym, ap, ◌∙◌, inl, inr, Bool, true, false, not, ◌&&◌, ◌||◌, some, List, ◌∷◌, map, arith,
}
use fox_passport_republic_ap.Appointment.Data.{
  Kind, organizer, check_in_helper, Permission, event_target, venue_target, Appointment, Event,
  Venue, Tables, is_same_target, is_active, is_organizer_kind, is_cancelled,
}
use fox_passport_republic_ap.Appointment.Access.{
  event_organizer_grace_ms, lasts_until, is_event_owner, is_venue_mayor, is_event, is_venue,
  includes, is_active_for, appointment_allows, is_check_in, can_on_found_event, can_on_event,
  can_on_found_venue, can_on_venue, has_text, holds, staff_of_found_venue, staff_ids, event_scope,
  venue_scope,
}
use fox_passport_republic_ap.Appointment.Access.Agree.{
  OneActive, HelpersCheckIn, distinct-has, or-allows,
}

-- An appointment that is active, by what its kind makes of the grace and of the permission.
row-scope :
    (inc act c w w' k : Bool)
    → act ≡ true
    → (k ≡ true → w ≡ w')
    → (k ≡ false → inc ≡ false)
    → (inc && (act && (c && w))) ≡ (c && (w' && (k && inc)))
row-scope inc act c w w' k a h h' = ground arith

organizer_lasts :
    (kind : Kind) (event : Event) (now : Time)
    → is_organizer_kind kind ≡ true
    → ltb now (lasts_until kind event) ≡ ltb now (event.end_at + event_organizer_grace_ms)
organizer_lasts organizer event now o = refl
organizer_lasts check_in_helper event now o = cc

and-right : (a b c : Bool) → (a && (b && c)) ≡ true → c ≡ true
and-right a b c h = ground arith

and-none : (a b : Bool) → false ≡ (a && (b && false))
and-none a b = ground arith

found-scope :
    (event : Event) (u : Text) (permission : Permission) (now : Time) (rows : List Appointment)
    → All (λ a. is_organizer_kind a.kind ≡ false → includes permission a.permissions ≡ false) rows
    → appointment_allows
        (find_first (is_active_for (event_target event.id) u) rows)
        permission
        (some event)
        now
      ≡ (not (is_cancelled event.event_status)
          && (ltb now (event.end_at + event_organizer_grace_ms)
              && found_holds
                  (λ a. is_organizer_kind a.kind && includes permission a.permissions)
                  (find_first (is_active_for (event_target event.id) u) rows)))
found-scope event u permission now rows helpers =
    elim (Option-cases (find_first (is_active_for (event_target event.id) u) rows)) [
      | inl missing ↦ rw missing (
          and-none (not (is_cancelled event.event_status))
            (ltb now (event.end_at + event_organizer_grace_ms)))
      | inr (a, at) ↦ rw at (
          row-scope (includes permission a.permissions) (is_active a.status)
            (not (is_cancelled event.event_status)) (ltb now (lasts_until a.kind event))
            (ltb now (event.end_at + event_organizer_grace_ms)) (is_organizer_kind a.kind)
            (and-right (is_same_target (event_target event.id) a.target) (a.user_id == u)
              (is_active a.status)
              (find_first_sound (is_active_for (event_target event.id) u) rows a at))
            (organizer_lasts a.kind event now)
            (find_first-All
              (λ a. is_organizer_kind a.kind ≡ false → includes permission a.permissions ≡ false)
              (is_active_for (event_target event.id) u) rows a helpers at))
    ]

-- Nobody having two active appointments on one target, and helpers holding the check-in only: for
-- every permission but the check-in, a user may do it on an event exactly if the filter for the user
-- and the permission lets the event through.
pub can_on_event-event_scope :
    (t : Tables) (id u : Text) (permission : Permission) (now : Time) (event : Event)
    → OneActive t
    → HelpersCheckIn t
    → truthy (some id) ≡ true
    → find_first (is_event id) t.events ≡ some event
    → is_check_in permission ≡ false
    → can_on_event t (some id) u permission now ≡ event_scope t u permission now event
unfolding can_on_event can_on_found_event event_scope
can_on_event-event_scope t id u permission now event one helpers named at other =
    rw (named, at)
      (or-allows (is_event_owner event u) _ (is_check_in permission) _ other
        ∙ ap (λ b. is_event_owner event u || b)
            (found-scope event u permission now t.appointments (helpers permission other))
        ∙ ap
            (λ b.
              is_event_owner event u
              || (not (is_cancelled event.event_status)
                  && (ltb now (event.end_at + event_organizer_grace_ms) && b)))
            (sym (
              any_of-found (is_active_for (event_target event.id) u)
                (λ a. is_organizer_kind a.kind && includes permission a.permissions) t.appointments
                (one (event_target event.id) u))))

and-or-venue : (s u b i : Bool) → ((s && (u && b)) && i) ≡ ((s && (b && i)) && u)
and-or-venue s u b i = ground arith

found_permits :
    (u : Text) (permission : Permission) (venue : Venue) (t : Tables)
    → OneActive t
    → any_of
        (λ a. is_active_for (venue_target venue.id) u a && includes permission a.permissions)
        t.appointments
      ≡ found_holds
          (λ a. includes permission a.permissions)
          (find_first (is_active_for (venue_target venue.id) u) t.appointments)
found_permits u permission venue t one =
    any_of-found (is_active_for (venue_target venue.id) u) (λ a. includes permission a.permissions)
      t.appointments (one (venue_target venue.id) u)

-- Nobody having two active appointments on one target: who may do it on a venue is who the filter of
-- the venues admits, and who is listed in the venue's staff for it.
pub can_on_venue-agree :
    (t : Tables) (id u : Text) (permission : Permission) (now : Time) (venue : Venue)
    → OneActive t
    → truthy (some id) ≡ true
    → find_first (is_venue id) t.venues ≡ some venue
    → (can_on_venue t (some id) u permission ≡ venue_scope t u permission venue)
      × (can_on_venue t (some id) u permission
          ≡ has_text u (staff_ids t (venue_target id) permission now))
unfolding can_on_venue can_on_found_venue venue_scope staff_ids staff_of_found_venue
can_on_venue-agree t id u permission now venue one named at = (
  rw (named, at)
      (ap (λ b. is_venue_mayor venue u || b) (sym (found_permits u permission venue t one))),
  rw (named, at)
      (ap (λ b. is_venue_mayor venue u || b)
          (sym (found_permits u permission venue t one)
            ∙ any_of-ext _ _ t.appointments (λ a.
              and-or-venue (is_same_target (venue_target venue.id) a.target) (a.user_id == u)
                (is_active a.status) (includes permission a.permissions))
            ∙ sym (
                any_of-select (holds (venue_target venue.id) permission) (λ a. a.user_id == u)
                  t.appointments)
            ∙ sym (
                any_of-map (λ a. a.user_id) (λ i. i == u)
                  (select (holds (venue_target venue.id) permission) t.appointments)))
        ∙ sym (
            distinct-has u (
              venue.mayor_id
              ∷ map (λ a. a.user_id)
                  (select (holds (venue_target venue.id) permission) t.appointments)))),
)
