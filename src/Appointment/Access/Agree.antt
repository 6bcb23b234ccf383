-- ===== src/Appointment/Access/Agree.antt =====
-- The question whether a user may do something on an event and the list of its staff agree, in
-- src/modules/appointment/appointment.access.ts.
use fox_passport_republic_ap.Prelude.{
  ◌==◌, Bool-cases, Text, Time, truthy, ==→eq, All, any_of, select, find_first, count_where,
  found_holds, any_of-ext, any_of-select, any_of-map, any_of-found, ◌≤◌, ◌≡◌, refl, sym, ap, ◌∙◌,
  subst, inl, inr, Bool, true, false, ◌&&◌, ◌||◌, Option, none, some, List, [], ◌∷◌, arith,
}
use fox_passport_republic_ap.Appointment.Data.{
  Permission, Target, event_target, Appointment, Event, Tables, is_same_target, is_active,
  is_organizer_kind,
}
use fox_passport_republic_ap.Appointment.Access.{
  is_appointment_live, is_event_owner, is_event, includes, is_active_for, appointment_allows,
  is_check_in, can_on_found_event, can_on_event, has_text, distinct_from, distinct, holds,
  live_staff, staff_of_found_event, staff_ids,
}

-- Nobody has two active appointments on one target.
abbrev pub OneActive : Tables → Type 0
OneActive t =
    (target : Target) (user_id : Text)
    → count_where (is_active_for target user_id) t.appointments ≤ 1

-- Who is no Organizer holds the check-in only.
abbrev pub HelpersCheckIn : Tables → Type 0
HelpersCheckIn t =
    (permission : Permission)
    → is_check_in permission ≡ false
    → All (λ a. is_organizer_kind a.kind ≡ false → includes permission a.permissions ≡ false)
        t.appointments

or-skip :
    (d e i s : Bool) → (d || s) ≡ (i || s) → (e ≡ true → s ≡ true) → (d || s) ≡ ((e || i) || s)
or-skip d e i s ih h = ground arith

or-take : (d e i s : Bool) → (d || (e || s)) ≡ (i || (e || s)) → ((e || d) || s) ≡ ((e || i) || s)
or-take d e i s ih = ground arith

or-false : (a b : Bool) → (a || false) ≡ (b || false) → a ≡ b
or-false a b h = ground arith

and-or : (k s b i l : Bool) → ((s && (b && i)) && (l && k)) ≡ ((s && (k && b)) && (i && l))
and-or k s b i l = ground arith

distinct_from-has :
    (u : Text) (seen ids : List Text)
    → (has_text u (distinct_from seen ids) || has_text u seen) ≡ (has_text u ids || has_text u seen)
unfolding distinct_from
distinct_from-has u seen [] = refl
distinct_from-has u seen (id ∷ ids) = elim (Bool-cases (has_text id seen)) [
  | inl t ↦ rw t (
      or-skip (has_text u (distinct_from seen ids)) (id == u) (has_text u ids) (has_text u seen)
        (distinct_from-has u seen ids) (λ e. subst (λ i. has_text i seen ≡ true) (==→eq id u e) t))
  | inr n ↦ rw n (
      or-take (has_text u (distinct_from (id ∷ seen) ids)) (id == u) (has_text u ids)
        (has_text u seen) (distinct_from-has u (id ∷ seen) ids))
]

pub distinct-has : (u : Text) (ids : List Text) → has_text u (distinct ids) ≡ has_text u ids
unfolding distinct
distinct-has u ids =
    or-false (has_text u (distinct_from [] ids)) (has_text u ids) (distinct_from-has u [] ids)

live_staff-has :
    (target : Target) (event : Option Event) (permission : Permission) (now : Time)
    (rows : List Appointment) (u : Text)
    → has_text u (live_staff target event permission now rows)
      ≡ any_of
          (λ a.
            is_active_for target u a
            && (includes permission a.permissions && is_appointment_live a event now))
          rows
unfolding live_staff
live_staff-has target event permission now rows u =
    any_of-map (λ a. a.user_id) (λ i. i == u)
      (select (λ a. is_appointment_live a event now) (select (holds target permission) rows))
    ∙ any_of-select (λ a. is_appointment_live a event now) (λ a. a.user_id == u)
        (select (holds target permission) rows)
    ∙ any_of-select (holds target permission)
        (λ a. is_appointment_live a event now && a.user_id == u) rows
    ∙ any_of-ext _ _ rows (λ a.
      and-or (a.user_id == u) (is_same_target target a.target) (is_active a.status)
        (includes permission a.permissions) (is_appointment_live a event now))

appointment_allows-found :
    (found : Option Appointment) (permission : Permission) (event : Option Event) (now : Time)
    → appointment_allows found permission event now
      ≡ found_holds
          (λ a. includes permission a.permissions && is_appointment_live a event now)
          found
appointment_allows-found none permission event now = refl
appointment_allows-found (some a) permission event now = refl

-- With at most one active appointment of a user on an event.
allows-staff :
    (t : Tables) (event : Event) (u : Text) (permission : Permission) (now : Time)
    → OneActive t
    → appointment_allows
        (find_first (is_active_for (event_target event.id) u) t.appointments)
        permission
        (some event)
        now
      ≡ has_text u (live_staff (event_target event.id) (some event) permission now t.appointments)
allows-staff t event u permission now one =
    appointment_allows-found (find_first (is_active_for (event_target event.id) u) t.appointments)
      permission (some event) now
    ∙ sym (
        any_of-found (is_active_for (event_target event.id) u)
          (λ a. includes permission a.permissions && is_appointment_live a (some event) now)
          t.appointments (one (event_target event.id) u))
    ∙ sym (live_staff-has (event_target event.id) (some event) permission now t.appointments u)

pub or-allows : (o a c b : Bool) → c ≡ false → (o || (a || (c && b))) ≡ (o || a)
or-allows o a c b h = ground arith

or-keeps : (o a b : Bool) → (o || a) ≡ true → (o || (a || b)) ≡ true
or-keeps o a b h = ground arith

found_event-staff :
    (t : Tables) (found : Option Event) (u : Text) (permission : Permission) (now : Time)
    → OneActive t
    → is_check_in permission ≡ false
    → can_on_found_event t found u permission now
      ≡ has_text u (staff_of_found_event t found permission now)
unfolding can_on_found_event staff_of_found_event
found_event-staff t none u permission now one other = refl
found_event-staff t (some event) u permission now one other =
    or-allows (is_event_owner event u) _ (is_check_in permission) _ other
    ∙ ap (λ b. is_event_owner event u || b) (allows-staff t event u permission now one)
    ∙ sym (
        distinct-has u (
          event.organizer_id
          ∷ live_staff (event_target event.id) (some event) permission now t.appointments))

-- Nobody having two active appointments on one target: for every permission but the check-in, who
-- may do it on an event is who is listed in its staff for it.
pub can_on_event-staff_ids :
    (t : Tables) (id u : Text) (permission : Permission) (now : Time)
    → OneActive t
    → truthy (some id) ≡ true
    → is_check_in permission ≡ false
    → can_on_event t (some id) u permission now
      ≡ has_text u (staff_ids t (event_target id) permission now)
unfolding can_on_event staff_ids
can_on_event-staff_ids t id u permission now one named other =
    rw named (found_event-staff t (find_first (is_event id) t.events) u permission now one other)
