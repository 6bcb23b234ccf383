-- ===== src/Appointment/Team/Calls/Insert.antt =====
-- The calls of src/modules/appointment/appointment.service.ts that make an appointment close an
-- expired one and add a row.
use fox_passport_republic_ap.Prelude.{
  leb, ◌==◌, if◌then◌else◌, ==_refl, Bool-cases, Text, Time, is_some, and-false, is_some-false,
  All-map, All-everywhere, find_first, count_where, find_first_sound, ok, >>=-eq-ok, >>-eq-ok,
  ok-injective, guard-eq-ok, require-eq-ok, found-eq-ok, true_not_false, count_where-update_where,
  find_first-only, find_first-again, find_first-absent, ℕ, ◌≤◌, ◌<◌, ◌≡◌, refl, sym, subst, inl,
  inr, Bool, true, false, not, ◌&&◌, Option, none, some, List, arith,
}
use fox_passport_republic_ap.Appointment.Data.{
  Kind, organizer, check_in_helper, Status, invited, requested, active, declined, ended, Target,
  Appointment, Tables, permissions_for_appointment, is_same_target, is_active, is_live_status,
  is_answerable, is_requested, is_organizer_kind,
}
use fox_passport_republic_ap.Appointment.Access.{is_invitation_open, expires_after}
use fox_passport_republic_ap.Appointment.Team.{
  not_manager, event_is_over, user_not_found, is_owner, not_organizer, already_on_team,
  too_many_requests, duplicate_id, Caller, Invitee, max_open_requests, has_id, is_live_for,
  is_open_request, resolve_target, find_invitee, expire, is_expired, retire_if_expired, insert,
  appointed, replace_expired, appoint, Reason, standing_reason, first_reason, join_reason, refuse,
  requested_row, request_to_join,
}
use fox_passport_republic_ap.Appointment.Team.Change.{
  Change, kept, inserted, answered, next, expire-IsAnswer,
}
use fox_passport_republic_ap.Appointment.Team.Invariant.{IsTeams}

and-last : (a b c : Bool) → (a && (b && c)) ≡ true → c ≡ true
and-last a b c h = ground arith

is_live-status :
    (target : Target) (user_id : Text) (a : Appointment)
    → is_live_for target user_id a ≡ true
    → is_live_status a.status ≡ true
is_live-status target user_id a h =
    and-last (is_same_target target a.target) (a.user_id == user_id) _ h

dead-and : (a b : Bool) → (a && (b && false)) ≡ false
dead-and a b = ground arith

retire-Change :
    (now : Time) (target : Target) (user_id : Text) (found : Option Appointment)
    (rows : List Appointment)
    → IsTeams rows
    → find_first (is_live_for target user_id) rows ≡ found
    → Change now rows (retire_if_expired now found rows).1
unfolding retire_if_expired
retire-Change now target user_id none rows wf at = kept rows
retire-Change now target user_id (some a) rows wf at = elim (Bool-cases (is_expired now a)) [
  | inl t ↦
      (let found = find_first_sound (is_live_for target user_id) rows a at in
        rw t (
          answered rows a.id a (expire now)
            (find_first-again (is_live_for target user_id) (has_id a.id) rows a at (==_refl a.id)
              (wf.one_id a.id))
            (is_live-status target user_id a found) (expire-IsAnswer now)))
  | inr n ↦ rw n (kept rows)
]

-- Once the only live row of a place is closed, the place is free.
closed-row :
    (now : Time) (target : Target) (user_id : Text) (a r : Appointment)
    → (is_live_for target user_id r ≡ true → r ≡ a)
    → is_live_for target user_id (if has_id a.id r then expire now r else r) ≡ false
closed-row now target user_id a r own = elim (Bool-cases (has_id a.id r)) [
  | inl t ↦ rw t (dead-and (is_same_target target r.target) (r.user_id == user_id))
  | inr n ↦ elim (Bool-cases (is_live_for target user_id r)) [
    | inl live ↦
        elim (true_not_false (has_id a.id r)
          (subst (λ b. has_id a.id b ≡ true) (sym (own live)) (==_refl a.id)) n) [ ]
    | inr dead ↦ rw n dead
  ]
]

retire-free :
    (now : Time) (target : Target) (user_id : Text) (found : Option Appointment)
    (rows : List Appointment)
    → IsTeams rows
    → find_first (is_live_for target user_id) rows ≡ found
    → (retire_if_expired now found rows).0 ≡ none
    → find_first (is_live_for target user_id) (retire_if_expired now found rows).1 ≡ none
unfolding retire_if_expired
retire-free now target user_id none rows wf at gone = at
retire-free now target user_id (some a) rows wf at gone = elim (Bool-cases (is_expired now a)) [
  | inl t ↦ rw t (
      find_first-absent (is_live_for target user_id) (has_id a.id) (expire now) rows (
        All-map rows (λ r own. closed-row now target user_id a r own)
          (find_first-only (is_live_for target user_id) rows a at (wf.one_live target user_id))))
  | inr n ↦ (let impossible = rw n at gone in cc)
]

insert-Change :
    (now : Time) (a : Appointment) (rows rows' : List Appointment)
    → find_first (is_live_for a.target a.user_id) rows ≡ none
    → a.permissions ≡ permissions_for_appointment a.kind a.target
    → (is_requested a.status ≡ true
        → count_where (is_open_request a.user_id now) rows < max_open_requests)
    → insert a rows ≡ ok rows'
    → Change now rows rows'
unfolding insert
insert-Change now a rows rows' free fixed_a few e =
    let (fresh, e1) = guard-eq-ok (is_some (find_first (has_id a.id) rows)) duplicate_id _ e in
    subst (Change now rows) (ok-injective e1)
      (inserted rows a (is_some-false _ fresh) free fixed_a few)

appointed-not_requested :
    (kind : Kind) → is_requested (if is_organizer_kind kind then invited else active) ≡ false
appointed-not_requested organizer = refl
appointed-not_requested check_in_helper = refl

pub appoint-Change :
    (t : Tables) (target : Target) (caller : Caller) (kind : Kind) (invitee : Invitee)
    (new_id : Text) (now : Time) (rows : List Appointment)
    → IsTeams t.appointments
    → appoint t target caller kind invitee new_id now ≡ ok rows
    → Change now t.appointments rows
unfolding appoint replace_expired appointed
appoint-Change t target caller kind invitee new_id now rows wf e =
    let (owner, _, e1) = >>=-eq-ok (resolve_target t target) _ e in
    let (_, e2) = require-eq-ok _ not_manager _ e1 in
    let (_, e3) = guard-eq-ok _ event_is_over _ e2 in
    let (person, _, e4) = found-eq-ok (find_invitee t invitee) user_not_found _ e3 in
    let (_, e5) = guard-eq-ok _ is_owner _ e4 in
    let (_, e6) = guard-eq-ok _ not_organizer _ e5 in
    let live = find_first (is_live_for target person.id) t.appointments in
    let (retired, e7) = guard-eq-ok _ already_on_team _ e6 in
    next _ _ _ (retire-Change now target person.id live t.appointments wf refl) (
      insert-Change now (appointed new_id target kind person.id caller.user_id now) _ rows
        (retire-free now target person.id live t.appointments wf refl (is_some-false _ retired))
        refl (λ asked. elim (true_not_false _ asked (appointed-not_requested kind)) [ ]) e7)

refuse-eq-ok : (reason : Option Reason) → refuse reason ≡ ok tt → reason ≡ none
refuse-eq-ok none e = refl
refuse-eq-ok (some r) e = cc

first_reason-none : (a b : Option Reason) → first_reason a b ≡ none → (a ≡ none) × (b ≡ none)
first_reason-none none b e = (refl, e)
first_reason-none (some r) b e = cc

join_reason-standing :
    (t : Tables) (target : Target) (owner user_id : Text) (now : Time)
    → join_reason t target owner user_id now ≡ none
    → standing_reason (find_first (is_live_for target user_id) t.appointments) now ≡ none
unfolding join_reason
join_reason-standing t target owner user_id now e =
    let (_, e1) = first_reason-none _ _ e in
    let (_, e2) = first_reason-none _ _ e1 in (first_reason-none _ _ e2).0

live-answerable :
    (s : Status) → is_live_status s ≡ true → is_active s ≡ false → is_answerable s ≡ true
live-answerable invited l n = refl
live-answerable requested l n = refl
live-answerable active l n = cc
live-answerable declined l n = cc
live-answerable ended l n = cc

shut_lem : (a e : Bool) → a ≡ true → (a && e) ≡ false → (a && not (a && e)) ≡ true
shut_lem a e t h = ground arith

fewer_open : (a b : ℕ) → a ≤ b → leb max_open_requests b ≡ false → a < max_open_requests
fewer_open a b h f = ground arith

-- Who may ask to join has no live row but an expired one.
standing-retired :
    (now : Time) (target : Target) (user_id : Text) (found : Option Appointment)
    (rows : List Appointment)
    → find_first (is_live_for target user_id) rows ≡ found
    → standing_reason found now ≡ none
    → (retire_if_expired now found rows).0 ≡ none
unfolding retire_if_expired
standing-retired now target user_id none rows at e = refl
standing-retired now target user_id (some a) rows at e = elim (Bool-cases (is_active a.status)) [
  | inl works ↦ (let impossible = rw works at e in cc)
  | inr idle ↦ elim (Bool-cases (is_invitation_open a now)) [
    | inl open_now ↦ (let impossible = rw (idle, open_now) at e in cc)
    | inr shut ↦
        (let live =
            is_live-status target user_id a
              (find_first_sound (is_live_for target user_id) rows a at) in
          let over =
            shut_lem (is_answerable a.status) (expires_after now a.expires_at)
              (live-answerable a.status live idle) shut in
          rw over refl)
  ]
]

expired-request :
    (now : Time) (user_id : Text) (a r : Appointment)
    → is_open_request user_id now (if has_id a.id r then expire now r else r) ≡ true
    → is_open_request user_id now r ≡ true
expired-request now user_id a r h = elim (Bool-cases (has_id a.id r)) [
  | inl t ↦ elim (and-false (r.user_id == user_id) (rw t at h)) [ ]
  | inr n ↦ rw n at h
]

retire-requests :
    (now : Time) (user_id : Text) (found : Option Appointment) (rows : List Appointment)
    → count_where (is_open_request user_id now) (retire_if_expired now found rows).1
      ≤ count_where (is_open_request user_id now) rows
unfolding retire_if_expired
retire-requests now user_id none rows = omega arith
retire-requests now user_id (some a) rows = elim (Bool-cases (is_expired now a)) [
  | inl t ↦ rw t (
      count_where-update_where (is_open_request user_id now) (is_open_request user_id now)
        (has_id a.id) (expire now) rows
        (All-everywhere rows (λ r. expired-request now user_id a r)))
  | inr n ↦ rw n (omega arith)
]

pub request_to_join-Change :
    (t : Tables) (target : Target) (user_id new_id : Text) (now : Time) (rows : List Appointment)
    → IsTeams t.appointments
    → request_to_join t target user_id new_id now ≡ ok rows
    → Change now t.appointments rows
unfolding request_to_join requested_row
request_to_join-Change t target user_id new_id now rows wf e =
    let (owner, _, e1) = >>=-eq-ok (resolve_target t target) _ e in
    let (asked, e2) = >>-eq-ok (refuse (join_reason t target owner user_id now)) _ e1 in
    let (few, e3) = guard-eq-ok _ too_many_requests _ e2 in
    let found = find_first (is_live_for target user_id) t.appointments in
    let standing = join_reason-standing t target owner user_id now (refuse-eq-ok _ asked) in
    let retired = standing-retired now target user_id found t.appointments refl standing in
    next _ _ _ (retire-Change now target user_id found t.appointments wf refl) (
      insert-Change now (requested_row new_id target user_id owner now) _ rows
        (retire-free now target user_id found t.appointments wf refl retired) refl
        (λ _.
          (let less = retire-requests now user_id found t.appointments in fewer_open _ _ less few))
        e3)
