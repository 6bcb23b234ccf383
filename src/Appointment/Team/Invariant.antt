-- ===== src/Appointment/Team/Invariant.antt =====
-- What the rows of the appointments keep under src/modules/appointment/appointment.service.ts.
use fox_passport_republic_ap.Prelude.{
  ◌==◌, if◌then◌else◌, Bool-cases, Text, Time, ==→eq, All, All-map, All-everywhere, find_first,
  count_where, update_where, count_where-update_where, count_where-none, find_first-only,
  count_where-kept, count_where-same, ◌≤◌, ◌≡◌, refl, sym, ap, subst, inl, inr, Bool, true, false,
  ◌&&◌, none, some, List, [], ◌∷◌, arith,
}
use fox_passport_republic_ap.Appointment.Data.{
  EndReason, Target, event_target, venue_target, Appointment, permissions_for_appointment,
  is_same_target, is_live_status,
}
use fox_passport_republic_ap.Appointment.Team.{has_id, is_live_for, end}
use fox_passport_republic_ap.Appointment.Team.Change.{
  IsAnswer, Change, kept, inserted, answered, ended_many, next,
}

-- No two rows have one identifier; a person has at most one live row on a target; a row has the
-- permissions of its kind and target.
pub record IsTeams (rows : List Appointment) : Type 0 where
  pub one_id : (id : Text) → count_where (has_id id) rows ≤ 1
  pub one_live :
      (target : Target) (user_id : Text) → count_where (is_live_for target user_id) rows ≤ 1
  pub fixed : All (λ a. a.permissions ≡ permissions_for_appointment a.kind a.target) rows

All-update_where :
    {P : Appointment → Type 0} (q : Appointment → Bool) (f : Appointment → Appointment)
    (rows : List Appointment)
    → ((a : Appointment) → P a → P (f a))
    → All P rows
    → All P (update_where q f rows)
All-update_where q f [] k _ = tt
All-update_where q f (a ∷ rows) k (h, hs) = elim (Bool-cases (q a)) [
  | inl t ↦ rw t (k a h, All-update_where q f rows k hs)
  | inr n ↦ rw n (h, All-update_where q f rows k hs)
]

fixed-answer :
    (f : Appointment → Appointment) (a : Appointment)
    → IsAnswer f
    → a.permissions ≡ permissions_for_appointment a.kind a.target
    → (f a).permissions ≡ permissions_for_appointment (f a).kind (f a).target
fixed-answer f a keeps h = rw (keeps.same_permissions a, keeps.same_kind a, keeps.same_target a) h

and-replace : (a b c d : Bool) → (a && (b && c)) ≡ true → d ≡ true → (a && (b && d)) ≡ true
and-replace a b c d h e = ground arith

and-dead : (a b : Bool) → (a && (b && false)) ≡ true → ⊥
and-dead a b h = ground arith

-- A row that is live after a write only where it was live before.
answer-live :
    (f : Appointment → Appointment) (a : Appointment) (target : Target) (user_id : Text)
    → IsAnswer f
    → is_live_status a.status ≡ true
    → is_live_for target user_id (f a) ≡ true
    → is_live_for target user_id a ≡ true
answer-live f a target user_id keeps live h =
    and-replace (is_same_target target a.target) (a.user_id == user_id) _ _
      (rw (keeps.same_target a, keeps.same_user a) at h) live

answered-row :
    (f : Appointment → Appointment) (a r : Appointment) (id : Text) (target : Target)
    (user_id : Text)
    → IsAnswer f
    → is_live_status a.status ≡ true
    → (has_id id r ≡ true → r ≡ a)
    → is_live_for target user_id (if has_id id r then f r else r) ≡ true
    → is_live_for target user_id r ≡ true
answered-row f a r id target user_id keeps live own h = elim (Bool-cases (has_id id r)) [
  | inl t ↦
      answer-live f r target user_id keeps
        (subst (λ b. is_live_status b.status ≡ true) (sym (own t)) live) (rw t at h)
  | inr n ↦ rw n at h
]

ended-row :
    (q : Appointment → Bool) (reason : EndReason) (by : Text) (now : Time) (r : Appointment)
    (target : Target) (user_id : Text)
    → is_live_for target user_id (if q r then end reason by now r else r) ≡ true
    → is_live_for target user_id r ≡ true
ended-row q reason by now r target user_id h = elim (Bool-cases (q r)) [
  | inl t ↦ elim (and-dead (is_same_target target r.target) (r.user_id == user_id) (rw t at h)) [ ]
  | inr n ↦ rw n at h
]

answered-IsTeams :
    (rows : List Appointment) (id : Text) (a : Appointment) (f : Appointment → Appointment)
    → IsTeams rows
    → find_first (has_id id) rows ≡ some a
    → is_live_status a.status ≡ true
    → IsAnswer f
    → IsTeams (update_where (has_id id) f rows)
answered-IsTeams rows id a f wf at live keeps = record {
  one_id = λ i.
      rw (count_where-kept (has_id i) (has_id id) f rows (λ b. ap (λ j. j == i) (keeps.same_id b)))
        (wf.one_id i);
  one_live = λ target user_id.
      (let less =
          count_where-update_where (is_live_for target user_id) (is_live_for target user_id)
            (has_id id) f rows
            (All-map rows (λ r own. answered-row f a r id target user_id keeps live own)
              (find_first-only (has_id id) rows a at (wf.one_id id))) in
        omega (arith, less, wf.one_live target user_id));
  fixed = All-update_where (has_id id) f rows (λ b h. fixed-answer f b keeps h) wf.fixed;
}

ended_many-IsTeams :
    (rows : List Appointment) (q : Appointment → Bool) (reason : EndReason) (by : Text) (now : Time)
    → IsTeams rows
    → IsTeams (update_where q (end reason by now) rows)
ended_many-IsTeams rows q reason by now wf = record {
  one_id =
      λ i. rw (count_where-kept (has_id i) q (end reason by now) rows (λ b. refl)) (wf.one_id i);
  one_live = λ target user_id.
      (let less =
          count_where-update_where (is_live_for target user_id) (is_live_for target user_id) q
            (end reason by now) rows
            (All-everywhere rows (λ r. ended-row q reason by now r target user_id)) in
        omega (arith, less, wf.one_live target user_id));
  fixed = All-update_where q (end reason by now) rows (λ b h. h) wf.fixed;
}

same_target-eq : (a b : Target) → is_same_target a b ≡ true → a ≡ b
same_target-eq (event_target a) (event_target b) h = ap event_target (==→eq a b h)
same_target-eq (venue_target a) (venue_target b) h = ap venue_target (==→eq a b h)
same_target-eq (event_target a) (venue_target b) h = cc
same_target-eq (venue_target a) (event_target b) h = cc

and-first : (a b : Bool) → (a && b) ≡ true → (a ≡ true) × (b ≡ true)
and-first a b h = ground arith

-- The place that a live row holds.
same_seat :
    (target : Target) (user_id : Text) (a r : Appointment)
    → is_live_for target user_id a ≡ true
    → is_live_for target user_id r ≡ is_live_for a.target a.user_id r
same_seat target user_id a r t =
    let (place, rest) = and-first (is_same_target target a.target) _ t in
    let (person, _) = and-first (a.user_id == user_id) _ rest in
    let at_place = same_target-eq target a.target place in
    let at_person = ==→eq a.user_id user_id person in rw (at_place, at_person) refl

inserted-IsTeams :
    (rows : List Appointment) (a : Appointment)
    → IsTeams rows
    → find_first (has_id a.id) rows ≡ none
    → find_first (is_live_for a.target a.user_id) rows ≡ none
    → a.permissions ≡ permissions_for_appointment a.kind a.target
    → IsTeams (a ∷ rows)
inserted-IsTeams rows a wf fresh free fixed_a = record {
  one_id = λ id. elim (Bool-cases (has_id id a)) [
    | inl t ↦
        (let unused : count_where (has_id id) rows ≡ 0 =
            subst (λ i. count_where (has_id i) rows ≡ 0) (==→eq a.id id t)
              (count_where-none (has_id a.id) rows fresh) in
          rw t (omega (arith, unused)))
    | inr n ↦ rw n (omega (arith, wf.one_id id))
  ];
  one_live = λ target user_id. elim (Bool-cases (is_live_for target user_id a)) [
    | inl t ↦
        (let nobody = count_where-none (is_live_for a.target a.user_id) rows free in
          let same_place =
            count_where-same (is_live_for target user_id) (is_live_for a.target a.user_id) rows
              (λ r. same_seat target user_id a r t) in
          rw t (omega (arith, nobody, same_place)))
    | inr n ↦ rw n (omega (arith, wf.one_live target user_id))
  ];
  fixed = (fixed_a, wf.fixed);
}

pub Change-IsTeams :
    (now : Time) (rows rows' : List Appointment)
    → Change now rows rows'
    → IsTeams rows
    → IsTeams rows'
Change-IsTeams now rows _ (kept _) wf = wf
Change-IsTeams now rows _ (inserted _ a fresh free fixed_a _) wf =
    inserted-IsTeams rows a wf fresh free fixed_a
Change-IsTeams now rows _ (answered _ id a f at live keeps) wf =
    answered-IsTeams rows id a f wf at live keeps
Change-IsTeams now rows _ (ended_many _ scope reason by) wf =
    ended_many-IsTeams rows (λ a. scope a && is_live_status a.status) reason by now wf
Change-IsTeams now rows rows' (next _ mid _ c d) wf =
    Change-IsTeams now mid rows' d (Change-IsTeams now rows mid c wf)
