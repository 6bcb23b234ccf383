-- ===== src/Appointment/Team/Limit.antt =====
-- How many requests of one Organizer wait for an answer.
use fox_passport_republic_ap.Prelude.{
  ◌==◌, if◌then◌else◌, Bool-cases, Text, Time, and-false, All-everywhere, count_where, update_where,
  count_where-update_where, count_where-fewer, ◌≤◌, ◌<◌, ◌≡◌, refl, subst, inl, inr, Bool, true,
  false, ◌&&◌, Option, none, some, List, ◌∷◌, arith,
}
use fox_passport_republic_ap.Appointment.Data.{Appointment, is_live_status, is_requested}
use fox_passport_republic_ap.Appointment.Access.{expires_after}
use fox_passport_republic_ap.Appointment.Team.{max_open_requests, has_id, is_open_request, end}
use fox_passport_republic_ap.Appointment.Team.Change.{
  Change, kept, inserted, answered, ended_many, next,
}

-- Everybody has at most the five requests that the code allows.
abbrev pub HasFewRequests : Time → List Appointment → Type 0
HasFewRequests now rows =
    (user_id : Text) → count_where (is_open_request user_id now) rows ≤ max_open_requests

expires-earlier :
    (now later : Time) (at : Option Time)
    → now ≤ later
    → expires_after later at ≡ true
    → expires_after now at ≡ true
expires-earlier now later none h e = cc
expires-earlier now later (some at) h e = ground arith

pub and3-map :
    (a b c d : Bool) → (c ≡ true → d ≡ true) → (a && (b && c)) ≡ true → (a && (b && d)) ≡ true
and3-map a b c d k h = ground arith

pub HasFewRequests-later :
    (now later : Time) (rows : List Appointment)
    → now ≤ later
    → HasFewRequests now rows
    → HasFewRequests later rows
HasFewRequests-later now later rows h few u =
    let fewer = count_where-fewer (is_open_request u later) (is_open_request u now) rows (λ a.
      and3-map (a.user_id == u) (is_requested a.status) (expires_after later a.expires_at)
        (expires_after now a.expires_at) (expires-earlier now later a.expires_at h)) in
    omega (arith, fewer, few u)

-- A write after which no row is a request makes none.
written-row :
    (now : Time) (u : Text) (q : Appointment → Bool) (f : Appointment → Appointment)
    (r : Appointment)
    → is_requested (f r).status ≡ false
    → is_open_request u now (if q r then f r else r) ≡ true
    → is_open_request u now r ≡ true
written-row now u q f r closed h = elim (Bool-cases (q r)) [
  | inl t ↦ elim (and-false ((f r).user_id == u) (rw (t, closed) at h)) [ ]
  | inr n ↦ rw n at h
]

written-few :
    (now : Time) (rows : List Appointment) (q : Appointment → Bool) (f : Appointment → Appointment)
    → ((r : Appointment) → is_requested (f r).status ≡ false)
    → HasFewRequests now rows
    → HasFewRequests now (update_where q f rows)
written-few now rows q f closed few u =
    let fewer =
      count_where-update_where (is_open_request u now) (is_open_request u now) q f rows
        (All-everywhere rows (λ r. written-row now u q f r (closed r))) in
    omega (arith, fewer, few u)

open-parts : (a u : Text) (b c : Bool) → (a == u && (b && c)) ≡ true → (a ≡ u) × (b ≡ true)
open-parts a u b c h = ground arith

open-own :
    (now : Time) (u : Text) (a : Appointment)
    → is_open_request u now a ≡ true
    → (a.user_id ≡ u) × (is_requested a.status ≡ true)
open-own now u a h = open-parts (a.user_id) u (is_requested a.status) _ h

inserted-few :
    (now : Time) (rows : List Appointment) (a : Appointment)
    → (is_requested a.status ≡ true
        → count_where (is_open_request a.user_id now) rows < max_open_requests)
    → HasFewRequests now rows
    → HasFewRequests now (a ∷ rows)
inserted-few now rows a room few u = elim (Bool-cases (is_open_request u now a)) [
  | inl t ↦
      (let (own, asks) = open-own now u a t in
        let free =
          subst (λ i. count_where (is_open_request i now) rows < max_open_requests) own
            (room asks) in
        rw t (omega (arith, free)))
  | inr n ↦ rw n (omega (arith, few u))
]

pub Change-few :
    (now : Time) (rows rows' : List Appointment)
    → Change now rows rows'
    → HasFewRequests now rows
    → HasFewRequests now rows'
Change-few now rows _ (kept _) few = few
Change-few now rows _ (inserted _ a _ _ _ room) few = inserted-few now rows a room few
Change-few now rows _ (answered _ id a f _ _ keeps) few =
    written-few now rows (has_id id) f keeps.not_requested few
Change-few now rows _ (ended_many _ scope reason by) few =
    written-few now rows (λ a. scope a && is_live_status a.status) (end reason by now) (λ a. refl)
      few
Change-few now rows rows' (next _ mid _ c d) few =
    Change-few now mid rows' d (Change-few now rows mid c few)
