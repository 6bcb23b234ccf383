-- ===== src/Appointment/Team/Change.antt =====
-- What the calls of src/modules/appointment/appointment.service.ts do to the rows, as a relation.
use fox_passport_republic_ap.Prelude.{
  if◌then◌else◌, Text, Time, find_first, count_where, update_where, ◌<◌, ◌≡◌, refl, Bool, true,
  false, ◌&&◌, none, some, List, ◌∷◌,
}
use fox_passport_republic_ap.Appointment.Data.{
  Status, invited, requested, active, declined, ended, EndReason, Appointment,
  permissions_for_appointment, is_active, is_live_status, is_requested, is_invited,
}
use fox_passport_republic_ap.Appointment.Team.{
  max_open_requests, has_id, is_live_for, is_open_request, respond, expire, end,
}

-- A write that ends or answers an appointment.
pub record IsAnswer (f : Appointment → Appointment) : Type 0 where
  pub same_id : (a : Appointment) → (f a).id ≡ a.id
  pub same_user : (a : Appointment) → (f a).user_id ≡ a.user_id
  pub same_target : (a : Appointment) → (f a).target ≡ a.target
  pub same_kind : (a : Appointment) → (f a).kind ≡ a.kind
  pub same_permissions : (a : Appointment) → (f a).permissions ≡ a.permissions
  pub not_requested : (a : Appointment) → is_requested (f a).status ≡ false

-- The rows before and after a call at a time.
pub data Change (now : Time) : List Appointment → List Appointment → Type 0 where
  kept : (rows : List Appointment) → Change now rows rows
  inserted :
      (rows : List Appointment) (a : Appointment)
      → find_first (has_id a.id) rows ≡ none
      → find_first (is_live_for a.target a.user_id) rows ≡ none
      → a.permissions ≡ permissions_for_appointment a.kind a.target
      → (is_requested a.status ≡ true
          → count_where (is_open_request a.user_id now) rows < max_open_requests)
      → Change now rows (a ∷ rows)
  answered :
      (rows : List Appointment) (id : Text) (a : Appointment) (f : Appointment → Appointment)
      → find_first (has_id id) rows ≡ some a
      → is_live_status a.status ≡ true
      → IsAnswer f
      → Change now rows (update_where (has_id id) f rows)
  ended_many :
      (rows : List Appointment) (scope : Appointment → Bool) (reason : EndReason) (by : Text)
      → Change now rows
          (update_where (λ a. scope a && is_live_status a.status) (end reason by now) rows)
  next :
      (before mid rows : List Appointment)
      → Change now before mid
      → Change now mid rows
      → Change now before rows

pub respond-IsAnswer :
    (status : Status) (now : Time) → is_requested status ≡ false → IsAnswer (respond status now)
respond-IsAnswer status now h = record {
  same_id = λ a. refl;
  same_user = λ a. refl;
  same_target = λ a. refl;
  same_kind = λ a. refl;
  same_permissions = λ a. refl;
  not_requested = λ a. h;
}

pub answer-not_requested :
    (accepted : Bool) → is_requested (if accepted then active else declined) ≡ false
answer-not_requested true = refl
answer-not_requested false = refl

pub expire-IsAnswer : (now : Time) → IsAnswer (expire now)
expire-IsAnswer now = record {
  same_id = λ a. refl;
  same_user = λ a. refl;
  same_target = λ a. refl;
  same_kind = λ a. refl;
  same_permissions = λ a. refl;
  not_requested = λ a. refl;
}

pub end-IsAnswer : (reason : EndReason) (by : Text) (now : Time) → IsAnswer (end reason by now)
end-IsAnswer reason by now = record {
  same_id = λ a. refl;
  same_user = λ a. refl;
  same_target = λ a. refl;
  same_kind = λ a. refl;
  same_permissions = λ a. refl;
  not_requested = λ a. refl;
}

pub requested-live : (s : Status) → is_requested s ≡ true → is_live_status s ≡ true
requested-live requested h = refl
requested-live invited h = cc
requested-live active h = cc
requested-live declined h = cc
requested-live ended h = cc

pub invited-live : (s : Status) → is_invited s ≡ true → is_live_status s ≡ true
invited-live invited h = refl
invited-live requested h = cc
invited-live active h = cc
invited-live declined h = cc
invited-live ended h = cc

pub active-live : (s : Status) → is_active s ≡ true → is_live_status s ≡ true
active-live active h = refl
active-live invited h = cc
active-live requested h = cc
active-live declined h = cc
active-live ended h = cc
