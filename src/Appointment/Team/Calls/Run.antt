-- ===== src/Appointment/Team/Calls/Run.antt =====
-- What any sequence of the calls of src/modules/appointment/appointment.service.ts keeps.
use fox_passport_republic_ap.Prelude.{
  ◌==◌, Text, Time, find_first, Result, err, ok, Result-cases, >>=-eq-ok, ok-injective,
  require-eq-ok, ◌≤◌, ◌≡◌, refl, sym, ap, ◌∙◌, subst, inl, inr, Bool, false, ◌&&◌, some, List, [],
  ◌∷◌,
}
use fox_passport_republic_ap.Appointment.Data.{
  role_revoked, owner_role_revoked, Target, event_target, venue_target, Appointment, Tables,
  is_live_status, is_organizer_kind,
}
use fox_passport_republic_ap.Appointment.Team.{
  Error, not_manager, Caller, has_id, resolve_target, appoint, request_to_join,
}
use fox_passport_republic_ap.Appointment.Team.Change.{Change, kept, ended_many}
use fox_passport_republic_ap.Appointment.Team.Invariant.{IsTeams, Change-IsTeams}
use fox_passport_republic_ap.Appointment.Team.Limit.{
  HasFewRequests, HasFewRequests-later, Change-few,
}
use fox_passport_republic_ap.Appointment.Team.Final.{Change-dead}
use fox_passport_republic_ap.Appointment.Team.Calls.{
  respond_to_request, withdraw_request, accept, decline, leave, remove, end_for_revoked_organizer,
  is_lost, end_for_revoked_owner, set_accepts, set_settings, Call, appoint_call,
  request_to_join_call, respond_to_request_call, withdraw_request_call, accept_call, decline_call,
  leave_call, remove_call, revoke_organizer_call, revoke_owner_call, set_settings_call, written,
  settled, step, run,
}
use fox_passport_republic_ap.Appointment.Team.Calls.Answer.{
  respond_to_request-Change, withdraw_request-Change, accept-Change, decline-Change, leave-Change,
  remove-Change,
}
use fox_passport_republic_ap.Appointment.Team.Calls.Insert.{appoint-Change, request_to_join-Change}

written-Change :
    (t : Tables) (now : Time) (r : Result Error (List Appointment))
    → ((rows : List Appointment) → r ≡ ok rows → Change now t.appointments rows)
    → Change now t.appointments (written t r).appointments
written-Change t now (ok rows) h = h rows refl
written-Change t now (err _) h = kept t.appointments

set_accepts-kept :
    (target : Target) (accepts : Bool) (t : Tables)
    → (set_accepts target accepts t).appointments ≡ t.appointments
set_accepts-kept (event_target id) accepts t = refl
set_accepts-kept (venue_target id) accepts t = refl

settled-kept :
    (t : Tables) (target : Target) (caller : Caller) (accepts : Bool)
    → (settled t (set_settings t target caller accepts)).appointments ≡ t.appointments
unfolding set_settings
settled-kept t target caller accepts = elim (Result-cases (set_settings t target caller accepts)) [
  | inl (t', e) ↦
      (let (_, _, e1) = >>=-eq-ok (resolve_target t target) _ e in
        let (_, e2) = require-eq-ok _ not_manager _ e1 in
        rw e (sym (ap (λ u. u.appointments) (ok-injective e2)) ∙ set_accepts-kept target accepts t))
  | inr (thrown, e) ↦ rw e refl
]

pub step-Change :
    (call : Call) (now : Time) (t : Tables)
    → IsTeams t.appointments
    → Change now t.appointments (step call now t).appointments
unfolding step end_for_revoked_organizer end_for_revoked_owner
step-Change (appoint_call target caller kind invitee new_id) now t wf =
    written-Change t now (appoint t target caller kind invitee new_id now)
      (λ rows e. appoint-Change t target caller kind invitee new_id now rows wf e)
step-Change (request_to_join_call target user_id new_id) now t wf =
    written-Change t now (request_to_join t target user_id new_id now)
      (λ rows e. request_to_join-Change t target user_id new_id now rows wf e)
step-Change (respond_to_request_call target id caller accepted) now t wf =
    written-Change t now (respond_to_request t target id caller accepted now)
      (λ rows e. respond_to_request-Change t target id caller accepted now rows e)
step-Change (withdraw_request_call id user_id) now t wf =
    written-Change t now (withdraw_request t id user_id now)
      (λ rows e. withdraw_request-Change t id user_id now rows e)
step-Change (accept_call id user_id) now t wf =
    written-Change t now (accept t id user_id now) (λ rows e. accept-Change t id user_id now rows e)
step-Change (decline_call id user_id) now t wf =
    written-Change t now (decline t id user_id now)
      (λ rows e. decline-Change t id user_id now rows e)
step-Change (leave_call id user_id) now t wf =
    written-Change t now (leave t id user_id now) (λ rows e. leave-Change t id user_id now rows e)
step-Change (remove_call target id caller) now t wf =
    written-Change t now (remove t target id caller now)
      (λ rows e. remove-Change t target id caller now rows e)
step-Change (revoke_organizer_call user_id actor_id) now t wf =
    ended_many t.appointments (λ a. a.user_id == user_id && is_organizer_kind a.kind) role_revoked
      actor_id
step-Change (revoke_owner_call owner_id venues events actor_id) now t wf =
    ended_many t.appointments (λ a. is_lost t owner_id venues events a.target) owner_role_revoked
      actor_id
step-Change (set_settings_call target caller accepts) now t wf =
    subst (Change now t.appointments) (sym (settled-kept t target caller accepts))
      (kept t.appointments)

-- From rows with distinct identifiers, at most one live row for a person on a venue or an event, and
-- the permissions of their kinds: any sequence of calls, at any times and with any identifiers drawn,
-- leaves such rows.
pub run-IsTeams :
    (calls : List (Time × Call)) (t : Tables)
    → IsTeams t.appointments
    → IsTeams (run calls t).appointments
unfolding run
run-IsTeams [] t wf = wf
run-IsTeams ((now, call) ∷ calls) t wf = run-IsTeams calls (step call now t) (
    Change-IsTeams now t.appointments (step call now t).appointments (step-Change call now t wf) wf)

-- An appointment that is declined or ended stays as it is, whatever calls are made.
pub run-dead :
    (calls : List (Time × Call)) (t : Tables) (id : Text) (a : Appointment)
    → IsTeams t.appointments
    → find_first (has_id id) t.appointments ≡ some a
    → is_live_status a.status ≡ false
    → find_first (has_id id) (run calls t).appointments ≡ some a
unfolding run
run-dead [] t id a wf at dead = at
run-dead ((now, call) ∷ calls) t id a wf at dead =
    let change = step-Change call now t wf in
    run-dead calls (step call now t) id a
      (Change-IsTeams now t.appointments (step call now t).appointments change wf)
      (Change-dead now t.appointments (step call now t).appointments id a change at dead) dead

-- The times of the calls, from a first to a last, do not go back.
abbrev pub InOrder : Time → List (Time × Call) → Time → Type 0
InOrder first [] last = first ≤ last
InOrder first ((now, _) ∷ calls) last = (first ≤ now) × InOrder now calls last

-- From rows where nobody has more than five open requests, and with calls whose times do not go back:
-- nobody ever has more than five.
pub run-HasFewRequests :
    (first last : Time) (calls : List (Time × Call)) (t : Tables)
    → IsTeams t.appointments
    → InOrder first calls last
    → HasFewRequests first t.appointments
    → HasFewRequests last (run calls t).appointments
unfolding run
run-HasFewRequests first last [] t wf order few =
    HasFewRequests-later first last t.appointments order few
run-HasFewRequests first last ((now, call) ∷ calls) t wf (h, order) few =
    let change = step-Change call now t wf in
    run-HasFewRequests now last calls (step call now t)
      (Change-IsTeams now t.appointments (step call now t).appointments change wf) order
      (Change-few now t.appointments (step call now t).appointments change
        (HasFewRequests-later first now t.appointments h few))
