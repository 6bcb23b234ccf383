-- ===== src/Reward/Spend/Once.antt =====
-- What happens once in src/modules/reward/reward.service.ts: the grant of a key and the reversal of
-- a grant.
use fox_passport_republic_ap.Prelude.{
  ==→eq, ◌≡◌, refl, sym, ap, ◌∙◌, subst, inl, inr, arith, true, none, some, List, [], ◌∷◌, Text,
  Time, ltb, ◌==◌, ==_refl, is_some, find_first, ok, Bool-cases, Result-cases, Option-cases,
  >>=-eq-ok, ok-injective,
}
use fox_passport_republic_ap.Reward.Data.{
  Event, XpAward, Store, GrantParams, ReverseParams, Reversed, Env,
}
use fox_passport_republic_ap.Reward.{
  award_xp, grant, grant_by_key, has_key, award, within_budget, new_event,
}
use fox_passport_republic_ap.Reward.Spend.{
  is_of, is_wanted, is_reversal_of, reverse, reverse_found, reverse_event, nothing_reversed,
  record_reversal, redeem, Request, grant_request, reverse_request, redeem_request, step, run,
}
use fox_passport_republic_ap.Reward.Spend.Budget.{
  grant-cases, grant_new-events, reverse-events, redeem-events, reversal-events, award_xp-events,
}

-- An event under a key that was not there does not hide another.
new_event-lookup :
    (key : Text) (event new : Event) (events : List Event)
    → find_first (has_key new.idempotency_key) events ≡ none
    → find_first (has_key key) events ≡ some event
    → find_first (has_key key) (new ∷ events) ≡ some event
new_event-lookup key event new events fresh at = elim (Bool-cases (new.idempotency_key == key)) [
  | inr n ↦ rw n at
  | inl t ↦
      (let gone =
          subst (λ k. find_first (has_key k) events ≡ none) (==→eq new.idempotency_key key t)
            fresh in
        let impossible = sym gone ∙ at in cc)
]

step-lookup :
    (env : Env) (r : Request) (store : Store) (key : Text) (event : Event)
    → find_first (has_key key) store.events ≡ some event
    → find_first (has_key key) ((step env r store).events) ≡ some event
unfolding step new_event
step-lookup env (grant_request new_id now params) store key event at =
    elim (grant-cases env new_id now params store) [
      | inl same ↦ subst (λ s. find_first (has_key key) s.events ≡ some event) (sym same) at
      | inr (rule, fresh, new) ↦
          subst (λ g. find_first (has_key key) ((g.1).events) ≡ some event) (sym new)
            (subst (λ es. find_first (has_key key) es ≡ some event)
              (sym (grant_new-events env new_id now params rule store))
              (new_event-lookup key event
                (new_event new_id now params ((award now params rule store).0)
                  (within_budget env params store ((award now params rule store).1)))
                store.events fresh at))
    ]
step-lookup env (reverse_request params) store key event at =
    elim (Result-cases (reverse params store)) [
      | inl (done, e) ↦
          rw (step, e)
            (subst (λ es. find_first (has_key key) es ≡ some event)
              (sym (reverse-events params store done e)) at)
      | inr (thrown, e) ↦ rw (step, e) at
    ]
step-lookup env (redeem_request now code params) store key event at =
    elim (Result-cases (redeem env now code params store)) [
      | inl (changed, e) ↦
          rw (step, e)
            (subst (λ es. find_first (has_key key) es ≡ some event)
              (sym (redeem-events env now code params store changed e)) at)
      | inr (thrown, e) ↦ rw (step, e) at
    ]

run-lookup :
    (env : Env) (requests : List Request) (store : Store) (key : Text) (event : Event)
    → find_first (has_key key) store.events ≡ some event
    → find_first (has_key key) ((run env requests store).events) ≡ some event
unfolding run
run-lookup env [] store key event at = at
run-lookup env (r ∷ rs) store key event at =
    run-lookup env rs (step env r store) key event (step-lookup env r store key event at)

-- Once an event is stored under a key, then after any sequence of grants, reversals and redemptions
-- a grant with that key is answered with that event's amounts and changes nothing.
pub run-replays :
    (env : Env) (requests : List Request) (store : Store) (event : Event) (new_id : Text)
    (now : Time) (params : GrantParams)
    → find_first (has_key params.idempotency_key) store.events ≡ some event
    → grant env new_id now params (run env requests store) ≡ (
      record { xp_awarded = event.xp; coins_awarded = event.coins; is_idempotent_replay = true },
      run env requests store,
    )
unfolding grant grant_by_key
run-replays env requests store event new_id now params at =
    rw (run-lookup env requests store params.idempotency_key event at) refl

-- The reversal that was recorded is found.
recorded-reversal :
    (event : Event) (store changed : Store)
    → record_reversal event store ≡ ok changed
    → is_some (find_first (is_reversal_of event.id) changed.lifecycles) ≡ true
unfolding record_reversal
recorded-reversal event store changed e = elim (Bool-cases (ltb 0 event.coins)) [
  | inr n ↦
      subst (λ s. is_some (find_first (is_reversal_of event.id) s.lifecycles) ≡ true)
        (ok-injective (rw n at e)) (rw (==_refl event.id) refl)
  | inl t ↦ elim (Bool-cases (is_some (find_first (is_of event.user_id) store.passports))) [
    | inl there ↦
        subst (λ s. is_some (find_first (is_reversal_of event.id) s.lifecycles) ≡ true)
          (ok-injective (rw (t, there) at e)) (rw (==_refl event.id) refl)
    | inr gone ↦ (let impossible = rw (t, gone) at e in cc)
  ]
]

award_xp-lifecycles :
    (xp : XpAward) (store : Store) → (award_xp xp store).lifecycles ≡ store.lifecycles
unfolding award_xp
award_xp-lifecycles xp store = ground arith

reversed_before :
    (params : ReverseParams) (event : Event) (store : Store)
    → find_first (is_wanted params) store.events ≡ some event
    → is_some (find_first (is_reversal_of event.id) store.lifecycles) ≡ true
    → reverse params store ≡ ok (nothing_reversed, store)
unfolding reverse reverse_found
reversed_before params event store at t = rw (at, t) refl

reversed_none :
    (params : ReverseParams) (store : Store)
    → find_first (is_wanted params) store.events ≡ none
    → reverse params store ≡ ok (nothing_reversed, store)
unfolding reverse reverse_found
reversed_none params store missing = rw missing refl

reverse_event-again :
    (params : ReverseParams) (event : Event) (store : Store) (done : Reversed × Store)
    → find_first (is_wanted params) store.events ≡ some event
    → reverse_event event store ≡ ok done
    → reverse params (done.1) ≡ ok (nothing_reversed, done.1)
unfolding reverse reverse_found reverse_event
reverse_event-again params event store done at e =
    let (changed, recorded, e1) = >>=-eq-ok (record_reversal event store) _ e in
    let kept = award_xp-events _ changed ∙ reversal-events event store changed recorded in
    let logged = award_xp-lifecycles _ changed in
    subst (λ d. reverse params (d.1) ≡ ok (nothing_reversed, d.1)) (ok-injective e1)
      (reversed_before params event _ (ap (find_first (is_wanted params)) kept ∙ at) (
        ap (λ ls. is_some (find_first (is_reversal_of event.id) ls)) logged
        ∙ recorded-reversal event store changed recorded))

-- After a reversal that succeeds, the same reversal answers that nothing is reversed and changes
-- nothing.
pub reverse-reverse :
    (params : ReverseParams) (store : Store) (done : Reversed × Store)
    → reverse params store ≡ ok done
    → reverse params (done.1) ≡ ok (nothing_reversed, done.1)
unfolding reverse reverse_found
reverse-reverse params store done e =
    elim (Option-cases (find_first (is_wanted params) store.events)) [
      | inl missing ↦
          subst (λ d. reverse params (d.1) ≡ ok (nothing_reversed, d.1))
            (ok-injective (rw missing at e)) (reversed_none params store missing)
      | inr (event, at) ↦
          elim (Bool-cases (is_some (find_first (is_reversal_of event.id) store.lifecycles))) [
            | inl t ↦
                subst (λ d. reverse params (d.1) ≡ ok (nothing_reversed, d.1))
                  (ok-injective (rw (at, t) at e)) (reversed_before params event store at t)
            | inr n ↦ reverse_event-again params event store done at (rw (at, n) at e)
          ]
    ]
