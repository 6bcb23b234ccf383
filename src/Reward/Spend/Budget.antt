-- ===== src/Reward/Spend/Budget.antt =====
-- The limits of grants and reversals: src/modules/reward/reward.service.ts, the budget of a
-- booking over any calls.
use fox_passport_republic_ap.Prelude.{
  ==→eq, ℕ, ◌+◌, ◌≤◌, ◌≡◌, refl, sym, ap, ◌∙◌, subst, ◌⊎◌, inl, inr, arith, Bool, true, not, ◌&&◌,
  Option, none, some, List, [], ◌∷◌, Text, Time, ltb, ◌==◌, is_some, find_first, sum_of, ok,
  or_throw, throw_if, if◌then◌else◌, Bool-cases, Result-cases, Option-cases, All, >>=-eq-ok,
  >>-eq-ok, ok-injective,
}
use fox_passport_republic_ap.Reward.Data.{
  budget_of, Rule, Event, XpAward, Store, GrantParams, ReverseParams, RedeemParams, Reversed,
  reward_not_found, passport_not_found, level_too_low, insufficient_coins, Env,
}
use fox_passport_republic_ap.Reward.{
  award_xp, coins_of, grant, grant_by_key, grant_by_rule, grant_new, record_grant, has_key, is_for,
  award, within_budget, new_event, booking_coins_granted,
}
use fox_passport_republic_ap.Reward.Spend.{
  is_of, is_wanted, is_reversal_of, reverse, reverse_found, reverse_event, record_reversal, redeem,
  execute_redemption, Request, grant_request, reverse_request, redeem_request, step, run,
}

-- A grant leaves the store or adds one event under a key that was not there.
pub grant-cases :
    (env : Env) (new_id : Text) (now : Time) (params : GrantParams) (store : Store)
    → ((grant env new_id now params store).1 ≡ store)
      ⊎ ((rule : Option Rule) × (find_first (has_key params.idempotency_key) store.events ≡ none)
          × (grant env new_id now params store ≡ grant_new env new_id now params rule store))
unfolding grant grant_by_key grant_by_rule
grant-cases env new_id now params store =
    elim (Option-cases (find_first (has_key params.idempotency_key) store.events)) [
      | inr (event, at) ↦ inl (rw at refl)
      | inl fresh ↦ elim (Option-cases (find_first (λ r. r.action == params.action) store.rules)) [
        | inl missing ↦ inr (none, fresh, rw (fresh, missing) refl)
        | inr (rule, at) ↦ elim (Bool-cases rule.active) [
          | inl t ↦ inr (some rule, fresh, rw (fresh, at, t) refl)
          | inr n ↦ inl (rw (fresh, at, n) refl)
        ]
      ]
    ]

pub award_xp-events : (xp : XpAward) (store : Store) → (award_xp xp store).events ≡ store.events
unfolding award_xp
award_xp-events xp store = ground arith

record_grant-events :
    (event : Event) (store : Store) → (record_grant event store).events ≡ event ∷ store.events
unfolding record_grant
record_grant-events event store = ground arith

pub grant_new-events :
    (env : Env) (new_id : Text) (now : Time) (params : GrantParams) (rule : Option Rule)
    (store : Store)
    → ((grant_new env new_id now params rule store).1).events
      ≡ new_event new_id now params
          ((award now params rule store).0)
          (within_budget env params store ((award now params rule store).1))
        ∷ store.events
unfolding grant_new
grant_new-events env new_id now params rule store =
    award_xp-events _ _ ∙ record_grant-events _ store

pub reversal-events :
    (event : Event) (store changed : Store)
    → record_reversal event store ≡ ok changed
    → changed.events ≡ store.events
unfolding record_reversal
reversal-events event store changed e = elim (Bool-cases (ltb 0 event.coins)) [
  | inr n ↦ sym (ap (λ s. s.events) (ok-injective (rw n at e)))
  | inl t ↦ elim (Bool-cases (is_some (find_first (is_of event.user_id) store.passports))) [
    | inl there ↦ sym (ap (λ s. s.events) (ok-injective (rw (t, there) at e)))
    | inr gone ↦ (let impossible = rw (t, gone) at e in cc)
  ]
]

pub reverse-events :
    (params : ReverseParams) (store : Store) (done : Reversed × Store)
    → reverse params store ≡ ok done
    → (done.1).events ≡ store.events
unfolding reverse reverse_found reverse_event
reverse-events params store done e =
    elim (Option-cases (find_first (is_wanted params) store.events)) [
      | inl missing ↦ sym (ap (λ d. (d.1).events) (ok-injective (rw missing at e)))
      | inr (event, at) ↦
          elim (Bool-cases (is_some (find_first (is_reversal_of event.id) store.lifecycles))) [
            | inl t ↦ sym (ap (λ d. (d.1).events) (ok-injective (rw (at, t) at e)))
            | inr n ↦
                (let (changed, recorded, e1) =
                    >>=-eq-ok (record_reversal event store) _ (rw (at, n) at e) in
                  sym (ap (λ d. (d.1).events) (ok-injective e1))
                  ∙ award_xp-events _ changed
                  ∙ reversal-events event store changed recorded)
          ]
    ]

pub redeem-events :
    (env : Env) (now : Time) (code : Text) (params : RedeemParams) (store changed : Store)
    → redeem env now code params store ≡ ok changed
    → changed.events ≡ store.events
unfolding redeem execute_redemption
redeem-events env now code params store changed e =
    let (reward, _, e1) =
      >>=-eq-ok
        (or_throw (find_first (λ r. r.id == params.reward_id) store.rewards) reward_not_found) _
        e in
    let (_, e2) = >>-eq-ok (throw_if (not reward.active) reward_not_found) _ e1 in
    let (passport, _, e3) =
      >>=-eq-ok (or_throw (find_first (is_of params.user_id) store.passports) passport_not_found) _
        e2 in
    let (_, e4) =
      >>-eq-ok
        (throw_if (ltb (env.level_of store.xp_awards params.user_id params.path) reward.min_level)
          level_too_low)
        _ e3 in
    let (_, e5) =
      >>-eq-ok (throw_if (ltb passport.coins reward.coin_cost) insufficient_coins) _ e4 in
    let (_, e6) =
      >>-eq-ok
        (throw_if (ltb (coins_of params.user_id store.passports) reward.coin_cost)
          insufficient_coins)
        _ e5 in
    sym (ap (λ s. s.events) (ok-injective e6))

-- Grants for the booking come with its fee.
unfoldable pub HasFee : Env → Text → ℕ → Request → Type 0
HasFee env booking_id fee (grant_request new_id now params) =
    (params.ref_type == env.booking_type && params.ref_id == booking_id) ≡ true
    → params.booking_fee_amount ≡ some fee
HasFee env booking_id fee (reverse_request params) = Unit
HasFee env booking_id fee (redeem_request now code params) = Unit

-- The coins granted for a booking, in a list of events.
unfoldable granted_in : Env → Text → List Event → ℕ
granted_in env booking_id events =
    sum_of (λ e. if is_for env.booking_type booking_id e then e.coins else 0) events

within_budget-own :
    (env : Env) (fee : ℕ) (params : GrantParams) (store : Store) (coins : ℕ)
    → (params.ref_type == env.booking_type) ≡ true
    → params.booking_fee_amount ≡ some fee
    → booking_coins_granted env params.ref_id store ≤ budget_of env fee
    → within_budget env params store coins + booking_coins_granted env params.ref_id store
      ≤ budget_of env fee
unfolding within_budget
within_budget-own env fee params store coins t f h = elim (Bool-cases (fee == 0)) [
  | inl z ↦ rw (t, f, z) (omega (arith, h))
  | inr n ↦ rw (t, f, n) (omega (arith, h))
]

both : (a b : Bool) → (a && b) ≡ true → (a ≡ true) × (b ≡ true)
both a b h = ground arith

within_budget-le :
    (env : Env) (booking_id : Text) (fee : ℕ) (params : GrantParams) (store : Store) (coins : ℕ)
    → (params.ref_type == env.booking_type && params.ref_id == booking_id) ≡ true
    → params.booking_fee_amount ≡ some fee
    → granted_in env booking_id store.events ≤ budget_of env fee
    → within_budget env params store coins + granted_in env booking_id store.events
      ≤ budget_of env fee
unfolding booking_coins_granted granted_in
within_budget-le env booking_id fee params store coins t f h =
    let (kind, own) = both (params.ref_type == env.booking_type) (params.ref_id == booking_id) t in
    let mine = ==→eq params.ref_id booking_id own in
    subst
      (λ b.
        within_budget env params store coins + granted_in env b store.events ≤ budget_of env fee)
      mine
      (within_budget-own env fee params store coins kind f
        (subst (λ b. granted_in env b store.events ≤ budget_of env fee) (sym mine) h))

new_event-budget :
    (env : Env) (booking_id : Text) (fee : ℕ) (new_id : Text) (now : Time) (params : GrantParams)
    (store : Store) (xp coins : ℕ)
    → HasFee env booking_id fee (grant_request new_id now params)
    → granted_in env booking_id store.events ≤ budget_of env fee
    → granted_in env booking_id
        (new_event new_id now params xp (within_budget env params store coins) ∷ store.events)
      ≤ budget_of env fee
unfolding granted_in new_event HasFee
new_event-budget env booking_id fee new_id now params store xp coins c h =
    elim (Bool-cases (params.ref_type == env.booking_type && params.ref_id == booking_id)) [
      | inl t ↦ rw t (within_budget-le env booking_id fee params store coins t (c t) h)
      | inr n ↦ rw n (omega (arith, h))
    ]

step-budget :
    (env : Env) (booking_id : Text) (fee : ℕ) (r : Request) (store : Store)
    → HasFee env booking_id fee r
    → granted_in env booking_id store.events ≤ budget_of env fee
    → granted_in env booking_id ((step env r store).events) ≤ budget_of env fee
unfolding step HasFee
step-budget env booking_id fee (grant_request new_id now params) store c h =
    elim (grant-cases env new_id now params store) [
      | inl same ↦ subst (λ s. granted_in env booking_id s.events ≤ budget_of env fee) (sym same) h
      | inr (rule, fresh, new) ↦
          subst (λ g. granted_in env booking_id ((g.1).events) ≤ budget_of env fee) (sym new)
            (subst (λ es. granted_in env booking_id es ≤ budget_of env fee)
              (sym (grant_new-events env new_id now params rule store))
              (new_event-budget env booking_id fee new_id now params store
                ((award now params rule store).0) ((award now params rule store).1) c h))
    ]
step-budget env booking_id fee (reverse_request params) store c h =
    elim (Result-cases (reverse params store)) [
      | inl (done, e) ↦
          rw (step, e)
            (subst (λ es. granted_in env booking_id es ≤ budget_of env fee)
              (sym (reverse-events params store done e)) h)
      | inr (thrown, e) ↦ rw (step, e) h
    ]
step-budget env booking_id fee (redeem_request now code params) store c h =
    elim (Result-cases (redeem env now code params store)) [
      | inl (changed, e) ↦
          rw (step, e)
            (subst (λ es. granted_in env booking_id es ≤ budget_of env fee)
              (sym (redeem-events env now code params store changed e)) h)
      | inr (thrown, e) ↦ rw (step, e) h
    ]

run-granted :
    (env : Env) (booking_id : Text) (fee : ℕ) (requests : List Request) (store : Store)
    → All (HasFee env booking_id fee) requests
    → granted_in env booking_id store.events ≤ budget_of env fee
    → granted_in env booking_id ((run env requests store).events) ≤ budget_of env fee
unfolding run
run-granted env booking_id fee [] store _ h = h
run-granted env booking_id fee (r ∷ rs) store (c, cs) h =
    run-granted env booking_id fee rs (step env r store) cs
      (step-budget env booking_id fee r store c h)

-- If every grant for a booking is asked with the booking's platform fee, then the coins granted for
-- the booking stay within the budget of that fee over any sequence of grants, reversals and
-- redemptions.
pub run-budget :
    (env : Env) (booking_id : Text) (fee : ℕ) (requests : List Request) (store : Store)
    → All (HasFee env booking_id fee) requests
    → booking_coins_granted env booking_id store ≤ budget_of env fee
    → booking_coins_granted env booking_id (run env requests store) ≤ budget_of env fee
unfolding booking_coins_granted granted_in
run-budget env booking_id fee requests store cs h =
    run-granted env booking_id fee requests store cs h
