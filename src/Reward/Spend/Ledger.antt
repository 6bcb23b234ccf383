-- ===== src/Reward/Spend/Ledger.antt =====
-- The balance of coins against the ledger: src/modules/reward/reward.service.ts over any calls.
use fox_passport_republic_ap.Prelude.{
  ==→eq, ℕ, ◌+◌, ◌-◌, ◌≤◌, ◌≡◌, refl, subst, inl, inr, arith, false, not, Option, none, some, List,
  [], ◌∷◌, Text, Time, ltb, ◌==◌, is_some, find_first, sum_of, Result, ok, err, or_throw, throw_if,
  if◌then◌else◌, Bool-cases, Result-cases, Option-cases, >>=-eq-ok, >>-eq-ok, throw_if-eq-ok,
  ok-injective,
}
use fox_passport_republic_ap.Reward.Data.{
  Rule, Event, Lifecycle, release, redemption, reversal, Passport, CoinReward, Redemption, XpAward,
  Store, GrantParams, ReverseParams, RedeemParams, Reversed, reward_not_found, passport_not_found,
  level_too_low, insufficient_coins, Env,
}
use fox_passport_republic_ap.Reward.{
  coins_of, add_coins, award_xp, grant, grant_by_key, grant_by_rule, grant_new, record_grant,
  has_key, award, within_budget, new_event,
}
use fox_passport_republic_ap.Reward.Spend.{
  is_of, is_wanted, is_reversal_of, take_coins, reverse, reverse_found, reverse_event,
  record_reversal, redeem, execute_redemption, record_redemption, Request, grant_request,
  reverse_request, redeem_request, step, run,
}

-- The coins that lifecycles of one kind moved for a user.
abbrev pub released_by : Text → Lifecycle → ℕ
released_by user_id l =
    if l.user_id == user_id
    then elim l.kind [ release ↦ l.amount | redemption ↦ 0 | reversal ↦ 0 ]
    else 0

abbrev pub reversed_by : Text → Lifecycle → ℕ
reversed_by user_id l =
    if l.user_id == user_id
    then elim l.kind [ release ↦ 0 | redemption ↦ 0 | reversal ↦ l.amount ]
    else 0

abbrev pub spent_by : Text → Redemption → ℕ
spent_by user_id r = if r.user_id == user_id then r.coins_spent else 0

-- What a user has and has spent was released to them, and of what was released no more is missing
-- than was reversed.
pub record IsBacked (user_id : Text) (store : Store) : Type 0 where
  pub no_more :
      sum_of (spent_by user_id) store.redemptions + coins_of user_id store.passports
      ≤ sum_of (released_by user_id) store.lifecycles
  pub no_less :
      sum_of (released_by user_id) store.lifecycles
      ≤ sum_of (spent_by user_id) store.redemptions
        + coins_of user_id store.passports
        + sum_of (reversed_by user_id) store.lifecycles

coins_of-add_coins :
    (u v : Text) (n : ℕ) (ps : List Passport)
    → coins_of u (add_coins v n ps) ≡ coins_of u ps + (if v == u then n else 0)
unfolding add_coins
coins_of-add_coins u v n [] = ground arith
coins_of-add_coins u v n (p ∷ ps) = ground (arith, coins_of-add_coins u v n ps)

coins_of-take_coins :
    (u v : Text) (n : ℕ) (ps : List Passport)
    → coins_of u (take_coins v n ps) ≡ coins_of u ps - (if v == u then n else 0)
unfolding take_coins
coins_of-take_coins u v n [] = ground arith
coins_of-take_coins u v n (p ∷ ps) = ground (arith, coins_of-take_coins u v n ps)

err-not_ok : {E A : Type 0} {e : E} {a : A} → ◌≡◌ {A = Result E A} (err e) (ok a) → ⊥
err-not_ok h = cc

award_xp-IsBacked :
    (u : Text) (xp : XpAward) (store : Store) → IsBacked u store → IsBacked u (award_xp xp store)
unfolding award_xp
award_xp-IsBacked u xp store h = elim (Bool-cases (ltb 0 xp.amount)) [
  | inl t ↦ rw t (record { no_more = h.no_more; no_less = h.no_less })
  | inr n ↦ rw n h
]

record_grant-IsBacked :
    (u : Text) (event : Event) (store : Store)
    → IsBacked u store
    → IsBacked u (record_grant event store)
unfolding record_grant
record_grant-IsBacked u event store h =
    let more = h.no_more in
    let less = h.no_less in
    let added = coins_of-add_coins u event.user_id event.coins store.passports in
    elim (Bool-cases (ltb 0 event.coins)) [
      | inl t ↦
          rw t (record { no_more = rw added (ground arith); no_less = rw added (ground arith) })
      | inr n ↦ rw n (record { no_more = more; no_less = less })
    ]

grant_new-preserves :
    (P : Store → Type 0)
    → ((event : Event) (store : Store) → P store → P (record_grant event store))
    → ((xp : XpAward) (store : Store) → P store → P (award_xp xp store))
    → (env : Env) (new_id : Text) (now : Time) (params : GrantParams) (rule : Option Rule)
      (store : Store)
    → P store
    → P ((grant_new env new_id now params rule store).1)
unfolding grant_new
grant_new-preserves P recorded awarded env new_id now params rule store h =
    let awards = award now params rule store in
    let coins = within_budget env params store (awards.1) in
    awarded
      (record {
        user_id = params.user_id;
        path = params.path;
        amount = awards.0;
        is_taken_back = false;
      })
      (record_grant (new_event new_id now params (awards.0) coins) store)
      (recorded (new_event new_id now params (awards.0) coins) store h)

-- What recording a grant and awarding XP preserve, a grant preserves.
grant-preserves :
    (P : Store → Type 0)
    → ((event : Event) (store : Store) → P store → P (record_grant event store))
    → ((xp : XpAward) (store : Store) → P store → P (award_xp xp store))
    → (env : Env) (new_id : Text) (now : Time) (params : GrantParams) (store : Store) → P store
    → P ((grant env new_id now params store).1)
unfolding grant grant_by_key grant_by_rule
grant-preserves P recorded awarded env new_id now params store h =
    elim (Option-cases (find_first (has_key params.idempotency_key) store.events)) [
      | inr (event, at) ↦ rw at h
      | inl fresh ↦ elim (Option-cases (find_first (λ r. r.action == params.action) store.rules)) [
        | inl missing ↦
            rw (fresh, missing)
              (grant_new-preserves P recorded awarded env new_id now params none store h)
        | inr (rule, at) ↦ elim (Bool-cases rule.active) [
          | inl t ↦
              rw (fresh, at, t)
                (grant_new-preserves P recorded awarded env new_id now params (some rule) store h)
          | inr n ↦ rw (fresh, at, n) h
        ]
      ]
    ]

reversal-IsBacked :
    (u : Text) (event : Event) (store changed : Store)
    → record_reversal event store ≡ ok changed
    → IsBacked u store
    → IsBacked u changed
unfolding record_reversal
reversal-IsBacked u event store changed e h =
    let more = h.no_more in
    let less = h.no_less in
    let taken = coins_of-take_coins u event.user_id event.coins store.passports in
    elim (Bool-cases (ltb 0 event.coins)) [
      | inr n ↦
          (let done = ok-injective (rw n at e) in
            subst (IsBacked u) done (record { no_more = ground arith; no_less = ground arith }))
      | inl t ↦ elim (Bool-cases (is_some (find_first (is_of event.user_id) store.passports))) [
        | inl there ↦
            (let done = ok-injective (rw (t, there) at e) in
              subst (IsBacked u) done
                (record { no_more = rw taken (ground arith); no_less = rw taken (ground arith) }))
        | inr gone ↦ elim (err-not_ok (rw (t, gone) at e)) [ ]
      ]
    ]

reverse-IsBacked :
    (u : Text) (params : ReverseParams) (store : Store) (done : Reversed × Store)
    → reverse params store ≡ ok done
    → IsBacked u store
    → IsBacked u (done.1)
unfolding reverse reverse_found reverse_event
reverse-IsBacked u params store done e h =
    elim (Option-cases (find_first (is_wanted params) store.events)) [
      | inl missing ↦ subst (λ d. IsBacked u (d.1)) (ok-injective (rw missing at e)) h
      | inr (event, at) ↦
          elim (Bool-cases (is_some (find_first (is_reversal_of event.id) store.lifecycles))) [
            | inl t ↦ subst (λ d. IsBacked u (d.1)) (ok-injective (rw (at, t) at e)) h
            | inr n ↦
                (let (changed, recorded, e1) =
                    >>=-eq-ok (record_reversal event store) _ (rw (at, n) at e) in
                  subst (λ d. IsBacked u (d.1)) (ok-injective e1)
                    (award_xp-IsBacked u _ changed
                      (reversal-IsBacked u event store changed recorded h)))
          ]
    ]

redemption-released :
    (u v : Text) (cost : ℕ) (event : Option Event) (ls : List Lifecycle)
    → sum_of (released_by u) (record_redemption v cost event ls) ≡ sum_of (released_by u) ls
unfolding record_redemption
redemption-released u v cost none ls = refl
redemption-released u v cost (some event) ls = ground arith

redemption-reversed :
    (u v : Text) (cost : ℕ) (event : Option Event) (ls : List Lifecycle)
    → sum_of (reversed_by u) (record_redemption v cost event ls) ≡ sum_of (reversed_by u) ls
unfolding record_redemption
redemption-reversed u v cost none ls = refl
redemption-reversed u v cost (some event) ls = ground arith

-- The check of the balance covers what is taken from any user.
covered_for :
    (u v : Text) (cost : ℕ) (ps : List Passport)
    → ltb (coins_of v ps) cost ≡ false
    → (if v == u then cost else 0) ≤ coins_of u ps
covered_for u v cost ps h = elim (Bool-cases (v == u)) [
  | inl t ↦ subst (λ w. (if v == u then cost else 0) ≤ coins_of w ps) (==→eq v u t) (ground arith)
  | inr n ↦ rw n (omega arith)
]

execute_redemption-IsBacked :
    (u : Text) (env : Env) (code : Text) (expires_at : Time) (v : Text) (reward : CoinReward)
    (store changed : Store)
    → execute_redemption env code expires_at v reward store ≡ ok changed
    → IsBacked u store
    → IsBacked u changed
unfolding execute_redemption
execute_redemption-IsBacked u env code expires_at v reward store changed e h =
    let more = h.no_more in
    let less = h.no_less in
    let taken = coins_of-take_coins u v reward.coin_cost store.passports in
    let (enough, e1) =
      >>-eq-ok (throw_if (ltb (coins_of v store.passports) reward.coin_cost) insufficient_coins) _
        e in
    let covered =
      covered_for u v reward.coin_cost store.passports
        (throw_if-eq-ok _ insufficient_coins enough) in
    let latest = find_first (λ e. e.user_id == v) store.events in
    subst (IsBacked u) (ok-injective e1) (record {
      no_more =
          rw (taken, redemption-released u v reward.coin_cost latest store.lifecycles)
            (ground arith);
      no_less =
          rw
            (
              taken,
              redemption-released u v reward.coin_cost latest store.lifecycles,
              redemption-reversed u v reward.coin_cost latest store.lifecycles,
            )
            (ground arith);
    })

redeem-IsBacked :
    (u : Text) (env : Env) (now : Time) (code : Text) (params : RedeemParams)
    (store changed : Store)
    → redeem env now code params store ≡ ok changed
    → IsBacked u store
    → IsBacked u changed
unfolding redeem
redeem-IsBacked u env now code params store changed e h =
    let (reward, _, e1) =
      >>=-eq-ok
        (or_throw (find_first (λ r. r.id == params.reward_id) store.rewards) reward_not_found) _
        e in
    let (_, e2) = >>-eq-ok (throw_if (not reward.active) reward_not_found) _ e1 in
    let (passport, _, e3) =
      >>=-eq-ok (or_throw (find_first (is_of params.user_id) store.passports) passport_not_found) _
        e2 in
    let (_, e4) =
      >>-eq-ok
        (throw_if (ltb (env.level_of store.xp_awards params.user_id params.path) reward.min_level)
          level_too_low)
        _ e3 in
    let (_, e5) =
      >>-eq-ok (throw_if (ltb passport.coins reward.coin_cost) insufficient_coins) _ e4 in
    execute_redemption-IsBacked u env code _ params.user_id reward store changed e5 h

step-IsBacked :
    (u : Text) (env : Env) (r : Request) (store : Store)
    → IsBacked u store
    → IsBacked u (step env r store)
unfolding step
step-IsBacked u env (grant_request new_id now params) store h =
    grant-preserves (IsBacked u) (record_grant-IsBacked u) (award_xp-IsBacked u) env new_id now
      params store h
step-IsBacked u env (reverse_request params) store h = elim (Result-cases (reverse params store)) [
  | inl (done, e) ↦ rw (step, e) (reverse-IsBacked u params store done e h)
  | inr (thrown, e) ↦ rw (step, e) h
]
step-IsBacked u env (redeem_request now code params) store h =
    elim (Result-cases (redeem env now code params store)) [
      | inl (changed, e) ↦ rw (step, e) (redeem-IsBacked u env now code params store changed e h)
      | inr (thrown, e) ↦ rw (step, e) h
    ]

-- If a user's balance and spent coins do not exceed the coins released to them, and fall short of
-- those by no more than was reversed, then both are so after any sequence of grants, reversals and
-- redemptions.
pub run-IsBacked :
    (u : Text) (env : Env) (requests : List Request) (store : Store)
    → IsBacked u store
    → IsBacked u (run env requests store)
unfolding run
run-IsBacked u env [] store h = h
run-IsBacked u env (r ∷ rs) store h =
    run-IsBacked u env rs (step env r store) (step-IsBacked u env r store h)
