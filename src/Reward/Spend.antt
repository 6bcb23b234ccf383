-- ===== src/Reward/Spend.antt =====
-- How coins leave the wallet: reverse and redeem of src/modules/reward/reward.service.ts, with
-- recordReversal and executeRedemptionTransaction of reward.repository.ts.
pub mod Ledger
pub mod Budget
pub mod Once
mod Tests
use fox_passport_republic_ap.Prelude.{
  ℕ, ◌+◌, ◌-◌, Bool, true, false, not, ◌&&◌, ◌||◌, Option, none, some, List, [], ◌∷◌, Text, Time,
  ltb, ◌==◌, is_some, or_else, truthy, same, find_first, Result, ok, err, ◌>>=◌, ◌>>◌, throw_if,
  or_throw, if◌then◌else◌,
}
use fox_passport_republic_ap.Reward.Data.{
  budget_of, min_subtotal_of, Event, Lifecycle, release, redemption, reversal, Passport, CoinReward,
  RewardVoucher, Redemption, Store, GrantParams, ReverseParams, RedeemParams, Granted, Reversed,
  Error, reward_not_found, passport_not_found, passport_missing, level_too_low, insufficient_coins,
  Env,
}
use fox_passport_republic_ap.Reward.{is_for, coins_of, award_xp, grant}

abbrev pub is_of : Text → Passport → Bool
is_of user_id p = p.user_id == user_id

-- `update` of the user's passport, whose coins do not go below 0.
pub take_coins : Text → ℕ → List Passport → List Passport
take_coins user_id coins [] = []
take_coins user_id coins (p ∷ passports) =
    let rest = take_coins user_id coins passports in
    if p.user_id == user_id then record p { coins = p.coins - coins } ∷ passports else p ∷ rest

-- A condition that the query has only if the parameter is given.
abbrev pub fits : Option Text → Text → Bool
fits wanted t = not (truthy wanted) || same wanted (some t)

-- findEventByRef: the latest.
abbrev pub is_wanted : ReverseParams → Event → Bool
is_wanted params event =
    is_for params.ref_type params.ref_id event
    && fits params.action event.action
    && fits params.user_id event.user_id

abbrev pub is_reversal_of : Text → Lifecycle → Bool
is_reversal_of event_id lifecycle = elim lifecycle.kind [
  | release ↦ false
  | redemption ↦ false
  | reversal ↦ lifecycle.grant_event_id == event_id
]

-- recordReversal: the balance is read and written only if there are coins to take back.
pub record_reversal : Event → Store → Result Error Store
unfolding take_coins
record_reversal event store =
    let logged : Store = record store {
      lifecycles =
          record {
            grant_event_id = event.id;
            user_id = event.user_id;
            kind = reversal;
            amount = event.coins;
          }
          ∷ store.lifecycles;
    } in
    if ltb 0 event.coins
    then (if is_some (find_first (is_of event.user_id) store.passports)
        then ok (record logged { passports = take_coins event.user_id event.coins store.passports })
        else err passport_missing)
    else ok logged

pub nothing_reversed : Reversed
nothing_reversed = record { reversed = false; xp_reversed = 0; coins_reversed = 0 }

reverse_event : Event → Store → Result Error (Reversed × Store)
unfolding record_reversal
reverse_event event store = do
  changed ← record_reversal event store
  ok (
    record { reversed = true; xp_reversed = event.xp; coins_reversed = event.coins },
    award_xp
        (record {
          user_id = event.user_id;
          path = event.path;
          amount = event.xp;
          is_taken_back = true;
        })
        changed,
  )

reverse_found : Option Event → Store → Result Error (Reversed × Store)
unfolding nothing_reversed reverse_event
reverse_found none store = ok (nothing_reversed, store)
reverse_found (some event) store =
    if is_some (find_first (is_reversal_of event.id) store.lifecycles)
    then ok (nothing_reversed, store)
    else reverse_event event store

pub reverse : ReverseParams → Store → Result Error (Reversed × Store)
unfolding reverse_found
reverse params store = reverse_found (find_first (is_wanted params) store.events) store

-- The promotion and voucher of a redemption; a percentage goes before an amount.
pub reward_voucher : Env → Text → Time → Text → CoinReward → RewardVoucher
reward_voucher env code expires_at user_id reward = record {
  code = code;
  owner_user_id = user_id;
  is_percentage = is_some reward.discount_percentage;
  discount_value = elim reward.discount_percentage [
    | some percentage ↦ percentage
    | none ↦ or_else reward.discount_php 0
  ];
  min_subtotal = elim reward.discount_php [ none ↦ 0 | some php ↦ min_subtotal_of env php ];
  end_date = expires_at;
}

-- The REDEMPTION is recorded on the user's latest grant, if there is one.
pub record_redemption : Text → ℕ → Option Event → List Lifecycle → List Lifecycle
record_redemption user_id cost none lifecycles = lifecycles
record_redemption user_id cost (some event) lifecycles =
    record { grant_event_id = event.id; user_id = user_id; kind = redemption; amount = cost }
    ∷ lifecycles

-- executeRedemptionTransaction
pub execute_redemption : Env → Text → Time → Text → CoinReward → Store → Result Error Store
unfolding take_coins reward_voucher record_redemption
execute_redemption env code expires_at user_id reward store = do
  throw_if (ltb (coins_of user_id store.passports) reward.coin_cost) insufficient_coins
  ok (record store {
    passports = take_coins user_id reward.coin_cost store.passports;
    vouchers = reward_voucher env code expires_at user_id reward ∷ store.vouchers;
    redemptions =
        record {
          user_id = user_id;
          reward_id = reward.id;
          coins_spent = reward.coin_cost;
          expires_at = expires_at;
        }
        ∷ store.redemptions;
    lifecycles =
        record_redemption user_id reward.coin_cost
          (find_first (λ e. e.user_id == user_id) store.events) store.lifecycles;
  })

-- The voucher is good for 30 days.
pub redeem : Env → Time → Text → RedeemParams → Store → Result Error Store
unfolding execute_redemption
redeem env now code params store = do
  reward ← or_throw (find_first (λ r. r.id == params.reward_id) store.rewards) reward_not_found
  throw_if (not reward.active) reward_not_found
  passport ← or_throw (find_first (is_of params.user_id) store.passports) passport_not_found
  throw_if (ltb (env.level_of store.xp_awards params.user_id params.path) reward.min_level)
      level_too_low
  throw_if (ltb passport.coins reward.coin_cost) insufficient_coins
  execute_redemption env code (now + 2_592_000_000) params.user_id reward store

-- A call of the wallet, with the time and the identifiers that it draws.
pub data Request : Type 0 where
  grant_request : Text → Time → GrantParams → Request
  reverse_request : ReverseParams → Request
  redeem_request : Time → Text → RedeemParams → Request

-- The store after a call; one that fails leaves it.
pub step : Env → Request → Store → Store
unfolding reverse redeem
step env (grant_request new_id now params) store = (grant env new_id now params store).1
step env (reverse_request params) store = elim (reverse params store) [
  | ok done ↦ done.1
  | err _ ↦ store
]
step env (redeem_request now code params) store = elim (redeem env now code params store) [
  | ok changed ↦ changed
  | err _ ↦ store
]

pub run : Env → List Request → Store → Store
unfolding step
run env [] store = store
run env (r ∷ rs) store = run env rs (step env r store)
