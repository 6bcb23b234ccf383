-- ===== src/Reward/Spend/Tests.antt =====
-- Runs of src/modules/reward/reward.service.ts on a small wallet, and the hypotheses of the theorems
-- met by them.
use fox_passport_republic_ap.Prelude.{
  ◌*◌, ◌/◌, ◌≡◌, ◌≤◌, refl, arith, true, false, none, some, List, [], ◌∷◌, ok,
}
use fox_passport_republic_ap.Prelude.Number.{Fixed, scale, fixed_number}
use fox_passport_republic_ap.Reward.Data.{
  user, Event, release, reversal, Store, GrantParams, ReverseParams, Env,
}
use fox_passport_republic_ap.Reward.{
  start_of_day_manila, booking_coins_granted, is_exhausted, award, within_budget, add_coins,
  record_grant, award_xp, new_event, grant_new, grant_by_rule, grant_by_key, grant,
}
use fox_passport_republic_ap.Reward.Spend.{
  take_coins, record_reversal, nothing_reversed, reverse_event, reverse_found, reverse, Request,
  grant_request, reverse_request, redeem_request, run,
}
use fox_passport_republic_ap.Reward.Spend.Ledger.{IsBacked, run-IsBacked}
use fox_passport_republic_ap.Reward.Spend.Budget.{HasFee, run-budget}
use fox_passport_republic_ap.Reward.Spend.Once.{run-replays, reverse-reverse}

-- Amounts in cents, as fixed point numbers.
abbrev env : Env
env = record {
  booking_type = 900;
  Money = Fixed;
  number = fixed_number;
  amount = λ cents. cents * scale / 100;
  level_of = λ awards u path. 5;
}

abbrev params : GrantParams
params = record {
  user_id = 20;
  path = user;
  action = 301;
  ref_type = 900;
  ref_id = 77;
  xp_override = none;
  coins_override = none;
  idempotency_key = 801;
  booking_fee_amount = some 2000;
}

abbrev store : Store
store = record {
  rules =
      record {
        action = 301;
        xp = 50;
        coins = 30;
        daily_cap = some 2;
        once_only = false;
        active = true;
      }
      ∷ [];
  rewards =
      record {
        id = 601;
        coin_cost = 25;
        discount_php = some 5000;
        discount_percentage = none;
        min_level = 3;
        active = true;
      }
      ∷ [];
  events = [];
  lifecycles = [];
  passports = [];
  redemptions = [];
  vouchers = [];
  xp_awards = [];
}

abbrev second : GrantParams
second = record params { idempotency_key = 802 }

abbrev requests : List Request
requests =
    grant_request 501 1_000_000_000 params
    ∷ grant_request 502 1_000_000_000 second
    ∷ redeem_request 1_000_000_000 88 (record { user_id = 20; path = user; reward_id = 601 })
    ∷ reverse_request (record { ref_type = 900; ref_id = 77; action = none; user_id = none })
    ∷ []

-- A fee of 20 pesos allows 40 coins: the second grant of 30 is cut to 10.
cut_to_budget :
    (grant env 502 1_000_000_000 second ((grant env 501 1_000_000_000 params store).1)).0
    ≡ record { xp_awarded = 50; coins_awarded = 10; is_idempotent_replay = false }
unfolding grant grant_by_key grant_by_rule grant_new award is_exhausted start_of_day_manila
    within_budget booking_coins_granted record_grant add_coins award_xp new_event
cut_to_budget = refl

run-IsBacked_example : IsBacked 20 (run env requests store)
run-IsBacked_example =
    run-IsBacked 20 env requests store (record { no_more = omega arith; no_less = omega arith })

run-budget_example : booking_coins_granted env 77 (run env requests store) ≤ 40
unfolding HasFee booking_coins_granted
run-budget_example =
    run-budget env 77 2000 requests store ((λ _. refl), ((λ _. refl), (tt, (tt, tt)))) (omega arith)

abbrev granted_event : Event
granted_event = record {
  id = 501;
  user_id = 20;
  path = user;
  action = 301;
  ref_type = 900;
  ref_id = 77;
  xp = 50;
  coins = 30;
  idempotency_key = 801;
  created_at = 1_000_000_000;
}

abbrev granted_store : Store
granted_store = record store {
  events = granted_event ∷ [];
  lifecycles = record { grant_event_id = 501; user_id = 20; kind = release; amount = 30 } ∷ [];
  passports = record { user_id = 20; coins = 30 } ∷ [];
  xp_awards = record { user_id = 20; path = user; amount = 50; is_taken_back = false } ∷ [];
}

run-replays_example : grant env 503 2_000_000_000 params (run env requests granted_store) ≡ (
  record { xp_awarded = 50; coins_awarded = 30; is_idempotent_replay = true },
  run env requests granted_store,
)
run-replays_example =
    run-replays env requests granted_store granted_event 503 2_000_000_000 params refl

abbrev reversed_store : Store
reversed_store = record granted_store {
  lifecycles =
      record { grant_event_id = 501; user_id = 20; kind = reversal; amount = 30 }
      ∷ granted_store.lifecycles;
  passports = record { user_id = 20; coins = 0 } ∷ [];
  xp_awards =
      record { user_id = 20; path = user; amount = 50; is_taken_back = true }
      ∷ granted_store.xp_awards;
}

abbrev reversal_params : ReverseParams
reversal_params = record { ref_type = 900; ref_id = 77; action = none; user_id = some 20 }

reverse-reverse_example :
    reverse reversal_params reversed_store ≡ ok (nothing_reversed, reversed_store)
unfolding reverse reverse_found reverse_event record_reversal take_coins award_xp
reverse-reverse_example =
    reverse-reverse reversal_params granted_store
      (record { reversed = true; xp_reversed = 50; coins_reversed = 30 }, reversed_store) refl
