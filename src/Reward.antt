-- ===== src/Reward.antt =====
-- The coin wallet: src/modules/reward/reward.service.ts and reward.repository.ts. A call is one
-- step; the key of a grant is given (the service derives it from the other parameters when it is
-- absent), and coins and XP of rules and overrides are not negative. What PassportSvc.awardXP is
-- called with is recorded in order.
pub mod Data
pub mod Spend
use fox_passport_republic_ap.Prelude.{
  ℕ, ◌+◌, ◌-◌, ◌*◌, ◌/◌, min, Bool, true, false, not, ◌&&◌, Option, none, some, List, [], ◌∷◌, Text,
  Time, ltb, leb, ◌==◌, is_some, or_else, find_first, count_where, select, sum_of, update_where,
  Result, ok, err, ◌>>=◌, ◌>>◌, throw_if, or_throw, if◌then◌else◌,
}
use Data.*

-- 00:00 of the day in Manila, eight hours ahead of UTC.
pub start_of_day_manila : Time → Time
start_of_day_manila now = (now + 28_800_000) / 86_400_000 * 86_400_000 - 28_800_000

abbrev pub has_key : Text → Event → Bool
has_key key event = event.idempotency_key == key

abbrev pub is_by : Text → Text → Event → Bool
is_by user_id action event = event.user_id == user_id && event.action == action

abbrev pub is_for : Text → Text → Event → Bool
is_for ref_type ref_id event = event.ref_type == ref_type && event.ref_id == ref_id

-- getBookingCoinsGranted
pub booking_coins_granted : Env → Text → Store → ℕ
booking_coins_granted env booking_id store =
    sum_of (λ e. if is_for env.booking_type booking_id e then e.coins else 0) store.events

-- The once-only check and the daily cap.
pub is_exhausted : Time → GrantParams → Rule → Store → Bool
unfolding start_of_day_manila
is_exhausted now params rule store =
    if rule.once_only && is_some (find_first (is_by params.user_id params.action) store.events)
    then true
    else elim rule.daily_cap [
      | none ↦ false
      | some cap ↦
          not (cap == 0)
          && leb cap (
              count_where
                (λ e.
                  is_by params.user_id params.action e
                  && leb (start_of_day_manila now) e.created_at)
                store.events)
    ]

-- What the rule and the overrides award, before the budget of a booking.
pub award : Time → GrantParams → Option Rule → Store → ℕ × ℕ
unfolding is_exhausted
award now params none store = (or_else params.xp_override 0, or_else params.coins_override 0)
award now params (some rule) store =
    if is_exhausted now params rule store
    then (0, 0)
    else (or_else params.xp_override rule.xp, or_else params.coins_override rule.coins)

-- At most 40% of a booking's platform fee is given back in coins.
pub within_budget : Env → GrantParams → Store → ℕ → ℕ
unfolding booking_coins_granted
within_budget env params store coins =
    if params.ref_type == env.booking_type
    then elim params.booking_fee_amount [
      | none ↦ coins
      | some fee ↦
          if fee == 0
          then 0
          else min coins (budget_of env fee - booking_coins_granted env params.ref_id store)
    ]
    else coins

-- `upsert` of the passport with an increment of its coins.
pub add_coins : Text → ℕ → List Passport → List Passport
add_coins user_id coins [] = record { user_id = user_id; coins = coins } ∷ []
add_coins user_id coins (p ∷ passports) =
    let rest = add_coins user_id coins passports in
    if p.user_id == user_id then record p { coins = p.coins + coins } ∷ passports else p ∷ rest

-- The balance: `passport?.coins ?? 0`.
abbrev pub coins_of : Text → List Passport → ℕ
coins_of user_id [] = 0
coins_of user_id (p ∷ passports) =
    let rest = coins_of user_id passports in if p.user_id == user_id then p.coins else rest

-- recordGrant
pub record_grant : Event → Store → Store
unfolding add_coins
record_grant event store =
    if ltb 0 event.coins
    then record store {
      events = event ∷ store.events;
      lifecycles =
          record {
            grant_event_id = event.id;
            user_id = event.user_id;
            kind = release;
            amount = event.coins;
          }
          ∷ store.lifecycles;
      passports = add_coins event.user_id event.coins store.passports;
    }
    else record store { events = event ∷ store.events }

-- The call of PassportSvc.awardXP, made for a positive amount only.
pub award_xp : XpAward → Store → Store
award_xp xp store =
    if ltb 0 xp.amount then record store { xp_awards = xp ∷ store.xp_awards } else store

pub new_event : Text → Time → GrantParams → ℕ → ℕ → Event
new_event new_id now params xp coins = record {
  id = new_id;
  user_id = params.user_id;
  path = params.path;
  action = params.action;
  ref_type = params.ref_type;
  ref_id = params.ref_id;
  xp = xp;
  coins = coins;
  idempotency_key = params.idempotency_key;
  created_at = now;
}

-- A grant whose key is new and whose rule is not switched off.
pub grant_new : Env → Text → Time → GrantParams → Option Rule → Store → Granted × Store
unfolding award within_budget record_grant award_xp new_event
grant_new env new_id now params rule store =
    let awarded = award now params rule store in
    let coins = within_budget env params store (awarded.1) in
    (
      record { xp_awarded = awarded.0; coins_awarded = coins; is_idempotent_replay = false },
      award_xp
          (record {
            user_id = params.user_id;
            path = params.path;
            amount = awarded.0;
            is_taken_back = false;
          })
          (record_grant (new_event new_id now params (awarded.0) coins) store),
    )

grant_by_rule : Env → Text → Time → GrantParams → Option Rule → Store → Granted × Store
unfolding grant_new
grant_by_rule env new_id now params none store = grant_new env new_id now params none store
grant_by_rule env new_id now params (some rule) store =
    if rule.active
    then grant_new env new_id now params (some rule) store
    else (record { xp_awarded = 0; coins_awarded = 0; is_idempotent_replay = false }, store)

grant_by_key : Env → Text → Time → GrantParams → Option Event → Store → Granted × Store
unfolding grant_by_rule
grant_by_key env new_id now params (some event) store = (
  record { xp_awarded = event.xp; coins_awarded = event.coins; is_idempotent_replay = true },
  store,
)
grant_by_key env new_id now params none store =
    grant_by_rule env new_id now params (find_first (λ r. r.action == params.action) store.rules)
      store

pub grant : Env → Text → Time → GrantParams → Store → Granted × Store
unfolding grant_by_key
grant env new_id now params store =
    grant_by_key env new_id now params (find_first (has_key params.idempotency_key) store.events)
      store
