-- ===== src/Transaction.antt =====
-- The status of an event's asset, service and venue transactions:
-- src/modules/transaction-status/transaction-status.service.ts and transaction-status.types.ts.
-- A transition reads its row under a lock, so a call is one step on the three tables; an error is
-- thrown before the write and rolls the caller's database transaction back.
pub mod Step
pub mod Trace
mod Tests
use fox_passport_republic_ap.Prelude.{
  ℕ, Bool, true, false, not, ◌&&◌, Option, none, some, List, Text, Time, leb, ◌==◌, truthy, same,
  is_some, find_first, update_where, Result, ok, err, ◌>>=◌, ◌>>◌, throw_if, or_throw,
  if◌then◌else◌,
}

pub data Status : Type 0 where
  pending pending_provider_confirmation approved rejected cancelled : Status

pub data Kind : Type 0 where
  asset service venue : Kind

pub data Action : Type 0 where
  confirm reject cancel expire : Action

pub data Reason : Type 0 where
  provider_declined deadline_expired : Reason

-- What a transition throws.
pub data Error : Type 0 where
  not_found : Error
  not_attached : Error
  actor_unauthorized : Error
  invalid_transition : Kind → Status → Action → Error
  deadline_passed : Error

-- A row of one of the three tables. `booking_owner` is `row.booking?.userId`.
pub record Row : Type 0 where
  pub id : Text
  pub provider_id : Text
  pub booking_id : Option Text
  pub booking_owner : Option Text
  pub status : Status
  pub confirmation_deadline : Option Time
  pub rejection_reason : Option Reason

pub record Tables : Type 0 where
  pub asset_rows : List Row
  pub service_rows : List Row
  pub venue_rows : List Row

pub record Args : Type 0 where
  pub id : Text
  pub kind : Kind
  pub action : Action
  pub actor_id : Option Text

-- Confirming at exactly the deadline succeeds; a missing deadline has passed.
pub is_within_deadline : Time → Option Time → Bool
is_within_deadline now none = false
is_within_deadline now (some deadline) = leb now deadline

-- `ALLOWED_TRANSITIONS`; an entry that is absent is an invalid transition.
pub allowed_transitions : Kind → Status → Action → Option Status
allowed_transitions asset pending_provider_confirmation confirm = some approved
allowed_transitions asset pending_provider_confirmation reject = some rejected
allowed_transitions asset pending_provider_confirmation expire = some rejected
allowed_transitions asset pending_provider_confirmation cancel = some cancelled
allowed_transitions asset approved cancel = some cancelled
allowed_transitions service pending_provider_confirmation confirm = some approved
allowed_transitions service pending_provider_confirmation reject = some rejected
allowed_transitions service pending_provider_confirmation expire = some rejected
allowed_transitions service pending_provider_confirmation cancel = some cancelled
allowed_transitions service approved cancel = some cancelled
allowed_transitions venue pending cancel = some cancelled
allowed_transitions venue approved cancel = some cancelled
allowed_transitions venue pending_provider_confirmation confirm = some approved
allowed_transitions venue pending_provider_confirmation reject = some rejected
allowed_transitions venue pending_provider_confirmation expire = some rejected
allowed_transitions _ _ _ = none

-- `REJECTION_REASON`
pub rejection_reasons : Action → Option Reason
rejection_reasons reject = some provider_declined
rejection_reasons expire = some deadline_expired
rejection_reasons _ = none

pub resolve_transition : Kind → Status → Action → Result Error Status
unfolding allowed_transitions
resolve_transition kind from action =
    or_throw (allowed_transitions kind from action) (invalid_transition kind from action)

-- The actor's right to the action, from the row itself.
check_actor : Row → Action → Option Text → Result Error (Unit {0})
check_actor row confirm actor =
    throw_if (not (truthy actor && same (some row.provider_id) actor)) actor_unauthorized
check_actor row reject actor =
    throw_if (not (truthy actor && same (some row.provider_id) actor)) actor_unauthorized
check_actor row cancel actor = do
  throw_if (not (truthy row.booking_id && is_some row.booking_owner)) not_attached
  throw_if (not (truthy actor && same row.booking_owner actor)) actor_unauthorized
check_actor row expire actor = ok tt

-- The deadline, by the database's clock.
check_deadline : Kind → Time → Row → Action → Result Error (Unit {0})
unfolding is_within_deadline
check_deadline kind now row confirm =
    throw_if (not (is_within_deadline now row.confirmation_deadline)) deadline_passed
check_deadline kind now row expire =
    throw_if (is_within_deadline now row.confirmation_deadline)
      (invalid_transition kind row.status expire)
check_deadline kind now row _ = ok tt

-- `REJECTION_REASON[action] ?? row.rejectionReason`
updated : Row → Status → Action → Row
unfolding rejection_reasons
updated row to action = record row {
  status = to;
  rejection_reason = elim (rejection_reasons action) [
    | none ↦ row.rejection_reason
    | some reason ↦ some reason
  ];
}

-- The checks and the new row of a transition, in the order of the code.
pub review : Kind → Time → Row → Action → Option Text → Result Error Row
unfolding check_actor check_deadline resolve_transition updated
review kind now row action actor = do
  check_actor row action actor
  to ← resolve_transition kind row.status action
  check_deadline kind now row action
  ok (updated row to action)

-- `where: { id }`, and `where: { id, status: row.status }` of the write.
abbrev pub has_id : Text → Row → Bool
has_id id row = row.id == id

abbrev pub status_code : Status → ℕ
status_code pending = 0
status_code pending_provider_confirmation = 1
status_code approved = 2
status_code rejected = 3
status_code cancelled = 4

pub write : Text → Row → Row → List Row → List Row
write id old new =
    update_where (λ row. has_id id row && status_code row.status == status_code old.status)
      (λ _. new)

pub transition_asset : Time → Args → Tables → Result Error (Row × Tables)
unfolding review write
transition_asset now args tables = do
  row ← or_throw (find_first (has_id args.id) tables.asset_rows) not_found
  new ← review asset now row args.action args.actor_id
  ok (new, record tables { asset_rows = write args.id row new tables.asset_rows })

pub transition_service : Time → Args → Tables → Result Error (Row × Tables)
unfolding review write
transition_service now args tables = do
  row ← or_throw (find_first (has_id args.id) tables.service_rows) not_found
  new ← review service now row args.action args.actor_id
  ok (new, record tables { service_rows = write args.id row new tables.service_rows })

pub transition_venue : Time → Args → Tables → Result Error (Row × Tables)
unfolding review write
transition_venue now args tables = do
  row ← or_throw (find_first (has_id args.id) tables.venue_rows) not_found
  new ← review venue now row args.action args.actor_id
  ok (new, record tables { venue_rows = write args.id row new tables.venue_rows })

dispatch : Kind → Time → Args → Tables → Result Error (Row × Tables)
unfolding transition_asset transition_service transition_venue
dispatch asset = transition_asset
dispatch service = transition_service
dispatch venue = transition_venue

pub transition : Time → Args → Tables → Result Error (Row × Tables)
unfolding dispatch
transition now args = dispatch args.kind now args
