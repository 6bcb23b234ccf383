-- ===== src/Transaction/Step.antt =====
-- The transitions as a relation between rows, which the code decides:
-- src/modules/transaction-status/transaction-status.service.ts.
use fox_passport_republic_ap.Prelude.{
  ◌≡◌, ◌≢◌, ◌↔◌, ◌⊎◌, ◌<◌, ◌≤◌, Option, none, some, Text, Time, ok, err, arith, ap, ℕ, List,
  find_first,
}
use fox_passport_republic_ap.Transaction.{
  Status, pending, pending_provider_confirmation, approved, rejected, cancelled, Kind, asset,
  service, venue, Action, confirm, reject, cancel, expire, Row, review, provider_declined,
  deadline_expired, Args, Tables, write, has_id, transition, dispatch, not_found,
}

-- No deadline, or one that is past.
abbrev pub IsOverdue : Time → Option Time → Type 0
IsOverdue now none = Unit
IsOverdue now (some d) = d < now

abbrev pub IsOpen : Time → Option Time → Type 0
IsOpen now none = ⊥
IsOpen now (some d) = now ≤ d

-- `o` is a string other than the empty one.
abbrev pub IsPresent : Option Text → Type 0
IsPresent none = ⊥
IsPresent (some t) = t ≢ 0

-- What an asset's, a service's or a venue's transaction may be cancelled from.
abbrev pub IsCancellable : Kind → Status → Type 0
IsCancellable venue s = (s ≡ approved) ⊎ (s ≡ pending)
IsCancellable _ s = (s ≡ approved) ⊎ (s ≡ pending_provider_confirmation)

-- How far a transaction has come.
abbrev pub rank : Status → ℕ
rank approved = 1
rank rejected = 2
rank cancelled = 2
rank _ = 0

-- One step from a row to a new row, at a time and by an actor.
module _ (kind : Kind) (now : Time) (row : Row) (actor : Option Text) (new : Row) where
  pub data Step : Action → Type 0 where
    confirmed :
        row.status ≡ pending_provider_confirmation
        → actor ≡ some row.provider_id
        → row.provider_id ≢ 0
        → IsOpen now row.confirmation_deadline
        → new ≡ record row { status = approved }
        → Step confirm
    declined :
        row.status ≡ pending_provider_confirmation
        → actor ≡ some row.provider_id
        → row.provider_id ≢ 0
        → new ≡ record row { status = rejected; rejection_reason = some provider_declined }
        → Step reject
    expired :
        row.status ≡ pending_provider_confirmation
        → IsOverdue now row.confirmation_deadline
        → new ≡ record row { status = rejected; rejection_reason = some deadline_expired }
        → Step expire
    withdrawn :
        IsCancellable kind row.status
        → IsPresent row.booking_id
        → IsPresent actor
        → row.booking_owner ≡ actor
        → new ≡ record row { status = cancelled }
        → Step cancel

  pub review-Step : (action : Action) → review kind now row action actor ≡ ok new → Step action
  unfolding review
  review-Step confirm e = grind (arith, confirmed)
  review-Step reject e = grind (arith, declined)
  review-Step expire e = grind (arith, expired)
  review-Step cancel e = grind (arith, withdrawn)

  pub Step-review : (action : Action) → Step action → review kind now row action actor ≡ ok new
  unfolding review
  Step-review confirm (confirmed p q r s t) = ground arith
  Step-review reject (declined p q r t) = ground arith
  Step-review expire (expired p q t) = ground arith
  Step-review cancel (withdrawn c b a o t) = ground arith

  -- A step keeps the row's identifier.
  pub id-Step : {action : Action} → Step action → new.id ≡ row.id
  id-Step (confirmed p q r s t) = ap (λ (r : Row). r.id) t
  id-Step (declined p q r t) = ap (λ (r : Row). r.id) t
  id-Step (expired p q t) = ap (λ (r : Row). r.id) t
  id-Step (withdrawn c b a o t) = ap (λ (r : Row). r.id) t

module _ (kind : Kind) (now : Time) (row : Row) where
  -- A step brings a transaction further.
  pub rank-Step :
      (actor : Option Text) (new : Row) {action : Action}
      → Step kind now row actor new action
      → rank row.status < rank new.status
  rank-Step actor new (confirmed p q r s t) = ground arith
  rank-Step actor new (declined p q r t) = ground arith
  rank-Step actor new (expired p q t) = ground arith
  rank-Step actor new (withdrawn c b a o t) = ground arith

-- The table of a kind, and the tables with it replaced.
abbrev pub rows : Kind → Tables → List Row
rows asset t = t.asset_rows
rows service t = t.service_rows
rows venue t = t.venue_rows

abbrev pub with_rows : Kind → List Row → Tables → Tables
with_rows asset rs t = record t { asset_rows = rs }
with_rows service rs t = record t { service_rows = rs }
with_rows venue rs t = record t { venue_rows = rs }

-- What a transition that succeeds has done.
pub record Moved (kind : Kind) (now : Time) (args : Args) (tables : Tables) (row new : Row)
    (after : Tables) : Type 0 where
  pub step : Step kind now row args.actor_id new args.action
  pub stored : after ≡ with_rows kind (write args.id row new (rows kind tables)) tables

module _ (now : Time) (args : Args) (tables : Tables) (row new : Row) (after : Tables) where
  dispatch-Moved :
      (kind : Kind)
      → find_first (has_id args.id) (rows kind tables) ≡ some row
      → dispatch kind now args tables ≡ ok (new, after)
      → Moved kind now args tables row new after
  unfolding dispatch
  dispatch-Moved asset found e = record {
    step = review-Step asset now row args.actor_id new args.action (ground arith);
    stored = ground arith;
  }
  dispatch-Moved service found e = record {
    step = review-Step service now row args.actor_id new args.action (ground arith);
    stored = ground arith;
  }
  dispatch-Moved venue found e = record {
    step = review-Step venue now row args.actor_id new args.action (ground arith);
    stored = ground arith;
  }

  Moved-dispatch :
      (kind : Kind)
      → find_first (has_id args.id) (rows kind tables) ≡ some row
      → Moved kind now args tables row new after
      → dispatch kind now args tables ≡ ok (new, after)
  unfolding dispatch
  Moved-dispatch asset found m =
      ground (arith, Step-review asset now row args.actor_id new args.action m.step)
  Moved-dispatch service found m =
      ground (arith, Step-review service now row args.actor_id new args.action m.step)
  Moved-dispatch venue found m =
      ground (arith, Step-review venue now row args.actor_id new args.action m.step)

  -- On a row that is found, a transition succeeds with a new row and new tables exactly when
  -- the relation `Step` has the new row as a step of the old one and the tables differ by it.
  pub transition_iff :
      find_first (has_id args.id) (rows args.kind tables) ≡ some row
      → (transition now args tables ≡ ok (new, after))
        ↔ Moved args.kind now args tables row new after
  unfolding transition
  transition_iff found = (dispatch-Moved args.kind found, Moved-dispatch args.kind found)

module _ (now : Time) (args : Args) (tables : Tables) where
  dispatch_missing :
      (kind : Kind)
      → find_first (has_id args.id) (rows kind tables) ≡ none
      → dispatch kind now args tables ≡ err not_found
  unfolding dispatch
  dispatch_missing asset e = rw e
  dispatch_missing service e = rw e
  dispatch_missing venue e = rw e

  pub transition_missing :
      find_first (has_id args.id) (rows args.kind tables) ≡ none
      → transition now args tables ≡ err not_found
  unfolding transition
  transition_missing = dispatch_missing args.kind
