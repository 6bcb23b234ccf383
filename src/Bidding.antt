-- ===== src/Bidding.antt =====
-- Bids of providers on the open slots of an event: src/modules/bidding/bidding.service.ts and the
-- writes of bidding.repository.ts, on EventServiceBid and EventAssetBid of prisma/schema/event.prisma.
-- The two kinds of bid have the same code but for what `Kind` tells apart, and one table each. Who
-- may manage an event's bids (AppointmentAccess.canOnEvent) and whether a listing is free
-- (AvailabilitySvc.reserve, which writes nothing) are the parameters of a `Deps`.
pub mod Data
pub mod Decision
pub mod Unique
pub mod Final
pub mod Outcome
mod Tests
use fox_passport_republic_ap.Prelude.{
  ℕ, Bool, true, false, not, ◌&&◌, ◌||◌, Option, none, some, List, [], ◌∷◌, ◌++◌, Text, Time, ltb,
  ◌==◌, is_some, any_of, find_first, update_where, Result, ok, err, ◌>>=◌, ◌>>◌, throw_if, or_throw,
  if◌then◌else◌,
}
use Data.*

abbrev pub is_capable : Kind → Role → Bool
is_capable service service_foxer = true
is_capable service performer_foxer = true
is_capable service provider_foxer = true
is_capable asset gear_foxer = true
is_capable asset provider_foxer = true
is_capable _ _ = false

abbrev pub is_over : EventStatus → Bool
is_over open_event = false
is_over completed_event = true
is_over cancelled_event = true

abbrev pub is_pending : Status → Bool
is_pending pending = true
is_pending _ = false

abbrev pub is_accepted : Status → Bool
is_accepted accepted = true
is_accepted _ = false

abbrev pub has_id : Text → Bid → Bool
has_id id bid = bid.id == id

-- The bids for one slot of one event.
abbrev pub competes : Text → Text → Bid → Bool
competes slot_id event_id bid = bid.slot_id == slot_id && bid.event_id == event_id

abbrev pub is_duplicate : Submission → Bid → Bool
is_duplicate submission bid =
    bid.slot_id == submission.slot_id
    && bid.provider_id == submission.provider_id
    && bid.listing_id == submission.listing_id
    && is_pending bid.status

-- The bid that a submission creates.
pub created : Text → Submission → Bid
created new_id submission = record {
  id = new_id;
  event_id = submission.event_id;
  slot_id = submission.slot_id;
  provider_id = submission.provider_id;
  listing_id = submission.listing_id;
  proposed_price = submission.proposed_price;
  proposed_quantity = elim submission.proposed_quantity [ none ↦ 1 | some q ↦ q ];
  status = pending;
}

-- The checks of a submission.
pub check_submission : Kind → Submission → Board → Result Error (Unit {0})
check_submission kind submission board = do
  provider ←
      or_throw (find_first (λ user. user.id == submission.provider_id) board.users)
        provider_not_found
  throw_if (not (any_of (is_capable kind) provider.role_type)) no_capability
  listing ←
      or_throw (find_first (λ l. l.id == submission.listing_id) board.listings) listing_not_found
  throw_if (not (listing.owner_id == submission.provider_id)) not_owner
  event ← or_throw (find_first (λ e. e.id == submission.event_id) board.events) event_not_found
  throw_if (is_over event.event_status) event_over
  requirement ←
      or_throw (find_first (λ r. r.id == submission.slot_id) board.requirements)
        requirement_not_found
  throw_if (not (requirement.template_id == event.template_id)) wrong_template
  throw_if (is_some (find_first (is_duplicate submission) board.bids)) already_applied

-- The last check is the primary key's, which refuses an identifier that is there.
pub submit_bid : Kind → Text → Submission → Board → Result Error Board
unfolding created check_submission
submit_bid kind new_id submission board = do
  check_submission kind submission board
  throw_if (is_some (find_first (has_id new_id) board.bids)) duplicate_id
  ok (record board { bids = board.bids ++ created new_id submission ∷ [] })

-- The quantity of an asset bid must satisfy its slot; a service has none.
abbrev pub is_short : Kind → Bid → Requirement → Bool
is_short service bid requirement = false
is_short asset bid requirement = ltb bid.proposed_quantity requirement.quantity

abbrev pub check_item : Kind → Bid → Event → CheckItem
check_item service bid event = record {
  kind = service;
  item_id = bid.listing_id;
  start = event.start_at;
  end = event.end_at;
  quantity = none;
  event_id = some event.id;
}
check_item asset bid event = record {
  kind = asset;
  item_id = bid.listing_id;
  start = event.start_at;
  end = event.end_at;
  quantity = some bid.proposed_quantity;
  event_id = none;
}

-- The transaction that is created; its quantity is the column's default, 1.
pub reservation : Bid → Reservation
reservation bid = record {
  event_id = bid.event_id;
  listing_id = bid.listing_id;
  provider_id = bid.provider_id;
  agreed_price = bid.proposed_price;
  quantity = 1;
}

-- A bid that is pending for the same slot of the same event and is not the one accepted.
abbrev pub is_rival : Bid → Bid → Bool
is_rival winner bid =
    competes winner.slot_id winner.event_id bid
    && is_pending bid.status
    && not (bid.id == winner.id)

-- The two updates of an acceptance: the bid is accepted, its rivals are rejected.
pub decide : Bid → List Bid → List Bid
decide winner bids =
    update_where (is_rival winner) (λ bid. record bid { status = rejected })
      (update_where (has_id winner.id) (λ bid. record bid { status = accepted }) bids)

-- The checks of an acceptance, on the bid and the rows that it refers to.
pub check_acceptance :
    Kind → Text → Bid → Event → Listing → Requirement → List Bid → Result Error (Unit {0})
check_acceptance kind host_id bid event listing requirement bids = do
  throw_if (not (event.organizer_id == host_id)) not_host
  throw_if (bid.provider_id == host_id) own_bid
  throw_if (not (is_pending bid.status)) not_pending
  throw_if (not (listing.owner_id == bid.provider_id)) listing_moved
  throw_if (not listing.is_available) listing_unavailable
  throw_if (is_short kind bid requirement) quantity_short
  throw_if
      (is_some (find_first (λ b. competes bid.slot_id bid.event_id b && is_accepted b.status) bids))
      already_fulfilled

-- The board that an acceptance leaves, with the conflict check of the listing's calendar between
-- the updates of the bids and the new transaction.
pub book : Deps → Kind → Bid → Event → Board → Result Error Board
unfolding decide reservation
book deps kind bid event board = do
  let decided : Board = record board { bids = decide bid board.bids }
  throw_if (not (deps.reserve decided (check_item kind bid event))) unavailable
  ok (record decided { reservations = board.reservations ++ reservation bid ∷ [] })

pub accept_bid : Deps → Kind → Text → Text → Board → Result Error Board
unfolding check_acceptance book
accept_bid deps kind bid_id host_id board = do
  bid ← or_throw (find_first (has_id bid_id) board.bids) bid_not_found
  event ← or_throw (find_first (λ e. e.id == bid.event_id) board.events) missing_relation
  listing ← or_throw (find_first (λ l. l.id == bid.listing_id) board.listings) missing_relation
  requirement ← or_throw (find_first (λ r. r.id == bid.slot_id) board.requirements) missing_relation
  check_acceptance kind host_id bid event listing requirement board.bids
  book deps kind bid event board

pub reject_bid : Deps → Text → Text → Board → Result Error Board
reject_bid deps bid_id host_id board = do
  bid ← or_throw (find_first (has_id bid_id) board.bids) bid_not_found
  throw_if (not (deps.can_manage_bids board bid.event_id host_id)) not_host
  throw_if (bid.provider_id == host_id) own_bid
  throw_if (not (is_pending bid.status)) not_pending
  ok (record board {
    bids = update_where (has_id bid_id) (λ b. record b { status = rejected }) board.bids;
  })

pub submit_service_bid : Text → Submission → Board → Result Error Board
unfolding submit_bid
submit_service_bid new_id submission board = submit_bid service new_id submission board

pub submit_asset_bid : Text → Submission → Board → Result Error Board
unfolding submit_bid
submit_asset_bid new_id submission board = submit_bid asset new_id submission board

pub accept_service_bid : Deps → Text → Text → Board → Result Error Board
unfolding accept_bid
accept_service_bid deps bid_id host_id board = accept_bid deps service bid_id host_id board

pub accept_asset_bid : Deps → Text → Text → Board → Result Error Board
unfolding accept_bid
accept_asset_bid deps bid_id host_id board = accept_bid deps asset bid_id host_id board

-- A request on the board of a kind, with the identifier that a submission draws.
pub data Request : Type 0 where
  submit : Text → Submission → Request
  accept : Text → Text → Request
  reject : Text → Text → Request

pub step : Deps → Kind → Request → Board → Result Error Board
unfolding submit_bid accept_bid reject_bid
step deps kind (submit new_id submission) board = submit_bid kind new_id submission board
step deps kind (accept bid_id host_id) board = accept_bid deps kind bid_id host_id board
step deps kind (reject bid_id host_id) board = reject_bid deps bid_id host_id board

-- A request that fails leaves the board.
abbrev pub after : Board → Result Error Board → Board
after board (err _) = board
after board (ok changed) = changed

pub run : Deps → Kind → List Request → Board → Board
unfolding step
run deps kind [] board = board
run deps kind (r ∷ rs) board = run deps kind rs (after board (step deps kind r board))
