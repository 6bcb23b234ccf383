-- ===== src/Bidding/Outcome.antt =====
-- What one acceptance in src/modules/bidding/bidding.service.ts leaves behind.
use fox_passport_republic_ap.Prelude.{
  ◌≡◌, refl, sym, ap, ◌∙◌, inl, inr, true, not, ◌&&◌, some, List, [], ◌∷◌, ◌++◌, Text, ◌==◌,
  find_first, if◌then◌else◌, Bool-cases, map, ok, >>=-eq-ok, >>-eq-ok, or_throw-eq-ok, or_throw,
  throw_if, ok-injective,
}
use fox_passport_republic_ap.Bidding.Decision.{check_acceptance-eq-ok}
use fox_passport_republic_ap.Bidding.Data.{
  Kind, accepted, rejected, Bid, Board, Deps, Event, bid_not_found, missing_relation, unavailable,
}
use fox_passport_republic_ap.Bidding.{
  is_pending, has_id, competes, decide, is_rival, accept_bid, book, check_acceptance, check_item,
  reservation,
}

-- What an acceptance makes of each bid.
unfoldable pub verdict : Bid → Bid → Bid
verdict winner bid =
    if bid.id == winner.id
    then record bid { status = accepted }
    else (if competes winner.slot_id winner.event_id bid && is_pending bid.status
        then record bid { status = rejected }
        else bid)

verdict-one :
    (winner bid : Bid)
    → (if is_rival winner (if has_id winner.id bid then record bid { status = accepted } else bid)
        then record (if has_id winner.id bid then record bid { status = accepted } else bid) {
          status = rejected;
        }
        else (if has_id winner.id bid then record bid { status = accepted } else bid))
      ≡ verdict winner bid
unfolding verdict
verdict-one winner bid = elim (Bool-cases (bid.id == winner.id)) [
  | inl t ↦ rw t (elim (Bool-cases (competes winner.slot_id winner.event_id bid)) [
    | inl c ↦ rw c refl
    | inr d ↦ rw d refl
  ])
  | inr n ↦ rw n (elim (Bool-cases (competes winner.slot_id winner.event_id bid)) [
    | inl c ↦
        rw c
          (elim (Bool-cases (is_pending bid.status)) [ inl w ↦ rw (w, n) refl | inr v ↦ rw v refl ])
    | inr d ↦ rw d refl
  ])
]

decide-verdict : (winner : Bid) (bids : List Bid) → decide winner bids ≡ map (verdict winner) bids
unfolding decide
decide-verdict winner [] = refl
decide-verdict winner (b ∷ bids) = rw (verdict-one winner b, decide-verdict winner bids) refl

book-eq-ok :
    (deps : Deps) (kind : Kind) (bid : Bid) (event : Event) (board board' : Board)
    → book deps kind bid event board ≡ ok board'
    → (board'.bids ≡ map (verdict bid) board.bids)
      × (board'.reservations ≡ board.reservations ++ reservation bid ∷ [])
unfolding book
book-eq-ok deps kind bid event board board' e =
    let decided_board : Board = record board { bids = decide bid board.bids } in
    let (_, e1) =
      >>-eq-ok (throw_if (not (deps.reserve decided_board (check_item kind bid event))) unavailable)
        _ e in
    let outcome = sym (ok-injective e1) in
    (ap (λ b. b.bids) outcome ∙ decide-verdict bid board.bids, ap (λ b. b.reservations) outcome)

-- An acceptance that succeeds found a bid that was pending; it accepts that bid, rejects the other
-- pending bids for the same slot of the same event, leaves every other bid as it was, and adds one
-- transaction, for that bid.
pub accept_bid-verdict :
    (deps : Deps) (kind : Kind) (bid_id host_id : Text) (board board' : Board)
    → accept_bid deps kind bid_id host_id board ≡ ok board'
    → (bid : Bid) × (find_first (has_id bid_id) board.bids ≡ some bid)
      × (is_pending bid.status ≡ true)
      × (board'.bids ≡ map (verdict bid) board.bids)
      × (board'.reservations ≡ board.reservations ++ reservation bid ∷ [])
unfolding accept_bid
accept_bid-verdict deps kind bid_id host_id board board' e =
    let (bid, at, e1) =
      >>=-eq-ok (or_throw (find_first (has_id bid_id) board.bids) bid_not_found) _ e in
    let (event, _, e2) =
      >>=-eq-ok (or_throw (find_first (λ e. e.id == bid.event_id) board.events) missing_relation) _
        e1 in
    let (listing, _, e3) =
      >>=-eq-ok
        (or_throw (find_first (λ l. l.id == bid.listing_id) board.listings) missing_relation) _
        e2 in
    let (requirement, _, e4) =
      >>=-eq-ok
        (or_throw (find_first (λ r. r.id == bid.slot_id) board.requirements) missing_relation) _
        e3 in
    let (checked, e5) =
      >>-eq-ok (check_acceptance kind host_id bid event listing requirement board.bids) _ e4 in
    let (waits, _) =
      check_acceptance-eq-ok kind host_id bid event listing requirement board.bids checked in
    let (bids, reservations) = book-eq-ok deps kind bid event board board' e5 in
    (bid, or_throw-eq-ok _ bid_not_found at, waits, bids, reservations)
