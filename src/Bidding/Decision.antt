-- ===== src/Bidding/Decision.antt =====
-- What the requests of src/modules/bidding/bidding.service.ts do to the bids, as a relation.
use fox_passport_republic_ap.Prelude.{
  is_some-false, not-false, ◌≡◌, refl, sym, ap, subst, inl, inr, arith, true, not, ◌&&◌, none, some,
  List, [], ◌∷◌, ◌++◌, Text, ◌==◌, is_some, or_throw, throw_if, find_first, update_where, ok,
  >>=-eq-ok, >>-eq-ok, or_throw-eq-ok, throw_if-eq-ok, ok-injective, find_first_sound, Result-cases,
}
use fox_passport_republic_ap.Bidding.Data.{
  Kind, pending, rejected, Bid, Board, Deps, Submission, Event, Listing, Requirement, bid_not_found,
  missing_relation, not_host, own_bid, not_pending, unavailable, duplicate_id,
}
use fox_passport_republic_ap.Bidding.{
  check_submission, check_item, Request, submit, accept, reject, is_pending, is_accepted, has_id,
  competes, created, submit_bid, accept_bid, reject_bid, check_acceptance, book, decide, step,
  after, run,
}

-- The bids before and after a request that succeeds.
pub data Change : List Bid → List Bid → Type 0 where
  added :
      (bids : List Bid) (bid : Bid)
      → bid.status ≡ pending
      → find_first (has_id bid.id) bids ≡ none
      → Change bids (bids ++ bid ∷ [])
  decided :
      (bids : List Bid) (winner : Bid)
      → find_first (has_id winner.id) bids ≡ some winner
      → is_pending winner.status ≡ true
      → find_first (λ b. competes winner.slot_id winner.event_id b && is_accepted b.status) bids
        ≡ none
      → Change bids (decide winner bids)
  turned_down :
      (bids : List Bid) (bid : Bid)
      → find_first (has_id bid.id) bids ≡ some bid
      → is_pending bid.status ≡ true
      → Change bids (update_where (has_id bid.id) (λ b. record b { status = rejected }) bids)

found_id :
    (id : Text) (bids : List Bid) (bid : Bid) → find_first (has_id id) bids ≡ some bid → bid.id ≡ id
found_id id bids bid e = let t = find_first_sound (has_id id) bids bid e in ground arith

submit_bid-Change :
    (kind : Kind) (new_id : Text) (submission : Submission) (board board' : Board)
    → submit_bid kind new_id submission board ≡ ok board'
    → Change board.bids board'.bids
unfolding submit_bid created
submit_bid-Change kind new_id submission board board' e =
    let (_, e1) = >>-eq-ok (check_submission kind submission board) _ e in
    let (fresh, e2) =
      >>-eq-ok (throw_if (is_some (find_first (has_id new_id) board.bids)) duplicate_id) _ e1 in
    subst (λ b. Change board.bids b.bids) (ok-injective e2)
      (added board.bids (created new_id submission) refl
        (is_some-false _ (throw_if-eq-ok _ duplicate_id fresh)))

pub check_acceptance-eq-ok :
    (kind : Kind) (host_id : Text) (bid : Bid) (event : Event) (listing : Listing)
    (requirement : Requirement) (bids : List Bid)
    → check_acceptance kind host_id bid event listing requirement bids ≡ ok tt
    → (is_pending bid.status ≡ true)
      × (find_first (λ b. competes bid.slot_id bid.event_id b && is_accepted b.status) bids ≡ none)
unfolding check_acceptance
check_acceptance-eq-ok kind host_id bid event listing requirement bids e = ground arith

book-eq-ok :
    (deps : Deps) (kind : Kind) (bid : Bid) (event : Event) (board board' : Board)
    → book deps kind bid event board ≡ ok board'
    → board'.bids ≡ decide bid board.bids
unfolding book
book-eq-ok deps kind bid event board board' e =
    let decided_board : Board = record board { bids = decide bid board.bids } in
    let (_, e1) =
      >>-eq-ok (throw_if (not (deps.reserve decided_board (check_item kind bid event))) unavailable)
        _ e in
    sym (ap (λ b. b.bids) (ok-injective e1))

accept_bid-Change :
    (deps : Deps) (kind : Kind) (bid_id host_id : Text) (board board' : Board)
    → accept_bid deps kind bid_id host_id board ≡ ok board'
    → Change board.bids board'.bids
unfolding accept_bid
accept_bid-Change deps kind bid_id host_id board board' e =
    let (bid, at, e1) =
      >>=-eq-ok (or_throw (find_first (has_id bid_id) board.bids) bid_not_found) _ e in
    let (event, _, e2) =
      >>=-eq-ok (or_throw (find_first (λ e. e.id == bid.event_id) board.events) missing_relation) _
        e1 in
    let (listing, _, e3) =
      >>=-eq-ok
        (or_throw (find_first (λ l. l.id == bid.listing_id) board.listings) missing_relation) _
        e2 in
    let (requirement, _, e4) =
      >>=-eq-ok
        (or_throw (find_first (λ r. r.id == bid.slot_id) board.requirements) missing_relation) _
        e3 in
    let (checked, e5) =
      >>-eq-ok (check_acceptance kind host_id bid event listing requirement board.bids) _ e4 in
    let (waits, free) =
      check_acceptance-eq-ok kind host_id bid event listing requirement board.bids checked in
    let found = or_throw-eq-ok _ bid_not_found at in
    subst (λ bs. Change board.bids bs) (sym (book-eq-ok deps kind bid event board board' e5))
      (decided board.bids bid
        (subst (λ i. find_first (has_id i) board.bids ≡ some bid)
          (sym (found_id bid_id board.bids bid found)) found)
        waits free)

reject_bid-Change :
    (deps : Deps) (bid_id host_id : Text) (board board' : Board)
    → reject_bid deps bid_id host_id board ≡ ok board'
    → Change board.bids board'.bids
unfolding reject_bid
reject_bid-Change deps bid_id host_id board board' e =
    let (bid, at, e1) =
      >>=-eq-ok (or_throw (find_first (has_id bid_id) board.bids) bid_not_found) _ e in
    let (_, e2) =
      >>-eq-ok (throw_if (not (deps.can_manage_bids board bid.event_id host_id)) not_host) _ e1 in
    let (_, e3) = >>-eq-ok (throw_if (bid.provider_id == host_id) own_bid) _ e2 in
    let (waits, e4) = >>-eq-ok (throw_if (not (is_pending bid.status)) not_pending) _ e3 in
    let found = or_throw-eq-ok _ bid_not_found at in
    let own = found_id bid_id board.bids bid found in
    subst (λ b. Change board.bids b.bids) (ok-injective e4)
      (subst
        (λ i.
          Change board.bids
            (update_where (has_id i) (λ b. record b { status = rejected }) board.bids))
        own
        (turned_down board.bids bid
          (subst (λ i. find_first (has_id i) board.bids ≡ some bid) (sym own) found)
          (not-false _ (throw_if-eq-ok _ not_pending waits))))

pub step-Change :
    (deps : Deps) (kind : Kind) (r : Request) (board board' : Board)
    → step deps kind r board ≡ ok board'
    → Change board.bids board'.bids
unfolding step
step-Change deps kind (submit new_id submission) board board' e =
    submit_bid-Change kind new_id submission board board' e
step-Change deps kind (accept bid_id host_id) board board' e =
    accept_bid-Change deps kind bid_id host_id board board' e
step-Change deps kind (reject bid_id host_id) board board' e =
    reject_bid-Change deps bid_id host_id board board' e

after-preserves :
    (P : List Bid → Type 0)
    → ((xs ys : List Bid) → Change xs ys → P xs → P ys)
    → (deps : Deps) (kind : Kind) (r : Request) (board : Board) → P board.bids
    → P ((after board (step deps kind r board)).bids)
after-preserves P keeps deps kind r board p = elim (Result-cases (step deps kind r board)) [
  | inl (changed, e) ↦ rw e (keeps _ _ (step-Change deps kind r board changed e) p)
  | inr (thrown, e) ↦ rw e p
]

-- What every change preserves, every run of requests preserves.
pub run-preserves :
    (P : List Bid → Type 0)
    → ((xs ys : List Bid) → Change xs ys → P xs → P ys)
    → (deps : Deps) (kind : Kind) (requests : List Request) (board : Board) → P board.bids
    → P ((run deps kind requests board).bids)
unfolding run
run-preserves P keeps deps kind [] board p = p
run-preserves P keeps deps kind (r ∷ rs) board p =
    run-preserves P keeps deps kind rs (after board (step deps kind r board))
      (after-preserves P keeps deps kind r board p)
