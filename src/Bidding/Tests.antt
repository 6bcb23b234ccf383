-- ===== src/Bidding/Tests.antt =====
-- Runs of src/modules/bidding/bidding.service.ts on a small board, and the hypotheses of the
-- theorems met by it.
use fox_passport_republic_ap.Prelude.{
  ◌≡◌, refl, arith, true, none, some, List, [], ◌∷◌, ◌++◌, map, Text, find_first, ok, err,
}
use fox_passport_republic_ap.Prelude.Int.{pos}
use fox_passport_republic_ap.Bidding.Data.{
  asset, performer_foxer, gear_foxer, Status, pending, accepted, rejected, withdrawn, open_event,
  Bid, Board, Deps, Submission, already_applied, not_pending, not_host,
}
use fox_passport_republic_ap.Bidding.{
  Request, submit, accept, reject, is_pending, has_id, submit_bid, check_submission, accept_bid,
  check_acceptance, book, decide, reservation, accept_asset_bid, accept_service_bid,
  submit_asset_bid, run,
}
use fox_passport_republic_ap.Bidding.Unique.{IsFair, run-IsFair}
use fox_passport_republic_ap.Bidding.Final.{run-final}
use fox_passport_republic_ap.Bidding.Outcome.{verdict, accept_bid-verdict}

abbrev deps : Deps
deps = record { can_manage_bids = λ _ _ _. true; reserve = λ _ _. true }

abbrev bid_of : Text → Text → Text → Status → Bid
bid_of id provider listing status = record {
  id = id;
  event_id = 1;
  slot_id = 5;
  provider_id = provider;
  listing_id = listing;
  proposed_price = pos 2000;
  proposed_quantity = 3;
  status = status;
}

abbrev board : Board
board = record {
  users =
      record { id = 30; role_type = gear_foxer ∷ [] }
      ∷ record { id = 31; role_type = performer_foxer ∷ [] }
      ∷ [];
  events =
      record {
        id = 1;
        organizer_id = 20;
        template_id = 9;
        start_at = 100;
        end_at = 200;
        event_status = open_event;
      }
      ∷ [];
  listings =
      record { id = 70; owner_id = 30; is_available = true }
      ∷ record { id = 71; owner_id = 31; is_available = true }
      ∷ [];
  requirements = record { id = 5; template_id = 9; quantity = 2 } ∷ [];
  bids = bid_of 501 30 70 pending ∷ bid_of 502 31 71 pending ∷ bid_of 503 31 71 withdrawn ∷ [];
  reservations = [];
}

abbrev submission : Submission
submission = record {
  event_id = 1;
  slot_id = 5;
  provider_id = 30;
  listing_id = 70;
  proposed_price = pos 1000;
  proposed_quantity = none;
}

-- A second application for one slot with one listing is refused while the first waits.
applied_twice : submit_asset_bid 504 submission board ≡ err already_applied
unfolding submit_asset_bid submit_bid check_submission
applied_twice = refl

abbrev accepted_board : Board
accepted_board = record board {
  bids = bid_of 501 30 70 accepted ∷ bid_of 502 31 71 rejected ∷ bid_of 503 31 71 withdrawn ∷ [];
  reservations =
      record {
        event_id = 1;
        listing_id = 70;
        provider_id = 30;
        agreed_price = pos 2000;
        quantity = 1;
      }
      ∷ [];
}

-- The bid's quantity is 3, and that of the transaction it becomes is 1.
accepted_once : accept_asset_bid deps 501 20 board ≡ ok accepted_board
unfolding accept_asset_bid accept_bid check_acceptance book decide reservation
accepted_once = refl

accepted_twice : accept_asset_bid deps 502 20 accepted_board ≡ err not_pending
unfolding accept_asset_bid accept_bid check_acceptance
accepted_twice = refl

accepted_by_another : accept_service_bid deps 501 21 board ≡ err not_host
unfolding accept_service_bid accept_bid check_acceptance
accepted_by_another = refl

abbrev requests : List Request
requests = accept 501 20 ∷ submit 504 submission ∷ accept 504 20 ∷ reject 502 20 ∷ []

board-IsFair : IsFair board.bids
board-IsFair = record { one_id = λ id. ground arith; one_winner = λ s e. ground arith }

run-IsFair_example : IsFair ((run deps asset requests board).bids)
run-IsFair_example = run-IsFair deps asset requests board board-IsFair

run-final_example :
    find_first (has_id 503) ((run deps asset requests board).bids)
    ≡ some (bid_of 503 31 71 withdrawn)
run-final_example = run-final deps asset requests board 503 (bid_of 503 31 71 withdrawn) refl refl

accept_bid-verdict_example :
    (bid : Bid) × (find_first (has_id 501) board.bids ≡ some bid)
    × (is_pending bid.status ≡ true)
    × (accepted_board.bids ≡ map (verdict bid) board.bids)
    × (accepted_board.reservations ≡ board.reservations ++ reservation bid ∷ [])
unfolding accept_bid check_acceptance book decide reservation
accept_bid-verdict_example = accept_bid-verdict deps asset 501 20 board accepted_board refl
