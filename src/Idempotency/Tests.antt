-- ===== src/Idempotency/Tests.antt =====
-- Runs of src/modules/idempotency/idempotency.service.ts on small tables, and the hypotheses of the
-- theorems met by them.
use fox_passport_republic_ap.Prelude.{
  ◌+◌, ◌≡◌, ◌≢◌, refl, arith, none, some, List, [], ◌∷◌, Text, ok, err,
}
use fox_passport_republic_ap.Idempotency.{
  succeeded, Params, Draw, Completion, requester_mismatch, claimed, busy, claim, claim_found,
  answer, inserted, reclaimed, complete, completed,
}
use fox_passport_republic_ap.Idempotency.Lease.{Request, claim_request, complete_request, run}
use fox_passport_republic_ap.Idempotency.Held.{ends_hold}
use fox_passport_republic_ap.Idempotency.Once.{
  by_holder, completes_again, replayed, claim-excludes, claim-complete-claim,
}

abbrev digest : Text → Text
digest payload = payload + 1

abbrev params : Params
params = record {
  endpoint = 1;
  idempotency_key = 7;
  requester_id = 20;
  booking_id = none;
  request_payload = 99;
}

abbrev first_draw : Draw
first_draw = record { app_now = 1000; db_now = 1000; token = 501; new_id = 601 }

abbrev second_draw : Draw
second_draw = record { app_now = 2000; db_now = 2000; token = 502; new_id = 602 }

abbrev late_draw : Draw
late_draw = record { app_now = 200_000; db_now = 200_000; token = 503; new_id = 603 }

abbrev done_by : Text → Completion
done_by token = record {
  endpoint = 1;
  idempotency_key = 7;
  execution_token = token;
  status = succeeded;
  response_body = some 42;
}

-- A double click is told that the first request is under way.
double_click : (claim digest second_draw params ((claim digest first_draw params []).1)).0 ≡ ok busy
unfolding claim claim_found inserted answer
double_click = refl

-- After the lease the key is taken over.
taken_over :
    (claim digest late_draw params ((claim digest first_draw params []).1)).0 ≡ ok (claimed 503)
unfolding claim claim_found inserted reclaimed answer
taken_over = refl

-- Another requester takes a key over too, and the row keeps the first requester: a replay is then
-- for the first requester, and refused to the one who executed it.
abbrev stranger : Params
stranger = record params { requester_id = 21 }

taken_by_stranger :
    (claim digest late_draw stranger (
      complete
        (done_by 503)
        ((claim digest late_draw stranger ((claim digest first_draw params []).1)).1))).0
    ≡ err requester_mismatch
unfolding claim claim_found inserted reclaimed answer complete completed
taken_by_stranger = refl

abbrev requests : List Request
requests =
    claim_request second_draw params
    ∷ complete_request (done_by 444)
    ∷ claim_request second_draw (record params { idempotency_key = 8 })
    ∷ []

claim-excludes_example :
    (claim digest second_draw
      (record params { requester_id = 20; request_payload = 99 })
      (run digest requests ((claim digest first_draw params []).1))).0
    ≢ ok (claimed 502)
unfolding claim claim_found inserted ends_hold
claim-excludes_example =
    claim-excludes digest first_draw params [] 501 requests second_draw 20 99 502 refl
      (refl, (refl, (refl, tt))) (omega arith)

claim-complete-claim_example :
    let params' : Params = record params { requester_id = 20; request_payload = 99 } in
    let table = run digest requests (
      complete
        (by_holder (inserted digest first_draw params) (some 42))
        (run digest requests ((claim digest first_draw params []).1))) in
    ((claim digest first_draw params []).0 ≡ ok (claimed 501))
    × (claim digest late_draw params' table ≡ (replayed digest params' 20 100 (some 42), table))
unfolding ends_hold completes_again
claim-complete-claim_example =
    claim-complete-claim digest first_draw params [] requests requests (some 42) late_draw 20 99
      refl (refl, (refl, (refl, tt))) (refl, (refl, (refl, tt)))
