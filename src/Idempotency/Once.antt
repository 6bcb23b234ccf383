-- ===== src/Idempotency/Once.antt =====
-- One execution per key: src/modules/idempotency/idempotency.service.ts, from the claim of a new
-- key to its replays.
use fox_passport_republic_ap.Prelude.{
  ◌+◌, ◌≤◌, ◌≡◌, ◌≢◌, refl, sym, ap, ◌∙◌, arith, Bool, false, ◌&&◌, Option, none, some, List, ◌∷◌,
  Text, ◌==◌, Result, ok, err, if◌then◌else◌, All, ==_refl, All-map,
}
use fox_passport_republic_ap.Idempotency.{
  Row, succeeded, Params, Draw, Completion, Error, requester_mismatch, payload_mismatch,
  ClaimResult, claimed, cached, lease, has_key, inserted, answer, claim_found, claim, completed,
  holds_token, complete,
}
use fox_passport_republic_ap.Idempotency.Lease.{
  Request, claim_request, complete_request, run, disturbs, lookup, run-keeps, claim-keeps_own,
}
use fox_passport_republic_ap.Idempotency.Held.{
  find_first-update_found, claim-inserts, inserted-lookup, ends_hold, inserted-IsHeld,
  answer-not_claimed, claim-IsHeld, held-may_take, held-run,
}

-- The completion by the worker that holds the row.
unfoldable pub by_holder : Row → Option Text → Completion
by_holder row body = record {
  endpoint = row.endpoint;
  idempotency_key = row.idempotency_key;
  execution_token = row.execution_token;
  status = succeeded;
  response_body = body;
}

complete-lookup :
    (rows : List Row) (row : Row) (body : Option Text)
    → lookup row.endpoint row.idempotency_key rows ≡ some row
    → lookup row.endpoint row.idempotency_key (complete (by_holder row body) rows)
      ≡ some (completed (by_holder row body) row)
unfolding complete completed by_holder
complete-lookup rows row body e =
    find_first-update_found (has_key row.endpoint row.idempotency_key)
      (holds_token (by_holder row body)) (completed (by_holder row body)) rows row (λ r. refl)
      (rw (==_refl row.endpoint, ==_refl row.idempotency_key, ==_refl row.execution_token) refl) e

-- What any caller of a key that succeeded is told: the stored response, if it sent the same payload
-- as the same requester.
unfoldable pub replayed :
    (Text → Text) → Params → Text → Text → Option Text → Result Error ClaimResult
replayed hash params requester_id request_hash body =
    if requester_id == params.requester_id
    then (if request_hash == hash params.request_payload
        then ok (cached body)
        else err payload_mismatch)
    else err requester_mismatch

succeeded-replayed :
    (hash : Text → Text) (draw : Draw) (params : Params) (rows : List Row) (row : Row)
    → lookup params.endpoint params.idempotency_key rows ≡ some row
    → row.status ≡ succeeded
    → claim hash draw params rows
      ≡ (replayed hash params row.requester_id row.request_hash row.response_body, rows)
unfolding claim claim_found answer replayed
succeeded-replayed hash draw params rows row e s = rw (e, s) (ground arith)

-- Whether a call is a completion of the key with a granted claim's token.
unfoldable pub completes_again : Draw → Params → Request → Bool
completes_again draw params (claim_request d p) = false
completes_again draw params (complete_request c) =
    (params.endpoint == c.endpoint && params.idempotency_key == c.idempotency_key)
    && draw.token == c.execution_token

-- Once a claim of a key is granted, and as long as no request claims the key after the lease or
-- completes it with the claim's token, no further claim of the key by the end of the lease is
-- granted, whatever requests came between.
pub claim-excludes :
    (hash : Text → Text) (draw : Draw) (params : Params) (rows : List Row) (token : Text)
    (during : List Request) (draw' : Draw) (requester payload other : Text)
    → (claim hash draw params rows).0 ≡ ok (claimed token)
    → All (λ r. ends_hold draw params r ≡ false) during
    → draw'.db_now ≤ draw.app_now + lease
    → (claim hash draw'
        (record params { requester_id = requester; request_payload = payload })
        (run hash during ((claim hash draw params rows).1))).0
      ≢ ok (claimed other)
claim-excludes hash draw params rows token during draw' requester payload other e spare d g =
    let (row, at, h) = claim-IsHeld hash draw params rows token e in
    let params' : Params = record params { requester_id = requester; request_payload = payload } in
    let kept =
      claim-keeps_own hash draw' params' (run hash during ((claim hash draw params rows).1)) row
        (held-run hash draw params ((claim hash draw params rows).1) row during at h spare)
        (held-may_take draw params row draw'.db_now h d) in
    answer-not_claimed hash params' row other (sym (ap (λ x. x.0) kept) ∙ g)

abbrev succeeded_row : (Text → Text) → Draw → Params → Option Text → Row
succeeded_row hash draw params body = record (inserted hash draw params) {
  status = succeeded;
  response_body = body;
}

succeeded-disturbs :
    (hash : Text → Text) (draw : Draw) (params : Params) (body : Option Text) (r : Request)
    → disturbs (succeeded_row hash draw params body) r ≡ completes_again draw params r
unfolding disturbs completes_again inserted
succeeded-disturbs hash draw params body (claim_request d p) = ground arith
succeeded-disturbs hash draw params body (complete_request c) = refl

-- A key without a row is executed once: its claim is granted, and if the worker's completion with
-- success is stored before any request ends its hold, then whatever comes after, except a second
-- completion with that token, every claim of the key is answered with the stored response, or
-- refused to another requester or payload, and changes nothing.
pub claim-complete-claim :
    (hash : Text → Text) (draw : Draw) (params : Params) (rows : List Row)
    (during after : List Request) (body : Option Text) (draw' : Draw) (requester payload : Text)
    → lookup params.endpoint params.idempotency_key rows ≡ none
    → All (λ r. ends_hold draw params r ≡ false) during
    → All (λ r. completes_again draw params r ≡ false) after
    → let params' : Params = record params {
      requester_id = requester;
      request_payload = payload;
    } in
      let granted = claim hash draw params rows in
      let table =
        run hash after
          (complete (by_holder (inserted hash draw params) body) (run hash during (granted.1))) in
      (granted.0 ≡ ok (claimed draw.token))
      × (claim hash draw' params' table
          ≡ (replayed hash params' params.requester_id (hash params.request_payload) body, table))
unfolding inserted completed by_holder
claim-complete-claim hash draw params rows during after body draw' requester payload missing spare
      again =
    rw (claim-inserts hash draw params rows missing) (
      refl,
      succeeded-replayed hash draw'
          (record params { requester_id = requester; request_payload = payload }) _
          (succeeded_row hash draw params body)
          (run-keeps hash after _ (succeeded_row hash draw params body)
            (complete-lookup (run hash during (inserted hash draw params ∷ rows))
              (inserted hash draw params) body
              (held-run hash draw params (inserted hash draw params ∷ rows)
                (inserted hash draw params) during (inserted-lookup hash draw params rows)
                (inserted-IsHeld hash draw params) spare))
            (All-map after (λ r s. succeeded-disturbs hash draw params body r ∙ s) again))
          refl,
    )
