-- ===== src/Idempotency/Lease.antt =====
-- What a lease on a key guarantees: src/modules/idempotency/idempotency.service.ts, over sequences
-- of calls.
use fox_passport_republic_ap.Prelude.{
  ◌≡◌, refl, sym, ap, inl, inr, arith, Bool, true, false, ◌&&◌, Option, some, List, [], ◌∷◌, Text,
  ◌==◌, find_first, update_where, Bool-cases, Option-cases, All, some-injective, subst,
}
use fox_passport_republic_ap.Idempotency.{
  Row, Params, Draw, Completion, has_key, may_take, inserted, reclaimed, answer, claim_found, claim,
  completed, holds_token, complete,
}

-- A call of the service, with what it draws and reads.
pub data Request : Type 0 where
  claim_request : Draw → Params → Request
  complete_request : Completion → Request

unfoldable pub step : (Text → Text) → Request → List Row → List Row
unfolding claim complete
step hash (claim_request draw params) rows = (claim hash draw params rows).1
step hash (complete_request c) rows = complete c rows

unfoldable pub run : (Text → Text) → List Request → List Row → List Row
unfolding step
run hash [] rows = rows
run hash (r ∷ rs) rows = run hash rs (step hash r rows)

-- Whether a call can change this row: a claim of its key when the row is failed or its lease has
-- ended, or a completion with its token.
unfoldable pub disturbs : Row → Request → Bool
disturbs row (claim_request draw params) =
    has_key params.endpoint params.idempotency_key row
    && may_take row.status row.lease_expires_at draw.db_now
disturbs row (complete_request c) = holds_token c row

-- An update of other rows leaves the row that a search finds.
find_first-update_where :
    (p q : Row → Bool) (f : Row → Row) (rows : List Row) (row : Row)
    → ((r : Row) → p (f r) ≡ p r)
    → q row ≡ false
    → find_first p rows ≡ some row
    → find_first p (update_where q f rows) ≡ some row
find_first-update_where p q f [] row keeps out e = cc
find_first-update_where p q f (r ∷ rows) row keeps out e = elim (Bool-cases (p r)) [
  | inl t ↦
      (let found = some-injective r row (rw t at e) in
        rw (subst (λ x. q x ≡ false) (sym found) out, t) (ap some found))
  | inr n ↦ elim (Bool-cases (q r)) [
    | inl u ↦ rw (u, keeps r, n) (find_first-update_where p q f rows row keeps out (rw n at e))
    | inr u ↦ rw (u, n) (find_first-update_where p q f rows row keeps out (rw n at e))
  ]
]

-- Two keys that one row has are the same.
has_key-both :
    (row : Row) (e k : Text)
    → has_key e k row ≡ true
    → (row.endpoint ≡ e) × (row.idempotency_key ≡ k)
has_key-both row e k h = ground arith

has_key-other :
    (row : Row) (params : Params)
    → has_key params.endpoint params.idempotency_key row ≡ false
    → (params.endpoint == row.endpoint && params.idempotency_key == row.idempotency_key) ≡ false
has_key-other row params n = ground arith

-- The row of a key, as a search of the table finds it.
abbrev pub lookup : Text → Text → List Row → Option Row
lookup endpoint key rows = find_first (has_key endpoint key) rows

-- A claim of another key.
claim-keeps_other :
    (hash : Text → Text) (draw : Draw) (params : Params) (rows : List Row) (row : Row)
    → lookup row.endpoint row.idempotency_key rows ≡ some row
    → has_key params.endpoint params.idempotency_key row ≡ false
    → lookup row.endpoint row.idempotency_key ((claim hash draw params rows).1) ≡ some row
unfolding claim claim_found inserted reclaimed
claim-keeps_other hash draw params rows row e n =
    elim (Option-cases (lookup params.endpoint params.idempotency_key rows)) [
      | inl missing ↦ rw (missing, has_key-other row params n) e
      | inr (found, hit) ↦
          elim (Bool-cases (may_take found.status found.lease_expires_at draw.db_now)) [
            | inl t ↦
                rw (hit, t)
                  (find_first-update_where (has_key row.endpoint row.idempotency_key)
                    (has_key params.endpoint params.idempotency_key) (reclaimed draw) rows row
                    (λ r. refl) n e)
            | inr f ↦ rw (hit, f) e
          ]
    ]

-- A claim of its own key, whose holder may not be replaced.
pub claim-keeps_own :
    (hash : Text → Text) (draw : Draw) (params : Params) (rows : List Row) (row : Row)
    → lookup params.endpoint params.idempotency_key rows ≡ some row
    → may_take row.status row.lease_expires_at draw.db_now ≡ false
    → claim hash draw params rows ≡ (answer hash params row, rows)
unfolding claim claim_found
claim-keeps_own hash draw params rows row e n = rw (e, n) refl

claim-keeps :
    (hash : Text → Text) (draw : Draw) (params : Params) (rows : List Row) (row : Row)
    → lookup row.endpoint row.idempotency_key rows ≡ some row
    → disturbs row (claim_request draw params) ≡ false
    → lookup row.endpoint row.idempotency_key ((claim hash draw params rows).1) ≡ some row
unfolding disturbs
claim-keeps hash draw params rows row e d =
    elim (Bool-cases (has_key params.endpoint params.idempotency_key row)) [
      | inl t ↦
          (let own = has_key-both row params.endpoint params.idempotency_key t in
            let e' =
              subst (λ k. lookup params.endpoint k rows ≡ some row) own.1
                (subst (λ x. lookup x row.idempotency_key rows ≡ some row) own.0 e) in
            rw (claim-keeps_own hash draw params rows row e' (rw t at d)) e)
      | inr n ↦ claim-keeps_other hash draw params rows row e n
    ]

step-keeps :
    (hash : Text → Text) (r : Request) (rows : List Row) (row : Row)
    → lookup row.endpoint row.idempotency_key rows ≡ some row
    → disturbs row r ≡ false
    → lookup row.endpoint row.idempotency_key (step hash r rows) ≡ some row
unfolding step complete disturbs completed
step-keeps hash (claim_request draw params) rows row e d = claim-keeps hash draw params rows row e d
step-keeps hash (complete_request c) rows row e d =
    find_first-update_where (has_key row.endpoint row.idempotency_key) (holds_token c) (completed c)
      rows row (λ r. refl) d e

pub run-keeps :
    (hash : Text → Text) (requests : List Request) (rows : List Row) (row : Row)
    → lookup row.endpoint row.idempotency_key rows ≡ some row
    → All (λ r. disturbs row r ≡ false) requests
    → lookup row.endpoint row.idempotency_key (run hash requests rows) ≡ some row
unfolding run
run-keeps hash [] rows row e _ = e
run-keeps hash (r ∷ rs) rows row e (d, ds) =
    run-keeps hash rs (step hash r rows) row (step-keeps hash r rows row e d) ds
