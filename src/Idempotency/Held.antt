-- ===== src/Idempotency/Held.antt =====
-- The row that a granted claim of src/modules/idempotency/idempotency.service.ts holds.
use fox_passport_republic_ap.Prelude.{
  ◌+◌, ◌≤◌, ◌≡◌, refl, sym, ap, ◌∙◌, inl, inr, arith, Bool, true, false, ◌&&◌, none, some, List, [],
  ◌∷◌, Text, Time, ltb, ◌==◌, find_first, update_where, ok, Bool-cases, Option-cases, All,
  some-injective, subst, ==_refl, find_first_sound, All-map,
}
use fox_passport_republic_ap.Idempotency.{
  Row, in_progress, succeeded, failed, Params, Draw, claimed, lease, has_key, may_take, inserted,
  reclaimed, answer, claim_found, claim,
}
use fox_passport_republic_ap.Idempotency.Lease.{
  Request, claim_request, complete_request, run, disturbs, lookup, run-keeps,
}

-- An update of the row that a search finds, by a test that the row passes.
pub find_first-update_found :
    (p q : Row → Bool) (f : Row → Row) (rows : List Row) (row : Row)
    → ((r : Row) → p (f r) ≡ p r)
    → q row ≡ true
    → find_first p rows ≡ some row
    → find_first p (update_where q f rows) ≡ some (f row)
find_first-update_found p q f [] row keeps t e = cc
find_first-update_found p q f (r ∷ rows) row keeps t e = elim (Bool-cases (p r)) [
  | inl y ↦
      (let found = some-injective r row (rw y at e) in
        rw (subst (λ x. q x ≡ true) (sym found) t, keeps r, y) (ap (λ x. some (f x)) found))
  | inr n ↦ elim (Bool-cases (q r)) [
    | inl u ↦ rw (u, keeps r, n) (find_first-update_found p q f rows row keeps t (rw n at e))
    | inr u ↦ rw (u, n) (find_first-update_found p q f rows row keeps t (rw n at e))
  ]
]

-- The claim of a key without a row inserts one.
pub claim-inserts :
    (hash : Text → Text) (draw : Draw) (params : Params) (rows : List Row)
    → lookup params.endpoint params.idempotency_key rows ≡ none
    → claim hash draw params rows ≡ (ok (claimed draw.token), inserted hash draw params ∷ rows)
unfolding claim claim_found
claim-inserts hash draw params rows e = rw e refl

pub inserted-lookup :
    (hash : Text → Text) (draw : Draw) (params : Params) (rows : List Row)
    → lookup params.endpoint params.idempotency_key (inserted hash draw params ∷ rows)
      ≡ some (inserted hash draw params)
unfolding inserted
inserted-lookup hash draw params rows =
    rw (==_refl params.endpoint, ==_refl params.idempotency_key) refl

-- Whether a call ends the hold that a granted claim has on its key: a claim of the key after the
-- lease, or a completion with the claim's token.
unfoldable pub ends_hold : Draw → Params → Request → Bool
ends_hold draw params (claim_request d p) =
    (params.endpoint == p.endpoint && params.idempotency_key == p.idempotency_key)
    && ltb (draw.app_now + lease) d.db_now
ends_hold draw params (complete_request c) =
    (params.endpoint == c.endpoint && params.idempotency_key == c.idempotency_key)
    && draw.token == c.execution_token

-- The row that a granted claim leaves.
pub record IsHeld (draw : Draw) (params : Params) (row : Row) : Type 0 where
  pub is_endpoint : row.endpoint ≡ params.endpoint
  pub is_key : row.idempotency_key ≡ params.idempotency_key
  pub is_in_progress : row.status ≡ in_progress
  pub is_token : row.execution_token ≡ draw.token
  pub is_lease : row.lease_expires_at ≡ draw.app_now + lease

IsHeld-disturbs :
    (draw : Draw) (params : Params) (row : Row) (r : Request)
    → IsHeld draw params row
    → disturbs row r ≡ ends_hold draw params r
unfolding disturbs ends_hold
IsHeld-disturbs draw params row (claim_request d p) h =
    rw (h.is_endpoint, h.is_key, h.is_in_progress, h.is_lease) refl
IsHeld-disturbs draw params row (complete_request c) h =
    rw (h.is_endpoint, h.is_key, h.is_token) refl

has_key-eq :
    (row : Row) (e k : Text)
    → has_key e k row ≡ true
    → (row.endpoint ≡ e) × (row.idempotency_key ≡ k)
has_key-eq row e k h = ground arith

reclaimed-lookup :
    (draw : Draw) (params : Params) (rows : List Row) (row : Row)
    → lookup params.endpoint params.idempotency_key rows ≡ some row
    → lookup params.endpoint params.idempotency_key
        (update_where (has_key params.endpoint params.idempotency_key) (reclaimed draw) rows)
      ≡ some (reclaimed draw row)
unfolding reclaimed
reclaimed-lookup draw params rows row e =
    find_first-update_found (has_key params.endpoint params.idempotency_key)
      (has_key params.endpoint params.idempotency_key) (reclaimed draw) rows row (λ r. refl)
      (find_first_sound _ rows row e) e

reclaimed-IsHeld :
    (draw : Draw) (params : Params) (rows : List Row) (row : Row)
    → lookup params.endpoint params.idempotency_key rows ≡ some row
    → IsHeld draw params (reclaimed draw row)
unfolding reclaimed
reclaimed-IsHeld draw params rows row e =
    let own =
      has_key-eq row params.endpoint params.idempotency_key (find_first_sound _ rows row e) in
    record {
      is_endpoint = own.0;
      is_key = own.1;
      is_in_progress = refl;
      is_token = refl;
      is_lease = refl;
    }

pub inserted-IsHeld :
    (hash : Text → Text) (draw : Draw) (params : Params)
    → IsHeld draw params (inserted hash draw params)
unfolding inserted
inserted-IsHeld hash draw params = record {
  is_endpoint = refl;
  is_key = refl;
  is_in_progress = refl;
  is_token = refl;
  is_lease = refl;
}

pub answer-not_claimed :
    (hash : Text → Text) (params : Params) (row : Row) (token : Text)
    → ¬ (answer hash params row ≡ ok (claimed token))
unfolding answer
answer-not_claimed hash params row token e = elim row.status [
  | in_progress ↦ ground arith
  | succeeded ↦ ground arith
  | failed ↦ ground arith
]

pub claim-IsHeld :
    (hash : Text → Text) (draw : Draw) (params : Params) (rows : List Row) (token : Text)
    → (claim hash draw params rows).0 ≡ ok (claimed token)
    → (row : Row) × (lookup params.endpoint params.idempotency_key ((claim hash draw params rows).1)
        ≡ some row)
      × IsHeld draw params row
unfolding claim claim_found
claim-IsHeld hash draw params rows token e =
    elim (Option-cases (lookup params.endpoint params.idempotency_key rows)) [
      | inl missing ↦ rw missing (
        inserted hash draw params,
        inserted-lookup hash draw params rows,
        inserted-IsHeld hash draw params,
      )
      | inr (row, hit) ↦ elim (Bool-cases (may_take row.status row.lease_expires_at draw.db_now)) [
        | inl t ↦
            rw (hit, t)
              (
                reclaimed draw row,
                reclaimed-lookup draw params rows row hit,
                reclaimed-IsHeld draw params rows row hit,
              )
        | inr f ↦ elim (answer-not_claimed hash params row token (rw (hit, f) at e)) [ ]
      ]
    ]

pub held-may_take :
    (draw : Draw) (params : Params) (row : Row) (db_now : Time)
    → IsHeld draw params row
    → db_now ≤ draw.app_now + lease
    → may_take row.status row.lease_expires_at db_now ≡ false
held-may_take draw params row db_now h d = rw (h.is_in_progress, h.is_lease) (ground arith)

pub held-run :
    (hash : Text → Text) (draw : Draw) (params : Params) (rows : List Row) (row : Row)
    (during : List Request)
    → lookup params.endpoint params.idempotency_key rows ≡ some row
    → IsHeld draw params row
    → All (λ r. ends_hold draw params r ≡ false) during
    → lookup params.endpoint params.idempotency_key (run hash during rows) ≡ some row
held-run hash draw params rows row during e h spare =
    subst (λ k. lookup params.endpoint k (run hash during rows) ≡ some row) h.is_key
      (subst (λ x. lookup x row.idempotency_key (run hash during rows) ≡ some row) h.is_endpoint
        (run-keeps hash during rows row
          (subst (λ k. lookup row.endpoint k rows ≡ some row) (sym h.is_key)
            (subst (λ x. lookup x params.idempotency_key rows ≡ some row) (sym h.is_endpoint) e))
          (All-map during (λ r s. IsHeld-disturbs draw params row r h ∙ s) spare)))
