-- ===== src/Idempotency.antt =====
-- The claims on idempotency keys: src/modules/idempotency/idempotency.service.ts and
-- idempotency.types.ts, on the table of prisma/schema/idempotency.prisma.
-- The INSERT ... ON CONFLICT is one atomic step and so is the read behind it, so the retry after a
-- row that vanished in between does not arise. The server's clock and the database's are two
-- times. SHA-256 is the parameter `hash`; the tokens and identifiers that are drawn are arguments.
pub mod Lease
pub mod Held
pub mod Once
mod Tests
use fox_passport_republic_ap.Prelude.{
  ℕ, ◌+◌, Bool, true, false, not, ◌&&◌, Option, none, some, List, [], ◌∷◌, Text, Time, ltb, ◌==◌,
  find_first, update_where, Result, ok, err, ◌>>◌, throw_if, if◌then◌else◌,
}

pub data Status : Type 0 where
  in_progress succeeded failed : Status

pub data Error : Type 0 where
  requester_mismatch payload_mismatch : Error

pub record Row : Type 0 where
  pub id : Text
  pub endpoint : Text
  pub idempotency_key : Text
  pub requester_id : Text
  pub booking_id : Option Text
  pub request_hash : Text
  pub status : Status
  pub execution_token : Text
  pub lease_expires_at : Time
  pub response_body : Option Text

pub data ClaimResult : Type 0 where
  claimed : Text → ClaimResult
  cached : Option Text → ClaimResult
  busy : ClaimResult

pub record Params : Type 0 where
  pub endpoint : Text
  pub idempotency_key : Text
  pub requester_id : Text
  pub booking_id : Option Text
  pub request_payload : Text

-- What the execution of a claim draws and reads: the server's time, the database's, the new token
-- and the identifier of the row that it may insert.
pub record Draw : Type 0 where
  pub app_now : Time
  pub db_now : Time
  pub token : Text
  pub new_id : Text

pub record Completion : Type 0 where
  pub endpoint : Text
  pub idempotency_key : Text
  pub execution_token : Text
  pub status : Status
  pub response_body : Option Text

-- LEASE_MINUTES * 60 * 1000
abbrev pub lease : ℕ
lease = 120_000

abbrev pub has_key : Text → Text → Row → Bool
has_key endpoint key row = row.endpoint == endpoint && row.idempotency_key == key

-- The WHERE of the DO UPDATE.
abbrev pub may_take : Status → Time → Time → Bool
may_take failed expires db_now = true
may_take in_progress expires db_now = ltb expires db_now
may_take succeeded expires db_now = false

-- The VALUES of the INSERT.
pub inserted : (Text → Text) → Draw → Params → Row
inserted hash draw params = record {
  id = draw.new_id;
  endpoint = params.endpoint;
  idempotency_key = params.idempotency_key;
  requester_id = params.requester_id;
  booking_id = params.booking_id;
  request_hash = hash params.request_payload;
  status = in_progress;
  execution_token = draw.token;
  lease_expires_at = draw.app_now + lease;
  response_body = none;
}

-- The SET of the DO UPDATE.
pub reclaimed : Draw → Row → Row
reclaimed draw row = record row {
  execution_token = draw.token;
  lease_expires_at = draw.app_now + lease;
  status = in_progress;
}

abbrev pub replay : Status → Option Text → ClaimResult
replay succeeded body = cached body
replay in_progress body = busy
replay failed body = busy

-- What a caller who did not win the claim is told.
pub answer : (Text → Text) → Params → Row → Result Error ClaimResult
answer hash params row = do
  throw_if (not (row.requester_id == params.requester_id)) requester_mismatch
  throw_if (not (row.request_hash == hash params.request_payload)) payload_mismatch
  ok (replay row.status row.response_body)

-- The statement on the row in conflict, and the read behind it when it took nothing.
claim_found :
    (Text → Text) → Draw → Params → List Row → Option Row → Result Error ClaimResult × List Row
unfolding inserted reclaimed answer
claim_found hash draw params rows none = (ok (claimed draw.token), inserted hash draw params ∷ rows)
claim_found hash draw params rows (some row) =
    if may_take row.status row.lease_expires_at draw.db_now
    then (
      ok (claimed draw.token),
      update_where (has_key params.endpoint params.idempotency_key) (reclaimed draw) rows,
    )
    else (answer hash params row, rows)

-- The answer of a claim and the table that it leaves.
pub claim : (Text → Text) → Draw → Params → List Row → Result Error ClaimResult × List Row
unfolding claim_found
claim hash draw params rows =
    claim_found hash draw params rows
      (find_first (has_key params.endpoint params.idempotency_key) rows)

pub completed : Completion → Row → Row
completed c row = record row { status = c.status; response_body = c.response_body }

abbrev pub holds_token : Completion → Row → Bool
holds_token c row =
    has_key c.endpoint c.idempotency_key row && row.execution_token == c.execution_token

pub complete : Completion → List Row → List Row
unfolding completed
complete c rows = update_where (holds_token c) (completed c) rows
