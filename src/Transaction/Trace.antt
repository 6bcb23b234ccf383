-- ===== src/Transaction/Trace.antt =====
-- Any sequence of transition requests, each at its own time; a request that throws is rolled back:
-- src/modules/transaction-status/transaction-status.service.ts.
use fox_passport_republic_ap.Prelude.{
  ◌≡◌, ◌≢◌, refl, ◌∙◌, ◌⊎◌, inl, inr, ◌≤◌, ◌<◌, not, Option, none, some, List, [], ◌∷◌, Text, Time,
  find_first, find_first_sound, ok, err, is_ok, arith, Result-cases, Option-cases, ==_iff,
}
use native.Mathlib.Decide.{ℕ_discrete}
use fox_passport_republic_ap.Transaction.{
  Status, pending_provider_confirmation, Kind, asset, service, venue, Action, confirm, expire,
  Error, Row, Tables, Args, review, write, has_id, transition,
}
use fox_passport_republic_ap.Transaction.Step.{
  Step, id-Step, rank, confirmed, declined, expired, withdrawn, rows, with_rows, Moved,
  transition_iff, transition_missing,
}

-- At any time, of a row that waits for its provider the provider can confirm it or it can be
-- expired, and not both.
pub confirm_or_expire :
    (kind : Kind) (now : Time) (row : Row)
    → row.status ≡ pending_provider_confirmation
    → row.provider_id ≢ 0
    → is_ok (review kind now row confirm (some row.provider_id))
      ≡ not (is_ok (review kind now row expire none))
unfolding review
confirm_or_expire kind now row waiting named = ground arith

lookup-write_self :
    (id : Text) (row new : Row) (rs : List Row)
    → find_first (has_id id) rs ≡ some row
    → new.id ≡ row.id
    → find_first (has_id id) (write id row new rs) ≡ some new
unfolding write
lookup-write_self id row new [] f e = cc
lookup-write_self id row new (r ∷ rs) f e = ground (arith, lookup-write_self id row new rs)

lookup-write_ne :
    (id j : Text) (row new : Row) (rs : List Row)
    → j ≢ id
    → new.id ≡ id
    → find_first (has_id j) (write id row new rs) ≡ find_first (has_id j) rs
unfolding write
lookup-write_ne id j row new [] n e = refl
lookup-write_ne id j row new (r ∷ rs) n e = ground (arith, lookup-write_ne id j row new rs n e)

-- What a row may have become: its parties, its booking and its deadline are as they were, and it
-- is the same row unless its status has gone further.
pub record Later (row new : Row) : Type 0 where
  pub same_id : new.id ≡ row.id
  pub same_provider : new.provider_id ≡ row.provider_id
  pub same_booking : new.booking_id ≡ row.booking_id
  pub same_owner : new.booking_owner ≡ row.booking_owner
  pub same_deadline : new.confirmation_deadline ≡ row.confirmation_deadline
  pub further : (new ≡ row) ⊎ (rank row.status < rank new.status)

Later-refl : (row : Row) → Later row row
Later-refl row = record {
  same_id = refl;
  same_provider = refl;
  same_booking = refl;
  same_owner = refl;
  same_deadline = refl;
  further = inl refl;
}

Later-trans : {a b c : Row} → Later a b → Later b c → Later a c
Later-trans p q = ground arith

rank-le : (s : Status) → rank s ≤ 2
rank-le s = ground arith

Later-final : (row new : Row) → Later row new → rank row.status ≡ 2 → new ≡ row
Later-final row new l r = elim l.further [
  | inl same_row ↦ same_row
  | inr more ↦ absurd (omega (arith, rank-le new.status))
]

Step-Later :
    (kind : Kind) (now : Time) (row : Row) (actor : Option Text) (new : Row) {action : Action}
    → Step kind now row actor new action
    → Later row new
Step-Later kind now row actor new (confirmed p q r s t) = ground arith
Step-Later kind now row actor new (declined p q r t) = ground arith
Step-Later kind now row actor new (expired p q t) = ground arith
Step-Later kind now row actor new (withdrawn c b a o t) = ground arith

Kind-discrete : Discrete Kind
Kind-discrete = hlevel

rows-with_rows_self : (k : Kind) (rs : List Row) (t : Tables) → rows k (with_rows k rs t) ≡ rs
rows-with_rows_self asset rs t = refl
rows-with_rows_self service rs t = refl
rows-with_rows_self venue rs t = refl

rows-with_rows_ne :
    (k l : Kind) (rs : List Row) (t : Tables) → k ≢ l → rows k (with_rows l rs t) ≡ rows k t
rows-with_rows_ne k l rs t n = ground arith

abbrev pub lookup : Kind → Text → Tables → Option Row
lookup k j t = find_first (has_id j) (rows k t)

module _ (now : Time) (args : Args) (tables : Tables) where
  -- A transition that succeeds has found its row.
  transition_found :
      {new : Row} {after : Tables}
      → transition now args tables ≡ ok (new, after)
      → (row : Row) × (lookup args.kind args.id tables ≡ some row)
  transition_found e = elim (Option-cases (lookup args.kind args.id tables)) [
    | inl missing ↦ cc (transition_missing now args tables missing)
    | inr found ↦ found
  ]

  module _ (row new : Row) (after : Tables) (e : transition now args tables ≡ ok (new, after))
      (f : lookup args.kind args.id tables ≡ some row) where
    moved : Moved args.kind now args tables row new after
    moved = (transition_iff now args tables row new after f).0 e

    transition-Later : Later row new
    transition-Later = Step-Later args.kind now row args.actor_id new moved.step

    new_id : new.id ≡ args.id
    new_id =
        id-Step args.kind now row args.actor_id new moved.step
        ∙ (==_iff row.id args.id).0
            (find_first_sound (has_id args.id) (rows args.kind tables) row f)

    transition_self : lookup args.kind args.id after ≡ some new
    transition_self =
        rw (moved.stored, rows-with_rows_self)
          (lookup-write_self args.id row new (rows args.kind tables) f
            (id-Step args.kind now row args.actor_id new moved.step))

    transition_ne :
        (k : Kind) (j : Text)
        → (k ≢ args.kind) ⊎ (j ≢ args.id)
        → lookup k j after ≡ lookup k j tables
    transition_ne k j n = elim (Kind-discrete k args.kind) [
      | no other ↦ rw (moved.stored, rows-with_rows_ne k args.kind _ tables other)
      | yes p ↦
          rw (p, moved.stored, rows-with_rows_self)
            (lookup-write_ne args.id j row new (rows args.kind tables) (other_id n p) new_id)
    ]
      where
        other_id : (k ≢ args.kind) ⊎ (j ≢ args.id) → k ≡ args.kind → j ≢ args.id
        other_id (inl h) p = absurd (h p)
        other_id (inr h) p = h

-- A transition that succeeds touches the row it names, of the table of its kind, and no other.
pub transition_frame :
    (now : Time) (args : Args) (tables : Tables) (new : Row) (after : Tables)
    → transition now args tables ≡ ok (new, after)
    → (lookup args.kind args.id after ≡ some new)
      × ((k : Kind) (j : Text)
          → (k ≢ args.kind) ⊎ (j ≢ args.id)
          → lookup k j after ≡ lookup k j tables)
transition_frame now args tables new after e =
    let (row, f) = transition_found now args tables e in
    (
      transition_self now args tables row new after e f,
      transition_ne now args tables row new after e f,
    )

-- What one request leaves in the tables.
unfoldable pub attempt : Time → Args → Tables → Tables
attempt now args tables = elim (transition now args tables) [
  | ok (_, after) ↦ after
  | err _ ↦ tables
]

attempt-ok :
    (now : Time) (args : Args) (tables : Tables) {new : Row} {after : Tables}
    → transition now args tables ≡ ok (new, after)
    → attempt now args tables ≡ after
unfolding attempt
attempt-ok now args tables e = rw (e, attempt)

attempt-err :
    (now : Time) (args : Args) (tables : Tables) {x : Error}
    → transition now args tables ≡ err x
    → attempt now args tables ≡ tables
unfolding attempt
attempt-err now args tables e = rw (e, attempt)

module _ (now : Time) (args : Args) (tables : Tables) (k : Kind) (j : Text) (row : Row)
    (f : lookup k j tables ≡ some row) where
  module _ (new : Row) (after : Tables) (e : transition now args tables ≡ ok (new, after)) where
    success-Later : (new : Row) × (lookup k j after ≡ some new) × Later row new
    success-Later = elim (Kind-discrete k args.kind) [
      | no n ↦ untouched (inl n)
      | yes p ↦ elim (ℕ_discrete j args.id) [
        | no n ↦ untouched (inr n)
        | yes q ↦
            let f' : lookup args.kind args.id tables ≡ some row = rw (← p, ← q) f in
            (
              new,
              rw (p, q) (transition_self now args tables row new after e f'),
              transition-Later now args tables row new after e f',
            )
      ]
    ]
      where
        untouched :
            (k ≢ args.kind) ⊎ (j ≢ args.id)
            → (new : Row) × (lookup k j after ≡ some new) × Later row new
        untouched n =
            (row, (transition_frame now args tables new after e).1 k j n ∙ f, Later-refl row)

  attempt-Later : (new : Row) × (lookup k j (attempt now args tables) ≡ some new) × Later row new
  attempt-Later = elim (Result-cases (transition now args tables)) [
    | inl ((new, after), e) ↦ rw (attempt-ok now args tables e) (success-Later new after e)
    | inr (x, e) ↦ (row, rw (attempt-err now args tables e) f, Later-refl row)
  ]

-- The requests that a sequence of callers makes, the tables after each.
unfoldable pub run : List (Time × Args) → Tables → Tables
unfolding attempt
run [] tables = tables
run ((now, args) ∷ requests) tables = run requests (attempt now args tables)

-- Whatever requests arrive, and in whatever order, a stored transaction stays stored with its
-- provider, booking and deadline, and it is unchanged unless its status went further; so one that
-- is rejected or cancelled never changes again.
pub run-Later :
    (requests : List (Time × Args)) (tables : Tables) (k : Kind) (j : Text) (row : Row)
    → lookup k j tables ≡ some row
    → (new : Row) × (lookup k j (run requests tables) ≡ some new)
      × Later row new
      × (rank row.status ≡ 2 → new ≡ row)
unfolding run
run-Later [] tables k j row f = (row, f, Later-refl row, λ _. refl)
run-Later ((now, args) ∷ requests) tables k j row f =
    let (mid, g, first) = attempt-Later now args tables k j row f in
    let (new, h, rest, _) = run-Later requests (attempt now args tables) k j mid g in
    let whole = Later-trans first rest in (new, h, whole, Later-final row new whole)
