-- ===== src/Payout/Booking/Event.antt =====
-- Everyone whom an event's booking owes is paid or refused: createPayoutsForEventBooking of
-- src/modules/payout/payout.service.ts.
use fox_passport_republic_ap.Prelude.{
  ◌==◌, Text, All, All-map, find_first, append-All, map-All, ℕ, ◌+◌, ◌≤◌, ◌<◌, ◌≡◌, sym, subst,
  true, false, ◌&&◌, none, some, List, [], ◌∷◌, map, arith,
}
use fox_passport_republic_ap.Prelude.Number.{Number}
use fox_passport_republic_ap.Payout.Data.{
  SourceType, event_asset_transaction, event_service_transaction, event_venue_transaction,
  event_host_markup, Payout, Job, Recipient, Outcome, Investment, Voucher, Store,
}
use fox_passport_republic_ap.Payout.{source_code, is_pending, is_written, is_of, has_id}
use fox_passport_republic_ap.Payout.Ledger.{IsKeyed}
use fox_passport_republic_ap.Payout.Split.{
  Target, target_venue, target_event, resolve_investor_split,
}
use fox_passport_republic_ap.Payout.Booking.{
  Line, EventBooking, cut_job, split_jobs, venue_job, venue_jobs, host_job, event_jobs,
  create_and_fire, run_jobs, create_payouts_for_event_booking,
}
use fox_passport_republic_ap.Payout.Booking.Settled.{
  Settled, run_jobs-Settled, create_and_fire-settles, create_and_fire-IsKeyed,
}
use fox_passport_republic_ap.Payout.Booking.Known.{event_jobs_Known}
use fox_passport_republic_ap.Payout.Booking.Kept.{
  create_and_fire-absent, create_and_fire-Reads, run_jobs-keeps, run_jobs-Reads,
}

module _ {N : Type 0} where
  -- The user's row is there.
  abbrev pub HasRecipient : Store N → Text → Type 0
  HasRecipient store id = (r : Recipient) × (find_first (is_of id) store.recipients ≡ some r)

  -- The payout of the source and the provider is there and does not wait.
  abbrev pub IsPaidFor : Store N → SourceType → Text → Text → Type 0
  IsPaidFor store source_type source_id provider_id =
      (p : Payout N) × (find_first
          (λ q.
            source_code q.source_type == source_code source_type
            && q.source_id == source_id
            && q.provider_id == provider_id)
          store.payouts
        ≡ some p)
      × (is_pending p.status ≡ false)

  -- The identifiers of new payouts are distinct and not taken.
  pub record AreFresh (draw : ℕ → Text × Outcome) (k : ℕ) (store : Store N) : Type 0 where
    pub distinct : (i j : ℕ) → i < j → ((draw i).0 == (draw j).0) ≡ false
    pub unused : (j : ℕ) → k ≤ j → find_first (has_id (draw j).0) store.payouts ≡ none

module _ {N : Type 0} ⦃n : Number N⦄ (stored : N → N) where
  step_AreFresh :
      (draw : ℕ → Text × Outcome) (k : ℕ) (job : Job N) (store : Store N)
      → AreFresh draw k store
      → AreFresh draw (k + 1) (create_and_fire stored (draw k) job store)
  step_AreFresh draw k job store fresh = record {
    distinct = fresh.distinct;
    unused = λ j after.
        create_and_fire-absent stored (draw k) (draw j).0 job store
          (fresh.distinct k j (omega (arith, after))) (fresh.unused j (omega (arith, after)));
  }

  run_jobs-settles :
      (draw : ℕ → Text × Outcome) (k : ℕ) (jobs : List (Job N)) (store : Store N)
      → IsKeyed store
      → AreFresh draw k store
      → ((j : ℕ) → is_written (draw j).1 ≡ true)
      → All (λ job. HasRecipient store job.provider_id) jobs
      → IsKeyed (run_jobs stored draw k jobs store)
        × All (Settled (run_jobs stored draw k jobs store)) jobs
  unfolding run_jobs
  run_jobs-settles draw k [] store wf fresh written _ = (wf, tt)
  run_jobs-settles draw k (job ∷ jobs) store wf fresh written ((r, there), rest) =
      let next = create_and_fire stored (draw k) job store in
      let same_recipients = (create_and_fire-Reads stored (draw k) job store).recipients_kept in
      let (wf', settled) =
        run_jobs-settles draw (k + 1) jobs next
          (create_and_fire-IsKeyed stored (draw k) job store wf)
          (step_AreFresh draw k job store fresh) written
          (All-map jobs
            (λ job' h.
              subst (λ rs. (r : Recipient) × (find_first (is_of job'.provider_id) rs ≡ some r))
                (sym same_recipients) h)
            rest) in
      (
        wf',
        (
          run_jobs-keeps stored draw (k + 1) jobs job next (
              create_and_fire-settles stored (draw k).0 (draw k).1 job store r (written k) wf
                (fresh.unused k (omega arith)) there),
          settled,
        ),
      )

module _ {N : Type 0} ⦃n : Number N⦄ where
  split_jobs-owner :
      (store : Store N) (is : List (Investment N)) (target : Target) (job : Job N)
      → All (Settled store) (split_jobs is target job)
      → Settled store job
  unfolding split_jobs
  split_jobs-owner store is target job h =
      let split = resolve_investor_split is job.amount target in
      (append-All (Settled store) (map (cut_job job.source_id) split.investor_cuts)
        (record job { amount = split.owner_amount } ∷ []) h).1.0

  venue_jobs-IsPaidFor :
      (store : Store N) (booking : EventBooking N) (is : List (Investment N)) (vs : List Voucher)
      (lines : List (Line N))
      → All (Settled store) (venue_jobs booking is vs lines)
      → All (λ line. IsPaidFor store event_venue_transaction line.id line.provider_id) lines
  unfolding venue_jobs
  venue_jobs-IsPaidFor store booking is vs [] _ = tt
  venue_jobs-IsPaidFor store booking is vs (line ∷ lines) h =
      let (own, rest) = append-All (Settled store) _ _ h in
      (
        split_jobs-owner store is (target_venue line.venue_id) (venue_job booking vs line) own,
        venue_jobs-IsPaidFor store booking is vs lines rest,
      )

  -- Everyone who is owed money for the booking itself: the providers of its assets, services and
  -- venues, and the organizer.
  pub record IsPaidOut (booking : EventBooking N) (store : Store N) : Type 0 where
    pub assets_paid :
        All
          (λ line. IsPaidFor store event_asset_transaction line.id line.provider_id)
          booking.asset_transactions
    pub services_paid :
        All
          (λ line. IsPaidFor store event_service_transaction line.id line.provider_id)
          booking.service_transactions
    pub venues_paid :
        All
          (λ line. IsPaidFor store event_venue_transaction line.id line.provider_id)
          booking.venue_transactions
    pub host_paid : IsPaidFor store event_host_markup booking.id booking.organizer_id

  event_jobs-IsPaidOut :
      (store : Store N) (booking : EventBooking N) (is : List (Investment N)) (vs : List Voucher)
      → All (Settled store) (event_jobs booking is vs)
      → IsPaidOut booking store
  unfolding event_jobs
  event_jobs-IsPaidOut store booking is vs h =
      let (assets, others) = append-All (Settled store) _ _ h in
      let (services, others) = append-All (Settled store) _ _ others in
      let (venues, host) = append-All (Settled store) _ _ others in
      record {
        assets_paid = (map-All (Settled store) _ _).0 assets;
        services_paid = (map-All (Settled store) _ _).0 services;
        venues_paid = venue_jobs-IsPaidFor store booking is vs booking.venue_transactions venues;
        host_paid =
            split_jobs-owner store is (target_event booking.event_id) (host_job booking) host;
      }

module _ {N : Type 0} ⦃n : Number N⦄ (stored : N → N) where
  -- In a table that keeps its constraints, with new identifiers and with every update of a payout
  -- written, and where the rows of the booking's providers, its organizer and all investors are there:
  -- behind the creation of an event booking's payouts, each of its asset, service and venue lines has
  -- the payout of its own type, line and provider, and the booking has that of its organizer, none of
  -- which waits; and creating the booking's payouts again, with whatever identifiers and outcomes,
  -- changes nothing.
  pub create_payouts_for_event_booking-IsPaidOut :
      (draw draw' : ℕ → Text × Outcome) (booking : EventBooking N) (store : Store N)
      → IsKeyed store
      → AreFresh draw 0 store
      → ((j : ℕ) → is_written (draw j).1 ≡ true)
      → All (λ line. HasRecipient store line.provider_id) booking.asset_transactions
      → All (λ line. HasRecipient store line.provider_id) booking.service_transactions
      → All (λ line. HasRecipient store line.provider_id) booking.venue_transactions
      → All (λ i. HasRecipient store i.partner_id) store.investments
      → HasRecipient store booking.organizer_id
      → IsPaidOut booking (create_payouts_for_event_booking stored draw booking store)
        × (create_payouts_for_event_booking stored draw' booking
              (create_payouts_for_event_booking stored draw booking store)
            ≡ create_payouts_for_event_booking stored draw booking store)
  unfolding create_payouts_for_event_booking
  create_payouts_for_event_booking-IsPaidOut draw draw' booking store wf fresh written assets
        services venues investors host =
      let jobs = event_jobs booking store.investments store.vouchers in
      let after = run_jobs stored draw 0 jobs store in
      let (wf', settled) = run_jobs-settles stored draw 0 jobs store wf fresh written (
        event_jobs_Known (HasRecipient store) booking store.investments store.vouchers investors
          assets services venues host) in
      let kept = run_jobs-Reads stored draw 0 jobs store in
      (
        event_jobs-IsPaidOut after booking store.investments store.vouchers settled,
        rw (kept.investments_kept, kept.vouchers_kept)
            (run_jobs-Settled stored draw' 0 jobs after wf' settled),
      )
