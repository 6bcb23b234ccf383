-- ===== src/Payout/Booking/Settled.antt =====
-- The payout that a job of src/modules/payout/payout.service.ts is for, behind the job.
use fox_passport_republic_ap.Prelude.{
  ==_refl, Bool-cases, Option-cases, Text, All, find_first, update_where, find_first_sound,
  find_first-again, find_first-update_where, ℕ, ◌+◌, ◌≡◌, refl, inl, inr, true, false, Option, none,
  some, List, [], ◌∷◌, arith,
}
use fox_passport_republic_ap.Prelude.Number.{Number}
use fox_passport_republic_ap.Payout.Data.{
  failed, Payout, Job, Recipient, Transfer, Outcome, sent, refused, lost, sent_unwritten,
  refused_unwritten, Store,
}
use fox_passport_republic_ap.Payout.{
  source_code, is_pending, is_written, is_of, destination, has_id, has_key, set_status, set_paid,
  created, create_missing, create_payout_record, transfer_of, settle, fire_pending, fire_to,
  fire_found, fire_transfer,
}
use fox_passport_republic_ap.Payout.Ledger.{IsKeyed}
use fox_passport_republic_ap.Payout.Once.{create_request, fire_request, step-IsKeyed}
use fox_passport_republic_ap.Payout.Booking.{fire_created, create_and_fire, run_jobs}
use fox_passport_republic_ap.Payout.Booking.Shape.{Ends, set_status-Ends, set_paid-Ends}

module _ {N : Type 0} where
  -- The row of a job's source and provider is there and does not wait.
  abbrev pub Settled : Store N → Job N → Type 0
  Settled store job =
      (p : Payout N) × (find_first (has_key job) store.payouts ≡ some p)
      × (is_pending p.status ≡ false)

  key_provider :
      (job : Job N) (p : Payout N) → has_key job p ≡ true → p.provider_id ≡ job.provider_id
  key_provider job p h = ground arith

module _ {N : Type 0} ⦃n : Number N⦄ (stored : N → N) where
  -- For a source and a provider that have a payout, a job returns that payout as it is, whatever its
  -- own amount is.
  create-again :
      (new_id : Text) (job : Job N) (store : Store N) (p : Payout N)
      → find_first (has_key job) store.payouts ≡ some p
      → create_payout_record stored new_id job store ≡ some (p, store)
  unfolding create_payout_record create_missing
  create-again new_id job store p at = rw at refl

  create_and_fire-Settled :
      (draw : Text × Outcome) (job : Job N) (store : Store N)
      → IsKeyed store
      → Settled store job
      → create_and_fire stored draw job store ≡ store
  unfolding create_and_fire fire_created fire_transfer fire_found
  create_and_fire-Settled (new_id, outcome) job store wf (p, at, done) =
      rw (create-again new_id job store p at) (
        rw
          (
            find_first-again (has_key job) (has_id p.id) store.payouts p at (==_refl p.id)
                (wf.one_id p.id),
            done,
          )
          refl)

  pub run_jobs-Settled :
      (draw : ℕ → Text × Outcome) (k : ℕ) (jobs : List (Job N)) (store : Store N)
      → IsKeyed store
      → All (Settled store) jobs
      → run_jobs stored draw k jobs store ≡ store
  unfolding run_jobs
  run_jobs-Settled draw k [] store wf _ = refl
  run_jobs-Settled draw k (job ∷ jobs) store wf (h, hs) =
      rw (create_and_fire-Settled (draw k) job store wf h)
        (run_jobs-Settled draw (k + 1) jobs store wf hs)

  -- A write that ends the wait of the row that the key finds.
  ended-Settled :
      (f : Payout N → Payout N) (p : Payout N) (ts : List Transfer) (store : Store N) (job : Job N)
      → Ends f
      → find_first (has_key job) store.payouts ≡ some p
      → Settled
          (record store { transfers = ts; payouts = update_where (has_id p.id) f store.payouts })
          job
  ended-Settled f p ts store job e at = (
    f p,
    find_first-update_where (has_key job) (has_id p.id) f store.payouts p (e.keeps_key job) at
        (==_refl p.id),
    e.ends p,
  )

  fire_pending-settles :
      (outcome : Outcome) (p : Payout N) (account : Option Text) (store : Store N) (job : Job N)
      → is_written outcome ≡ true
      → find_first (has_key job) store.payouts ≡ some p
      → Settled (fire_pending outcome p account store) job
  unfolding fire_pending settle
  fire_pending-settles (sent reference) p (some account) store job written at =
      ended-Settled (set_paid reference) p (transfer_of p account ∷ store.transfers) store job
        (set_paid-Ends reference) at
  fire_pending-settles refused p (some account) store job written at =
      ended-Settled (set_status failed) p store.transfers store job set_status-Ends at
  fire_pending-settles lost p (some account) store job written at =
      ended-Settled (set_status failed) p (transfer_of p account ∷ store.transfers) store job
        set_status-Ends at
  fire_pending-settles sent_unwritten p (some account) store job written at = cc
  fire_pending-settles refused_unwritten p (some account) store job written at = cc
  fire_pending-settles outcome p none store job written at =
      rw written (ended-Settled (set_status failed) p store.transfers store job set_status-Ends at)

  fire_transfer-settles :
      (outcome : Outcome) (p : Payout N) (store : Store N) (job : Job N) (r : Recipient)
      → is_written outcome ≡ true
      → find_first (has_key job) store.payouts ≡ some p
      → find_first (has_id p.id) store.payouts ≡ some p
      → find_first (is_of p.provider_id) store.recipients ≡ some r
      → Settled (fire_transfer outcome p.id store) job
  unfolding fire_transfer fire_found fire_to
  fire_transfer-settles outcome p store job r written at by_id there =
      elim (Bool-cases (is_pending p.status)) [
        | inl w ↦
            rw (by_id, w, there)
              (fire_pending-settles outcome p (destination r) store job written at)
        | inr n ↦ rw (by_id, n) (p, at, n)
      ]

  -- A job whose provider is there settles, if its outcome is written.
  pub create_and_fire-settles :
      (new_id : Text) (outcome : Outcome) (job : Job N) (store : Store N) (r : Recipient)
      → is_written outcome ≡ true
      → IsKeyed store
      → find_first (has_id new_id) store.payouts ≡ none
      → find_first (is_of job.provider_id) store.recipients ≡ some r
      → Settled (create_and_fire stored (new_id, outcome) job store) job
  unfolding create_and_fire fire_created create_payout_record create_missing created
  create_and_fire-settles new_id outcome job store r written wf fresh there =
      elim (Option-cases (find_first (has_key job) store.payouts)) [
        | inl missing ↦
            rw (missing, fresh)
              (fire_transfer-settles outcome (created stored new_id job)
                (record store { payouts = created stored new_id job ∷ store.payouts }) job r written
                (rw
                  (
                    ==_refl (source_code job.source_type),
                    ==_refl job.source_id,
                    ==_refl job.provider_id,
                  )
                  refl)
                (rw (==_refl new_id) refl) there)
        | inr (p, at) ↦ rw at (
            fire_transfer-settles outcome p store job r written at
              (find_first-again (has_key job) (has_id p.id) store.payouts p at (==_refl p.id)
                (wf.one_id p.id))
              (rw (key_provider job p (find_first_sound (has_key job) store.payouts p at)) there))
      ]

  pub create_and_fire-IsKeyed :
      (draw : Text × Outcome) (job : Job N) (store : Store N)
      → IsKeyed store
      → IsKeyed (create_and_fire stored draw job store)
  unfolding create_and_fire fire_created
  create_and_fire-IsKeyed (new_id, outcome) job store wf =
      let created_once = step-IsKeyed stored (create_request new_id job) store wf in
      elim (Option-cases (create_payout_record stored new_id job store)) [
        | inl stopped ↦ rw stopped wf
        | inr ((p, store'), e) ↦
            rw e (step-IsKeyed stored (fire_request outcome p.id) store' (rw e at created_once))
      ]

  -- In a table that keeps its constraints (an identifier and a pair of source and provider occur
  -- once), for a job with an identifier that is not taken, whose provider's row is there and whose
  -- last update of the payout is written: behind the job the payout of its source and provider is there
  -- and does not wait, and a second job for them, with whatever amount, identifier and outcome, changes
  -- nothing.
  pub create_and_fire-twice :
      (new_id : Text) (outcome : Outcome) (draw : Text × Outcome) (job : Job N) (amount : N)
      (store : Store N) (r : Recipient)
      → is_written outcome ≡ true
      → IsKeyed store
      → find_first (has_id new_id) store.payouts ≡ none
      → find_first (is_of job.provider_id) store.recipients ≡ some r
      → Settled (create_and_fire stored (new_id, outcome) job store) job
        × (create_and_fire stored draw
              (record job { amount = amount })
              (create_and_fire stored (new_id, outcome) job store)
            ≡ create_and_fire stored (new_id, outcome) job store)
  create_and_fire-twice new_id outcome draw job amount store r written wf fresh there =
      let settled = create_and_fire-settles new_id outcome job store r written wf fresh there in
      (
        settled,
        create_and_fire-Settled draw (record job { amount = amount })
            (create_and_fire stored (new_id, outcome) job store)
            (create_and_fire-IsKeyed (new_id, outcome) job store wf) settled,
      )
