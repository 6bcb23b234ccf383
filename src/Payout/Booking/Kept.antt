-- ===== src/Payout/Booking/Kept.antt =====
-- What later jobs of src/modules/payout/payout.service.ts keep of what earlier ones did.
use fox_passport_republic_ap.Prelude.{
  ◌==◌, Bool-cases, Text, All-map, find_first, find_first_sound, find_first-All, true_not_false,
  find_first-none, find_first-update_where, find_first-absent, find_first-untouched, ℕ, ◌+◌, ◌≡◌,
  refl, sym, ◌∙◌, inl, inr, false, none, List, [], ◌∷◌,
}
use fox_passport_republic_ap.Prelude.Number.{Number}
use fox_passport_republic_ap.Payout.Data.{Job, Outcome, Store}
use fox_passport_republic_ap.Payout.{has_id, has_key, created}
use fox_passport_republic_ap.Payout.Ledger.{created-key}
use fox_passport_republic_ap.Payout.Booking.{create_and_fire, run_jobs}
use fox_passport_republic_ap.Payout.Booking.Shape.{
  Fired, left, ended, Done, stopped, fired, added, create_and_fire-Done,
}
use fox_passport_republic_ap.Payout.Booking.Settled.{Settled}

-- The tables that the jobs only read.
pub record Reads {N : Type 0} (store store' : Store N) : Type 0 where
  pub recipients_kept : store'.recipients ≡ store.recipients
  pub investments_kept : store'.investments ≡ store.investments
  pub vouchers_kept : store'.vouchers ≡ store.vouchers

module _ {N : Type 0} where
  Reads-refl : (store : Store N) → Reads store store
  Reads-refl store = record {
    recipients_kept = refl;
    investments_kept = refl;
    vouchers_kept = refl;
  }

  pub Reads-trans : (a b c : Store N) → Reads a b → Reads b c → Reads a c
  Reads-trans a b c p q = record {
    recipients_kept = q.recipients_kept ∙ p.recipients_kept;
    investments_kept = q.investments_kept ∙ p.investments_kept;
    vouchers_kept = q.vouchers_kept ∙ p.vouchers_kept;
  }

  Fired-Reads : (id : Text) (store store' : Store N) → Fired id store store' → Reads store store'
  Fired-Reads id store _ (left _ _ ts) = record {
    recipients_kept = refl;
    investments_kept = refl;
    vouchers_kept = refl;
  }
  Fired-Reads id store _ (ended _ _ ts f e) = record {
    recipients_kept = refl;
    investments_kept = refl;
    vouchers_kept = refl;
  }

  Fired-Settled :
      (id : Text) (store store' : Store N) (job : Job N)
      → Fired id store store'
      → Settled store job
      → Settled store' job
  Fired-Settled id store _ job (left _ _ ts) s = s
  Fired-Settled id store _ job (ended _ _ ts f e) (p, at, done) = elim (Bool-cases (has_id id p)) [
    | inl t ↦ (
      f p,
      find_first-update_where (has_key job) (has_id id) f store.payouts p (e.keeps_key job) at t,
      e.ends p,
    )
    | inr n ↦ (
      p,
      find_first-untouched (has_key job) (has_id id) f store.payouts p (e.keeps_key job) at n,
      done,
    )
  ]

  Fired-absent :
      (id i : Text) (store store' : Store N)
      → Fired id store store'
      → find_first (has_id i) store.payouts ≡ none
      → find_first (has_id i) store'.payouts ≡ none
  Fired-absent id i store _ (left _ _ ts) gone = gone
  Fired-absent id i store _ (ended _ _ ts f e) gone =
      find_first-absent (has_id i) (has_id id) f store.payouts (
        All-map store.payouts
          (λ q h. elim (Bool-cases (has_id id q)) [
            | inl t ↦ rw (t, e.keeps_id q) h
            | inr n ↦ rw n h
          ])
          (find_first-none (has_id i) store.payouts gone))

module _ {N : Type 0} (stored : N → N) where
  -- The row of another job is not the one that is added.
  added-Settled :
      (new_id : Text) (job job' : Job N) (store : Store N)
      → find_first (has_key job) store.payouts ≡ none
      → Settled store job'
      → Settled (record store { payouts = created stored new_id job ∷ store.payouts }) job'
  added-Settled new_id job job' store missing (p, at, done) =
      elim (Bool-cases (has_key job' (created stored new_id job))) [
        | inl t ↦
            (let keyless =
                find_first-All (λ q. has_key job q ≡ false) (has_key job') store.payouts p
                  (find_first-none (has_key job) store.payouts missing) at in
              let own =
                sym (created-key stored new_id job job' t p)
                ∙ find_first_sound (has_key job') store.payouts p at in
              elim (true_not_false (has_key job p) own keyless) [ ])
        | inr n ↦ (p, rw n at, done)
      ]

  Done-Settled :
      (new_id : Text) (job job' : Job N) (store store' : Store N)
      → Done stored new_id job store store'
      → Settled store job'
      → Settled store' job'
  Done-Settled new_id job job' store _ (stopped _ _ _) s = s
  Done-Settled new_id job job' store store' (fired _ _ _ _ id f) s =
      Fired-Settled id store store' job' f s
  Done-Settled new_id job job' store store' (added _ _ _ _ missing f) s =
      Fired-Settled new_id _ store' job' f (added-Settled new_id job job' store missing s)

  Done-absent :
      (new_id i : Text) (job : Job N) (store store' : Store N)
      → Done stored new_id job store store'
      → (new_id == i) ≡ false
      → find_first (has_id i) store.payouts ≡ none
      → find_first (has_id i) store'.payouts ≡ none
  unfolding created
  Done-absent new_id i job store _ (stopped _ _ _) other gone = gone
  Done-absent new_id i job store store' (fired _ _ _ _ id f) other gone =
      Fired-absent id i store store' f gone
  Done-absent new_id i job store store' (added _ _ _ _ missing f) other gone =
      Fired-absent new_id i _ store' f (rw other gone)

  Done-Reads :
      (new_id : Text) (job : Job N) (store store' : Store N)
      → Done stored new_id job store store'
      → Reads store store'
  Done-Reads new_id job store _ (stopped _ _ _) = Reads-refl store
  Done-Reads new_id job store store' (fired _ _ _ _ id f) = Fired-Reads id store store' f
  Done-Reads new_id job store store' (added _ _ _ _ missing f) =
      let kept = Fired-Reads new_id _ store' f in
      record {
        recipients_kept = kept.recipients_kept;
        investments_kept = kept.investments_kept;
        vouchers_kept = kept.vouchers_kept;
      }

module _ {N : Type 0} ⦃n : Number N⦄ (stored : N → N) where
  pub create_and_fire-absent :
      (draw : Text × Outcome) (i : Text) (job : Job N) (store : Store N)
      → (draw.0 == i) ≡ false
      → find_first (has_id i) store.payouts ≡ none
      → find_first (has_id i) (create_and_fire stored draw job store).payouts ≡ none
  create_and_fire-absent (new_id, outcome) i job store other gone =
      Done-absent stored new_id i job store _ (create_and_fire-Done stored new_id outcome job store)
        other gone

  pub create_and_fire-Reads :
      (draw : Text × Outcome) (job : Job N) (store : Store N)
      → Reads store (create_and_fire stored draw job store)
  create_and_fire-Reads (new_id, outcome) job store =
      Done-Reads stored new_id job store _ (create_and_fire-Done stored new_id outcome job store)

  pub run_jobs-keeps :
      (draw : ℕ → Text × Outcome) (k : ℕ) (jobs : List (Job N)) (job : Job N) (store : Store N)
      → Settled store job
      → Settled (run_jobs stored draw k jobs store) job
  unfolding run_jobs
  run_jobs-keeps draw k [] job store s = s
  run_jobs-keeps draw k (job' ∷ jobs) job store s =
      run_jobs-keeps draw (k + 1) jobs job (create_and_fire stored (draw k) job' store) (
        Done-Settled stored (draw k).0 job' job store _
          (create_and_fire-Done stored (draw k).0 (draw k).1 job' store) s)

  pub run_jobs-Reads :
      (draw : ℕ → Text × Outcome) (k : ℕ) (jobs : List (Job N)) (store : Store N)
      → Reads store (run_jobs stored draw k jobs store)
  unfolding run_jobs
  run_jobs-Reads draw k [] store = Reads-refl store
  run_jobs-Reads draw k (job ∷ jobs) store =
      let store' = create_and_fire stored (draw k) job store in
      Reads-trans store store' _ (create_and_fire-Reads (draw k) job store)
        (run_jobs-Reads draw (k + 1) jobs store')
