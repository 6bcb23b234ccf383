-- ===== src/Payout/Once.antt =====
-- No payout is paid twice: the ledger of src/modules/payout/payout.service.ts over any interleaving
-- of its calls.
use fox_passport_republic_ap.Prelude.{
  ==→eq, ℕ, ◌&&◌, ◌+◌, ◌≤◌, ◌≡◌, refl, sym, ap, subst, inl, inr, arith, Bool, true, false, Option,
  none, some, List, [], ◌∷◌, Text, ◌==◌, find_first, update_where, count_where, if◌then◌else◌,
  Bool-cases, Option-cases, find_first-again, ==_refl, count_where-kept, find_first_sound,
}
use fox_passport_republic_ap.Prelude.Number.{Number, lt_n, nought}
use fox_passport_republic_ap.Payout.Data.{
  Status, pending, paid, failed, Payout, Job, Transfer, Outcome, sent, refused, lost,
  sent_unwritten, refused_unwritten, Store,
}
use fox_passport_republic_ap.Payout.{
  is_pending, is_written, is_of, destination, has_id, has_key, set_status, set_paid,
  create_payout_record, transfer_of, settle, fire_pending, fire_to, fire_found, fire_transfer,
  reverse_by_status, reverse_found, reverse_payout_for_source,
}
use fox_passport_republic_ap.Payout.Ledger.{
  is_transfer_of, waits, IsKeyed, IsLedger, IsLedger-le, keyed-IsLedger, create-IsLedger,
  retired-paid_once,
}

-- A call: a job creates its row and fires its transfer, and other jobs' steps may come between.
pub data Request (N : Type 0) : Type 0 where
  create_request : Text → Job N → Request N
  fire_request : Outcome → Text → Request N
  reverse_request : Text → N → Request N

-- The money moved and the row still waits.
abbrev leaves_waiting : Outcome → Bool
leaves_waiting sent_unwritten = true
leaves_waiting _ = false

-- A request that transfers the money of a payout and leaves its row waiting.
abbrev pub is_unwritten : {N : Type 0} → Text → Request N → Bool
is_unwritten id (fire_request outcome payout_id) = leaves_waiting outcome && payout_id == id
is_unwritten id _ = false

abbrev more : Outcome → Text → (Text → ℕ) → Text → ℕ
more outcome payout_id unwritten id =
    (if leaves_waiting outcome && payout_id == id then 1 else 0) + unwritten id

module _ {N : Type 0} {unwritten : Text → ℕ} where
  -- The rows of a payout end their wait, and at most one transfer of it is added.
  retired-IsLedger :
      (f : Payout N → Payout N) (p : Payout N) (store : Store N) (ts : List Transfer)
      → IsLedger unwritten store
      → ((q : Payout N) → (f q).id ≡ q.id)
      → ((job : Job N) (q : Payout N) → has_key job (f q) ≡ has_key job q)
      → ((q : Payout N) → is_pending (f q).status ≡ false)
      → find_first (has_id p.id) store.payouts ≡ some p
      → is_pending p.status ≡ true
      → ((id : Text)
          → count_where (is_transfer_of id) ts
            ≤ count_where (is_transfer_of id) store.transfers + (if p.id == id then 1 else 0))
      → IsLedger unwritten
          (record store { transfers = ts; payouts = update_where (has_id p.id) f store.payouts })
  retired-IsLedger f p store ts wf keeps keeps_key ends at w adds = record {
    keyed = record {
      one_id = λ id. rw (ids id) (wf.keyed.one_id id);
      one_key = λ job.
          (let same_keys =
              count_where-kept (has_key job) (has_id p.id) f store.payouts (keeps_key job) in
            rw same_keys (wf.keyed.one_key job));
    };
    paid_once = λ id.
        (let less = retired-paid_once f p store.payouts id keeps ends at w in
          rw (ids id) (omega (arith, less, adds id, wf.paid_once id)));
  }
    where
      ids :
          (id : Text)
          → count_where (has_id id) (update_where (has_id p.id) f store.payouts)
            ≡ count_where (has_id id) store.payouts
      ids id =
          count_where-kept (has_id id) (has_id p.id) f store.payouts
            (λ q. ap (λ i. i == id) (keeps q))

  failed-IsLedger :
      (p : Payout N) (store : Store N) (ts : List Transfer)
      → IsLedger unwritten store
      → find_first (has_id p.id) store.payouts ≡ some p
      → is_pending p.status ≡ true
      → ((id : Text)
          → count_where (is_transfer_of id) ts
            ≤ count_where (is_transfer_of id) store.transfers + (if p.id == id then 1 else 0))
      → IsLedger unwritten (record store {
        transfers = ts;
        payouts = update_where (has_id p.id) (set_status failed) store.payouts;
      })
  failed-IsLedger p store ts wf at w adds =
      retired-IsLedger (set_status failed) p store ts wf (λ q. refl) (λ job q. refl) (λ q. refl) at
        w adds

module _ {N : Type 0} ⦃n : Number N⦄ {unwritten : Text → ℕ} where
  fewer :
      (outcome : Outcome) (id : Text) (store : Store N)
      → IsLedger unwritten store
      → IsLedger (more outcome id unwritten) store
  fewer outcome id store wf = IsLedger-le _ _ store (λ i. omega arith) wf

  settle-IsLedger :
      (outcome : Outcome) (p : Payout N) (account : Text) (store : Store N)
      → IsLedger unwritten store
      → find_first (has_id p.id) store.payouts ≡ some p
      → is_pending p.status ≡ true
      → IsLedger (more outcome p.id unwritten) (settle outcome p account store)
  unfolding settle transfer_of set_paid
  settle-IsLedger (sent reference) p account store wf at w = fewer (sent reference) p.id _ (
      retired-IsLedger (set_paid reference) p store (transfer_of p account ∷ store.transfers) wf
        (λ q. refl) (λ job q. refl) (λ q. refl) at w (λ id. omega arith))
  settle-IsLedger refused p account store wf at w =
      fewer refused p.id _ (failed-IsLedger p store store.transfers wf at w (λ id. omega arith))
  settle-IsLedger lost p account store wf at w = fewer lost p.id _ (
      failed-IsLedger p store (transfer_of p account ∷ store.transfers) wf at w (λ id. omega arith))
  settle-IsLedger sent_unwritten p account store wf at w = record {
    keyed = record { one_id = wf.keyed.one_id; one_key = wf.keyed.one_key };
    paid_once = λ id. omega (arith, wf.paid_once id);
  }
  settle-IsLedger refused_unwritten p account store wf at w = fewer refused_unwritten p.id store wf

  fire_pending-IsLedger :
      (outcome : Outcome) (p : Payout N) (account : Option Text) (store : Store N)
      → IsLedger unwritten store
      → find_first (has_id p.id) store.payouts ≡ some p
      → is_pending p.status ≡ true
      → IsLedger (more outcome p.id unwritten) (fire_pending outcome p account store)
  unfolding fire_pending
  fire_pending-IsLedger outcome p (some account) store wf at w =
      settle-IsLedger outcome p account store wf at w
  fire_pending-IsLedger outcome p none store wf at w = elim (Bool-cases (is_written outcome)) [
    | inl t ↦
        rw t (
          fewer outcome p.id _
            (failed-IsLedger p store store.transfers wf at w (λ id. omega arith)))
    | inr n ↦ rw n (fewer outcome p.id store wf)
  ]

  fire_found-IsLedger :
      (outcome : Outcome) (found : Option (Payout N)) (id : Text) (store : Store N)
      → IsLedger unwritten store
      → find_first (has_id id) store.payouts ≡ found
      → IsLedger (more outcome id unwritten) (fire_found outcome found store)
  unfolding fire_found fire_to
  fire_found-IsLedger outcome none id store wf at = fewer outcome id store wf
  fire_found-IsLedger outcome (some p) id store wf at =
      let own : p.id ≡ id = ==→eq p.id id (find_first_sound (has_id id) store.payouts p at) in
      elim (Bool-cases (is_pending p.status)) [
        | inl w ↦ elim (Option-cases (find_first (is_of p.provider_id) store.recipients)) [
          | inl gone ↦ rw (w, gone) (fewer outcome id store wf)
          | inr (r, there) ↦
              rw (w, there)
                (subst
                  (λ i.
                    IsLedger (more outcome i unwritten)
                      (fire_pending outcome p (destination r) store))
                  own
                  (fire_pending-IsLedger outcome p (destination r) store wf
                    (subst (λ i. find_first (has_id i) store.payouts ≡ some p) (sym own) at) w))
        ]
        | inr n ↦ rw n (fewer outcome id store wf)
      ]

  reverse_by_status-IsLedger :
      (status : Status) (p : Payout N) (refunded : N) (store : Store N)
      → IsLedger unwritten store
      → p.status ≡ status
      → find_first (has_id p.id) store.payouts ≡ some p
      → IsLedger unwritten (reverse_by_status status p refunded store)
  unfolding reverse_by_status
  reverse_by_status-IsLedger paid p refunded store wf s at =
      elim (Option-cases p.provider_reference) [
        | inl no_reference ↦ rw no_reference wf
        | inr (reference, there) ↦ rw there (record {
          keyed = record { one_id = wf.keyed.one_id; one_key = wf.keyed.one_key };
          paid_once = wf.paid_once;
        })
      ]
  reverse_by_status-IsLedger pending p refunded store wf s at =
      failed-IsLedger p store store.transfers wf at (ap is_pending s) (λ id. omega arith)
  reverse_by_status-IsLedger failed p refunded store wf s at = wf

  reverse_found-IsLedger :
      (found : Option (Payout N)) (by_source : Payout N → Bool) (refunded : N) (store : Store N)
      → IsLedger unwritten store
      → find_first by_source store.payouts ≡ found
      → IsLedger unwritten (reverse_found found refunded store)
  unfolding reverse_found
  reverse_found-IsLedger none by_source refunded store wf at = wf
  reverse_found-IsLedger (some p) by_source refunded store wf at =
      elim (Bool-cases (lt_n nought refunded)) [
        | inl t ↦ rw t (
            reverse_by_status-IsLedger p.status p refunded store wf refl (
              find_first-again by_source (has_id p.id) store.payouts p at (==_refl p.id)
                (wf.keyed.one_id p.id)))
        | inr f ↦ rw f wf
      ]

module _ {N : Type 0} ⦃n : Number N⦄ (stored : N → N) where
  -- createPayoutRecord's exception leaves the ledger.
  abbrev created_store : Option (Payout N × Store N) → Store N → Store N
  created_store none store = store
  created_store (some (_, store')) store = store'

  abbrev pub step : Request N → Store N → Store N
  step (create_request new_id job) store =
      created_store (create_payout_record stored new_id job store) store
  step (fire_request outcome id) store = fire_transfer outcome id store
  step (reverse_request source_id refunded) store =
      reverse_payout_for_source source_id refunded store

  abbrev pub run : List (Request N) → Store N → Store N
  run [] store = store
  run (r ∷ rs) store = run rs (step r store)

  step-IsLedger :
      {unwritten : Text → ℕ} (r : Request N) (store : Store N)
      → IsLedger unwritten store
      → IsLedger (λ id. (if is_unwritten id r then 1 else 0) + unwritten id) (step r store)
  unfolding fire_transfer reverse_payout_for_source
  step-IsLedger (create_request new_id job) store wf =
      elim (Option-cases (create_payout_record stored new_id job store)) [
        | inl stopped ↦ rw stopped (IsLedger-le _ _ store (λ id. omega arith) wf)
        | inr ((p, store'), e) ↦ rw e (
            IsLedger-le _ _ store' (λ id. omega arith)
              (create-IsLedger stored new_id job store p store' wf e))
      ]
  step-IsLedger (fire_request outcome id) store wf =
      fire_found-IsLedger outcome (find_first (has_id id) store.payouts) id store wf refl
  step-IsLedger (reverse_request source_id refunded) store wf =
      IsLedger-le _ _ _ (λ id. omega arith)
        (reverse_found-IsLedger (find_first (λ p. p.source_id == source_id) store.payouts)
          (λ p. p.source_id == source_id) refunded store wf refl)

  -- A step keeps the table's constraints.
  pub step-IsKeyed : (r : Request N) (store : Store N) → IsKeyed store → IsKeyed (step r store)
  step-IsKeyed r store wf = (step-IsLedger r store (keyed-IsLedger store wf)).keyed

  run-IsLedger :
      (rs : List (Request N)) (unwritten : Text → ℕ) (store : Store N)
      → IsLedger unwritten store
      → IsLedger (λ id. count_where (is_unwritten id) rs + unwritten id) (run rs store)
  run-IsLedger [] unwritten store wf = IsLedger-le _ _ store (λ id. omega arith) wf
  run-IsLedger (r ∷ rs) unwritten store wf =
      IsLedger-le _ _ _ (λ id. omega arith)
        (run-IsLedger rs _ (step r store) (step-IsLedger r store wf))

  -- From a ledger that keeps its constraints, and where no payout has more transfers and waits than
  -- rows: over any sequence of these calls, a payout gets at most one transfer and one more for each
  -- call that moved its money and then could not write its row, and none but those while it waits. So
  -- where every such row is written, no payout gets two transfers, and none that waits has one.
  pub run-pays_once :
      (rs : List (Request N)) (store : Store N) (id : Text)
      → IsLedger (λ _. 0) store
      → (count_where (is_transfer_of id) (run rs store).transfers
          ≤ 1 + count_where (is_unwritten id) rs)
        × (1 ≤ count_where (waits id) (run rs store).payouts
            → count_where (is_transfer_of id) (run rs store).transfers
              ≤ count_where (is_unwritten id) rs)
  run-pays_once rs store id wf =
      let after = run-IsLedger rs (λ _. 0) store wf in
      (
        omega (arith, after.paid_once id, after.keyed.one_id id),
        λ w. omega (arith, after.paid_once id, after.keyed.one_id id, w),
      )
