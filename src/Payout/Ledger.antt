-- ===== src/Payout/Ledger.antt =====
-- The constraints of the payout ledger, and what createPayoutRecord of
-- src/modules/payout/payout.service.ts leaves of them.
use fox_passport_republic_ap.Prelude.{
  ==→eq, and-false, and_false, ℕ, ◌+◌, ◌≤◌, ◌≡◌, refl, ap, subst, inl, inr, arith, Bool, true,
  false, ◌&&◌, Option, none, some, List, ◌∷◌, Text, ◌==◌, find_first, update_where, count_where,
  if◌then◌else◌, Bool-cases, Option-cases, All-everywhere, count_where-update_where,
  count_where-none, count_where-same, some-injective, count_where-cleared, count_where-found,
}
use fox_passport_republic_ap.Payout.Data.{Payout, Job, Transfer, Store}
use fox_passport_republic_ap.Payout.{
  is_pending, has_id, has_key, created, create_missing, create_payout_record,
}

abbrev pub is_transfer_of : Text → Transfer → Bool
is_transfer_of id t = t.payout_id == id

module _ {N : Type 0} where
  abbrev pub waits : Text → Payout N → Bool
  waits id p = has_id id p && is_pending p.status

  -- The table's constraints: no two payouts have one identifier or are for one provider and source.
  pub record IsKeyed (store : Store N) : Type 0 where
    pub one_id : (id : Text) → count_where (has_id id) store.payouts ≤ 1
    pub one_key : (job : Job N) → count_where (has_key job) store.payouts ≤ 1

  -- The constraints, and that the transfers of a payout and its wait for one are together at most as
  -- many as the payout's rows and the transfers that left the row waiting.
  pub record IsLedger (unwritten : Text → ℕ) (store : Store N) : Type 0 where
    pub keyed : IsKeyed store
    pub paid_once :
        (id : Text)
        → count_where (is_transfer_of id) store.transfers + count_where (waits id) store.payouts
          ≤ count_where (has_id id) store.payouts + unwritten id

  pub IsLedger-le :
      (u u' : Text → ℕ) (store : Store N)
      → ((id : Text) → u id ≤ u' id)
      → IsLedger u store
      → IsLedger u' store
  IsLedger-le u u' store h wf = record {
    keyed = wf.keyed;
    paid_once = λ id. omega (arith, wf.paid_once id, h id);
  }

  pub keyed-IsLedger :
      (store : Store N)
      → IsKeyed store
      → IsLedger
          (λ id.
            count_where (is_transfer_of id) store.transfers + count_where (waits id) store.payouts)
          store
  keyed-IsLedger store wf = record { keyed = wf; paid_once = λ id. omega arith }

  retired-waits :
      (f : Payout N → Payout N) (i id : Text) (q : Payout N)
      → i ≡ id
      → ((q : Payout N) → (f q).id ≡ q.id)
      → ((q : Payout N) → is_pending (f q).status ≡ false)
      → waits id (if has_id i q then f q else q) ≡ false
  retired-waits f i id q own keeps ends = elim (Bool-cases (has_id i q)) [
    | inl t ↦ rw (t, ends q) (and_false (has_id id (f q)))
    | inr n ↦ rw n (rw (subst (λ j. has_id j q ≡ false) own n) refl)
  ]

  still_waits :
      (f : Payout N → Payout N) (i id : Text) (q : Payout N)
      → ((q : Payout N) → (f q).id ≡ q.id)
      → ((q : Payout N) → is_pending (f q).status ≡ false)
      → waits id (if has_id i q then f q else q) ≡ true
      → waits id q ≡ true
  still_waits f i id q keeps ends h = elim (Bool-cases (has_id i q)) [
    | inl t ↦ elim (and-false (has_id id (f q)) (rw (t, ends q) at h)) [ ]
    | inr n ↦ rw n at h
  ]

  -- A row that ends its wait, or keeps its status, under its identifier.
  pub retired-paid_once :
      (f : Payout N → Payout N) (p : Payout N) (ps : List (Payout N)) (id : Text)
      → ((q : Payout N) → (f q).id ≡ q.id)
      → ((q : Payout N) → is_pending (f q).status ≡ false)
      → find_first (has_id p.id) ps ≡ some p
      → is_pending p.status ≡ true
      → count_where (waits id) (update_where (has_id p.id) f ps) + (if p.id == id then 1 else 0)
        ≤ count_where (waits id) ps
  retired-paid_once f p ps id keeps ends at w = elim (Bool-cases (p.id == id)) [
    | inl t ↦
        (let own = ==→eq p.id id t in
          let before = count_where-found (has_id p.id) (waits id) ps p at (rw (t, w) refl) in
          let none_left =
            count_where-cleared (waits id) (has_id p.id) f ps
              (λ q. retired-waits f p.id id q own keeps ends) in
          rw t (omega (arith, before, none_left)))
    | inr n ↦
        (let less =
            count_where-update_where (waits id) (waits id) (has_id p.id) f ps
              (All-everywhere ps (λ q h. still_waits f p.id id q keeps ends h)) in
          rw n (omega (arith, less)))
  ]

module _ {N : Type 0} (stored : N → N) where
  -- A row's test by the key reads no more of a new row than its job.
  pub created-key :
      (new_id : Text) (job job' : Job N)
      → has_key job' (created stored new_id job) ≡ true
      → (p : Payout N) → has_key job' p ≡ has_key job p
  unfolding created
  created-key new_id job job' h p = ground arith

module _ {N : Type 0} (stored : N → N) {unwritten : Text → ℕ} where
  created-IsLedger :
      (new_id : Text) (job : Job N) (store : Store N)
      → IsLedger unwritten store
      → find_first (has_id new_id) store.payouts ≡ none
      → find_first (has_key job) store.payouts ≡ none
      → IsLedger unwritten (record store { payouts = created stored new_id job ∷ store.payouts })
  unfolding created
  created-IsLedger new_id job store wf fresh missing =
      let unused = count_where-none (has_id new_id) store.payouts fresh in
      let unused_at : (id : Text)
          → (new_id == id) ≡ true
          → count_where (has_id id) store.payouts ≡ 0 =
        λ id t. subst (λ i. count_where (has_id i) store.payouts ≡ 0) (==→eq new_id id t) unused in
      let keyless = count_where-none (has_key job) store.payouts missing in
      record {
        keyed = record {
          one_id = λ id. elim (Bool-cases (new_id == id)) [
            | inl t ↦ rw t (omega (arith, unused_at id t))
            | inr n ↦ rw n (omega (arith, wf.keyed.one_id id))
          ];
          one_key = λ job'. elim (Bool-cases (has_key job' (created stored new_id job))) [
            | inl t ↦
                (let same_key =
                    count_where-same (has_key job') (has_key job) store.payouts
                      (created-key stored new_id job job' t) in
                  rw t (omega (arith, same_key, keyless)))
            | inr n ↦ rw n (omega (arith, wf.keyed.one_key job'))
          ];
        };
        paid_once = λ id. elim (Bool-cases (new_id == id)) [
          | inl t ↦ rw t (omega (arith, wf.paid_once id, unused_at id t))
          | inr n ↦ rw n (omega (arith, wf.paid_once id))
        ];
      }

  missing-IsLedger :
      (new_id : Text) (job : Job N) (found : Option (Payout N)) (store : Store N) (p : Payout N)
      (store' : Store N)
      → IsLedger unwritten store
      → find_first (has_key job) store.payouts ≡ found
      → create_missing stored new_id job found store ≡ some (p, store')
      → IsLedger unwritten store'
  unfolding create_missing
  missing-IsLedger new_id job (some _) store p store' wf at e =
      subst (IsLedger unwritten) (ap (λ r. r.1) (some-injective _ _ e)) wf
  missing-IsLedger new_id job none store p store' wf at e =
      elim (Option-cases (find_first (has_id new_id) store.payouts)) [
        | inl fresh ↦
            subst (IsLedger unwritten) (ap (λ r. r.1) (some-injective _ _ (rw fresh at e)))
              (created-IsLedger new_id job store wf fresh at)
        | inr (q, taken) ↦ (let impossible = rw taken at e in cc)
      ]

  pub create-IsLedger :
      (new_id : Text) (job : Job N) (store : Store N) (p : Payout N) (store' : Store N)
      → IsLedger unwritten store
      → create_payout_record stored new_id job store ≡ some (p, store')
      → IsLedger unwritten store'
  unfolding create_payout_record
  create-IsLedger new_id job store p store' wf e =
      missing-IsLedger new_id job (find_first (has_key job) store.payouts) store p store' wf refl e
