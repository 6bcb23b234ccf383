-- ===== src/Payout/Booking/Shape.antt =====
-- What a job of src/modules/payout/payout.service.ts leaves of the store that it meets.
use fox_passport_republic_ap.Prelude.{
  Bool-cases, Option-cases, Text, ==→eq, find_first, update_where, find_first_sound, ◌≡◌, refl,
  subst, inl, inr, false, Option, none, some, List, ◌∷◌,
}
use fox_passport_republic_ap.Prelude.Number.{Number}
use fox_passport_republic_ap.Payout.Data.{
  failed, Payout, Job, Transfer, Outcome, sent, refused, lost, sent_unwritten, refused_unwritten,
  Store,
}
use fox_passport_republic_ap.Payout.{
  is_pending, is_written, is_of, destination, has_id, has_key, set_status, set_paid, created,
  create_missing, create_payout_record, settle, fire_pending, fire_to, fire_found, fire_transfer,
}
use fox_passport_republic_ap.Payout.Booking.{fire_created, create_and_fire}

module _ {N : Type 0} where
  -- A write of a status behind which the row does not wait.
  pub record Ends (f : Payout N → Payout N) : Type 0 where
    pub keeps_id : (q : Payout N) → (f q).id ≡ q.id
    pub keeps_key : (job : Job N) (q : Payout N) → has_key job (f q) ≡ has_key job q
    pub ends : (q : Payout N) → is_pending (f q).status ≡ false

  -- What firing the payout of an identifier leaves: its rows, or their end by a write.
  pub data Fired : Text → Store N → Store N → Type 0 where
    left :
        (id : Text) (store : Store N) (ts : List Transfer)
        → Fired id store (record store { transfers = ts })
    ended :
        (id : Text) (store : Store N) (ts : List Transfer) (f : Payout N → Payout N)
        → Ends f
        → Fired id store
            (record store { transfers = ts; payouts = update_where (has_id id) f store.payouts })

  pub set_status-Ends : Ends (set_status failed)
  set_status-Ends = record { keeps_id = λ q. refl; keeps_key = λ job q. refl; ends = λ q. refl }

  pub set_paid-Ends : (reference : Text) → Ends (set_paid reference)
  unfolding set_paid
  set_paid-Ends reference = record {
    keeps_id = λ q. refl;
    keeps_key = λ job q. refl;
    ends = λ q. refl;
  }

module _ {N : Type 0} ⦃n : Number N⦄ where
  fire_pending-Fired :
      (outcome : Outcome) (p : Payout N) (account : Option Text) (store : Store N)
      → Fired p.id store (fire_pending outcome p account store)
  unfolding fire_pending settle
  fire_pending-Fired (sent reference) p (some account) store =
      ended p.id store _ (set_paid reference) (set_paid-Ends reference)
  fire_pending-Fired refused p (some account) store =
      ended p.id store store.transfers (set_status failed) set_status-Ends
  fire_pending-Fired lost p (some account) store =
      ended p.id store _ (set_status failed) set_status-Ends
  fire_pending-Fired sent_unwritten p (some account) store = left p.id store _
  fire_pending-Fired refused_unwritten p (some account) store = left p.id store store.transfers
  fire_pending-Fired outcome p none store = elim (Bool-cases (is_written outcome)) [
    | inl t ↦ rw t (ended p.id store store.transfers (set_status failed) set_status-Ends)
    | inr n ↦ rw n (left p.id store store.transfers)
  ]

  pub fire_transfer-Fired :
      (outcome : Outcome) (id : Text) (store : Store N)
      → Fired id store (fire_transfer outcome id store)
  unfolding fire_transfer fire_found fire_to
  fire_transfer-Fired outcome id store =
      elim (Option-cases (find_first (has_id id) store.payouts)) [
        | inl gone ↦ rw gone (left id store store.transfers)
        | inr (p, at) ↦ elim (Bool-cases (is_pending p.status)) [
          | inr n ↦ rw (at, n) (left id store store.transfers)
          | inl w ↦ elim (Option-cases (find_first (is_of p.provider_id) store.recipients)) [
            | inl unknown ↦ rw (at, w, unknown) (left id store store.transfers)
            | inr (r, there) ↦
                rw (at, w, there)
                  (subst (λ i. Fired i store (fire_pending outcome p (destination r) store))
                    (==→eq p.id id (find_first_sound (has_id id) store.payouts p at))
                    (fire_pending-Fired outcome p (destination r) store))
          ]
        ]
      ]

module _ {N : Type 0} (stored : N → N) where
  -- A job leaves the store, fires the payout that is there for its source and provider, or makes one.
  pub data Done : Text → Job N → Store N → Store N → Type 0 where
    stopped : (new_id : Text) (job : Job N) (store : Store N) → Done new_id job store store
    fired :
        (new_id : Text) (job : Job N) (store store' : Store N) (id : Text)
        → Fired id store store'
        → Done new_id job store store'
    added :
        (new_id : Text) (job : Job N) (store store' : Store N)
        → find_first (has_key job) store.payouts ≡ none
        → Fired new_id (record store { payouts = created stored new_id job ∷ store.payouts }) store'
        → Done new_id job store store'

module _ {N : Type 0} ⦃n : Number N⦄ (stored : N → N) where
  pub create_and_fire-Done :
      (new_id : Text) (outcome : Outcome) (job : Job N) (store : Store N)
      → Done stored new_id job store (create_and_fire stored (new_id, outcome) job store)
  unfolding create_and_fire fire_created create_payout_record create_missing created
  create_and_fire-Done new_id outcome job store =
      elim (Option-cases (find_first (has_key job) store.payouts)) [
        | inr (p, at) ↦
            rw at (fired new_id job store _ p.id (fire_transfer-Fired outcome p.id store))
        | inl missing ↦ elim (Option-cases (find_first (has_id new_id) store.payouts)) [
          | inr (q, taken) ↦ rw (missing, taken) (stopped new_id job store)
          | inl fresh ↦
              rw (missing, fresh)
                (added new_id job store _ missing (fire_transfer-Fired outcome new_id _))
        ]
      ]
