-- ===== src/Payout/Booking/Known.antt =====
-- The jobs of an event's booking are for its providers, its organizer and investors:
-- createPayoutsForEventBooking of src/modules/payout/payout.service.ts.
use fox_passport_republic_ap.Prelude.{
  Bool-cases, Option-cases, Text, All, All-append, map-All, inl, inr, ◌&&◌, List, [], ◌∷◌,
}
use fox_passport_republic_ap.Prelude.Number.{Number, ◌-ₙ◌, lt_n, integer, nought}
use fox_passport_republic_ap.Payout.Data.{Job, Investment, Voucher}
use fox_passport_republic_ap.Payout.{min_n}
use fox_passport_republic_ap.Payout.Split.{
  Target, target_venue, target_event, is_target, shares, split_loop, resolve_investor_split,
}
use fox_passport_republic_ap.Payout.Booking.{
  Line, EventBooking, cut_job, split_jobs, venue_job, venue_jobs, host_job, event_jobs,
}

module _ {N : Type 0} ⦃n : Number N⦄ (Known : Text → Type 0) where
  shares_Known :
      (target : Target) (is : List (Investment N))
      → All (λ i. Known i.partner_id) is
      → All (λ s. Known s.0) (shares target is)
  unfolding shares
  shares_Known target [] _ = tt
  shares_Known target (i ∷ is) (h, hs) = elim (Option-cases i.revenue_share_percent) [
    | inl unset ↦ rw unset (shares_Known target is hs)
    | inr (percent, set) ↦
        elim (Bool-cases (is_target target i && i.is_active && lt_n nought percent)) [
          | inl t ↦ rw (set, t) (h, shares_Known target is hs)
          | inr f ↦ rw (set, f) (shares_Known target is hs)
        ]
  ]

  cuts_Known :
      (amount : N) (list : List (Text × N)) (left remaining : N)
      → All (λ s. Known s.0) list
      → All (λ cut. Known cut.partner_id) (split_loop amount list left remaining).investor_cuts
  unfolding split_loop
  cuts_Known amount [] left remaining _ = tt
  cuts_Known amount ((partner, share) ∷ rest) left remaining (h, hs) =
      elim (Bool-cases (n.le (min_n share left) nought)) [
        | inl t ↦ rw t (cuts_Known amount rest left remaining hs)
        | inr f ↦ rw f (h, cuts_Known amount rest (left -ₙ min_n share left) _ hs)
      ]

  split_jobs_Known :
      (is : List (Investment N)) (target : Target) (job : Job N)
      → All (λ i. Known i.partner_id) is
      → Known job.provider_id
      → All (λ j. Known j.provider_id) (split_jobs is target job)
  unfolding split_jobs resolve_investor_split
  split_jobs_Known is target job hs h =
      All-append (λ j. Known j.provider_id) _ _
        ((map-All (λ j. Known j.provider_id) (cut_job job.source_id) _).1 (
          cuts_Known job.amount (shares target is) (integer 100) job.amount
            (shares_Known target is hs)))
        (h, tt)

  venue_jobs_Known :
      (booking : EventBooking N) (is : List (Investment N)) (vs : List Voucher)
      (lines : List (Line N))
      → All (λ i. Known i.partner_id) is
      → All (λ line. Known line.provider_id) lines
      → All (λ j. Known j.provider_id) (venue_jobs booking is vs lines)
  unfolding venue_jobs
  venue_jobs_Known booking is vs [] hs _ = tt
  venue_jobs_Known booking is vs (line ∷ lines) hs (h, rest) =
      All-append (λ j. Known j.provider_id) _ _
        (split_jobs_Known is (target_venue line.venue_id) (venue_job booking vs line) hs h)
        (venue_jobs_Known booking is vs lines hs rest)

  pub event_jobs_Known :
      (booking : EventBooking N) (is : List (Investment N)) (vs : List Voucher)
      → All (λ i. Known i.partner_id) is
      → All (λ line. Known line.provider_id) booking.asset_transactions
      → All (λ line. Known line.provider_id) booking.service_transactions
      → All (λ line. Known line.provider_id) booking.venue_transactions
      → Known booking.organizer_id
      → All (λ j. Known j.provider_id) (event_jobs booking is vs)
  unfolding event_jobs
  event_jobs_Known booking is vs hs assets services venues host =
      All-append (λ j. Known j.provider_id) _ _ ((map-All (λ j. Known j.provider_id) _ _).1 assets)
        (All-append (λ j. Known j.provider_id) _ _
          ((map-All (λ j. Known j.provider_id) _ _).1 services)
          (All-append (λ j. Known j.provider_id) _ _
            (venue_jobs_Known booking is vs booking.venue_transactions hs venues)
            (split_jobs_Known is (target_event booking.event_id) (host_job booking) hs host)))
