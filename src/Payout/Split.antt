-- ===== src/Payout/Split.antt =====
-- The shares of investors in an owner's payout: resolveInvestorSplit of
-- src/modules/payout/payout.service.ts.
pub mod Bounds
mod Tests
use fox_passport_republic_ap.Prelude.{
  Bool, true, false, not, ◌&&◌, Option, none, some, List, [], ◌∷◌, Text, same, if◌then◌else◌,
}
use fox_passport_republic_ap.Prelude.Number.{Number, ◌*ₙ◌, ◌/ₙ◌, ◌-ₙ◌, lt_n, integer, nought}
use fox_passport_republic_ap.Payout.Data.{Investment}
use fox_passport_republic_ap.Payout.{min_n}

-- The venue or the event that is invested in.
pub data Target : Type 0 where
  target_venue target_event : Text → Target

abbrev pub is_target : {N : Type 0} → Target → Investment N → Bool
is_target (target_venue id) i = same i.target_venue_id (some id)
is_target (target_event id) i = same i.target_event_id (some id)

pub record Cut (N : Type 0) : Type 0 where
  pub partner_id : Text
  pub amount : N

pub record Split (N : Type 0) : Type 0 where
  pub owner_amount : N
  pub investor_cuts : List (Cut N)

module _ {N : Type 0} ⦃n : Number N⦄ where
  -- The partners of the active investments with a percentage above 0.
  unfoldable pub shares : Target → List (Investment N) → List (Text × N)
  shares target [] = []
  shares target (i ∷ is) =
      let rest = shares target is in
      elim i.revenue_share_percent [
        | none ↦ rest
        | some percent ↦
            if is_target target i && i.is_active && lt_n nought percent
            then (i.partner_id, percent) ∷ rest
            else rest
      ]

  pub cut_of : N → N → N
  cut_of owner_amount percent = owner_amount *ₙ (percent /ₙ integer 100)

  abbrev pub add_cut : Bool → Text → N → Split N → Split N
  add_cut true partner cut split = split
  add_cut false partner cut split = record split {
    investor_cuts = record { partner_id = partner; amount = cut } ∷ split.investor_cuts;
  }

  -- The loop, with what is left of the 100 percent and of the owner's amount.
  unfoldable pub split_loop : N → List (Text × N) → N → N → Split N
  unfolding cut_of
  split_loop owner_amount [] left remaining = record {
    owner_amount = remaining;
    investor_cuts = [];
  }
  split_loop owner_amount ((partner, share) ∷ rest) left remaining =
      let percent = min_n share left in
      let skip = n.le percent nought in
      let cut = cut_of owner_amount percent in
      add_cut skip partner cut (
        split_loop owner_amount rest (if skip then left else left -ₙ percent)
          (if skip then remaining else remaining -ₙ cut))

  unfoldable pub resolve_investor_split : List (Investment N) → N → Target → Split N
  unfolding shares split_loop
  resolve_investor_split investments owner_amount target =
      split_loop owner_amount (shares target investments) (integer 100) owner_amount
