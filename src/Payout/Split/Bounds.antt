-- ===== src/Payout/Split/Bounds.antt =====
-- What investors take from an owner's payout in resolveInvestorSplit of
-- src/modules/payout/payout.service.ts.
use fox_passport_republic_ap.Prelude.{All, ◌≡◌, List, [], ◌∷◌}
use fox_passport_republic_ap.Prelude.Number.{
  Number, ◌+ₙ◌, ◌-ₙ◌, ◌*ₙ◌, ◌/ₙ◌, ◌≼◌, integer, nought, fixed_number,
}
use fox_passport_republic_ap.Payout.Split.{Cut, Split}

-- Sums and differences without rounding, and percentages of an amount that are rounded down, if at all.
pub record IsExact (N : Type 0) ⦃n : Number N⦄ : Type 0 where
  pub add_sub : (a b : N) → b ≼ a → (b +ₙ (a -ₙ b)) ≡ a
  pub le_sub : (a b c : N) → (a +ₙ b) ≼ c → b ≼ (c -ₙ a)
  pub whole : (a : N) → (a *ₙ (integer 100 /ₙ integer 100)) ≼ a
  pub parts :
      (a p l : N)
      → nought ≼ a
      → nought ≼ p
      → p ≼ l
      → ((a *ₙ (p /ₙ integer 100)) +ₙ (a *ₙ ((l -ₙ p) /ₙ integer 100))) ≼ (a *ₙ (l /ₙ integer 100))

module _ {N : Type 0} ⦃n : Number N⦄ where
  -- The cuts and what is left of the owner's part.
  abbrev pub total : List (Cut N) → N → N
  total [] owner = owner
  total (cut ∷ cuts) owner = cut.amount +ₙ total cuts owner

  -- The parts are not negative and are the amount together.
  pub record IsSplit (amount : N) (split : Split N) : Type 0 where
    pub owner_nonneg : nought ≼ split.owner_amount
    pub owner_within : split.owner_amount ≼ amount
    pub cuts_nonneg : All (λ cut. nought ≼ cut.amount) split.investor_cuts
    pub no_loss : total split.investor_cuts split.owner_amount ≡ amount
