-- ===== src/Payout/Split/Tests.antt =====
-- A run of resolveInvestorSplit of src/modules/payout/payout.service.ts, and the hypothesis of the
-- theorem met by it.
use fox_passport_republic_ap.Prelude.{◌≡◌, refl}
use fox_passport_republic_ap.Prelude.Number.{fixed_number}
use fox_passport_republic_ap.Payout.Tests.{pesos, empty}
use fox_passport_republic_ap.Payout.Split.{
  target_venue, shares, cut_of, split_loop, resolve_investor_split,
}

-- Three halves are cut to the hundred percent that there are.
split_three_halves :
    (resolve_investor_split empty.investments (pesos 80) (target_venue 7)).owner_amount ≡ 0
unfolding resolve_investor_split shares split_loop cut_of
split_three_halves = refl
