-- ===== src/Passport/Tests.antt =====
-- Levels of src/modules/passport/passport.service.ts at a few totals, and the hypothesis of the theorems
-- met by them.
use fox_passport_republic_ap.Prelude.{ℕ, zero, suc, ◌-◌, ◌*◌, ◌/◌, ◌≤◌, ◌≡◌, refl, some, arith}
use fox_passport_republic_ap.Prelude.Number.{Fixed, scale, fixed_number}
use fox_passport_republic_ap.Passport.{
  Progress, level_cost, xp_required_for_level, level_loop, calculate_level,
}
use fox_passport_republic_ap.Passport.Level.{IsProgress, calculate_level-ends, calculate_level_mono}

-- Repeated multiplication.
abbrev power : Fixed → ℕ → Fixed
power b zero = scale
power b (suc k) = b * power b k / scale

abbrev cost : ℕ → ℕ
cost = level_cost power

abbrev growth : Fixed
growth = fixed_number.literal 115 2

power-late : (k : ℕ) → scale ≤ power growth k
power-late zero = omega arith
power-late (suc k) = omega (arith, power-late k)

cost-positive : (i : ℕ) → 1 ≤ cost i
cost-positive i = omega (arith, power-late (i - 1))

-- 1000 points, then 1150 more.
third : calculate_level cost 2200 ≡ some (record { level = 3; current_xp = 50; required_xp = 1323 })
unfolding calculate_level level_loop xp_required_for_level
third = refl

calculate_level-ends_example :
    (p : Progress) × (calculate_level cost 2200 ≡ some p) × IsProgress cost 2200 p
calculate_level-ends_example = calculate_level-ends cost cost-positive 2200

calculate_level_mono_example : 1 ≤ 3
unfolding calculate_level level_loop xp_required_for_level
calculate_level_mono_example =
    calculate_level_mono cost cost-positive 999 2200
      (record { level = 1; current_xp = 999; required_xp = 1000 })
      (record { level = 3; current_xp = 50; required_xp = 1323 }) (omega arith) refl refl
