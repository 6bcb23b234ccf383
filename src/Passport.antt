-- ===== src/Passport.antt =====
-- Levels of experience: xpRequiredForLevel and calculateLevel of
-- src/modules/passport/passport.service.ts. JavaScript's Math.pow is a parameter.
pub mod Level
mod Tests
use fox_passport_republic_ap.Prelude.{
  ltb, leb, ◌==◌, if◌then◌else◌, ltb→lt, lt→ltb, leb→le, ==_iff, ==_refl, Bool-cases, Option-cases,
  Text, Time, is_some, or_else, truthy, same, excludes, ==→eq, and-false, is_some-false, not-false,
  and_false, length, length-append, All, Any, All-append, All-map, All-everywhere, any_of, select,
  find_first, count_where, sum_of, update_where, find_first_sound, find_first-All, All-select,
  All-Any, find_first-Any, Any-map, Result, err, ok, ◌>>=◌, ◌>>◌, throw_if, or_throw, is_ok,
  Result-cases, >>=-eq-ok, >>-eq-ok, or_throw-eq-ok, throw_if-eq-ok, ok-injective, guard-eq-ok,
  require-eq-ok, found-eq-ok, true_not_false, count_where-append, count_where-update_where,
  find_first-none, count_where-none, count_where-0, find_first-only, count_where-kept,
  count_where-cleared, count_where-found, count_where-same, find_first-again,
  find_first-update_where, find_first-absent, find_first-untouched, count_where-fewer, found_holds,
  any_of-ext, any_of-select, any_of-map, any_of-none, any_of-found, ℕ, zero, suc, ◌+◌, ◌-◌, ◌*◌,
  ◌/◌, ◌%◌, ◌^◌, ◌≤◌, ◌<◌, min, max, ◌≡◌, refl, sym, ap, ◌∙◌, subst, ◌≢◌, ◌↔◌, ◌⊎◌, inl, inr, Bool,
  true, false, not, ◌&&◌, ◌||◌, Option, none, some, some-injective, List, [], ◌∷◌, ◌++◌, map, arith,
}
use fox_passport_republic_ap.Prelude.Number.{
  Number, ◌+ₙ◌, ◌-ₙ◌, ◌*ₙ◌, ◌/ₙ◌, lt_n, ◌≼◌, integer, nought, IsRounded, lt_n_trans, lt_n_weak,
  lt_n_asym, le_of_not_lt_n, le_of_lt_n, le_refl_n, Fixed, scale, fixed_number, Fixed-IsRounded,
}

pub record Progress : Type 0 where
  pub level : ℕ
  pub current_xp : ℕ
  pub required_xp : ℕ

module _ {N : Type 0} ⦃n : Number N⦄ where
  -- `Math.round(XP_PER_LEVEL * Math.pow(XP_MULTIPLIER, i - 1))`
  abbrev pub level_cost : (N → ℕ → N) → ℕ → ℕ
  level_cost pow i = n.round (integer 1000 *ₙ pow (n.literal 115 2) (i - 1))

module _ (cost : ℕ → ℕ) where
  pub xp_required_for_level : ℕ → ℕ
  xp_required_for_level zero = 0
  xp_required_for_level (suc zero) = 0
  xp_required_for_level (suc (suc level)) = xp_required_for_level (suc level) + cost (suc level)

  -- The loop of calculateLevel, and `none` if it does not end within the fuel.
  pub level_loop : ℕ → ℕ → ℕ → Option ℕ
  unfolding xp_required_for_level
  level_loop total zero level = none
  level_loop total (suc fuel) level =
      let rest = level_loop total fuel (suc level) in
      if leb (xp_required_for_level (suc level)) total then rest else some level

  abbrev pub progress_at : ℕ → ℕ → Progress
  progress_at total level = record {
    level = level;
    current_xp = total - xp_required_for_level level;
    required_xp = xp_required_for_level (suc level) - xp_required_for_level level;
  }

  abbrev pub progress_of : ℕ → Option ℕ → Option Progress
  progress_of total none = none
  progress_of total (some level) = some (progress_at total level)

  -- The fuel: every level asks for at least one more, so none above the total's is reached.
  pub calculate_level : ℕ → Option Progress
  unfolding level_loop
  calculate_level total = progress_of total (level_loop total (total + 2) 1)
