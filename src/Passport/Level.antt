-- ===== src/Passport/Level.antt =====
-- The level of a passport in src/modules/passport/passport.service.ts: the loop ends, and the level is
-- the highest that is reached.
use fox_passport_republic_ap.Prelude.{
  leb, leb→le, Bool-cases, ℕ, zero, suc, ◌+◌, ◌-◌, ◌≤◌, ◌<◌, ◌≡◌, refl, sym, ◌∙◌, subst, inl, inr,
  false, some, some-injective, arith,
}
use fox_passport_republic_ap.Passport.{
  Progress, xp_required_for_level, level_loop, progress_at, calculate_level,
}

not_reached : (a b : ℕ) → leb a b ≡ false → b < a
not_reached a b h = ground arith

zero_add : (a : ℕ) → 0 + a ≡ a
zero_add a = omega arith

suc_add : (k a : ℕ) → suc k + a ≡ suc (k + a)
suc_add k a = omega arith

minus_add : (a b : ℕ) → a ≤ b → (b - a) + a ≡ b
minus_add a b h = omega (arith, h)

module _ (cost : ℕ → ℕ) where
  -- The progress is that of the highest level that the total reaches.
  abbrev pub IsProgress : ℕ → Progress → Type 0
  IsProgress total p =
      (1 ≤ p.level)
      × (xp_required_for_level cost p.level + p.current_xp ≡ total)
      × (xp_required_for_level cost p.level + p.required_xp
          ≡ xp_required_for_level cost (suc p.level))
      × (p.current_xp < p.required_xp)

module _ (cost : ℕ → ℕ) (costly : (i : ℕ) → 1 ≤ cost i) where
  -- The levels ask for more and more.
  required-late : (level : ℕ) → level ≤ xp_required_for_level cost (suc level)
  unfolding xp_required_for_level
  required-late zero = omega arith
  required-late (suc level) = omega (arith, required-late level, costly (suc level))

  required-up :
      (level : ℕ) → xp_required_for_level cost level ≤ xp_required_for_level cost (suc level)
  unfolding xp_required_for_level
  required-up zero = omega arith
  required-up (suc level) = omega (arith, costly (suc level))

  required-add :
      (k level : ℕ) → xp_required_for_level cost level ≤ xp_required_for_level cost (k + level)
  required-add zero level = rw (zero_add level) (omega arith)
  required-add (suc k) level =
      rw (suc_add k level) (omega (arith, required-add k level, required-up (k + level)))

  required_mono : (a b : ℕ) → a ≤ b → xp_required_for_level cost a ≤ xp_required_for_level cost b
  required_mono a b h =
      subst (λ c. xp_required_for_level cost a ≤ xp_required_for_level cost c) (minus_add a b h)
        (required-add (b - a) a)

  no_fuel :
      (total level : ℕ)
      → total + 2 ≤ 0 + level
      → xp_required_for_level cost level ≤ total
      → 1 ≤ level
      → ⊥
  no_fuel total zero enough reached positive = omega (arith, positive)
  no_fuel total (suc level) enough reached positive =
      omega (arith, required-late level, enough, reached)

  level_loop_lem :
      (total fuel level : ℕ)
      → total + 2 ≤ fuel + level
      → xp_required_for_level cost level ≤ total
      → 1 ≤ level
      → (l : ℕ) × (level_loop cost total fuel level ≡ some l)
        × (xp_required_for_level cost l ≤ total)
        × (total < xp_required_for_level cost (suc l))
        × (1 ≤ l)
  unfolding level_loop
  level_loop_lem total zero level enough reached positive =
      elim (no_fuel total level enough reached positive) [ ]
  level_loop_lem total (suc fuel) level enough reached positive =
      elim (Bool-cases (leb (xp_required_for_level cost (suc level)) total)) [
        | inl t ↦ rw t (
            level_loop_lem total fuel (suc level) (omega (arith, enough)) (leb→le _ _ t)
              (omega arith))
        | inr n ↦ (level, rw n refl, reached, not_reached _ _ n, positive)
      ]

  -- Where every level costs at least one point: the loop ends, at the highest level whose points the
  -- total reaches; the current points are those beyond it, and fewer than it takes to the next.
  pub calculate_level-ends :
      (total : ℕ) → (p : Progress) × (calculate_level cost total ≡ some p) × IsProgress cost total p
  unfolding calculate_level
  calculate_level-ends total =
      let (l, e, reached, below, positive) =
        level_loop_lem total (total + 2) 1 (omega arith) (omega arith) (omega arith) in
      (
        progress_at cost total l,
        rw e refl,
        (
          positive,
          omega (arith, reached),
          omega (arith, required-up l),
          omega (arith, reached, below),
        ),
      )

  progress_mono :
      (total total' : ℕ) (p p' : Progress)
      → total ≤ total'
      → IsProgress cost total p
      → IsProgress cost total' p'
      → p.level ≤ p'.level
  progress_mono total total' p p' h (_, reached, _, _) (_, reached', next', below') =
      elim (Bool-cases (leb p.level p'.level)) [
        | inl t ↦ leb→le _ _ t
        | inr n ↦
            (let higher = required_mono (suc p'.level) p.level (not_reached _ _ n) in
              omega (arith, higher, h, reached, reached', next', below'))
      ]

  -- Where every level costs at least one point, more points never give a lower level.
  pub calculate_level_mono :
      (total total' : ℕ) (p p' : Progress)
      → total ≤ total'
      → calculate_level cost total ≡ some p
      → calculate_level cost total' ≡ some p'
      → p.level ≤ p'.level
  calculate_level_mono total total' p p' h e e' =
      let (q, at, is_q) = calculate_level-ends total in
      let (q', at', is_q') = calculate_level-ends total' in
      let one = some-injective q p (sym at ∙ e) in
      let other = some-injective q' p' (sym at' ∙ e') in
      progress_mono total total' p p' h (subst (IsProgress cost total) one is_q)
        (subst (IsProgress cost total') other is_q')
