-- ===== src/Pricing/Price/Rules.antt =====
-- Which platform fee rule applies: `resolvePricingRule` of src/modules/pricing/pricing.service.ts.
use fox_passport_republic_ap.Prelude.{
  Bool, true, false, not, ◌&&◌, ◌||◌, ◌≡◌, refl, ◌⊎◌, ◌↔◌, Option, none, some, List, [], ◌∷◌, Text,
  Time, select, arith, Bool-cases, sym, ◌∙◌, inl, inr, All, Any, All-map, excludes, ltb→lt, lt→ltb,
}
use fox_passport_republic_ap.Prelude.Int.{ℤ, pos, negsuc, ◌≤ℤ◌, ltb_ℤ}
use fox_passport_republic_ap.Prelude.Best.{
  IsFirstBest, First-test, First-Any, First-All, pick, pick-IsFirstBest,
}
use fox_passport_republic_ap.Pricing.Data.{Rule, Shop, Context}
use fox_passport_republic_ap.Pricing.Price.{
  is_effective, is_excluded, score, match_rules, resolve_pricing_rule,
}

-- A scope that is not set, or that is the one given.
abbrev pub Admits : Option Text → Option Text → Type 0
Admits none t = Unit
Admits (some s) t = (s ≡ 0) ⊎ (t ≡ some s)

not-ltb_ℤ : (a b : ℤ) → ltb_ℤ a b ≡ false → b ≤ℤ a
not-ltb_ℤ a b h = ground arith

ltb_ℤ_trans : (a b c : ℤ) → ltb_ℤ a b ≡ true → ltb_ℤ b c ≡ true → ltb_ℤ a c ≡ true
ltb_ℤ_trans a b c p q = lt→ltb _ _ (omega (arith, ltb→lt _ _ p, ltb→lt _ _ q))

ltb_ℤ_weak : (a b c : ℤ) → ltb_ℤ a b ≡ false → ltb_ℤ a c ≡ true → ltb_ℤ b c ≡ true
ltb_ℤ_weak a b c p q = lt→ltb _ _ (omega (arith, not-ltb_ℤ a b p, ltb→lt _ _ q))

negative_lt : (a : ℤ) → (ltb_ℤ (negsuc 0) a ≡ true) ↔ (pos 0 ≤ℤ a)
negative_lt a = ground arith

negative_below : (a b : ℤ) → ltb_ℤ (negsuc 0) a ≡ false → pos 0 ≤ℤ b → a ≤ℤ b
negative_below a b n h = omega (arith, not-ltb_ℤ (negsuc 0) a n, h)

not_or₃ :
    (a b c d : Bool)
    → (not (a || b || c) && d) ≡ true
    → (a ≡ false) × (b ≡ false) × (c ≡ false) × (d ≡ true)
not_or₃ a b c d e = ground arith

excludes-Admits : (s t : Option Text) → (excludes s t ≡ false) ↔ Admits s t
excludes-Admits none t = (λ _. tt, λ _. refl)
excludes-Admits (some s) none = ground arith
excludes-Admits (some s) (some t) = ground arith

module _ {N : Type 0} where
  -- Every scope that the rule sets is the context's.
  pub record Applies (context : Context) (rule : Rule N) : Type 0 where
    pub type_admitted : Admits rule.transaction_type (some context.transaction_type)
    pub category_admitted : Admits rule.category context.category
    pub subcategory_admitted : Admits rule.subcategory context.subcategory

  abbrev eligible : Context → Rule N → Bool
  eligible context rule = not (is_excluded context rule) && ltb_ℤ (negsuc 0) (score context rule)

  abbrev below : Context → Rule N → Rule N → Bool
  below context r s = ltb_ℤ (score context r) (score context s)

  eligible-Applies :
      (context : Context) (rule : Rule N)
      → eligible context rule ≡ true
      → Applies context rule × (pos 0 ≤ℤ score context rule)
  unfolding is_excluded
  eligible-Applies context rule e =
      let (a, b, c, d) = not_or₃ _ _ _ _ e in
      (
        record {
          type_admitted = (excludes-Admits _ _).0 a;
          category_admitted = (excludes-Admits _ _).0 b;
          subcategory_admitted = (excludes-Admits _ _).0 c;
        },
        (negative_lt (score context rule)).0 d,
      )

  Applies-eligible :
      (context : Context) (rule : Rule N)
      → Applies context rule
      → eligible context rule ≡ ltb_ℤ (negsuc 0) (score context rule)
  unfolding is_excluded
  Applies-eligible context rule r =
      rw
        (
          (excludes-Admits rule.transaction_type (some context.transaction_type)).1 r.type_admitted,
          (excludes-Admits rule.category context.category).1 r.category_admitted,
          (excludes-Admits rule.subcategory context.subcategory).1 r.subcategory_admitted,
        )
        refl

  -- The loop's threshold is the score of the best rule so far.
  match_rules-eq-pick :
      (context : Context) (b : Rule N) (rules : List (Rule N))
      → pos 0 ≤ℤ score context b
      → match_rules context (some b) (score context b) rules
        ≡ pick (eligible context) (below context) (some b) rules
  unfolding match_rules pick
  match_rules-eq-pick context b [] h = refl
  match_rules-eq-pick context b (r ∷ rules) h =
      ground (arith, match_rules-eq-pick context r rules, match_rules-eq-pick context b rules h)

  match_rules_start :
      (context : Context) (rules : List (Rule N))
      → match_rules context none (negsuc 0) rules
        ≡ pick (eligible context) (below context) none rules
  unfolding match_rules pick
  match_rules_start context [] = refl
  match_rules_start context (r ∷ rules) =
      ground (arith, match_rules-eq-pick context r rules, match_rules_start context rules)

  -- What the search finds in a list of rules.
  abbrev pub IsChosen : Context → List (Rule N) → Option (Rule N) → Type 0
  IsChosen context rules none = All (λ s. Applies context s → score context s ≤ℤ negsuc 0) rules
  IsChosen context rules (some r) =
      Applies context r
      × (pos 0 ≤ℤ score context r)
      × Any (λ s. s ≡ r) rules
      × All (λ s. Applies context s → score context s ≤ℤ score context r) rules

  IsFirstBest-IsChosen :
      (context : Context) (rules : List (Rule N)) (o : Option (Rule N))
      → IsFirstBest (eligible context) (below context) rules o
      → IsChosen context rules o
  IsFirstBest-IsChosen context rules none h =
      All-map rules
        (λ s f a. not-ltb_ℤ (negsuc 0) (score context s) (sym (Applies-eligible context s a) ∙ f)) h
  IsFirstBest-IsChosen context rules (some r) h =
      let (applies, counted) =
        eligible-Applies context r (First-test (eligible context) (below context) r h) in
      (
        applies,
        counted,
        First-Any (eligible context) (below context) r h,
        All-map rules
            (λ s f a. elim (Bool-cases (ltb_ℤ (negsuc 0) (score context s))) [
              | inl t ↦
                  not-ltb_ℤ (score context r) (score context s)
                    (f (Applies-eligible context s a ∙ t))
              | inr n ↦ negative_below (score context s) (score context r) n counted
            ])
            (First-All (eligible context) (below context) r (λ x y p. ground arith) h),
      )

  -- The fee rule that is chosen is in effect, applies to the context (every scope that it sets is the
  -- context's) and has a score that is not negative, and no rule in effect that applies has a greater
  -- score. If none is chosen, every rule in effect that applies has a negative score.
  pub resolve_pricing_rule-IsChosen :
      (shop : Shop N) (now : Time) (context : Context)
      → IsChosen context
          (select (is_effective now) shop.rules)
          (resolve_pricing_rule shop now context)
  unfolding resolve_pricing_rule
  resolve_pricing_rule-IsChosen shop now context =
      IsFirstBest-IsChosen context (select (is_effective now) shop.rules) _ (
        rw match_rules_start (
          pick-IsFirstBest (eligible context) (below context)
            (λ a b c. ltb_ℤ_trans (score context a) (score context b) (score context c))
            (λ a b c. ltb_ℤ_weak (score context a) (score context b) (score context c))
            (select (is_effective now) shop.rules)))
