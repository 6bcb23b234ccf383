-- ===== src/Refund/Best.antt =====
-- The rule that src/modules/refund/refund.service.ts chooses, and what cancelling earlier gives.
use fox_passport_republic_ap.Prelude.{
  ℕ, ◌≤◌, ◌≡◌, subst, ◌⊎◌, inl, inr, arith, Bool, true, false, none, some, List, [], ◌∷◌, Time, ltb,
  find_first, some-injective, Bool-cases, Option-cases, All, All-map, Any, All-Any, find_first-Any,
  find_first_sound, find_first-none, true_not_false,
}
use fox_passport_republic_ap.Refund.{
  Rule, Refund, insert_rule, sort_rules, applies, percent_of, compute_refund,
}

-- From the longest notice to the shortest.
abbrev IsSorted : List Rule → Type 0
IsSorted [] = Unit
IsSorted (r ∷ rs) = All (λ x. x.hours_before_event ≤ r.hours_before_event) rs × IsSorted rs

insert_rule-All :
    (P : Rule → Type 0) (r : Rule) (xs : List Rule) → P r → All P xs → All P (insert_rule r xs)
unfolding insert_rule
insert_rule-All P r [] p _ = (p, tt)
insert_rule-All P r (x ∷ xs) p (q, qs) =
    elim (Bool-cases (ltb x.hours_before_event r.hours_before_event)) [
      | inl t ↦ rw t (p, (q, qs))
      | inr n ↦ rw n (q, insert_rule-All P r xs p qs)
    ]

All-insert_rule :
    (P : Rule → Type 0) (r : Rule) (xs : List Rule) → All P (insert_rule r xs) → P r × All P xs
unfolding insert_rule
All-insert_rule P r [] (p, _) = (p, tt)
All-insert_rule P r (x ∷ xs) h = elim (Bool-cases (ltb x.hours_before_event r.hours_before_event)) [
  | inl t ↦ rw t at h
  | inr n ↦
      (let (q, rest) : P x × All P (insert_rule r xs) = rw n at h in
        let (p, qs) = All-insert_rule P r xs rest in (p, (q, qs)))
]

below :
    (x r : Rule)
    → ltb x.hours_before_event r.hours_before_event ≡ true
    → x.hours_before_event ≤ r.hours_before_event
below x r t = ground arith

not_below :
    (x r : Rule)
    → ltb x.hours_before_event r.hours_before_event ≡ false
    → r.hours_before_event ≤ x.hours_before_event
not_below x r n = ground arith

le_trans : (a b c : ℕ) → a ≤ b → b ≤ c → a ≤ c
le_trans a b c h k = omega (arith, h, k)

insert_rule-IsSorted : (r : Rule) (xs : List Rule) → IsSorted xs → IsSorted (insert_rule r xs)
unfolding insert_rule
insert_rule-IsSorted r [] _ = (tt, tt)
insert_rule-IsSorted r (x ∷ xs) (h, hs) =
    elim (Bool-cases (ltb x.hours_before_event r.hours_before_event)) [
      | inl t ↦ rw t ((below x r t, All-map xs (λ y l. le_trans _ _ _ l (below x r t)) h), (h, hs))
      | inr n ↦ rw n (
        insert_rule-All (λ y. y.hours_before_event ≤ x.hours_before_event) r xs (not_below x r n) h,
        insert_rule-IsSorted r xs hs,
      )
    ]

sort_rules-IsSorted : (rs : List Rule) → IsSorted (sort_rules rs)
unfolding sort_rules
sort_rules-IsSorted [] = tt
sort_rules-IsSorted (r ∷ rs) = insert_rule-IsSorted r (sort_rules rs) (sort_rules-IsSorted rs)

pub sort_rules-All : (P : Rule → Type 0) (rs : List Rule) → All P rs → All P (sort_rules rs)
unfolding sort_rules
sort_rules-All P [] _ = tt
sort_rules-All P (r ∷ rs) (p, ps) = insert_rule-All P r (sort_rules rs) p (sort_rules-All P rs ps)

All-sort_rules : (P : Rule → Type 0) (rs : List Rule) → All P (sort_rules rs) → All P rs
unfolding sort_rules
All-sort_rules P [] _ = tt
All-sort_rules P (r ∷ rs) h =
    let (p, rest) = All-insert_rule P r (sort_rules rs) h in (p, All-sort_rules P rs rest)

Any-later :
    (Q : Rule → Type 0) (r x : Rule) (xs : List Rule)
    → (Any Q (insert_rule r xs) → Q r ⊎ Any Q xs)
    → Any Q (x ∷ insert_rule r xs)
    → Q r ⊎ Any Q (x ∷ xs)
Any-later Q r x xs rest (inl q) = inr (inl q)
Any-later Q r x xs rest (inr m) = elim (rest m) [ inl q ↦ inl q | inr k ↦ inr (inr k) ]

Any-insert_rule :
    (Q : Rule → Type 0) (r : Rule) (xs : List Rule) → Any Q (insert_rule r xs) → Q r ⊎ Any Q xs
unfolding insert_rule
Any-insert_rule Q r [] m = m
Any-insert_rule Q r (x ∷ xs) m = elim (Bool-cases (ltb x.hours_before_event r.hours_before_event)) [
  | inl t ↦ rw t at m
  | inr n ↦ Any-later Q r x xs (Any-insert_rule Q r xs) (rw n at m)
]

Any-sort_rules : (Q : Rule → Type 0) (rs : List Rule) → Any Q (sort_rules rs) → Any Q rs
unfolding sort_rules
Any-sort_rules Q [] m = m
Any-sort_rules Q (r ∷ rs) m = elim (Any-insert_rule Q r (sort_rules rs) m) [
  | inl q ↦ inl q
  | inr rest ↦ inr (Any-sort_rules Q rs rest)
]

-- In a sorted list the first rule that passes a test has the longest notice of all that do.
first-longest :
    (p : Rule → Bool) (rs : List Rule) (rule : Rule)
    → IsSorted rs
    → find_first p rs ≡ some rule
    → All (λ x. p x ≡ true → x.hours_before_event ≤ rule.hours_before_event) rs
first-longest p [] rule _ e = tt
first-longest p (r ∷ rs) rule (h, hs) e = elim (Bool-cases (p r)) [
  | inl t ↦
      (let own = some-injective r rule (rw t at e) in
        subst (λ m. All (λ x. p x ≡ true → x.hours_before_event ≤ m.hours_before_event) (r ∷ rs))
          own ((λ _. omega arith), All-map rs (λ y l _. l) h))
  | inr n ↦ ((λ t. elim (true_not_false (p r) t n) [ ]), first-longest p rs rule hs (rw n at e))
]

-- The rule is one of the policy's that applies now, and of those that apply none asks for a longer
-- notice; without a rule, none applies and nothing is given back.
pub data IsChosen (start_at now : Time) (rules : List Rule) : Refund → Type 0 where
  chosen :
      (rule : Rule)
      → Any (λ x. x ≡ rule) rules
      → applies start_at now rule ≡ true
      → All
          (λ x. applies start_at now x ≡ true → x.hours_before_event ≤ rule.hours_before_event)
          rules
      → IsChosen start_at now rules
          (record { refund_percent = rule.refund_percent; matched_rule = some rule })
  no_rule :
      All (λ x. applies start_at now x ≡ false) rules
      → IsChosen start_at now rules (record { refund_percent = 0; matched_rule = none })

-- The refund is that of a rule of the policy that applies now and asks for the longest notice of
-- all that apply; if no rule applies it is 0 and without a rule.
pub compute_refund-IsChosen :
    (start_at now : Time) (rules : List Rule)
    → IsChosen start_at now rules (compute_refund start_at rules now)
unfolding compute_refund percent_of
compute_refund-IsChosen start_at now rules =
    elim (Option-cases (find_first (applies start_at now) (sort_rules rules))) [
      | inl missing ↦
          rw missing
            (no_rule (All-sort_rules _ rules (find_first-none (applies start_at now) _ missing)))
      | inr (rule, e) ↦ rw e (
          chosen rule
            (Any-sort_rules (λ x. x ≡ rule) rules (find_first-Any (applies start_at now) _ rule e))
            (find_first_sound (applies start_at now) _ rule e)
            (All-sort_rules _ rules (
              first-longest (applies start_at now) (sort_rules rules) rule
                (sort_rules-IsSorted rules) e)))
    ]

-- A policy gives back no less for a longer notice.
unfoldable pub IsMonotone : List Rule → Type 0
IsMonotone rules =
    All
      (λ a.
        All (λ b. a.hours_before_event ≤ b.hours_before_event → a.refund_percent ≤ b.refund_percent)
          rules)
      rules

applies-earlier :
    (start_at now later : Time) (rule : Rule)
    → now ≤ later
    → applies start_at later rule ≡ true
    → applies start_at now rule ≡ true
applies-earlier start_at now later rule h t = ground arith

earlier :
    (start_at now later : Time) (rules : List Rule) (early late : Refund)
    → now ≤ later
    → IsMonotone rules
    → IsChosen start_at now rules early
    → IsChosen start_at later rules late
    → late.refund_percent ≤ early.refund_percent
unfolding IsMonotone
earlier start_at now later rules _ _ h mono _ (no_rule none_late) = omega arith
earlier start_at now later rules _ _ h mono (no_rule none_early) (chosen late mine t longest) =
    elim (true_not_false _ (applies-earlier start_at now later late h t)
      (All-Any (λ x. applies start_at now x ≡ false) rules late none_early mine)) [ ]
earlier start_at now later rules _ _ h mono (chosen early its u best) (chosen late mine t longest) =
    let no_less =
      All-Any
        (λ a.
          All
            (λ b. a.hours_before_event ≤ b.hours_before_event → a.refund_percent ≤ b.refund_percent)
            rules)
        rules late mono mine in
    let longer =
      All-Any (λ x. applies start_at now x ≡ true → x.hours_before_event ≤ early.hours_before_event)
        rules late best mine in
    All-Any
      (λ b. late.hours_before_event ≤ b.hours_before_event → late.refund_percent ≤ b.refund_percent)
      rules early no_less its (longer (applies-earlier start_at now later late h t))

-- Under a policy that gives back no less for a longer notice, who cancels earlier gets back no less.
pub compute_refund-earlier :
    (start_at now later : Time) (rules : List Rule)
    → IsMonotone rules
    → now ≤ later
    → (compute_refund start_at rules later).refund_percent
      ≤ (compute_refund start_at rules now).refund_percent
compute_refund-earlier start_at now later rules mono h =
    earlier start_at now later rules _ _ h mono (compute_refund-IsChosen start_at now rules)
      (compute_refund-IsChosen start_at later rules)
