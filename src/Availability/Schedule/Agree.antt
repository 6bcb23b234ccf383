-- ===== src/Availability/Schedule/Agree.antt =====
-- The check of one booking and the calendar of blocked days of
-- src/modules/availability/provider-schedule.ts agree.
use fox_passport_republic_ap.Prelude.{
  ◌==◌, if◌then◌else◌, Bool-cases, Time, truthy, ==→eq, and_false, All, All-map, any_of, select,
  any_of-ext, any_of-select, ℕ, zero, suc, ◌-◌, ◌≤◌, ◌≡◌, refl, sym, ap, ◌∙◌, subst, inl, inr, Bool,
  true, false, not, ◌&&◌, ◌||◌, some, List, [], ◌∷◌, ◌++◌, arith,
}
use fox_passport_republic_ap.Availability.Schedule.{
  Place, Engagement, Names, has_day, local_parts, city_of, text_of, same_city, day_of, last_instant,
  days_from, day_keys, travel_around, Verdict, free, booked, travel, is_empty, meets, conflict_loop,
  find_schedule_conflict, booked_of, travel_of, provider_blocked_days,
}

or-shuffle : (p q a b c : Bool) → c ≡ (a || b) → ((p || q) || c) ≡ ((p || a) || (q || b))
or-shuffle p q a b c h = ground arith

any_of-or :
    {A : Type 0} (p q : A → Bool) (xs : List A)
    → any_of (λ a. p a || q a) xs ≡ (any_of p xs || any_of q xs)
any_of-or p q [] = refl
any_of-or p q (x ∷ xs) =
    or-shuffle (p x) (q x) (any_of p xs) (any_of q xs) (any_of (λ a. p a || q a) xs)
      (any_of-or p q xs)

any_of-false : {A : Type 0} (xs : List A) → any_of (λ _. false) xs ≡ false
any_of-false [] = refl
any_of-false (x ∷ xs) = any_of-false xs

-- The order of two searches does not matter.
any_of-swap :
    {A B : Type 0} (r : A → B → Bool) (xs : List A) (ys : List B)
    → any_of (λ x. any_of (r x) ys) xs ≡ any_of (λ y. any_of (λ x. r x y) xs) ys
any_of-swap r [] ys = sym (any_of-false ys)
any_of-swap r (x ∷ xs) ys =
    ap (λ b. any_of (r x) ys || b) (any_of-swap r xs ys)
    ∙ sym (any_of-or (r x) (λ y. any_of (λ x'. r x' y) xs) ys)

any_of-append :
    {A : Type 0} (p : A → Bool) (xs ys : List A)
    → any_of p (xs ++ ys) ≡ (any_of p xs || any_of p ys)
any_of-append p [] ys = refl
any_of-append p (x ∷ xs) ys = or-append (p x) (any_of p xs) (any_of p ys) _ (any_of-append p xs ys)
  where
    or-append : (a b c d : Bool) → d ≡ (b || c) → (a || d) ≡ ((a || b) || c)
    or-append a b c d h = ground arith

==_sym : (a b : ℕ) → (a == b) ≡ (b == a)
==_sym a b = ground arith

meets-sym : (xs ys : List ℕ) → meets xs ys ≡ meets ys xs
meets-sym xs ys =
    any_of-swap (λ y x. x == y) ys xs ∙ any_of-ext _ _ xs (λ x. any_of-ext _ _ ys (λ y. ==_sym x y))

same_lem :
    (a b ta tb e e' x y s s' : Bool)
    → e ≡ e'
    → s ≡ s'
    → (if a && b then e else if a && tb then x else if b && ta then y else ta && (tb && s))
      ≡ (if b && a then e' else if b && ta then y else if a && tb then x else tb && (ta && s'))
same_lem true true ta tb e e' x y s s' h k = h
same_lem true false ta tb e e' x y s s' h k = ground arith
same_lem false true ta tb e e' x y s s' h k = ground arith
same_lem false false ta tb e e' x y s s' h k = ground arith

-- Whether two places are in one city does not depend on their order.
pub same_city-sym : (names : Names) (a b : Place) → same_city names a b ≡ same_city names b a
unfolding same_city
same_city-sym names a b =
    same_lem (truthy (some (city_of names a))) (truthy (some (city_of names b))) (truthy a.text)
      (truthy b.text) _ _ _ _ _ _ (==_sym (city_of names a) (city_of names b))
      (meets-sym (local_parts (names.segments (text_of names a)))
        (local_parts (names.segments (text_of names b))))

abbrev pub verdict_of : Bool → Bool → Verdict
verdict_of true _ = booked
verdict_of false true = travel
verdict_of false false = free

abbrev days_of : Engagement → List ℕ
days_of e = day_keys e.start e.end

or-later : (s n m r : Bool) → ((s || ((not s && n) && m)) || r) ≡ (s || ((n && m) || r))
or-later s n m r = ground arith

conflict_loop_lem :
    (names : Names) (wanted : List ℕ) (place : Place) (seen : Bool) (es : List Engagement)
    → All (λ e. is_empty (days_of e) ≡ false) es
    → conflict_loop names wanted place seen es
      ≡ verdict_of (any_of (λ e. meets wanted (days_of e)) es) (
          seen
          || any_of
              (λ e. not (same_city names place e.place) && meets wanted (travel_around (days_of e)))
              es)
unfolding conflict_loop
conflict_loop_lem names wanted place true [] _ = refl
conflict_loop_lem names wanted place false [] _ = refl
conflict_loop_lem names wanted place seen (e ∷ es) (full, fulls) =
    elim (Bool-cases (meets wanted (days_of e))) [
      | inl t ↦ rw t refl
      | inr n ↦
          rw (n, full, and_false (not seen && not (same_city names place e.place)))
            (conflict_loop_lem names wanted place
                (seen
                  || ((not seen && not (same_city names place e.place))
                      && meets wanted (travel_around (days_of e))))
                es fulls
              ∙ ap (verdict_of (any_of (λ e'. meets wanted (days_of e')) es)) (
                  or-later seen (not (same_city names place e.place))
                    (meets wanted (travel_around (days_of e))) _))
    ]

booked_of-meets :
    (names : Names) (wanted : List ℕ) (es : List Engagement)
    → meets wanted (booked_of names es) ≡ any_of (λ e. meets wanted (days_of e)) es
unfolding booked_of
booked_of-meets names wanted [] = refl
booked_of-meets names wanted (e ∷ es) =
    any_of-append (λ d. has_day d wanted) (days_of e) (booked_of names es)
    ∙ ap (λ b. meets wanted (days_of e) || b) (booked_of-meets names wanted es)

travel_of-meets :
    (names : Names) (wanted : List ℕ) (place : Place) (es : List Engagement)
    → meets wanted (travel_of names (some place) es)
      ≡ any_of
          (λ e. not (same_city names place e.place) && meets wanted (travel_around (days_of e)))
          es
unfolding travel_of
travel_of-meets names wanted place [] = refl
travel_of-meets names wanted place (e ∷ es) = elim (Bool-cases (same_city names place e.place)) [
  | inl t ↦ rw t (travel_of-meets names wanted place es)
  | inr n ↦ rw n (
      any_of-append (λ d. has_day d wanted) (travel_around (days_of e))
        (travel_of names (some place) es)
      ∙ ap (λ b. meets wanted (travel_around (days_of e)) || b)
          (travel_of-meets names wanted place es))
]

one_not_zero : 1 ≤ 0 → ⊥
one_not_zero k = omega (arith, k)

-- A range that does not end before it starts has a day.
day_keys-full : (start end : Time) → start ≤ end → is_empty (day_keys start end) ≡ false
unfolding day_keys last_instant
day_keys-full start end h =
    from-full (day_of start) (suc (day_of (last_instant start end)) - day_of start)
      (room start (last_instant start end) (last_instant-late start end h))
  where
    from-full : (first n : ℕ) → 1 ≤ n → is_empty (days_from first n) ≡ false
    from-full first zero k = elim (one_not_zero k) [ ]
    from-full first (suc n) k = refl

    room : (a b : ℕ) → a ≤ b → 1 ≤ suc (day_of b) - day_of a
    room a b k = omega (arith, k)

    last_instant-late : (a b : Time) → a ≤ b → a ≤ last_instant a b
    last_instant-late a b k = ground arith

or-parts : (a b : Bool) → (a || b) ≡ false → (a ≡ false) × (b ≡ false)
or-parts a b h = ground arith

any_of-member :
    (q : ℕ → Bool) (xs : List ℕ) (d : ℕ) → any_of q xs ≡ false → has_day d xs ≡ true → q d ≡ false
any_of-member q [] d none_of h = cc
any_of-member q (x ∷ xs) d none_of h =
    (let (head, tail) = or-parts (q x) (any_of q xs) none_of in
      elim (Bool-cases (x == d)) [
        | inl t ↦ subst (λ y. q y ≡ false) (==→eq x d t) head
        | inr n ↦ any_of-member q xs d tail (rw n at h)
      ])

-- Days of travel that are booked change nothing where no wanted day is booked.
unbooked :
    (wanted booked_ones : List ℕ) (d : ℕ)
    → meets wanted booked_ones ≡ false
    → (not (has_day d booked_ones) && has_day d wanted) ≡ has_day d wanted
unbooked wanted booked_ones d apart = elim (Bool-cases (has_day d booked_ones)) [
  | inl t ↦ rw (t, any_of-member (λ e. has_day e wanted) booked_ones d apart t) refl
  | inr n ↦ rw n refl
]

verdict-select :
    (wanted booked_ones travels : List ℕ)
    → verdict_of (meets wanted booked_ones) (meets wanted travels)
      ≡ verdict_of
          (meets wanted booked_ones)
          (meets wanted (select (λ d. not (has_day d booked_ones)) travels))
verdict-select wanted booked_ones travels = elim (Bool-cases (meets wanted booked_ones)) [
  | inl t ↦ rw t refl
  | inr n ↦ rw n (
      ap (verdict_of false) (
        sym (
          any_of-select (λ d. not (has_day d booked_ones)) (λ d. has_day d wanted) travels
          ∙ any_of-ext _ _ travels (λ d. unbooked wanted booked_ones d n))))
]

-- For engagements that do not end before they start: a booking is refused as booked exactly if one of
-- its days is a booked day of the provider's calendar for its place, as needing travel exactly if none
-- is but one is a travel day, and it is free otherwise.
pub find_schedule_conflict-calendar :
    (names : Names) (start end : Time) (place : Place) (es : List Engagement)
    → All (λ e. e.start ≤ e.end) es
    → find_schedule_conflict names start end place es
      ≡ verdict_of
          (meets (day_keys start end) (provider_blocked_days names es (some place)).booked_days)
          (meets (day_keys start end) (provider_blocked_days names es (some place)).travel_days)
unfolding find_schedule_conflict provider_blocked_days
find_schedule_conflict-calendar names start end place es proper =
    let wanted = day_keys start end in
    conflict_loop_lem names wanted place false es
      (All-map es (λ e h. day_keys-full e.start e.end h) proper)
    ∙ ap
        (λ b. verdict_of b (
          any_of
            (λ e. not (same_city names place e.place) && meets wanted (travel_around (days_of e)))
            es))
        (sym (booked_of-meets names wanted es))
    ∙ ap (λ b. verdict_of (meets wanted (booked_of names es)) b)
        (sym (travel_of-meets names wanted place es))
    ∙ verdict-select wanted (booked_of names es) (travel_of names (some place) es)
