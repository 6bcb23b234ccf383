-- ===== src/Appointment/Experience/Earned.antt =====
-- What Organizers earn from one event is bounded and paid once, in
-- src/modules/appointment/organizer-xp.service.ts.
use fox_passport_republic_ap.Prelude.{
  ◌==◌, if◌then◌else◌, ==_refl, Bool-cases, Option-cases, Text, ==→eq, All, select, find_first,
  count_where, sum_of, update_where, count_where-none, count_where-kept, count_where-same,
  count_where-fewer, ℕ, ◌+◌, ◌*◌, ◌≤◌, ◌≡◌, refl, sym, ◌∙◌, subst, inl, inr, Bool, true, false,
  ◌&&◌, none, List, [], ◌∷◌, arith,
}
use fox_passport_republic_ap.Appointment.Experience.{
  event_completed_xp, check_in_cap_per_event, Row, Award, Ledger, has_key, new_row, ensure_ledger,
  pay,
}

abbrev pub worth : Row → ℕ
worth r = r.check_in_xp + (if r.is_completed then event_completed_xp else 0)

abbrev pub is_award_for : Text → Text → Award → Bool
is_award_for user_id event_id a = a.user_id == user_id && a.event_id == event_id

abbrev pub earned : Text → Text → Ledger → ℕ
earned user_id event_id l = sum_of (λ a. a.amount) (select (is_award_for user_id event_id) l.awards)

abbrev recorded : Text → Text → List Row → ℕ
recorded user_id event_id rows = sum_of worth (select (has_key user_id event_id) rows)

-- One row for a person and an event, within the cap, that says what has been awarded.
pub record IsPaid (l : Ledger) : Type 0 where
  pub one_row : (u e : Text) → count_where (has_key u e) l.rows ≤ 1
  pub capped : All (λ r. r.check_in_xp ≤ check_in_cap_per_event) l.rows
  pub balanced : (u e : Text) → earned u e l ≡ recorded u e l.rows

sum-update :
    (may key : Row → Bool) (f : Row → Row) (d : ℕ) (rows : List Row)
    → ((r : Row) → key (f r) ≡ key r)
    → ((r : Row) → may r ≡ true → worth (f r) ≡ worth r + d)
    → sum_of worth (select key (update_where may f rows))
      ≡ sum_of worth (select key rows) + d * count_where (λ r. may r && key r) rows
sum-update may key f d [] k w = omega arith
sum-update may key f d (r ∷ rows) k w =
    let rest = sum-update may key f d rows k w in
    elim (Bool-cases (may r)) [
      | inl t ↦ elim (Bool-cases (key r)) [
        | inl u ↦ rw (t, k r, u) (grind (arith, rest, w r t))
        | inr m ↦ rw (t, k r, m) (omega (arith, rest))
      ]
      | inr n ↦ elim (Bool-cases (key r)) [
        | inl u ↦ rw (n, u) (omega (arith, rest))
        | inr m ↦ rw (n, m) (omega (arith, rest))
      ]
    ]

same_key : (u e u' e' : Text) → (u == u' && e == e') ≡ true → (u ≡ u') × (e ≡ e')
same_key u e u' e' h = (first_key h, second_key h)
  where
    first_key : (u == u' && e == e') ≡ true → u ≡ u'
    first_key k = ground arith

    second_key : (u == u' && e == e') ≡ true → e ≡ e'
    second_key k = ground arith

and-second : (a b : Bool) → (a && b) ≡ true → b ≡ true
and-second a b h = ground arith

new_one :
    (u e u' e' : Text) (rows : List Row)
    → find_first (has_key u e) rows ≡ none
    → count_where (has_key u' e') rows ≤ 1
    → count_where (has_key u' e') (new_row u e ∷ rows) ≤ 1
new_one u e u' e' rows missing one = elim (Bool-cases (u == u' && e == e')) [
  | inl t ↦
      (let (same_u, same_e) = same_key u e u' e' t in
        let nobody =
          subst (λ i. count_where (has_key i e') rows ≡ 0) same_u
            (subst (λ i. count_where (has_key u i) rows ≡ 0) same_e
              (count_where-none (has_key u e) rows missing)) in
        rw t (omega (arith, nobody)))
  | inr n ↦ rw n (omega (arith, one))
]

new_nothing :
    (u e u' e' : Text) (rows : List Row) → recorded u' e' (new_row u e ∷ rows) ≡ recorded u' e' rows
new_nothing u e u' e' rows = elim (Bool-cases (u == u' && e == e')) [
  | inl t ↦ rw t (omega arith)
  | inr n ↦ rw n refl
]

capped_update :
    (may : Row → Bool) (f : Row → Row) (rows : List Row)
    → ((r : Row)
        → may r ≡ true
        → r.check_in_xp ≤ check_in_cap_per_event
        → (f r).check_in_xp ≤ check_in_cap_per_event)
    → All (λ r. r.check_in_xp ≤ check_in_cap_per_event) rows
    → All (λ r. r.check_in_xp ≤ check_in_cap_per_event) (update_where may f rows)
capped_update may f [] k _ = tt
capped_update may f (r ∷ rows) k (h, hs) = elim (Bool-cases (may r)) [
  | inl t ↦ rw t (k r t h, capped_update may f rows k hs)
  | inr n ↦ rw n (h, capped_update may f rows k hs)
]

-- With the row of a person and an event in its place.
ensured :
    (u e : Text) (rows : List Row)
    → ((u' e' : Text) → count_where (has_key u' e') rows ≤ 1)
    → All (λ r. r.check_in_xp ≤ check_in_cap_per_event) rows
    → ((u' e' : Text) → count_where (has_key u' e') (ensure_ledger u e rows) ≤ 1)
      × All (λ r. r.check_in_xp ≤ check_in_cap_per_event) (ensure_ledger u e rows)
      × ((u' e' : Text) → recorded u' e' (ensure_ledger u e rows) ≡ recorded u' e' rows)
unfolding ensure_ledger
ensured u e rows one capped = elim (Option-cases (find_first (has_key u e) rows)) [
  | inl missing ↦ rw missing (
    λ u' e'. new_one u e u' e' rows missing (one u' e'),
    (omega arith, capped),
    λ u' e'. new_nothing u e u' e' rows,
  )
  | inr (r, there) ↦ rw there (one, capped, λ u' e'. refl)
]

count_nothing :
    (p : Row → Bool) (rows : List Row) → ((r : Row) → p r ≡ false) → count_where p rows ≡ 0
count_nothing p [] k = refl
count_nothing p (r ∷ rows) k = let rest = count_nothing p rows k in rw (k r) (omega (arith, rest))

and-twice : (k m : Bool) → ((k && m) && k) ≡ (k && m)
and-twice k m = ground arith

and-one : (k m : Bool) → (k && m) ≡ true → k ≡ true
and-one k m h = ground arith

zero_of : (c : ℕ) → c ≤ 1 → (c == 1) ≡ false → c ≡ 0
zero_of c h n = ground arith

apart_keys :
    (a b u e u' e' : ℕ) (m : Bool)
    → (u == u' && e == e') ≡ false
    → (((a == u && b == e) && m) && (a == u' && b == e')) ≡ false
apart_keys a b u e u' e' m h = ground arith

pay-own :
    (may : Row → Bool) (f : Row → Row) (d : ℕ) (u e : Text) (l : Ledger) (rows : List Row)
    → ensure_ledger u e l.rows ≡ rows
    → ((r : Row) → has_key u e (f r) ≡ has_key u e r)
    → ((r : Row) → may r ≡ true → worth (f r) ≡ worth r + d)
    → count_where (has_key u e) rows ≤ 1
    → recorded u e rows ≡ earned u e l
    → earned u e (pay may f d u e l) ≡ recorded u e (pay may f d u e l).rows
unfolding pay
pay-own may f d u e l rows ready keeps worthy one before =
    let q : Row → Bool = λ r. has_key u e r && may r in
    let count = count_where q rows in
    let twice =
      count_where-same (λ r. q r && has_key u e r) q rows
        (λ r. and-twice (has_key u e r) (may r)) in
    let fewer = count_where-fewer q (has_key u e) rows (λ r h. and-one (has_key u e r) (may r) h) in
    let now_recorded =
      sum-update q (has_key u e) f d rows keeps
        (λ r h. worthy r (and-second (has_key u e r) (may r) h)) in
    elim (Bool-cases (count == 1)) [
      | inl t ↦
          (let paid =
              subst (λ c. recorded u e (update_where q f rows) ≡ recorded u e rows + d * c)
                (twice ∙ ==→eq count 1 t) now_recorded in
            rw (ready, t, ==_refl u, ==_refl e) (omega (arith, paid, before)))
      | inr n ↦
          (let unpaid =
              subst (λ c. recorded u e (update_where q f rows) ≡ recorded u e rows + d * c)
                (twice ∙ zero_of count (omega (arith, fewer, one)) n) now_recorded in
            rw (ready, n) (omega (arith, unpaid, before)))
    ]

pay-other :
    (may : Row → Bool) (f : Row → Row) (d : ℕ) (u e u' e' : Text) (l : Ledger) (rows : List Row)
    → ensure_ledger u e l.rows ≡ rows
    → (u == u' && e == e') ≡ false
    → ((r : Row) → has_key u' e' (f r) ≡ has_key u' e' r)
    → ((r : Row) → may r ≡ true → worth (f r) ≡ worth r + d)
    → recorded u' e' rows ≡ earned u' e' l
    → earned u' e' (pay may f d u e l) ≡ recorded u' e' (pay may f d u e l).rows
unfolding pay
pay-other may f d u e u' e' l rows ready other keeps worthy before =
    let q : Row → Bool = λ r. has_key u e r && may r in
    let nothing =
      count_nothing (λ r. q r && has_key u' e' r) rows
        (λ r. apart_keys r.user_id r.event_id u e u' e' (may r) other) in
    let now_recorded =
      sum-update q (has_key u' e') f d rows keeps
        (λ r h. worthy r (and-second (has_key u e r) (may r) h)) in
    let same_sum =
      subst (λ c. recorded u' e' (update_where q f rows) ≡ recorded u' e' rows + d * c) nothing
        now_recorded in
    elim (Bool-cases (count_where q rows == 1)) [
      | inl t ↦ rw (ready, t, other) (omega (arith, same_sum, before))
      | inr n ↦ rw (ready, n) (omega (arith, same_sum, before))
    ]

-- A guarded update that is worth its award keeps the account.
pub pay-IsPaid :
    (may : Row → Bool) (f : Row → Row) (d : ℕ) (u e : Text) (l : Ledger)
    → ((u' e' : Text) (r : Row) → has_key u' e' (f r) ≡ has_key u' e' r)
    → ((r : Row) → may r ≡ true → worth (f r) ≡ worth r + d)
    → ((r : Row)
        → may r ≡ true
        → r.check_in_xp ≤ check_in_cap_per_event
        → (f r).check_in_xp ≤ check_in_cap_per_event)
    → IsPaid l
    → IsPaid (pay may f d u e l)
unfolding pay
pay-IsPaid may f d u e l keeps worthy within paid = record {
  one_row = λ u' e'.
      (let same_rows =
          count_where-kept (has_key u' e') (λ r. has_key u e r && may r) f rows (keeps u' e') in
        rw same_rows (ready.0 u' e'));
  capped =
      capped_update (λ r. has_key u e r && may r) f rows
        (λ r h b. within r (and-second (has_key u e r) (may r) h) b) ready.1;
  balanced = λ u' e'. elim (Bool-cases (u == u' && e == e')) [
    | inl t ↦
        (let (same_u, same_e) = same_key u e u' e' t in
          subst (λ i. earned i e' (pay may f d u e l) ≡ recorded i e' (pay may f d u e l).rows)
            same_u
            (subst (λ i. earned u i (pay may f d u e l) ≡ recorded u i (pay may f d u e l).rows)
              same_e
              (pay-own may f d u e l rows refl (keeps u e) worthy (ready.0 u e)
                (ready.2 u e ∙ sym (paid.balanced u e)))))
    | inr n ↦
        pay-other may f d u e u' e' l rows refl n (keeps u' e') worthy
          (ready.2 u' e' ∙ sym (paid.balanced u' e'))
  ];
}
  where
    rows : List Row
    rows = ensure_ledger u e l.rows

    ready :
        ((u' e' : Text) → count_where (has_key u' e') rows ≤ 1)
        × All (λ r. r.check_in_xp ≤ check_in_cap_per_event) rows
        × ((u' e' : Text) → recorded u' e' rows ≡ recorded u' e' l.rows)
    ready = ensured u e l.rows paid.one_row paid.capped
