-- ===== src/Availability/Check/Reserve.antt =====
-- What an accepted reservation of several items has checked, in
-- src/modules/availability/availability.service.ts.
use fox_passport_republic_ap.Prelude.{
  ltb, leb, ◌==◌, Bool-cases, Option-cases, All, Any, any_of, find_first, All-Any, ok, >>-eq-ok,
  throw_if-eq-ok, ◌≡◌, sym, ◌∙◌, subst, inl, inr, false, ◌&&◌, ◌||◌, none, some, some-injective,
  List, [], ◌∷◌,
}
use fox_passport_republic_ap.Availability.Schedule.{Names}
use fox_passport_republic_ap.Availability.Check.{
  service, venue, CheckItem, Venue, Tables, takes, serves_directly, comes_first, insert_item,
  sort_deterministically, lock_and_check_service, lock_and_check_venue, lock_and_check_one,
  check_all, reserve,
}

insert-All :
    (P : CheckItem → Type 0) (a : CheckItem) (items : List CheckItem)
    → All P (insert_item a items)
    → P a × All P items
unfolding insert_item
insert-All P a [] (h, _) = (h, tt)
insert-All P a (b ∷ items) hs = elim (Bool-cases (comes_first a b)) [
  | inl t ↦ (rw t at hs)
  | inr n ↦
      (let split = rw n at hs in let (h, ks) = insert-All P a items split.1 in (h, (split.0, ks)))
]

sort-All :
    (P : CheckItem → Type 0) (items : List CheckItem)
    → All P (sort_deterministically items)
    → All P items
unfolding sort_deterministically
sort-All P [] _ = tt
sort-All P (a ∷ items) hs =
    let (h, rest) = insert-All P a (sort_deterministically items) hs in (h, sort-All P items rest)

check_all-All :
    (names : Names) (t : Tables) (items : List CheckItem)
    → check_all names t none items ≡ ok tt
    → All (λ item. lock_and_check_one names t item none ≡ ok tt) items
unfolding check_all
check_all-All names t [] e = tt
check_all-All names t (item ∷ items) e =
    let (h, rest) = >>-eq-ok (lock_and_check_one names t item none) _ e in
    (h, check_all-All names t items rest)

pub reserve-item :
    (names : Names) (t : Tables) (items : List CheckItem) (item : CheckItem)
    → reserve names t items ≡ ok tt
    → Any (λ i. i ≡ item) items
    → lock_and_check_one names t item none ≡ ok tt
unfolding reserve
reserve-item names t items item e =
    All-Any (λ i. lock_and_check_one names t i none ≡ ok tt) items item
      (sort-All (λ i. lock_and_check_one names t i none ≡ ok tt) items
        (check_all-All names t (sort_deterministically items) e))

pub venue-free :
    (names : Names) (t : Tables) (item : CheckItem)
    → item.kind ≡ venue
    → lock_and_check_one names t item none ≡ ok tt
    → ((v : Venue)
        → find_first (λ v. v.id == item.item_id) t.venues ≡ some v
        → any_of (λ d. leb item.start d && ltb d item.end) v.blocked_dates ≡ false)
      × (any_of (takes item none) t.venue_transactions ≡ false)
unfolding lock_and_check_venue
venue-free names t item k e =
    elim (Option-cases (find_first (λ v. v.id == item.item_id) t.venues)) [
      | inl gone ↦ (let impossible = rw (k, gone) at e in cc)
      | inr (v, there) ↦
          (let (unblocked, rest) = >>-eq-ok _ _ (rw (k, there) at e) in
            (
              λ w at.
                  subst
                    (λ v. any_of (λ d. leb item.start d && ltb d item.end) v.blocked_dates ≡ false)
                    (some-injective v w (sym there ∙ at)) (throw_if-eq-ok _ _ unblocked),
              throw_if-eq-ok _ _ rest,
            ))
    ]

pub service-free :
    (names : Names) (t : Tables) (item : CheckItem)
    → item.kind ≡ service
    → lock_and_check_one names t item none ≡ ok tt
    → (any_of (takes item none) t.service_transactions
        || any_of (serves_directly item) t.service_bookings)
      ≡ false
unfolding lock_and_check_service
service-free names t item k e = throw_if-eq-ok _ _ (>>-eq-ok _ _ (rw k at e)).0
