-- ===== src/Availability/Check/Capacity.antt =====
-- Assets are never promised beyond their number: the check of
-- src/modules/availability/availability.service.ts and the insertions behind it.
use fox_passport_republic_ap.Prelude.{
  ltb, leb, ◌==◌, Bool-cases, Text, Time, or_else, and_false, select, find_first, sum_of,
  update_where, ok, throw_if-eq-ok, ℕ, ◌+◌, ◌≤◌, ◌<◌, ◌≡◌, sym, ◌∙◌, subst, inl, inr, Bool, true,
  false, not, ◌&&◌, none, some, List, [], ◌∷◌, arith,
}
use fox_passport_republic_ap.Availability.Check.{
  CheckItem, cancelled, Transaction, AssetBooking, Asset, Tables, is_reserving, overlaps, takes,
  takes_directly, already_reserved, lock_and_check_asset,
}

-- The quantities of an asset that are out at an instant.
abbrev pub is_out : Text → Time → Transaction → Bool
is_out id x row =
    row.item_id == id && (is_reserving row.status && (leb row.event_start x && ltb x row.event_end))

abbrev pub is_out_directly : Text → Time → AssetBooking → Bool
is_out_directly id x b =
    b.asset_id == id && (not b.is_cancelled && (leb b.start_date x && ltb x b.end_date))

abbrev pub out_at : Tables → Text → Time → ℕ
out_at t id x =
    sum_of (λ row. row.quantity) (select (is_out id x) t.asset_transactions)
    + sum_of (λ b. b.quantity) (select (is_out_directly id x) t.asset_bookings)

-- At no instant is more of an asset out than there is.
abbrev pub HasCapacity : Tables → Type 0
HasCapacity t =
    (id : Text) (a : Asset) (x : Time)
    → find_first (λ a'. a'.id == id) t.assets ≡ some a
    → out_at t id x ≤ a.quantity

-- An insertion behind a check, within the checked range and quantity, or the end of a reservation.
pub data Step : Tables → Tables → Type 0 where
  transacted :
      (t : Tables) (item : CheckItem) (row : Transaction)
      → lock_and_check_asset t item none ≡ ok tt
      → row.item_id ≡ item.item_id
      → row.quantity ≤ or_else item.quantity 1
      → item.start ≤ row.event_start
      → row.event_end ≤ item.end
      → Step t (record t { asset_transactions = row ∷ t.asset_transactions })
  booked_directly :
      (t : Tables) (item : CheckItem) (b : AssetBooking)
      → lock_and_check_asset t item none ≡ ok tt
      → b.asset_id ≡ item.item_id
      → b.quantity ≤ or_else item.quantity 1
      → item.start ≤ b.start_date
      → b.end_date ≤ item.end
      → Step t (record t { asset_bookings = b ∷ t.asset_bookings })
  released :
      (t : Tables) (q : Transaction → Bool)
      → Step t (record t {
        asset_transactions =
            update_where q (λ row. record row { status = cancelled }) t.asset_transactions;
      })

pub data Steps : Tables → Tables → Type 0 where
  done : (t : Tables) → Steps t t
  further : (t mid t' : Tables) → Step t mid → Steps mid t' → Steps t t'

sum_of-fewer :
    {A : Type 0} (f : A → ℕ) (p q : A → Bool) (xs : List A)
    → ((a : A) → p a ≡ true → q a ≡ true)
    → sum_of f (select p xs) ≤ sum_of f (select q xs)
sum_of-fewer f p q [] k = omega arith
sum_of-fewer f p q (x ∷ xs) k =
    let rest = sum_of-fewer f p q xs k in
    elim (Bool-cases (p x)) [
      | inl t ↦ rw (t, k x t) (omega (arith, rest))
      | inr n ↦ elim (Bool-cases (q x)) [
        | inl t ↦ rw (n, t) (omega (arith, rest))
        | inr m ↦ rw (n, m) rest
      ]
    ]

sum_of-released :
    {A : Type 0} (f : A → ℕ) (p q : A → Bool) (g : A → A) (xs : List A)
    → ((a : A) → p (g a) ≡ false)
    → sum_of f (select p (update_where q g xs)) ≤ sum_of f (select p xs)
sum_of-released f p q g [] k = omega arith
sum_of-released f p q g (x ∷ xs) k =
    let rest = sum_of-released f p q g xs k in
    elim (Bool-cases (q x)) [
      | inl t ↦ elim (Bool-cases (p x)) [
        | inl u ↦ rw (t, k x, u) (omega (arith, rest))
        | inr m ↦ rw (t, k x, m) rest
      ]
      | inr n ↦ elim (Bool-cases (p x)) [
        | inl u ↦ rw (n, u) (omega (arith, rest))
        | inr m ↦ rw (n, m) rest
      ]
    ]

not_short : (a b : ℕ) → ltb a b ≡ false → b ≤ a
not_short a b h = ground arith

-- A check that succeeds leaves room for what it asks for.
checked-room :
    (t : Tables) (item : CheckItem) (a : Asset)
    → lock_and_check_asset t item none ≡ ok tt
    → find_first (λ a'. a'.id == item.item_id) t.assets ≡ some a
    → already_reserved t item none + or_else item.quantity 1 ≤ a.quantity
unfolding lock_and_check_asset
checked-room t item a e at = not_short _ _ (throw_if-eq-ok _ _ (rw at at e))

pub overlap_directly :
    (i s : Bool) (f l start end x : ℕ)
    → start ≤ x
    → x < end
    → (i && (s && (leb f x && ltb x l))) ≡ true
    → (i && (s && overlaps start end f l)) ≡ true
overlap_directly i s f l start end x from to h = ground arith

and-true : (a b c : Bool) → (a && (b && c)) ≡ true → (a && (b && (c && true))) ≡ true
and-true a b c h = ground arith

pub overlap_at :
    (i s : Bool) (f l start end x : ℕ)
    → start ≤ x
    → x < end
    → (i && (s && (leb f x && ltb x l))) ≡ true
    → (i && (s && (overlaps start end f l && true))) ≡ true
overlap_at i s f l start end x from to h =
    and-true i s (overlaps start end f l) (overlap_directly i s f l start end x from to h)

-- What is out at an instant of the checked range has been counted.
out-counted :
    (t : Tables) (item : CheckItem) (x : Time)
    → item.start ≤ x
    → x < item.end
    → out_at t item.item_id x ≤ already_reserved t item none
out-counted t item x from to =
    let theirs =
      sum_of-fewer (λ row. row.quantity) (is_out item.item_id x) (takes item none)
        t.asset_transactions
        (λ row h.
          overlap_at (row.item_id == item.item_id) (is_reserving row.status) row.event_start
            row.event_end item.start item.end x from to h) in
    let direct =
      sum_of-fewer (λ b. b.quantity) (is_out_directly item.item_id x) (takes_directly item)
        t.asset_bookings
        (λ b h.
          overlap_directly (b.asset_id == item.item_id) (not b.is_cancelled) b.start_date b.end_date
            item.start item.end x from to h) in
    omega (arith, theirs, direct)

pub out-parts :
    (i id : ℕ) (s : Bool) (f l x : ℕ)
    → (i == id && (s && (leb f x && ltb x l))) ≡ true
    → (i ≡ id) × (f ≤ x) × (x < l)
out-parts i id s f l x h = (out_first h, out_from h, out_to h)
  where
    out_first : (i == id && (s && (leb f x && ltb x l))) ≡ true → i ≡ id
    out_first k = ground arith

    out_from : (i == id && (s && (leb f x && ltb x l))) ≡ true → f ≤ x
    out_from k = ground arith

    out_to : (i == id && (s && (leb f x && ltb x l))) ≡ true → x < l
    out_to k = ground arith

-- What the check leaves room for, at an instant of its range.
room-at :
    (t : Tables) (item : CheckItem) (id : Text) (a : Asset) (x : Time)
    → lock_and_check_asset t item none ≡ ok tt
    → item.item_id ≡ id
    → find_first (λ a'. a'.id == id) t.assets ≡ some a
    → item.start ≤ x
    → x < item.end
    → out_at t id x + or_else item.quantity 1 ≤ a.quantity
room-at t item id a x e own at from to =
    let counted =
      subst (λ i. out_at t i x ≤ already_reserved t item none) own (out-counted t item x from to) in
    let room =
      checked-room t item a e
        (subst (λ i. find_first (λ a'. a'.id == i) t.assets ≡ some a) (sym own) at) in
    omega (arith, counted, room)

Step-HasCapacity : (t t' : Tables) → Step t t' → HasCapacity t → HasCapacity t'
Step-HasCapacity t _ (transacted _ item row e own less from to) cap id a x at =
    elim (Bool-cases (is_out id x row)) [
      | inl h ↦
          (let (same_id, late, soon) =
              out-parts row.item_id id (is_reserving row.status) row.event_start row.event_end x
                h in
            let room =
              room-at t item id a x e (sym own ∙ same_id) at (omega (arith, from, late))
                (omega (arith, to, soon)) in
            rw h (omega (arith, room, less)))
      | inr n ↦ rw n (cap id a x at)
    ]
Step-HasCapacity t _ (booked_directly _ item b e own less from to) cap id a x at =
    elim (Bool-cases (is_out_directly id x b)) [
      | inl h ↦
          (let (same_id, late, soon) =
              out-parts b.asset_id id (not b.is_cancelled) b.start_date b.end_date x h in
            let room =
              room-at t item id a x e (sym own ∙ same_id) at (omega (arith, from, late))
                (omega (arith, to, soon)) in
            rw h (omega (arith, room, less)))
      | inr n ↦ rw n (cap id a x at)
    ]
Step-HasCapacity t _ (released _ q) cap id a x at =
    let fewer =
      sum_of-released (λ row. row.quantity) (is_out id x) q
        (λ row. record row { status = cancelled }) t.asset_transactions
        (λ row. and_false (row.item_id == id)) in
    omega (arith, fewer, cap id a x at)

-- Where no more of any asset is out at any instant than there is: after any sequence of insertions,
-- each behind a successful check and within the checked range and quantity, and of cancellations, it
-- is still so.
pub Steps-HasCapacity : (t t' : Tables) → Steps t t' → HasCapacity t → HasCapacity t'
Steps-HasCapacity t _ (done _) cap = cap
Steps-HasCapacity t t' (further _ mid _ s rest) cap =
    Steps-HasCapacity mid t' rest (Step-HasCapacity t mid s cap)
