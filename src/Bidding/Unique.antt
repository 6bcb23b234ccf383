-- ===== src/Bidding/Unique.antt =====
-- What stays true of the bids of src/modules/bidding/bidding.service.ts over any requests: the
-- winner of a slot and the answers that are final.
use fox_passport_republic_ap.Prelude.{
  and-false, ==→eq, ◌≤◌, ◌≡◌, refl, sym, subst, inl, inr, arith, Bool, true, false, ◌&&◌, none,
  some, List, [], ◌∷◌, ◌++◌, Text, ◌==◌, find_first, update_where, count_where, if◌then◌else◌,
  Bool-cases, All-map, All-everywhere, true_not_false, count_where-append, count_where-update_where,
  count_where-none, find_first-none, find_first-only,
}
use fox_passport_republic_ap.Bidding.Data.{Kind, pending, accepted, rejected, Bid, Board, Deps}
use fox_passport_republic_ap.Bidding.{Request, is_accepted, has_id, competes, decide, is_rival, run}
use fox_passport_republic_ap.Bidding.Decision.{Change, added, decided, turned_down, run-preserves}

abbrev pub is_winner : Text → Text → Bid → Bool
is_winner slot_id event_id bid = competes slot_id event_id bid && is_accepted bid.status

-- No two bids have one identifier, and a slot of an event has at most one accepted bid.
pub record IsFair (bids : List Bid) : Type 0 where
  pub one_id : (id : Text) → count_where (has_id id) bids ≤ 1
  pub one_winner : (slot_id event_id : Text) → count_where (is_winner slot_id event_id) bids ≤ 1

pending-is_winner :
    (bid : Bid) (slot_id event_id : Text)
    → bid.status ≡ pending
    → is_winner slot_id event_id bid ≡ false
pending-is_winner bid slot_id event_id s = rw s (ground arith)

and-true : (a : Bool) → (a && true) ≡ true → a ≡ true
and-true true h = refl
and-true false h = h

no_winner :
    (winner b : Bid) (slot_id event_id : Text)
    → competes slot_id event_id winner ≡ true
    → is_winner winner.slot_id winner.event_id b ≡ false
    → is_winner slot_id event_id b ≡ true
    → ⊥
no_winner winner b slot_id event_id t lost h = ground arith

-- For the slot of the winner, which had no winner, only the winner is one now.
own_slot :
    (winner : Bid) (slot_id event_id : Text)
    → competes slot_id event_id winner ≡ true
    → (b : Bid) → is_winner winner.slot_id winner.event_id b ≡ false
    → is_winner slot_id event_id (if has_id winner.id b then record b { status = accepted } else b)
      ≡ true
    → has_id winner.id b ≡ true
own_slot winner slot_id event_id t b lost h = elim (Bool-cases (has_id winner.id b)) [
  | inl own ↦ own
  | inr n ↦ elim (no_winner winner b slot_id event_id t lost (rw n at h)) [ ]
]

-- For another slot nothing changes.
other_slot :
    (winner : Bid) (slot_id event_id : Text)
    → competes slot_id event_id winner ≡ false
    → (b : Bid) → (has_id winner.id b ≡ true → b ≡ winner)
    → is_winner slot_id event_id (if has_id winner.id b then record b { status = accepted } else b)
      ≡ true
    → is_winner slot_id event_id b ≡ true
other_slot winner slot_id event_id n b only h = elim (Bool-cases (has_id winner.id b)) [
  | inl own ↦
      elim (true_not_false (competes slot_id event_id b) (and-true _ (rw own at h))
        (subst (λ x. competes slot_id event_id x ≡ false) (sym (only own)) n)) [ ]
  | inr other ↦ rw other at h
]

added-IsFair :
    (bids : List Bid) (bid : Bid)
    → bid.status ≡ pending
    → find_first (has_id bid.id) bids ≡ none
    → IsFair bids
    → IsFair (bids ++ bid ∷ [])
added-IsFair bids bid s fresh fair = record {
  one_id = λ id.
      let one = fair.one_id id in
      let zero = count_where-none (has_id bid.id) bids fresh in
      rw (count_where-append (has_id id) bids (bid ∷ [])) (elim (Bool-cases (bid.id == id)) [
        | inl t ↦
            (let none_yet = subst (λ i. count_where (has_id i) bids ≡ 0) (==→eq bid.id id t) zero in
              rw t (omega (arith, none_yet)))
        | inr n ↦ rw n (omega (arith, one))
      ]);
  one_winner = λ slot_id event_id.
      let one = fair.one_winner slot_id event_id in
      rw (count_where-append (is_winner slot_id event_id) bids (bid ∷ []))
        (rw (pending-is_winner bid slot_id event_id s) (omega (arith, one)));
}

-- A rejection makes no winner and keeps the identifiers.
rejected-IsFair :
    (q : Bid → Bool) (bids : List Bid)
    → IsFair bids
    → IsFair (update_where q (λ b. record b { status = rejected }) bids)
rejected-IsFair q bids fair = record {
  one_id = λ id.
      let one = fair.one_id id in
      let less =
        count_where-update_where (has_id id) (has_id id) q (λ b. record b { status = rejected })
          bids
          (All-everywhere bids
            (λ b h. elim (Bool-cases (q b)) [ inl t ↦ rw t at h | inr n ↦ rw n at h ])) in
      omega (arith, one, less);
  one_winner = λ slot_id event_id.
      let one = fair.one_winner slot_id event_id in
      let less =
        count_where-update_where (is_winner slot_id event_id) (is_winner slot_id event_id) q
          (λ b. record b { status = rejected }) bids
          (All-everywhere bids (λ b h. elim (Bool-cases (q b)) [
            | inl t ↦ elim (and-false _ (rw t at h)) [ ]
            | inr n ↦ rw n at h
          ])) in
      omega (arith, one, less);
}

accepted-IsFair :
    (bids : List Bid) (winner : Bid)
    → find_first (has_id winner.id) bids ≡ some winner
    → find_first (is_winner winner.slot_id winner.event_id) bids ≡ none
    → IsFair bids
    → IsFair (update_where (has_id winner.id) (λ b. record b { status = accepted }) bids)
accepted-IsFair bids winner at free fair = record {
  one_id = λ id.
      let one = fair.one_id id in
      let less =
        count_where-update_where (has_id id) (has_id id) (has_id winner.id)
          (λ b. record b { status = accepted }) bids
          (All-everywhere bids (λ b h. elim (Bool-cases (has_id winner.id b)) [
            | inl t ↦ rw t at h
            | inr n ↦ rw n at h
          ])) in
      omega (arith, one, less);
  one_winner = λ slot_id event_id. elim (Bool-cases (competes slot_id event_id winner)) [
    | inl t ↦
        (let one = fair.one_id winner.id in
          let less =
            count_where-update_where (is_winner slot_id event_id) (has_id winner.id)
              (has_id winner.id) (λ b. record b { status = accepted }) bids
              (All-map bids (own_slot winner slot_id event_id t) (find_first-none _ bids free)) in
          omega (arith, one, less))
    | inr n ↦
        (let one = fair.one_winner slot_id event_id in
          let less =
            count_where-update_where (is_winner slot_id event_id) (is_winner slot_id event_id)
              (has_id winner.id) (λ b. record b { status = accepted }) bids
              (All-map bids (other_slot winner slot_id event_id n)
                (find_first-only (has_id winner.id) bids winner at (fair.one_id winner.id))) in
          omega (arith, one, less))
  ];
}

Change-IsFair : (xs ys : List Bid) → Change xs ys → IsFair xs → IsFair ys
unfolding decide
Change-IsFair _ _ (added bids bid s fresh) fair = added-IsFair bids bid s fresh fair
Change-IsFair _ _ (decided bids winner at waits free) fair =
    rejected-IsFair (is_rival winner) _ (accepted-IsFair bids winner at free fair)
Change-IsFair _ _ (turned_down bids bid at waits) fair = rejected-IsFair (has_id bid.id) bids fair

-- On a board where no two bids have one identifier and every slot of an event has at most one
-- accepted bid, the same holds after any sequence of submissions, acceptances and rejections.
pub run-IsFair :
    (deps : Deps) (kind : Kind) (requests : List Request) (board : Board)
    → IsFair board.bids
    → IsFair ((run deps kind requests board).bids)
run-IsFair deps kind requests board fair =
    run-preserves IsFair Change-IsFair deps kind requests board fair
