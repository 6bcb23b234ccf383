-- ===== src/Bidding/Final.antt =====
-- A bid's status in src/modules/bidding/bidding.service.ts: what a decision does to all bids, and
-- that an answer is final.
use fox_passport_republic_ap.Prelude.{
  ==→eq, ◌≡◌, refl, sym, ap, ◌∙◌, subst, inl, inr, arith, Bool, true, false, some, List, [], ◌∷◌,
  ◌++◌, Text, find_first, update_where, some-injective, Bool-cases, true_not_false,
  find_first_sound,
}
use fox_passport_republic_ap.Bidding.Data.{Kind, Bid, Board, Deps}
use fox_passport_republic_ap.Bidding.{Request, is_pending, has_id, decide, is_rival, run}
use fox_passport_republic_ap.Bidding.Decision.{Change, added, decided, turned_down, run-preserves}

-- A write that leaves a row leaves what a search finds there, if it keeps the identifiers.
lookup-kept :
    (id : Text) (q : Bid → Bool) (f : Bid → Bid) (bids : List Bid) (bid : Bid)
    → ((b : Bid) → (f b).id ≡ b.id)
    → q bid ≡ false
    → find_first (has_id id) bids ≡ some bid
    → find_first (has_id id) (update_where q f bids) ≡ some bid
lookup-kept id q f [] bid keeps out e = cc
lookup-kept id q f (b ∷ bids) bid keeps out e = elim (Bool-cases (has_id id b)) [
  | inl t ↦
      (let found = some-injective b bid (rw t at e) in
        rw (subst (λ x. q x ≡ false) (sym found) out, t) (ap some found))
  | inr n ↦ elim (Bool-cases (q b)) [
    | inl u ↦ rw (u, keeps b, n) (lookup-kept id q f bids bid keeps out (rw n at e))
    | inr u ↦ rw (u, n) (lookup-kept id q f bids bid keeps out (rw n at e))
  ]
]

lookup-append :
    (id : Text) (bids : List Bid) (bid new : Bid)
    → find_first (has_id id) bids ≡ some bid
    → find_first (has_id id) (bids ++ new ∷ []) ≡ some bid
lookup-append id [] bid new e = cc
lookup-append id (b ∷ bids) bid new e = elim (Bool-cases (has_id id b)) [
  | inl t ↦ rw t (rw t at e)
  | inr n ↦ rw n (lookup-append id bids bid new (rw n at e))
]

not_rival : (winner bid : Bid) → is_pending bid.status ≡ false → is_rival winner bid ≡ false
not_rival winner bid answered = ground arith

-- The row that is found under its identifier and was answered is not the pending one.
not_this :
    (id : Text) (bids : List Bid) (bid waiting : Bid)
    → find_first (has_id id) bids ≡ some bid
    → is_pending bid.status ≡ false
    → find_first (has_id waiting.id) bids ≡ some waiting
    → is_pending waiting.status ≡ true
    → has_id waiting.id bid ≡ false
not_this id bids bid waiting e answered at waits = elim (Bool-cases (has_id waiting.id bid)) [
  | inr n ↦ n
  | inl t ↦
      (let own = ==→eq bid.id waiting.id t in
        let mine = ==→eq bid.id id (find_first_sound (has_id id) bids bid e) in
        let same =
          some-injective bid waiting
            (sym e ∙ subst (λ i. find_first (has_id i) bids ≡ some waiting) (sym own ∙ mine) at) in
        elim (true_not_false (is_pending waiting.status) waits
          (subst (λ b. is_pending b.status ≡ false) same answered)) [ ])
]

Change-final :
    (id : Text) (bid : Bid)
    → is_pending bid.status ≡ false
    → (xs ys : List Bid) → Change xs ys
    → find_first (has_id id) xs ≡ some bid
    → find_first (has_id id) ys ≡ some bid
unfolding decide
Change-final id bid answered _ _ (added bids new s fresh) e = lookup-append id bids bid new e
Change-final id bid answered _ _ (decided bids winner at waits free) e =
    lookup-kept id (is_rival winner) _ _ bid (λ b. refl) (not_rival winner bid answered)
      (lookup-kept id (has_id winner.id) _ bids bid (λ b. refl)
        (not_this id bids bid winner e answered at waits) e)
Change-final id bid answered _ _ (turned_down bids other at waits) e =
    lookup-kept id (has_id other.id) _ bids bid (λ b. refl)
      (not_this id bids bid other e answered at waits) e

-- A bid that was accepted, rejected or withdrawn is found unchanged after any sequence of
-- submissions, acceptances and rejections.
pub run-final :
    (deps : Deps) (kind : Kind) (requests : List Request) (board : Board) (id : Text) (bid : Bid)
    → is_pending bid.status ≡ false
    → find_first (has_id id) board.bids ≡ some bid
    → find_first (has_id id) ((run deps kind requests board).bids) ≡ some bid
run-final deps kind requests board id bid answered e =
    run-preserves (λ bids. find_first (has_id id) bids ≡ some bid) (Change-final id bid answered)
      deps kind requests board e
