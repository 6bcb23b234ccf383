-- ===== src/Pricing/Items/Laws.antt =====
-- What the vouchers of an event's line items satisfy: `resolveEventLineItemDiscounts` of
-- src/modules/pricing/pricing.service.ts.
use fox_passport_republic_ap.Prelude.{
  true, false, ◌≡◌, ◌≢◌, refl, sym, subst, inl, inr, Option, none, some, List, [], ◌∷◌, map, Time,
  Text, find_first-Any, find_first-All, arith, All, Any, All-map, Any-map, All-Any, Bool-cases,
  Result, ok, ◌==◌, ==_iff, >>=-eq-ok, >>-eq-ok, or_throw-eq-ok, ok-injective, throw_if, ◌>>◌,
}
use fox_passport_republic_ap.Prelude.Number.{Number, IsRounded, ◌≼◌, nought}
use fox_passport_republic_ap.Pricing.Data.{Voucher, Shop, item_already_claimed}
use fox_passport_republic_ap.Pricing.Voucher.Bounds.{
  IsSound, IsSoundPromotion, calculate_discount_amount_bounds,
}
use fox_passport_republic_ap.Pricing.Voucher.{evaluate_voucher_eligibility, check_voucher_limits}
use fox_passport_republic_ap.Pricing.Auto.Best.{find_auto_apply_discount-IsBestDiscount}
use fox_passport_republic_ap.Pricing.Price.{discount_amount}
use fox_passport_republic_ap.Pricing.Price.Bounds.{auto-IsBounded}
use fox_passport_republic_ap.Pricing.Items.{
  Item, ItemDiscount, Claims, has, set_discount, claim, claim_scoped, claim_code, claim_codes,
  claim_auto, claim_autos, resolve_event_line_item_discounts, item_context, keep_blanket, is_scoped,
}

last-eq-ok :
    {E A : Type 0} {x y : A} (r s t : Result E (Unit {0}))
    → (r >> (s >> (t >> ok x))) ≡ ok y
    → x ≡ y
last-eq-ok r s t e = ok-injective (>>-eq-ok t _ (>>-eq-ok s _ (>>-eq-ok r _ e).1).1).1

module _ {N : Type 0} ⦃n : Number N⦄ (items : List (Item N)) where
  -- The discount is on an item of the event, not negative and at most the item's amount.
  abbrev pub IsOnItem : Text × ItemDiscount N → Type 0
  IsOnItem (id, d) =
      Any
        (λ item.
          (item.source_id ≡ id) × (nought ≼ d.discount_amount) × (d.discount_amount ≼ item.amount))
        items

  -- No item has two discounts.
  abbrev pub HasDistinctItems : List (Text × ItemDiscount N) → Type 0
  HasDistinctItems [] = Unit
  HasDistinctItems ((id, d) ∷ m) = (has (map (λ e. e.0) m) id ≡ false) × HasDistinctItems m

  pub record IsConsistent (claims : Claims N) : Type 0 where
    pub on_items : All IsOnItem claims.item_discounts
    pub distinct : HasDistinctItems claims.item_discounts

  set_discount-on_items :
      (id : Text) (d : ItemDiscount N) (m : List (Text × ItemDiscount N))
      → IsOnItem (id, d)
      → All IsOnItem m
      → All IsOnItem (set_discount id d m)
  unfolding set_discount
  set_discount-on_items id d [] h hs = (h, tt)
  set_discount-on_items id d ((i, e) ∷ m) h (g, gs) = elim (Bool-cases (i == id)) [
    | inl t ↦ rw t (subst (λ k. IsOnItem (k, d)) (sym ((==_iff i id).0 t)) h, gs)
    | inr f ↦ rw f (g, set_discount-on_items id d m h gs)
  ]

  has-set_discount :
      (id j : Text) (d : ItemDiscount N) (m : List (Text × ItemDiscount N))
      → j ≢ id
      → has (map (λ e. e.0) (set_discount id d m)) j ≡ has (map (λ e. e.0) m) j
  unfolding set_discount
  has-set_discount id j d [] n = ground arith
  has-set_discount id j d ((i, e) ∷ m) n = ground (arith, has-set_discount id j d m n)

  set_discount-distinct :
      (id : Text) (d : ItemDiscount N) (m : List (Text × ItemDiscount N))
      → HasDistinctItems m
      → HasDistinctItems (set_discount id d m)
  unfolding set_discount
  set_discount-distinct id d [] h = (refl, tt)
  set_discount-distinct id d ((i, e) ∷ m) (g, gs) = elim (Bool-cases (i == id)) [
    | inl t ↦ rw t (g, gs)
    | inr f ↦ rw f (ground (arith, has-set_discount id i d m), set_discount-distinct id d m gs)
  ]

  claim-IsConsistent :
      (item : Item N) (voucher : Voucher N) (amount : N) (claims : Claims N)
      → Any (λ x. x ≡ item) items
      → (nought ≼ amount) × (amount ≼ item.amount)
      → IsConsistent claims
      → IsConsistent (claim item voucher amount claims)
  unfolding claim
  claim-IsConsistent item voucher amount claims member (low, high) h = record {
    on_items =
        set_discount-on_items item.source_id _ claims.item_discounts
          (Any-map items (λ x e. rw e (refl, low, high)) member) h.on_items;
    distinct = set_discount-distinct item.source_id _ claims.item_discounts h.distinct;
  }

  module _ (laws : IsRounded N) (shop : Shop N) (now : Time) (user_id : Text) (sound : IsSound shop)
      (amounts : All (λ item. nought ≼ item.amount) items) where
    claim_scoped-IsConsistent :
        (voucher : Voucher N) (claims after : Claims N)
        → IsSoundPromotion voucher.promotion
        → IsConsistent claims
        → claim_scoped shop now user_id items voucher claims ≡ ok after
        → IsConsistent after
    unfolding claim_scoped
    claim_scoped-IsConsistent voucher claims after p h e =
        let (item, f, rest) = >>=-eq-ok _ _ e in
        let member = find_first-Any _ items item (or_throw-eq-ok _ _ f) in
        let promo = voucher.promotion in
        let done =
          last-eq-ok (throw_if (has claims.claimed_item_ids item.source_id) item_already_claimed)
            (evaluate_voucher_eligibility now voucher item.amount (item_context item none))
            (check_voucher_limits shop.redemptions promo.id promo.usage_limit promo.per_user_limit
              (some user_id))
            rest in
        let (low, high, _) =
          calculate_discount_amount_bounds laws voucher.promotion item.amount p
            (All-Any (λ i. nought ≼ i.amount) items item amounts member) in
        subst IsConsistent done (claim-IsConsistent item voucher _ claims member (low, high) h)

    keep_blanket-IsConsistent :
        (code : Text) (claims after : Claims N)
        → IsConsistent claims
        → keep_blanket shop now user_id items code claims ≡ ok after
        → IsConsistent after
    unfolding keep_blanket
    keep_blanket-IsConsistent code claims after h e =
        subst IsConsistent (ok-injective (>>-eq-ok _ _ e).1)
          (record { on_items = h.on_items; distinct = h.distinct })

    claim_code-IsConsistent :
        (code : Text) (claims after : Claims N)
        → IsConsistent claims
        → claim_code shop now user_id items code claims ≡ ok after
        → IsConsistent after
    unfolding claim_code
    claim_code-IsConsistent code claims after h e = elim (Bool-cases (code == 0)) [
      | inl blank ↦ subst IsConsistent (ok-injective (rw blank at e)) h
      | inr named ↦
          let (voucher, f, g) = >>=-eq-ok _ _ (rw named at e) in
          let p =
            find_first-All (λ v. IsSoundPromotion v.promotion) (λ v. v.code == code) shop.vouchers
              voucher sound.vouchers_sound (or_throw-eq-ok _ _ f) in
          elim (Bool-cases (is_scoped voucher.promotion)) [
            | inl scoped ↦ claim_scoped-IsConsistent voucher claims after p h (rw scoped at g)
            | inr blanket ↦ keep_blanket-IsConsistent code claims after h (rw blanket at g)
          ]
    ]

    claim_codes-IsConsistent :
        (codes : List Text) (claims after : Claims N)
        → IsConsistent claims
        → claim_codes shop now user_id items codes claims ≡ ok after
        → IsConsistent after
    unfolding claim_codes
    claim_codes-IsConsistent [] claims after h e = subst IsConsistent (ok-injective e) h
    claim_codes-IsConsistent (code ∷ codes) claims after h e =
        let (mid, f, g) = >>=-eq-ok _ _ e in
        claim_codes-IsConsistent codes mid after (claim_code-IsConsistent code claims mid h f) g

    auto_case :
        (item : Item N) (claims : Claims N) (o : Option (Voucher N × N))
        → Any (λ x. x ≡ item) items
        → (nought ≼ discount_amount o) × (discount_amount o ≼ item.amount)
        → IsConsistent claims
        → IsConsistent
            (elim o [ none ↦ claims | some (voucher, amount) ↦ claim item voucher amount claims ])
    unfolding discount_amount
    auto_case item claims none member b h = h
    auto_case item claims (some (voucher, amount)) member b h =
        claim-IsConsistent item voucher amount claims member b h

    claim_auto-IsConsistent :
        (item : Item N) (claims : Claims N)
        → Any (λ x. x ≡ item) items
        → IsConsistent claims
        → IsConsistent (claim_auto shop now user_id items item claims)
    unfolding claim_auto
    claim_auto-IsConsistent item claims member h =
        elim (Bool-cases (has claims.claimed_item_ids item.source_id)) [
          | inl taken ↦ rw taken h
          | inr free ↦
              let context = item_context item (some user_id) in
              rw free (
                auto_case item claims _ member
                  (auto-IsBounded laws shop now item.amount context sound
                    (All-Any (λ i. nought ≼ i.amount) items item amounts member) true _
                    (find_auto_apply_discount-IsBestDiscount shop now item.amount context laws
                      true))
                  h)
        ]

    claim_autos-IsConsistent :
        (rest : List (Item N)) (claims : Claims N)
        → All (λ item. Any (λ x. x ≡ item) items) rest
        → IsConsistent claims
        → IsConsistent (claim_autos shop now user_id items rest claims)
    unfolding claim_autos
    claim_autos-IsConsistent [] claims m h = h
    claim_autos-IsConsistent (item ∷ rest) claims (m, ms) h =
        claim_autos-IsConsistent rest _ ms (claim_auto-IsConsistent item claims m h)

    self_members : (xs : List (Item N)) → All (λ item. Any (λ x. x ≡ item) xs) xs
    self_members [] = tt
    self_members (x ∷ xs) = (inl refl, All-map xs (λ y m. inr m) (self_members xs))

    -- When the checkout's codes are accepted, every discount is on one of its items, is not negative and at
    -- most that item's amount, and no item has two. The amounts of the items and vouchers must not be negative.
    pub resolve_event_line_item_discounts-IsConsistent :
        (trim : Text → Text) (codes : List Text) (claims : Claims N)
        → resolve_event_line_item_discounts shop now user_id items trim codes ≡ ok claims
        → IsConsistent claims
    unfolding resolve_event_line_item_discounts
    resolve_event_line_item_discounts-IsConsistent trim codes claims e =
        let (mid, f, g) = >>=-eq-ok _ _ e in
        subst IsConsistent (ok-injective g) (
          claim_autos-IsConsistent items mid (self_members items) (
            claim_codes-IsConsistent (map trim codes) _ mid
              (record { on_items = tt; distinct = tt }) f))
