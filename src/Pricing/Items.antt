-- ===== src/Pricing/Items.antt =====
-- A voucher for each line item of an event: `resolveEventLineItemDiscounts` of
-- src/modules/pricing/pricing.service.ts. A `Map` is an association list.
pub mod Laws
use fox_passport_republic_ap.Prelude.{
  Bool, true, false, ◌&&◌, ◌||◌, not, ◌==◌, Option, none, some, List, [], ◌∷◌, ◌++◌, map, Text,
  Time, if◌then◌else◌, any_of, find_first, truthy, same, Result, ok, err, ◌>>=◌, ◌>>◌, throw_if,
  or_throw,
}
use fox_passport_republic_ap.Prelude.Number.{Number}
use fox_passport_republic_ap.Pricing.Data.{
  Promotion, Voucher, Shop, Context, Refusal, invalid_code, second_blanket_code, applies_to_nothing,
  item_already_claimed,
}
use fox_passport_republic_ap.Pricing.Voucher.{
  evaluate_voucher_eligibility, check_voucher_limits, calculate_discount_amount,
}
use fox_passport_republic_ap.Pricing.Auto.{find_auto_apply_discount}

pub record Item {ℓ} (N : Type ℓ) : Type ℓ where
  pub source_id : Text
  pub amount : N
  pub transaction_type : Text
  pub category : Option Text
  pub asset_id : Option Text
  pub service_id : Option Text
  pub venue_id : Option Text

pub record ItemDiscount {ℓ} (N : Type ℓ) : Type ℓ where
  pub voucher_id : Text
  pub promotion_id : Text
  pub discount_amount : N

-- The three variables of the loops.
pub record Claims {ℓ} (N : Type ℓ) : Type ℓ where
  pub item_discounts : List (Text × ItemDiscount N)
  pub claimed_item_ids : List Text
  pub blanket_code : Option Text

-- `claimedItemIds.has(id)`
abbrev pub has : List Text → Text → Bool
has ids id = any_of (λ i. i == id) ids

module _ {N : Type 0} where
  -- `itemDiscounts.set(id, d)`
  pub set_discount :
      Text → ItemDiscount N → List (Text × ItemDiscount N) → List (Text × ItemDiscount N)
  set_discount id d [] = (id, d) ∷ []
  set_discount id d ((i, e) ∷ m) = if i == id then (i, d) ∷ m else (i, e) ∷ set_discount id d m

  claim : Item N → Voucher N → N → Claims N → Claims N
  unfolding set_discount
  claim item voucher amount claims =
      let d : ItemDiscount N = record {
        voucher_id = voucher.id;
        promotion_id = voucher.promotion.id;
        discount_amount = amount;
      } in
      record claims {
        item_discounts = set_discount item.source_id d claims.item_discounts;
        claimed_item_ids = claims.claimed_item_ids ++ (item.source_id ∷ []);
      }

  -- The context of an item's voucher; the typed codes are checked without a user.
  item_context : Item N → Option Text → Context
  item_context item user_id = record {
    transaction_type = item.transaction_type;
    category = item.category;
    subcategory = none;
    voucher_code = none;
    user_id = user_id;
    asset_id = item.asset_id;
    service_id = item.service_id;
    venue_id = item.venue_id;
    has_lower_fees = false;
  }

  is_scoped : Promotion N → Bool
  is_scoped promo = truthy promo.asset_id || truthy promo.service_id || truthy promo.venue_id

  -- `promo.assetId && promo.assetId === it.assetId`, or so for the service or the venue
  applies_to : Promotion N → Item N → Bool
  applies_to promo item =
      (truthy promo.asset_id && same promo.asset_id item.asset_id)
      || (truthy promo.service_id && same promo.service_id item.service_id)
      || (truthy promo.venue_id && same promo.venue_id item.venue_id)

module _ {N : Type 0} ⦃n : Number N⦄ (shop : Shop N) (now : Time) (user_id : Text)
    (items : List (Item N)) where
  -- A scoped voucher, for the item that it applies to.
  pub claim_scoped : Voucher N → Claims N → Result Refusal (Claims N)
  unfolding claim item_context applies_to evaluate_voucher_eligibility check_voucher_limits
  claim_scoped voucher claims = do
    let promo = voucher.promotion
    item ← or_throw (find_first (applies_to promo) items) applies_to_nothing
    throw_if (has claims.claimed_item_ids item.source_id) item_already_claimed
    evaluate_voucher_eligibility now voucher item.amount (item_context item none)
    check_voucher_limits shop.redemptions promo.id promo.usage_limit promo.per_user_limit
        (some user_id)
    ok (claim item voucher (calculate_discount_amount promo item.amount) claims)

  -- A code that is not scoped is kept for the whole checkout.
  keep_blanket : Text → Claims N → Result Refusal (Claims N)
  keep_blanket code claims = do
    throw_if (truthy claims.blanket_code) second_blanket_code
    ok (record claims { blanket_code = some code })

  -- The body of the first loop, on a trimmed code.
  pub claim_code : Text → Claims N → Result Refusal (Claims N)
  unfolding claim_scoped keep_blanket is_scoped
  claim_code code claims = if code == 0 then ok claims else (do
    voucher ← or_throw (find_first (λ v. v.code == code) shop.vouchers) invalid_code
    if is_scoped voucher.promotion then claim_scoped voucher claims else keep_blanket code claims)

  pub claim_codes : List Text → Claims N → Result Refusal (Claims N)
  unfolding claim_code
  claim_codes [] claims = ok claims
  claim_codes (code ∷ codes) claims = do claims' ← claim_code code claims; claim_codes codes claims'

  -- The body of the second loop: an automatic discount for an item without one.
  pub claim_auto : Item N → Claims N → Claims N
  unfolding claim item_context
  claim_auto item claims =
      if has claims.claimed_item_ids item.source_id
      then claims
      else elim (find_auto_apply_discount shop now item.amount (item_context item (some user_id))
          true) [ none ↦ claims | some (voucher, amount) ↦ claim item voucher amount claims ]

  pub claim_autos : List (Item N) → Claims N → Claims N
  unfolding claim_auto
  claim_autos [] claims = claims
  claim_autos (item ∷ rest) claims = claim_autos rest (claim_auto item claims)

  -- `trim` is `String.trim`, on the numbers that stand for strings.
  unfoldable pub resolve_event_line_item_discounts :
      (Text → Text) → List Text → Result Refusal (Claims N)
  unfolding claim_codes claim_autos
  resolve_event_line_item_discounts trim explicit_codes = do
    claims ←
        claim_codes (map trim explicit_codes)
          (record { item_discounts = []; claimed_item_ids = []; blanket_code = none })
    ok (claim_autos items claims)
