-- ===== src/Pricing/Auto.antt =====
-- The automatic discount: `findAutoApplyDiscount` of src/modules/pricing/pricing.service.ts.
pub mod Best
pub mod Typed
use fox_passport_republic_ap.Prelude.{
  Bool, true, false, ◌&&◌, ◌||◌, Option, none, some, List, [], ◌∷◌, Time, is_some, if◌then◌else◌,
  select,
}
use fox_passport_republic_ap.Prelude.Number.{Number, lt_n}
use fox_passport_republic_ap.Pricing.Data.{Promotion, Voucher, Shop, Context}
use fox_passport_republic_ap.Pricing.Voucher.{qualifies, calculate_discount_amount}

module _ {N : Type 0} ⦃n : Number N⦄ where
  -- The `where` of the query: `scoped_only` keeps the promotions of one listing.
  unfoldable pub is_candidate : Bool → Voucher N → Bool
  is_candidate scoped_only voucher =
      let promo = voucher.promotion in
      voucher.active
      && promo.active
      && promo.auto_apply
      && (if scoped_only
          then is_some promo.asset_id || is_some promo.service_id || is_some promo.venue_id
          else true)

  -- `if (!best || discountAmount > best.discountAmount) best = { voucher, discountAmount }`
  better : Option (Voucher N × N) → Voucher N → N → Option (Voucher N × N)
  better none voucher amount = some (voucher, amount)
  better (some best) voucher amount =
      if lt_n best.1 amount then some (voucher, amount) else some best

  -- The body of the loop.
  consider :
      Shop N → Time → N → Context → Option (Voucher N × N) → Voucher N → Option (Voucher N × N)
  unfolding better
  consider shop now subtotal context best voucher =
      if qualifies shop now subtotal context voucher
      then better best voucher (calculate_discount_amount voucher.promotion subtotal)
      else best

  best_of :
      Shop N
      → Time
      → N
      → Context
      → Option (Voucher N × N)
      → List (Voucher N)
      → Option (Voucher N × N)
  best_of shop now subtotal context best [] = best
  best_of shop now subtotal context best (voucher ∷ vouchers) =
      best_of shop now subtotal context (consider shop now subtotal context best voucher) vouchers

  unfoldable pub find_auto_apply_discount :
      Shop N → Time → N → Context → Bool → Option (Voucher N × N)
  unfolding is_candidate consider best_of
  find_auto_apply_discount shop now subtotal context scoped_only =
      best_of shop now subtotal context none (select (is_candidate scoped_only) shop.vouchers)
