-- ===== src/Pricing/Tests.antt =====
-- Prices of a small shop, in fixed point with four decimals, and the theorems at it.
use fox_passport_republic_ap.Prelude.{
  ◌≡◌, refl, true, false, none, some, [], ◌∷◌, ok, err, arith, ◌*◌, ℕ, select,
}
use fox_passport_republic_ap.Prelude.Int.{pos}
use fox_passport_republic_ap.Prelude.Number.{
  Fixed, fixed_number, scale, Fixed-IsRounded, ◌≼◌, nought,
}
use fox_passport_republic_ap.Pricing.Data.{
  Promotion, Voucher, Shop, Context, Rule, percentage, fixed, Breakdown, below_minimum, named_rule,
}
use fox_passport_republic_ap.Pricing.Voucher.{
  qualifies, calculate_discount_amount, validate_and_calculate_voucher,
}
use fox_passport_republic_ap.Pricing.Voucher.Bounds.{
  IsSound, IsWithin, calculate_discount_amount_bounds,
}
use fox_passport_republic_ap.Pricing.Auto.{is_candidate, find_auto_apply_discount}
use fox_passport_republic_ap.Pricing.Auto.Best.{
  IsBestDiscount, find_auto_apply_discount-IsBestDiscount,
}
use fox_passport_republic_ap.Pricing.Auto.Typed.{IsBestTyped, find_auto_apply_discount-typed}
use fox_passport_republic_ap.Pricing.Price.{is_effective, resolve_pricing_rule, calculate_price}
use fox_passport_republic_ap.Pricing.Price.Rules.{IsChosen, resolve_pricing_rule-IsChosen}
use fox_passport_republic_ap.Pricing.Price.Bounds.{IsPriced, calculate_price_bounds}
use fox_passport_republic_ap.Pricing.Items.{Item, Claims, resolve_event_line_item_discounts}
use fox_passport_republic_ap.Pricing.Items.Laws.{
  IsConsistent, resolve_event_line_item_discounts-IsConsistent,
}

abbrev pesos : ℕ → Fixed
pesos n = n * scale

-- Ten per cent off, at most 50 pesos, on orders of 100 pesos or more.
abbrev tenth : Promotion Fixed
tenth = record {
  id = 11;
  active = true;
  auto_apply = true;
  start_date = none;
  end_date = some 900;
  min_subtotal = some (pesos 100);
  transaction_type = none;
  category = none;
  asset_id = none;
  service_id = none;
  venue_id = none;
  discount_type = percentage;
  discount_value = pesos 10;
  max_discount = some (pesos 50);
  usage_limit = some 5;
  per_user_limit = some 1;
}

-- 30 pesos off asset 71, and 2000 pesos off it.
abbrev thirty : Promotion Fixed
thirty = record tenth {
  id = 12;
  discount_type = fixed;
  discount_value = pesos 30;
  asset_id = some 71;
  max_discount = none;
}

abbrev excessive : Promotion Fixed
excessive = record thirty { id = 13; discount_value = pesos 2000; auto_apply = false }

abbrev tenth_voucher : Voucher Fixed
tenth_voucher = record {
  id = 21;
  code = 31;
  active = true;
  owner_user_id = none;
  promotion = tenth;
}

abbrev thirty_voucher : Voucher Fixed
thirty_voucher = record {
  id = 22;
  code = 32;
  active = true;
  owner_user_id = none;
  promotion = thirty;
}

abbrev excessive_voucher : Voucher Fixed
excessive_voucher = record {
  id = 23;
  code = 33;
  active = true;
  owner_user_id = none;
  promotion = excessive;
}

-- A rule for every booking and one for category 6.
abbrev general_rule : Rule Fixed
general_rule = record {
  id = 41;
  name = 1;
  transaction_type = none;
  category = none;
  subcategory = none;
  percentage = some (pesos 5);
  fixed_amount = none;
  priority = pos 2;
  active = true;
  effective_from = 0;
  effective_until = none;
}

abbrev category_rule : Rule Fixed
category_rule = record general_rule {
  id = 42;
  category = some 6;
  percentage = some (pesos 8);
  fixed_amount = some (pesos 10);
  priority = pos 0;
}

abbrev shop : Shop Fixed
shop = record {
  vouchers = thirty_voucher ∷ tenth_voucher ∷ excessive_voucher ∷ [];
  redemptions = [];
  rules = general_rule ∷ category_rule ∷ [];
}

abbrev context : Context
context = record {
  transaction_type = 1;
  category = some 6;
  subcategory = none;
  voucher_code = none;
  user_id = some 9;
  asset_id = some 71;
  service_id = none;
  venue_id = none;
  has_lower_fees = false;
}

best_of_two :
    find_auto_apply_discount shop 100 (pesos 200) context false ≡ some (thirty_voucher, pesos 30)
unfolding find_auto_apply_discount qualifies calculate_discount_amount
best_of_two = refl

capped_tenth :
    find_auto_apply_discount shop 100 (pesos 900) context false ≡ some (tenth_voucher, pesos 50)
unfolding find_auto_apply_discount qualifies calculate_discount_amount
capped_tenth = refl

category_wins : resolve_pricing_rule shop 100 context ≡ some category_rule
unfolding resolve_pricing_rule
category_wins = refl

abbrev priced : Breakdown Fixed
priced = record {
  subtotal = pesos 200;
  discount =
      some
        (record { voucher_id = 22; code = 32; type = fixed; value = pesos 30; amount = pesos 30 });
  discounted_subtotal = pesos 170;
  platform_fee = record {
    rule_id = some 42;
    name = named_rule 1;
    percentage = pesos 8;
    fixed_amount = pesos 10;
    amount = 236_000;
  };
  final_amount = 1_936_000;
}

price_of_order : calculate_price (pesos 5) shop 100 (pesos 200) context ≡ ok priced
unfolding calculate_price find_auto_apply_discount qualifies calculate_discount_amount
    resolve_pricing_rule
price_of_order = refl

too_small :
    calculate_price (pesos 5) shop 100 (pesos 99) (record context { voucher_code = some 31 })
    ≡ err below_minimum
unfolding calculate_price validate_and_calculate_voucher
too_small = refl

shop-IsSound : IsSound shop
shop-IsSound = ground arith

calculate_discount_amount_bounds_example :
    let d = calculate_discount_amount tenth (pesos 200) in
    (nought ≼ d) × (d ≼ pesos 200) × IsWithin (some (pesos 50)) d
calculate_discount_amount_bounds_example =
    calculate_discount_amount_bounds Fixed-IsRounded tenth (pesos 200)
      shop-IsSound.vouchers_sound.1.0 refl

find_auto_apply_discount-IsBestDiscount_example :
    IsBestDiscount shop 100
      (pesos 200)
      context
      (select (is_candidate false) shop.vouchers)
      (find_auto_apply_discount shop 100 (pesos 200) context false)
find_auto_apply_discount-IsBestDiscount_example =
    find_auto_apply_discount-IsBestDiscount shop 100 (pesos 200) context Fixed-IsRounded false

find_auto_apply_discount-typed_example :
    IsBestTyped shop 100
      (pesos 200)
      context
      false
      (find_auto_apply_discount shop 100 (pesos 200) context false)
find_auto_apply_discount-typed_example =
    find_auto_apply_discount-typed shop 100 (pesos 200) context false Fixed-IsRounded
      (refl, (refl, (refl, tt)))

resolve_pricing_rule-IsChosen_example :
    IsChosen context (select (is_effective 100) shop.rules) (resolve_pricing_rule shop 100 context)
resolve_pricing_rule-IsChosen_example = resolve_pricing_rule-IsChosen shop 100 context

calculate_price_bounds_example : IsPriced context priced
calculate_price_bounds_example =
    calculate_price_bounds Fixed-IsRounded shop 100 (pesos 200) context shop-IsSound refl (pesos 5)
      priced refl price_of_order

-- An event with asset 71 for 500 pesos and service 81 for 300 pesos.
abbrev speaker : Item Fixed
speaker = record {
  source_id = 51;
  amount = pesos 500;
  transaction_type = 1;
  category = none;
  asset_id = some 71;
  service_id = none;
  venue_id = none;
}

abbrev singer : Item Fixed
singer = record speaker {
  source_id = 52;
  amount = pesos 300;
  asset_id = none;
  service_id = some 81;
}

abbrev claims : Claims Fixed
claims = record {
  item_discounts =
      (51, record { voucher_id = 23; promotion_id = 13; discount_amount = pesos 500 }) ∷ [];
  claimed_item_ids = 51 ∷ [];
  blanket_code = some 31;
}

codes_of_event :
    resolve_event_line_item_discounts shop 100 9
      (speaker ∷ singer ∷ [])
      (λ code. code)
      (33 ∷ 0 ∷ 31 ∷ [])
    ≡ ok claims
unfolding resolve_event_line_item_discounts find_auto_apply_discount qualifies
    calculate_discount_amount
codes_of_event = refl

resolve_event_line_item_discounts-IsConsistent_example : IsConsistent (speaker ∷ singer ∷ []) claims
resolve_event_line_item_discounts-IsConsistent_example =
    resolve_event_line_item_discounts-IsConsistent (speaker ∷ singer ∷ []) Fixed-IsRounded shop 100
      9 shop-IsSound (refl, (refl, tt)) (λ code. code) (33 ∷ 0 ∷ 31 ∷ []) claims codes_of_event
