-- ===== src/Pricing/Examples.antt =====
-- src/domain/pricing.ts: a concrete price list, and the theorems at it.
use trade_pal_africa.Base.{ℕ, ◌<◌, true, Option, none, some, [], ◌∷◌, ◌≡◌, refl, arith, ok, err}
use trade_pal_africa.Base.Int.{pos, ◌*ℤ◌}
use trade_pal_africa.Pricing.Rows.{
  PriceError, below_minimum, active, wholesale, PriceList, PriceRule, Prices,
}
use trade_pal_africa.Pricing.Best.{best_rule}
use trade_pal_africa.Pricing.BestRule.{IsBest, best_rule-IsBest}
use trade_pal_africa.Pricing.Resolve.{ResolvePriceInput, Offer, Choice, resolve_price, resolved}
use trade_pal_africa.Pricing.StatedMinimum.{asking, resolve_price_minimum}

abbrev a_rule : ℕ → Option ℕ → ℕ → ℕ → PriceRule
a_rule i pack min price = record {
  id = i;
  price_list_id = 1;
  variant_id = 5;
  pack_conversion_id = pack;
  min_quantity = min;
  unit_price_minor = pos price;
  status = active;
  valid_from = none;
  valid_to = none;
}

abbrev a_price_list : PriceList
a_price_list = record {
  id = 1;
  name = 3;
  kind = wholesale;
  currency_code = 566;
  customer_id = none;
  status = active;
  valid_from = some 100;
  valid_to = some 900;
}

-- Rules of the base unit from 30 and from 60; the carton, of 12, has one of its own from 10.
abbrev some_prices : Prices
some_prices = record {
  lists = a_price_list ∷ [];
  rules = a_rule 21 none 30 500 ∷ a_rule 22 none 60 450 ∷ a_rule 23 (some 7) 10 4_800 ∷ [];
  variants = record { id = 5; base_unit = 40 } ∷ [];
  packs = record { id = 7; variant_id = 5; normalized_name = 41; base_quantity = 12 } ∷ [];
  next_id = 24;
}

abbrev of_cartons : ℕ → ResolvePriceInput
of_cartons q = record {
  price_list_id = 1;
  variant_id = 5;
  quantity = q;
  unit = some 41;
  at = none;
  currency_code = some 566;
}

abbrev as_written : ℕ → ℕ
as_written n = n

-- 5 cartons are 60 base units, priced at 12 times the base price.
five_cartons :
    (resolve_price as_written 200 (of_cartons 5) some_prices).0
    ≡ ok (record {
      price_list_id = 1;
      rule_id = 22;
      currency_code = 566;
      unit = 41;
      quantity = 5;
      base_quantity = 60;
      unit_price_minor = pos 5_400;
      line_total_minor = pos 27_000;
      derived_from_base = true;
      break_min_quantity = 60;
    })
unfolding resolve_price best_rule ◌*ℤ◌
five_cartons = refl

abbrev below_three : PriceError
below_three = record { code = below_minimum; minimum_quantity = some 3 }

two_cartons :
    resolve_price as_written 200 (of_cartons 2) some_prices ≡ (err below_three, some_prices)
unfolding resolve_price best_rule
two_cartons = refl

resolve_price_minimum_example :
    (2 < 3)
    × (resolve_price as_written 200 (asking 1 (of_cartons 2)) some_prices
        ≡ (err below_three, some_prices))
    × ((o : Offer) × (c : Choice) × (resolve_price as_written 200
            (asking 3 (of_cartons 2))
            some_prices
          ≡ (ok (resolved o 3 c), some_prices)))
resolve_price_minimum_example =
    resolve_price_minimum as_written 200 (of_cartons 2) some_prices below_three 1 3
      (omega arith, tt) two_cartons refl (omega arith) (omega arith)

best_rule-IsBest_example : IsBest some_prices.rules 70 (best_rule some_prices.rules 70)
best_rule-IsBest_example = best_rule-IsBest some_prices.rules 70
