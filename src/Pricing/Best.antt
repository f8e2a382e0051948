-- ===== src/Pricing/Best.antt =====
-- src/domain/pricing.ts, `bestRule`: the rule that wins for a quantity.
use trade_pal_africa.Base.{
  ℕ, Bool, ◌&&◌, ◌||◌, Option, none, some, List, [], ◌∷◌, leb, ltb, ◌==◌, if◌then◌else◌, keep,
}
use trade_pal_africa.Base.Int.{ltb_ℤ, ◌==ℤ◌}
use trade_pal_africa.Pricing.Rows.{PriceRule}

-- The comparator: the highest minimum first, then the lower price, then the id.
abbrev pub sooner : PriceRule → PriceRule → Bool
sooner a b =
    ltb b.min_quantity a.min_quantity
    || (a.min_quantity == b.min_quantity
        && (ltb_ℤ a.unit_price_minor b.unit_price_minor
            || (a.unit_price_minor ==ℤ b.unit_price_minor && ltb a.id b.id)))

unfoldable pub insert_rule : PriceRule → List PriceRule → List PriceRule
insert_rule x [] = x ∷ []
insert_rule x (y ∷ ys) = let rest = insert_rule x ys in if sooner y x then y ∷ rest else x ∷ y ∷ ys

unfoldable pub sort_rules : List PriceRule → List PriceRule
unfolding insert_rule
sort_rules [] = []
sort_rules (x ∷ xs) = insert_rule x (sort_rules xs)

abbrev pub first : List PriceRule → Option PriceRule
first [] = none
first (x ∷ _) = some x

abbrev pub reaches : ℕ → PriceRule → Bool
reaches quantity r = leb r.min_quantity quantity

unfoldable pub best_rule : List PriceRule → ℕ → Option PriceRule
unfolding sort_rules
best_rule rules quantity = first (sort_rules (keep (reaches quantity) rules))
