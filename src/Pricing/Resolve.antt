-- ===== src/Pricing/Resolve.antt =====
-- src/domain/pricing.ts, `resolvePrice`.
use trade_pal_africa.Base.{
  ℕ, ◌+◌, ◌-◌, ◌*◌, ◌/◌, Bool, true, false, not, ◌&&◌, ◌||◌, Option, none, some, List, [], ◌∷◌,
  ◌++◌, ltb, ◌==◌, if◌then◌else◌, keep, find, min, or_else, is_some, Call, ◌>>=◌, ◌>>◌, pure,
  throw_if, or_throw, gets,
}
use trade_pal_africa.Base.Int.{ℤ, pos, ◌*ℤ◌}
use trade_pal_africa.Pricing.Rows.{
  no_price, below_minimum, expired, list_inactive, currency_mismatch, unit_not_declared,
  invalid_quantity, not_found, PriceError, plain, PriceList, PriceRule, Variant, PackConversion,
  Prices, is_active, in_window,
}
use trade_pal_africa.Pricing.Best.{best_rule}

pub record ResolvePriceInput : Type 0 where
  pub price_list_id : ℕ
  pub variant_id : ℕ
  pub quantity : ℕ
  pub unit : Option ℕ
  pub at : Option ℕ
  pub currency_code : Option ℕ

pub record ResolvedPrice : Type 0 where
  pub price_list_id : ℕ
  pub rule_id : ℕ
  pub currency_code : ℕ
  pub unit : ℕ
  pub quantity : ℕ
  pub base_quantity : ℕ
  pub unit_price_minor : ℤ
  pub line_total_minor : ℤ
  pub derived_from_base : Bool
  pub break_min_quantity : ℕ

abbrev pub other_currency : Option ℕ → ℕ → Bool
other_currency none _ = false
other_currency (some c) d = not (c == d)

-- `normalizeKey`, on the numbers that stand for names, is the caller's: it is the runtime's trimming and lower case.
abbrev pub wanted_unit : (ℕ → ℕ) → Option ℕ → Variant → ℕ
wanted_unit normalize none v = v.base_unit
wanted_unit normalize (some u) v = normalize u

abbrev pub is_pack_of : Variant → ℕ → PackConversion → Bool
is_pack_of v name p = p.variant_id == v.id && p.normalized_name == name

abbrev pub wanted_pack : ℕ → Variant → List PackConversion → Option PackConversion
wanted_pack wanted v packs =
    if wanted == v.base_unit then none else find (is_pack_of v wanted) packs

abbrev pub pack_size : Option PackConversion → ℕ
pack_size none = 1
pack_size (some p) = p.base_quantity

abbrev pub same_pack : Option ℕ → Option PackConversion → Bool
same_pack none none = true
same_pack none (some _) = false
same_pack (some _) none = false
same_pack (some i) (some p) = i == p.id

abbrev pub is_valid : ℕ → PriceRule → Bool
is_valid at r = is_active r.status && in_window r.valid_from r.valid_to at

abbrev pub is_of_base : PriceRule → Bool
is_of_base r = not (is_some r.pack_conversion_id)

pub record Choice : Type 0 where
  pub rule : PriceRule
  pub unit_price : ℤ
  pub derived : Bool

abbrev pub own_rules : Option PackConversion → List PriceRule → List PriceRule
own_rules pack valid = keep (λ r. same_pack r.pack_conversion_id pack) valid

abbrev pub base_rules : List PriceRule → List PriceRule
base_rules valid = keep is_of_base valid

abbrev pub direct : PriceRule → Choice
direct r = record { rule = r; unit_price = r.unit_price_minor; derived = false }

abbrev pub from_base : PackConversion → PriceRule → Choice
from_base p r = record {
  rule = r;
  unit_price = r.unit_price_minor *ℤ pos p.base_quantity;
  derived = true;
}

-- What a pack without a rule of its own costs, from a rule of the base unit.
unfoldable pub derive : Option PackConversion → Option PriceRule → Option Choice
derive none _ = none
derive (some p) none = none
derive (some p) (some r) = some (from_base p r)

unfoldable pub choose : Option PackConversion → Option PriceRule → Option PriceRule → Option Choice
unfolding derive
choose pack (some r) _ = some (direct r)
choose pack none base = derive pack base

unfoldable pub chosen : Option PackConversion → List PriceRule → ℕ → Option Choice
unfolding choose
chosen pack valid quantity =
    choose pack (best_rule (own_rules pack valid) quantity)
      (best_rule (base_rules valid) (quantity * pack_size pack))

abbrev pub minimum_of : PriceRule → ℕ
minimum_of r = r.min_quantity

-- `Math.ceil(a / b)` for b of one or more.
abbrev pub ceil_div : ℕ → ℕ → ℕ
ceil_div a b = (a + (b - 1)) / b

abbrev pub map_rules : (PriceRule → ℕ) → List PriceRule → List ℕ
map_rules f [] = []
map_rules f (r ∷ rs) = f r ∷ map_rules f rs

abbrev pub base_minima : Option PackConversion → List PriceRule → List ℕ
base_minima none valid = []
base_minima (some p) valid =
    map_rules (λ r. ceil_div r.min_quantity p.base_quantity) (base_rules valid)

abbrev pub minima : Option PackConversion → List PriceRule → List ℕ
minima pack valid = map_rules minimum_of (own_rules pack valid) ++ base_minima pack valid

-- `Math.min(...above)`, where there is one.
unfoldable pub least : List ℕ → Option ℕ
least [] = none
least (m ∷ ms) = some (elim (least ms) [ none ↦ m | some n ↦ min m n ])

abbrev pub above : ℕ → List ℕ → List ℕ
above quantity ms = keep (λ m. ltb quantity m) ms

-- The error where nothing is chosen.
unfoldable pub refusal : Option ℕ → PriceError
refusal (some m) = record { code = below_minimum; minimum_quantity = some m }
refusal none = plain no_price

-- What is looked up and checked before a rule is chosen.
pub record Offer : Type 0 where
  pub list : PriceList
  pub wanted : ℕ
  pub pack : Option PackConversion
  pub valid : List PriceRule

abbrev pub has_list : ℕ → PriceList → Bool
has_list i l = l.id == i

abbrev pub has_variant : ℕ → Variant → Bool
has_variant i v = v.id == i

abbrev pub is_rule_of : ℕ → ℕ → PriceRule → Bool
is_rule_of list variant r = r.price_list_id == list && r.variant_id == variant

abbrev pub nonempty : List PriceRule → Bool
nonempty [] = false
nonempty (_ ∷ _) = true

abbrev pub both : Option PriceList → Option Variant → Option (PriceList × Variant)
both (some l) (some v) = some (l, v)
both _ _ = none

unfoldable pub find_offer : (ℕ → ℕ) → ℕ → ResolvePriceInput → Call Prices PriceError Offer
find_offer normalize now i = do
  throw_if (i.quantity == 0) (plain invalid_quantity)
  s ← gets (λ s. s)
  (l, v) ←
      or_throw
        (both (find (has_list i.price_list_id) s.lists)
          (find (has_variant i.variant_id) s.variants))
        (plain not_found)
  let at = or_else i.at now
  throw_if (not (is_active l.status) || not (in_window l.valid_from l.valid_to at))
      (plain list_inactive)
  throw_if (other_currency i.currency_code l.currency_code) (plain currency_mismatch)
  let wanted = wanted_unit normalize i.unit v
  let pack = wanted_pack wanted v s.packs
  throw_if (not (wanted == v.base_unit) && not (is_some pack)) (plain unit_not_declared)
  let rules = keep (is_rule_of l.id v.id) s.rules
  let valid = keep (is_valid at) rules
  throw_if (nonempty rules && not (nonempty valid)) (plain expired)
  pure (record { list = l; wanted = wanted; pack = pack; valid = valid })

abbrev pub resolved : Offer → ℕ → Choice → ResolvedPrice
resolved o quantity c = record {
  price_list_id = o.list.id;
  rule_id = c.rule.id;
  currency_code = o.list.currency_code;
  unit = o.wanted;
  quantity = quantity;
  base_quantity = quantity * pack_size o.pack;
  unit_price_minor = c.unit_price;
  line_total_minor = c.unit_price *ℤ pos quantity;
  derived_from_base = c.derived;
  break_min_quantity = c.rule.min_quantity;
}

unfoldable pub price_offer : Offer → ℕ → Call Prices PriceError ResolvedPrice
unfolding chosen least refusal
price_offer o quantity = do
  c ←
      or_throw (chosen o.pack o.valid quantity)
        (refusal (least (above quantity (minima o.pack o.valid))))
  pure (resolved o quantity c)

unfoldable pub resolve_price :
    (ℕ → ℕ) → ℕ → ResolvePriceInput → Call Prices PriceError ResolvedPrice
unfolding find_offer price_offer
resolve_price normalize now i = do o ← find_offer normalize now i; price_offer o i.quantity
