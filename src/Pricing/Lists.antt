-- ===== src/Pricing/Lists.antt =====
-- src/domain/pricing.ts: `createPriceList`, `addPriceRule` and `retirePriceRule`.
use trade_pal_africa.Base.{
  ℕ, ◌+◌, Bool, true, false, not, ◌&&◌, Option, none, some, List, [], ◌∷◌, ◌++◌, leb, ◌==◌,
  if◌then◌else◌, find, or_else, is_some, update_where, Call, ◌>>=◌, ◌>>◌, pure, throw_if, or_throw,
  gets, modify,
}
use trade_pal_africa.Base.Int.{ℤ, pos, leb_ℤ}
use trade_pal_africa.Pricing.Rows.{
  no_price, unit_not_declared, invalid_quantity, not_found, no_row, active, retired, PriceListKind,
  customer, PriceError, plain, PriceList, PriceRule, Variant, PackConversion, Prices,
}
use trade_pal_africa.Pricing.Resolve.{has_list, has_variant, is_pack_of, both}

-- The name is trimmed, and none where nothing is left of it.
pub record CreatePriceListInput : Type 0 where
  pub name : Option ℕ
  pub kind : PriceListKind
  pub currency_code : ℕ
  pub customer_id : Option ℕ
  pub valid_from : Option ℕ
  pub valid_to : Option ℕ

abbrev pub is_customer : PriceListKind → Bool
is_customer customer = true
is_customer _ = false

abbrev pub empty_window : Option ℕ → Option ℕ → Bool
empty_window (some from) (some to) = leb to from
empty_window _ _ = false

abbrev new_list : ℕ → CreatePriceListInput → Prices → PriceList
new_list name i s = record {
  id = s.next_id;
  name = name;
  kind = i.kind;
  currency_code = i.currency_code;
  customer_id = i.customer_id;
  status = active;
  valid_from = i.valid_from;
  valid_to = i.valid_to;
}

abbrev write_list : PriceList → Prices → Prices
write_list l s = record s { lists = s.lists ++ l ∷ []; next_id = s.next_id + 1 }

unfoldable pub create_price_list : CreatePriceListInput → Call Prices PriceError PriceList
create_price_list i = do
  name ← or_throw i.name (plain not_found)
  throw_if (is_customer i.kind && not (is_some i.customer_id)) (plain not_found)
  throw_if (not (is_customer i.kind) && is_some i.customer_id) (plain not_found)
  throw_if (empty_window i.valid_from i.valid_to) (plain invalid_quantity)
  l ← gets (new_list name i)
  modify (write_list l)
  pure l

pub record AddPriceRuleInput : Type 0 where
  pub price_list_id : ℕ
  pub variant_id : ℕ
  pub unit_price_minor : ℤ
  pub min_quantity : Option ℕ
  pub unit : Option ℕ
  pub valid_from : Option ℕ
  pub valid_to : Option ℕ

abbrev names_pack : (ℕ → ℕ) → Option ℕ → Variant → Bool
names_pack normalize none v = false
names_pack normalize (some u) v = not (normalize u == v.base_unit)

abbrev pack_named : (ℕ → ℕ) → Option ℕ → Variant → List PackConversion → Option PackConversion
pack_named normalize none v packs = none
pack_named normalize (some u) v packs =
    if normalize u == v.base_unit then none else find (is_pack_of v (normalize u)) packs

abbrev pack_id : Option PackConversion → Option ℕ
pack_id none = none
pack_id (some p) = some p.id

abbrev new_rule :
    AddPriceRuleInput → PriceList → Variant → Option PackConversion → Prices → PriceRule
new_rule i l v pack s = record {
  id = s.next_id;
  price_list_id = l.id;
  variant_id = v.id;
  pack_conversion_id = pack_id pack;
  min_quantity = or_else i.min_quantity 1;
  unit_price_minor = i.unit_price_minor;
  status = active;
  valid_from = i.valid_from;
  valid_to = i.valid_to;
}

abbrev write_rule : PriceRule → Prices → Prices
write_rule r s = record s { rules = s.rules ++ r ∷ []; next_id = s.next_id + 1 }

unfoldable pub add_price_rule : (ℕ → ℕ) → AddPriceRuleInput → Call Prices PriceError PriceRule
add_price_rule normalize i = do
  throw_if (leb_ℤ i.unit_price_minor (pos 0)) (plain no_price)
  throw_if (or_else i.min_quantity 1 == 0) (plain invalid_quantity)
  throw_if (empty_window i.valid_from i.valid_to) (plain invalid_quantity)
  s ← gets (λ s. s)
  (l, v) ←
      or_throw
        (both (find (has_list i.price_list_id) s.lists)
          (find (has_variant i.variant_id) s.variants))
        (plain not_found)
  let pack = pack_named normalize i.unit v s.packs
  throw_if (names_pack normalize i.unit v && not (is_some pack)) (plain unit_not_declared)
  r ← gets (new_rule i l v pack)
  modify (write_rule r)
  pure r

abbrev has_rule : ℕ → PriceRule → Bool
has_rule i r = r.id == i

abbrev retire : PriceRule → PriceRule
retire r = record r { status = retired }

unfoldable pub retire_price_rule : ℕ → Call Prices PriceError PriceRule
retire_price_rule i = do
  found ← gets (λ s. find (has_rule i) s.rules)
  r ← or_throw found (plain no_row)
  modify (λ s. record s { rules = update_where (has_rule i) retire s.rules })
  pure (retire r)
