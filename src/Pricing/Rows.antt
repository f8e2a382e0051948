-- ===== src/Pricing/Rows.antt =====
-- src/domain/pricing.ts: the rows and the errors. Ids, names, units and currencies are numbers; a
-- string that is empty counts as left out, as the code's tests take it.
use trade_pal_africa.Base.{ℕ, Bool, true, false, ◌&&◌, Option, none, some, List, leb, ltb}
use trade_pal_africa.Base.Int.{ℤ}

pub data PriceErrorCode : Type 0 where
  no_price below_minimum expired list_inactive currency_mismatch unit_not_declared : PriceErrorCode
  invalid_quantity not_found : PriceErrorCode
  -- Prisma's own, for an update of a row that is missing
  no_row : PriceErrorCode

pub record PriceError : Type 0 where
  pub code : PriceErrorCode
  pub minimum_quantity : Option ℕ

-- An error that names no minimum.
abbrev pub plain : PriceErrorCode → PriceError
plain c = record { code = c; minimum_quantity = none }

pub data PriceStatus : Type 0 where
  active retired : PriceStatus

pub data PriceListKind : Type 0 where
  retail wholesale customer : PriceListKind

pub record PriceList : Type 0 where
  pub id : ℕ
  pub name : ℕ
  pub kind : PriceListKind
  pub currency_code : ℕ
  pub customer_id : Option ℕ
  pub status : PriceStatus
  pub valid_from : Option ℕ
  pub valid_to : Option ℕ

pub record PriceRule : Type 0 where
  pub id : ℕ
  pub price_list_id : ℕ
  pub variant_id : ℕ
  pub pack_conversion_id : Option ℕ
  pub min_quantity : ℕ
  pub unit_price_minor : ℤ
  pub status : PriceStatus
  pub valid_from : Option ℕ
  pub valid_to : Option ℕ

pub record Variant : Type 0 where
  pub id : ℕ
  pub base_unit : ℕ

pub record PackConversion : Type 0 where
  pub id : ℕ
  pub variant_id : ℕ
  pub normalized_name : ℕ
  pub base_quantity : ℕ

-- The rows of one business.
pub record Prices : Type 0 where
  pub lists : List PriceList
  pub rules : List PriceRule
  pub variants : List Variant
  pub packs : List PackConversion
  pub next_id : ℕ

abbrev pub is_active : PriceStatus → Bool
is_active active = true
is_active retired = false

abbrev starts_by : Option ℕ → ℕ → Bool
starts_by none at = true
starts_by (some from) at = leb from at

abbrev ends_after : Option ℕ → ℕ → Bool
ends_after none at = true
ends_after (some to) at = ltb at to

abbrev pub in_window : Option ℕ → Option ℕ → ℕ → Bool
in_window from to at = starts_by from at && ends_after to at
