-- ===== src/Fees.antt =====
-- `PlatformFeeService` of backend/payments/PlatformFeeService.ts: its data, and the readers of columns.
-- A number of a row is an exact decimal in millionths; a rate keeps them, an amount is a whole number of
-- hundredths, as `roundAmount` leaves it. A text column that is null is `none`.
pub mod Select
pub mod Compute
pub mod Catalog
pub mod Update
pub mod Best
pub mod Bounds
pub mod Fresh
pub mod Clearing
pub mod Cluster
pub mod Recent
mod Tests
use orbi_insitutional_core_v.Prelude.{
  ℕ, ◌+◌, ◌-◌, ◌*◌, ◌/◌, Option, none, some, leb, if◌then◌else◌, List,
}
use orbi_insitutional_core_v.Prelude.Int.{ℤ, pos, negsuc}
use orbi_insitutional_core_v.Prelude.Text.{Text, to_upper, trim, trim_start}

-- What a numeric column or field of a payload holds: null or undefined, the empty text, something that
-- `Number` does not read as finite, or a number in millionths.
pub data Raw : Type 0 where
  null blank unreadable : Raw
  millionths : ℤ → Raw

-- `Math.round(z / d)`: to the nearest, halves towards plus infinity
unfoldable pub round_div : ℕ → ℤ → ℤ
round_div d (pos n) = pos ((2 * n + d) / (2 * d))
round_div d (negsuc n) = if leb (2 * n + 2) d then pos 0 else negsuc ((2 * n + 1 - d) / (2 * d))

-- `roundAmount` of a number in millionths
unfoldable pub round_amount : ℤ → ℤ
unfolding round_div
round_amount z = round_div 10000 z

unfoldable pub parse_rate : Raw → ℤ
parse_rate (millionths z) = z
parse_rate _ = pos 0

unfoldable pub parse_amount : Raw → ℤ
unfolding round_amount
parse_amount (millionths z) = round_amount z
parse_amount _ = pos 0

unfoldable pub parse_nullable_amount : Raw → Option ℤ
unfolding round_amount
parse_nullable_amount (millionths z) = some (round_amount z)
parse_nullable_amount _ = none

-- `String(value ?? '').trim()`, in upper case, or null if nothing is left
unfoldable pub normalize_nullable_text : Option Text → Option Text
unfolding trim to_upper trim_start
normalize_nullable_text none = none
normalize_nullable_text (some t) = elim (trim t) [
  | List.[] ↦ none
  | List.◌∷◌ c s ↦ some (to_upper (List.◌∷◌ c s))
]

-- A row of `platform_fee_configs`. The `metadata_` fields are the keys of its JSON metadata that the
-- service reads.
pub record FeeConfig : Type 0 where
  pub id : Text
  pub name : Text
  pub flow_code : Text
  pub transaction_model : Option Text
  pub category_code : Option Text
  pub category_id : Option Text
  pub transaction_type : Option Text
  pub operation_type : Option Text
  pub direction : Option Text
  pub rail : Option Text
  pub channel : Option Text
  pub provider_id : Option Text
  pub currency : Option Text
  pub country_code : Option Text
  pub metadata_transaction_model : Option Text
  pub metadata_category_code : Option Text
  pub metadata_category_id : Option Text
  pub percentage_rate : Raw
  pub fixed_amount : Raw
  pub minimum_fee : Raw
  pub maximum_fee : Raw
  pub tax_rate : Raw
  pub gov_fee_rate : Raw
  pub stamp_duty_fixed : Raw
  pub priority : Option ℤ
  pub status : Text

-- `FeeResolutionInput`
pub record FeeInput : Type 0 where
  pub flow_code : Text
  pub amount : Raw
  pub currency : Text
  pub provider_id : Option Text
  pub country_code : Option Text
  pub rail : Option Text
  pub channel : Option Text
  pub direction : Option Text
  pub transaction_model : Option Text
  pub category_code : Option Text
  pub category_id : Option Text
  pub operation_type : Option Text
  pub transaction_type : Option Text

-- `value ?? other`
abbrev pub or_null {ℓ} : {A : Type ℓ} → Option A → Option A → Option A
or_null none o = o
or_null (some a) o = some a
