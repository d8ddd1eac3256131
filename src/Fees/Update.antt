-- ===== src/Fees/Update.antt =====
-- `upsertConfig`. A field of the payload stands for both spellings of its key. The database is an
-- argument where it refuses: the read of the row, or the write. The JSON metadata and the times of the
-- row are left out; the audit log is a list.
use orbi_insitutional_core_v.Prelude.{
  Bool, true, false, ◌||◌, Option, none, some, List, [], ◌∷◌, ◌++◌, if◌then◌else◌,
}
use orbi_insitutional_core_v.Prelude.Int.{ℤ, pos, ◌*ℤ◌}
use orbi_insitutional_core_v.Prelude.Text.{Text, codes, text_eq, to_upper, trim}
use orbi_insitutional_core_v.Fees.{
  FeeConfig, Raw, null, millionths, parse_rate, parse_amount, parse_nullable_amount,
  normalize_nullable_text, or_null,
}
use orbi_insitutional_core_v.Fees.Compute.{Outcome, returned, thrown}
use orbi_insitutional_core_v.Fees.Catalog.{Caches}

pub record FeePayload : Type 0 where
  pub name : Option Text
  pub flow_code : Option Text
  pub transaction_model : Option Text
  pub category_code : Option Text
  pub category_id : Option Text
  pub transaction_type : Option Text
  pub operation_type : Option Text
  pub direction : Option Text
  pub rail : Option Text
  pub channel : Option Text
  pub provider_id : Option Text
  pub currency : Option Text
  pub country_code : Option Text
  pub percentage_rate : Raw
  pub fixed_amount : Raw
  pub minimum_fee : Raw
  pub maximum_fee : Raw
  pub tax_rate : Raw
  pub gov_fee_rate : Raw
  pub stamp_duty_fixed : Raw
  pub priority : Option ℤ
  pub status : Option Text

-- `value ?? current`
abbrev or_raw : Raw → Raw → Raw
or_raw null r = r
or_raw r _ = r

-- An amount as a column keeps it.
abbrev hundredths : ℤ → Raw
hundredths z = millionths (z *ℤ pos 10000)

abbrev nullable_hundredths : Option ℤ → Raw
nullable_hundredths none = null
nullable_hundredths (some z) = hundredths z

abbrev text_or : Option Text → Text → Text
text_or none t = t
text_or (some s) t = s

abbrev number_or : Option ℤ → ℤ → ℤ
number_or none z = z
number_or (some y) z = y

-- What a row without a predecessor starts from: `existing.data || {}`
unfoldable pub no_config : Text → FeeConfig
no_config id = record {
  id = id;
  name = [];
  flow_code = [];
  transaction_model = none;
  category_code = none;
  category_id = none;
  transaction_type = none;
  operation_type = none;
  direction = none;
  rail = none;
  channel = none;
  provider_id = none;
  currency = none;
  country_code = none;
  metadata_transaction_model = none;
  metadata_category_code = none;
  metadata_category_id = none;
  percentage_rate = null;
  fixed_amount = null;
  minimum_fee = null;
  maximum_fee = null;
  tax_rate = null;
  gov_fee_rate = null;
  stamp_duty_fixed = null;
  priority = none;
  status = codes "ACTIVE";
}

-- The row that is written over `current`.
unfoldable pub normalized : FeePayload → FeeConfig → FeeConfig
unfolding normalize_nullable_text parse_rate parse_amount parse_nullable_amount to_upper trim
normalized p current = record current {
  name = trim (text_or p.name current.name);
  flow_code = to_upper (trim (text_or p.flow_code current.flow_code));
  transaction_model =
      normalize_nullable_text (or_null p.transaction_model current.transaction_model);
  category_code = normalize_nullable_text (or_null p.category_code current.category_code);
  category_id = normalize_nullable_text (or_null p.category_id current.category_id);
  transaction_type = normalize_nullable_text (or_null p.transaction_type current.transaction_type);
  operation_type = normalize_nullable_text (or_null p.operation_type current.operation_type);
  direction = normalize_nullable_text (or_null p.direction current.direction);
  rail = normalize_nullable_text (or_null p.rail current.rail);
  channel = normalize_nullable_text (or_null p.channel current.channel);
  provider_id = or_null p.provider_id current.provider_id;
  currency = normalize_nullable_text (or_null p.currency current.currency);
  country_code = normalize_nullable_text (or_null p.country_code current.country_code);
  percentage_rate = millionths (parse_rate (or_raw p.percentage_rate current.percentage_rate));
  fixed_amount = hundredths (parse_amount (or_raw p.fixed_amount current.fixed_amount));
  minimum_fee = hundredths (parse_amount (or_raw p.minimum_fee current.minimum_fee));
  maximum_fee =
      nullable_hundredths (parse_nullable_amount (or_raw p.maximum_fee current.maximum_fee));
  tax_rate = millionths (parse_rate (or_raw p.tax_rate current.tax_rate));
  gov_fee_rate = millionths (parse_rate (or_raw p.gov_fee_rate current.gov_fee_rate));
  stamp_duty_fixed = hundredths (parse_amount (or_raw p.stamp_duty_fixed current.stamp_duty_fixed));
  priority = some (number_or (or_null p.priority current.priority) (pos 100));
  status = to_upper (trim (text_or p.status current.status));
}

-- The table, the caches of the process, and the audit log: whether a row was updated, and its id.
pub record FeeStore : Type 0 where
  pub rows : List FeeConfig
  pub caches : Caches
  pub audit : List (Bool × Text)

-- The id that the database gives to a new row, and the statements that it refuses, with a message.
pub record WriteEnv : Type 0 where
  pub new_id : Text
  pub read_error : Option Text
  pub write_error : Option Text

unfoldable pub find_config : Text → List FeeConfig → Option FeeConfig
unfolding text_eq
find_config id [] = none
find_config id (c ∷ cs) = if text_eq c.id id then some c else find_config id cs

unfoldable pub replace_config : FeeConfig → List FeeConfig → List FeeConfig
unfolding text_eq
replace_config d [] = []
replace_config d (c ∷ cs) = (if text_eq c.id d.id then d else c) ∷ replace_config d cs

abbrev pub is_empty : Text → Bool
is_empty [] = true
is_empty _ = false

-- The check, the write, and the clearing of the process's cache; Redis is left to expire.
unfoldable pub write_config : WriteEnv → Bool → FeeConfig → FeeStore → Outcome FeeConfig × FeeStore
unfolding replace_config
write_config env is_update c s =
    if is_empty c.name || is_empty c.flow_code
    then (thrown (codes "INVALID_PLATFORM_FEE_CONFIG"), s)
    else elim env.write_error [
      | some m ↦ (thrown m, s)
      | none ↦ (
        returned c,
        record {
          rows = if is_update then replace_config c s.rows else s.rows ++ c ∷ [];
          caches = record s.caches { memory = [] };
          audit = s.audit ++ (is_update, c.id) ∷ [];
        },
      )
    ]

unfoldable pub update_found :
    WriteEnv → FeePayload → Option FeeConfig → FeeStore → Outcome FeeConfig × FeeStore
unfolding write_config normalized
update_found env p none s = (thrown (codes "PLATFORM_FEE_CONFIG_NOT_FOUND"), s)
update_found env p (some c) s = write_config env true (normalized p c) s

-- An empty id is falsy, as a missing one.
unfoldable pub upsert_config :
    WriteEnv → FeePayload → Text → FeeStore → Outcome FeeConfig × FeeStore
unfolding write_config update_found normalized find_config no_config
upsert_config env p [] s = write_config env false (normalized p (no_config env.new_id)) s
upsert_config env p (k ∷ id) s = elim env.read_error [
  | some m ↦ (thrown m, s)
  | none ↦ update_found env p (find_config (k ∷ id) s.rows) s
]
