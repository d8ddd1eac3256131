-- ===== src/Fees/Tests.antt =====
-- Fees of single configurations, and the theorems at single inputs.
use orbi_insitutional_core_v.Prelude.{
  ◌≡◌, refl, false, Option, none, some, List, [], ◌∷◌, if◌then◌else◌, arith, ltb,
}
use orbi_insitutional_core_v.Prelude.Int.{pos, ◌+ℤ◌, ◌-ℤ◌, ◌*ℤ◌}
use orbi_insitutional_core_v.Prelude.Text.{
  Text, codes, text_eq, trim, trim_start, to_upper, or_text,
}
use orbi_insitutional_core_v.Prelude.Dict.{lookup, insert}
use orbi_insitutional_core_v.Fees.{
  FeeConfig, FeeInput, null, millionths, round_div, round_amount, parse_rate, parse_amount,
  parse_nullable_amount, normalize_nullable_text,
}
use orbi_insitutional_core_v.Fees.Select.{
  is_blank, matches_optional_field, config_fields, input_values, filter, filter_by, count_filled,
  specificity_score, priority_of, compare_configs, place_in, sort, select_best_config,
}
use orbi_insitutional_core_v.Fees.Compute.{
  Outcome, returned, rate_of, round_sum, clamp_fee, compute_from_config, resolve_fee,
}
use orbi_insitutional_core_v.Fees.Catalog.{
  FeeFilters, FeeEnv, build_cache_key, redis_get, redis_set, from_database, from_redis, from_memory,
  list_configs,
}
use orbi_insitutional_core_v.Fees.Best.{IsBest, select_best_config-IsBest}
use orbi_insitutional_core_v.Fees.Bounds.{IsResolved, resolve_fee-IsResolved}
use orbi_insitutional_core_v.Fees.Cluster.{Cluster, started, waited, end_of, caches_of}
use orbi_insitutional_core_v.Fees.Recent.{IsRecent, list_configs-IsRecent}

-- 1.5 %, at least 1.00 and at most 20.00, with 18 % tax.
abbrev general : FeeConfig
general = record {
  id = codes "general";
  name = codes "General";
  flow_code = codes "EXTERNAL_PAYMENT";
  transaction_model = none;
  category_code = none;
  category_id = none;
  transaction_type = none;
  operation_type = none;
  direction = none;
  rail = none;
  channel = none;
  provider_id = none;
  currency = some (codes "TZS");
  country_code = none;
  metadata_transaction_model = none;
  metadata_category_code = none;
  metadata_category_id = none;
  percentage_rate = millionths (pos 15000);
  fixed_amount = null;
  minimum_fee = millionths (pos 1000000);
  maximum_fee = millionths (pos 20000000);
  tax_rate = millionths (pos 180000);
  gov_fee_rate = null;
  stamp_duty_fixed = null;
  priority = some (pos 50);
  status = codes "ACTIVE";
}

abbrev for_bank : FeeConfig
for_bank = record general { id = codes "bank"; rail = some (codes "bank "); priority = none }

-- A priority of 0 counts as 100.
abbrev foremost : FeeConfig
foremost = record general { id = codes "foremost"; priority = some (pos 0) }

abbrev payment : FeeInput
payment = record {
  flow_code = codes "external_payment";
  amount = millionths (pos 250000000);
  currency = codes "tzs";
  provider_id = none;
  country_code = none;
  rail = some (codes "BANK");
  channel = none;
  direction = none;
  transaction_model = none;
  category_code = none;
  category_id = none;
  operation_type = none;
  transaction_type = none;
}

abbrev ids : Option FeeConfig → Text
ids none = []
ids (some c) = c.id

specific_first : ids (select_best_config (general ∷ for_bank ∷ []) payment) ≡ codes "bank"
unfolding select_best_config filter_by filter matches_optional_field is_blank config_fields
    input_values sort place_in compare_configs specificity_score count_filled priority_of text_eq
    normalize_nullable_text trim trim_start to_upper ◌-ℤ◌
specific_first = refl

zero_priority_is_last : ids (select_best_config (foremost ∷ general ∷ []) payment) ≡ codes "general"
unfolding select_best_config filter_by filter matches_optional_field is_blank config_fields
    input_values sort place_in compare_configs specificity_score count_filled priority_of text_eq
    normalize_nullable_text trim trim_start to_upper ◌-ℤ◌
zero_priority_is_last = refl

total_of_250 : (compute_from_config general (pos 25000) (codes "TZS") payment).total_fee ≡ pos 4875
unfolding compute_from_config parse_rate parse_amount parse_nullable_amount round_amount round_div
    rate_of round_sum clamp_fee ◌+ℤ◌ ◌-ℤ◌ ◌*ℤ◌ trim trim_start to_upper or_text
total_of_250 = refl

select_best_config-IsBest_example :
    IsBest (general ∷ for_bank ∷ []) payment (select_best_config (general ∷ for_bank ∷ []) payment)
select_best_config-IsBest_example = select_best_config-IsBest (general ∷ for_bank ∷ []) payment

resolve_fee-IsResolved_example :
    IsResolved (general ∷ for_bank ∷ []) payment (resolve_fee (general ∷ for_bank ∷ []) payment)
resolve_fee-IsResolved_example = resolve_fee-IsResolved (general ∷ for_bank ∷ []) payment

-- The row is changed at 10000.
abbrev env : FeeEnv
env = record {
  answers = λ t flow status. some ((if ltb t 10000 then general else for_bank) ∷ []);
  error_message = codes "offline";
  get_fails = λ t. false;
  set_fails = λ t. false;
  wait = λ t. 0;
}

abbrev filters : FeeFilters
filters = record {
  flow_code = codes "A";
  status = codes "ACTIVE";
  provider_id = [];
  currency = [];
  country_code = [];
  rail = [];
  transaction_model = [];
  category_code = [];
  category_id = [];
}

abbrev empty : Cluster
empty = record { memory = λ i. []; redis = some [] }

-- One process reads at 1000, another at 60999 from Redis, and again at 120998 from its own map.
abbrev first_id : Outcome (List FeeConfig) → Text
first_id (returned (c ∷ cs)) = c.id
first_id _ = []

old_rows_served :
    first_id
      (list_configs env 120998 filters
        (list_configs env 60999 filters
          (record (list_configs env 1000 filters (caches_of 0 empty)).1 { memory = [] })).1).0
    ≡ codes "general"
unfolding list_configs from_memory from_redis from_database redis_get redis_set build_cache_key
    lookup insert text_eq trim trim_start to_upper
old_rows_served = refl

-- Each way takes 20 milliseconds.
abbrev slow : FeeEnv
slow = record env { wait = λ t. 20 }

list_configs-IsRecent_example :
    IsRecent slow 20 60000
      (end_of slow 60000 filters (caches_of 1 empty))
      filters
      (list_configs slow 60000 filters (caches_of 1 empty)).0
list_configs-IsRecent_example =
    list_configs-IsRecent slow 20 60000 empty 1 filters (λ t. omega arith)
      (waited 60000 (omega arith) (started 1000))
