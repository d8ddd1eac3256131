-- ===== src/FeeClass/Tests.antt =====
-- Classifications, and the theorem at single inputs.
use orbi_insitutional_core_v.Prelude.{◌≡◌, refl, inl, inr, none, []}
use orbi_insitutional_core_v.Prelude.Text.{
  codes, text_eq, trim, trim_start, to_upper, to_lower, or_text,
}
use orbi_insitutional_core_v.FeeClass.{
  ClassificationInput, normalize, normalize_type, is, classify, resolve_operation_type,
  resolve_direction, resolve_provider_operation,
}
use orbi_insitutional_core_v.FeeClass.Agreement.{collects_iff_enters}

abbrev agent_cash : ClassificationInput
agent_cash = record {
  type = codes "internal";
  category = [];
  category_id = none;
  channel = codes " app ";
  rail = [];
  operation = [];
  metadata_category = [];
  metadata_category_id = none;
  metadata_channel = [];
  metadata_rail = [];
  metadata_operation = [];
  direction = [];
  flow_code = [];
  service_context = codes "agent_cash";
  cash_direction = codes "Deposit";
}

-- Without a cash direction, the money is collected and yet said to stay inside.
unsaid_direction :
    (resolve_provider_operation (classify (record agent_cash { cash_direction = [] }))
      ≡ codes "COLLECTION_REQUEST")
    × ((classify (record agent_cash { cash_direction = [] })).direction
        ≡ codes "INTERNAL_TO_INTERNAL")
unfolding classify resolve_provider_operation resolve_operation_type resolve_direction normalize
    normalize_type text_eq trim trim_start to_upper to_lower or_text
unsaid_direction = (refl, refl)

collects_iff_enters_example :
    is (codes "COLLECTION_REQUEST") (classify agent_cash).operation_type
    ≡ is (codes "EXTERNAL_TO_INTERNAL") (classify agent_cash).direction
unfolding normalize trim trim_start to_upper to_lower or_text text_eq
collects_iff_enters_example = collects_iff_enters agent_cash refl refl (inr (inl refl))
