-- ===== src/Fees/Compute.antt =====
-- `computeFromConfig` and `resolveFee`, the catalogue's answer given.
use orbi_insitutional_core_v.Prelude.{Option, none, some, List, [], ◌∷◌, ◌++◌, if◌then◌else◌}
use orbi_insitutional_core_v.Prelude.Int.{ℤ, pos, ◌+ℤ◌, ◌-ℤ◌, ◌*ℤ◌, ltb_ℤ, leb_ℤ}
use orbi_insitutional_core_v.Prelude.Text.{Text, codes, to_upper, trim, or_text}
use orbi_insitutional_core_v.Fees.{
  FeeConfig, FeeInput, round_div, parse_rate, parse_amount, parse_nullable_amount,
}
use orbi_insitutional_core_v.Fees.Select.{select_best_config}

-- The amounts of `PlatformFeeComputation`, with the configuration that they come from. Its
-- `classification` and `metadata` copy the input.
pub record FeeComputation : Type 0 where
  pub flow_code : Text
  pub config_id : Text
  pub config_name : Text
  pub currency : Text
  pub amount : ℤ
  pub percentage_rate : ℤ
  pub fixed_amount : ℤ
  pub minimum_fee : ℤ
  pub maximum_fee : Option ℤ
  pub tax_rate : ℤ
  pub gov_fee_rate : ℤ
  pub stamp_duty_fixed : ℤ
  pub percentage_fee : ℤ
  pub service_fee : ℤ
  pub tax_amount : ℤ
  pub gov_fee_amount : ℤ
  pub total_fee : ℤ
  pub net_amount : ℤ

-- `roundAmount(amount * rate)`: the product of hundredths and millionths
unfoldable pub rate_of : ℤ → ℤ → ℤ
unfolding round_div ◌*ℤ◌
rate_of amount rate = round_div 1000000 (amount *ℤ rate)

-- `roundAmount` of a sum of amounts, which is whole already
unfoldable pub round_sum : ℤ → ℤ
unfolding round_div
round_sum z = round_div 1 z

abbrev pub max_ℤ : ℤ → ℤ → ℤ
max_ℤ a b = if leb_ℤ a b then b else a

abbrev pub min_ℤ : ℤ → ℤ → ℤ
min_ℤ a b = if leb_ℤ a b then a else b

-- The minimum first, so that a maximum below it wins.
abbrev pub raise_fee : ℤ → ℤ → ℤ
raise_fee minimum_fee fee = if ltb_ℤ (pos 0) minimum_fee then max_ℤ fee minimum_fee else fee

abbrev pub cap_fee : Option ℤ → ℤ → ℤ
cap_fee none fee = fee
cap_fee (some m) fee = min_ℤ fee m

unfoldable pub clamp_fee : ℤ → Option ℤ → ℤ → ℤ
clamp_fee minimum_fee maximum_fee fee = cap_fee maximum_fee (raise_fee minimum_fee fee)

unfoldable pub compute_from_config : FeeConfig → ℤ → Text → FeeInput → FeeComputation
unfolding parse_rate parse_amount parse_nullable_amount rate_of round_sum clamp_fee trim to_upper
    or_text ◌+ℤ◌ ◌-ℤ◌
compute_from_config config amount currency input =
    let percentage_rate = parse_rate config.percentage_rate in
    let fixed_amount = parse_amount config.fixed_amount in
    let minimum_fee = parse_amount config.minimum_fee in
    let maximum_fee = parse_nullable_amount config.maximum_fee in
    let tax_rate = parse_rate config.tax_rate in
    let gov_fee_rate = parse_rate config.gov_fee_rate in
    let stamp_duty_fixed = parse_amount config.stamp_duty_fixed in
    let percentage_fee = rate_of amount percentage_rate in
    let service_fee =
      clamp_fee minimum_fee maximum_fee (round_sum (percentage_fee +ℤ fixed_amount)) in
    let tax_amount = rate_of amount tax_rate in
    let gov_fee_amount = rate_of amount gov_fee_rate in
    let total_fee = round_sum (service_fee +ℤ tax_amount +ℤ gov_fee_amount +ℤ stamp_duty_fixed) in
    record {
      flow_code = to_upper (trim (or_text config.flow_code input.flow_code));
      config_id = config.id;
      config_name = or_text config.name (codes "CONFIGURED_FEE");
      currency = currency;
      amount = amount;
      percentage_rate = percentage_rate;
      fixed_amount = fixed_amount;
      minimum_fee = minimum_fee;
      maximum_fee = maximum_fee;
      tax_rate = tax_rate;
      gov_fee_rate = gov_fee_rate;
      stamp_duty_fixed = stamp_duty_fixed;
      percentage_fee = percentage_fee;
      service_fee = service_fee;
      tax_amount = tax_amount;
      gov_fee_amount = gov_fee_amount;
      total_fee = total_fee;
      net_amount = round_sum (amount -ℤ total_fee);
    }

-- A value, or the message of the error that was thrown.
pub data Outcome (A : Type 0) : Type 0 where
  returned : A → Outcome A
  thrown : Text → Outcome A

unfoldable pub with_config : FeeInput → Text → Text → Option FeeConfig → Outcome FeeComputation
unfolding compute_from_config parse_amount or_text
with_config input flow currency none = thrown (
    codes "PLATFORM_FEE_CONFIG_REQUIRED:"
    ++ flow
    ++ codes ":"
    ++ currency
    ++ codes ":"
    ++ (elim input.provider_id [ none ↦ codes "ANY" | some p ↦ or_text p (codes "ANY") ]))
with_config input flow currency (some config) =
    returned (compute_from_config config (parse_amount input.amount) currency input)

unfoldable pub for_currency : List FeeConfig → FeeInput → Text → Text → Outcome FeeComputation
unfolding select_best_config with_config
for_currency rows input flow [] = thrown (codes "FEE_CURRENCY_REQUIRED:" ++ flow)
for_currency rows input flow (c ∷ s) =
    with_config input flow (c ∷ s) (select_best_config rows input)

-- `resolveFee`, where `listConfigs` answers with the rows given.
unfoldable pub resolve_fee : List FeeConfig → FeeInput → Outcome FeeComputation
unfolding for_currency trim to_upper
resolve_fee rows input =
    for_currency rows input (to_upper (trim input.flow_code)) (to_upper (trim input.currency))
