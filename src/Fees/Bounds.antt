-- ===== src/Fees/Bounds.antt =====
-- What every fee that `resolveFee` gives satisfies, and when it gives none.
use orbi_insitutional_core_v.Prelude.{
  ◌+◌, ◌*◌, ◌≤◌, ◌<◌, ◌≡◌, refl, sym, ap, ◌⊎◌, inl, inr, arith, Option, none, some, List, [], ◌∷◌,
  Bool-cases,
}
use orbi_insitutional_core_v.Prelude.Int.{
  ℤ, pos, negsuc, ◌≤ℤ◌, ◌+ℤ◌, ◌-ℤ◌, ◌*ℤ◌, leb_ℤ, ltb_ℤ, pos_part, neg_part, int_laws,
}
use orbi_insitutional_core_v.Prelude.Text.{Text, to_upper, trim}
use orbi_insitutional_core_v.Fees.{
  FeeConfig, FeeInput, round_div, parse_amount, parse_rate, parse_nullable_amount,
}
use orbi_insitutional_core_v.Fees.Select.{select_best_config}
use orbi_insitutional_core_v.Fees.Compute.{
  for_currency, cap_fee, raise_fee, FeeComputation, Outcome, returned, thrown, rate_of, round_sum,
  clamp_fee, compute_from_config, with_config, resolve_fee,
}
use orbi_insitutional_core_v.Fees.Best.{IsBest, select_best_config-IsBest}

-- `share` is amount * rate / 1000000 to the nearest, halves towards plus infinity.
abbrev pub IsShare : ℤ → ℤ → ℤ → Type 0
IsShare amount rate share =
    let z = amount *ℤ rate in
    (2000000 * pos_part share + 2 * neg_part z
      ≤ 2 * pos_part z + 1000000 + 2000000 * neg_part share)
    × (2 * pos_part z + 2000000 * neg_part share
        < 2000000 * pos_part share + 1000000 + 2 * neg_part z)

abbrev IsAtMost : Option ℤ → ℤ → Type 0
IsAtMost none fee = Unit
IsAtMost (some m) fee = fee ≤ℤ m

abbrev IsBelow : Option ℤ → ℤ → Type 0
IsBelow none z = ⊥
IsBelow (some m) z = m ≤ℤ z

-- The fee is at most the maximum; it is at least a positive minimum that the maximum leaves room for;
-- and it is the raw fee or one of the two limits.
abbrev pub IsClamped : ℤ → Option ℤ → ℤ → ℤ → Type 0
IsClamped minimum maximum raw fee =
    IsAtMost maximum fee
    × ((minimum ≤ℤ pos 0) ⊎ (minimum ≤ℤ fee) ⊎ IsBelow maximum minimum)
    × ((fee ≡ raw) ⊎ (fee ≡ minimum) ⊎ (maximum ≡ some fee))

abbrev pub IsPriced : FeeComputation → Type 0
IsPriced f =
    (f.total_fee ≡ f.service_fee +ℤ f.tax_amount +ℤ f.gov_fee_amount +ℤ f.stamp_duty_fixed)
    × (f.net_amount +ℤ f.total_fee ≡ f.amount)
    × IsClamped f.minimum_fee f.maximum_fee (f.percentage_fee +ℤ f.fixed_amount) f.service_fee
    × IsShare f.amount f.percentage_rate f.percentage_fee
    × IsShare f.amount f.tax_rate f.tax_amount
    × IsShare f.amount f.gov_fee_rate f.gov_fee_amount

-- The rates and amounts are those of the configuration and of the input.
abbrev pub IsComputedFrom : FeeConfig → FeeInput → FeeComputation → Type 0
IsComputedFrom c input f =
    (f.config_id ≡ c.id)
    × (f.currency ≡ to_upper (trim input.currency))
    × (f.amount ≡ parse_amount input.amount)
    × (f.percentage_rate ≡ parse_rate c.percentage_rate)
    × (f.fixed_amount ≡ parse_amount c.fixed_amount)
    × (f.minimum_fee ≡ parse_amount c.minimum_fee)
    × (f.maximum_fee ≡ parse_nullable_amount c.maximum_fee)
    × (f.tax_rate ≡ parse_rate c.tax_rate)
    × (f.gov_fee_rate ≡ parse_rate c.gov_fee_rate)
    × (f.stamp_duty_fixed ≡ parse_amount c.stamp_duty_fixed)

-- A fee is that of the best configuration; without one, the currency is blank or no row is eligible.
abbrev pub IsResolved : List FeeConfig → FeeInput → Outcome FeeComputation → Type 0
IsResolved rows input (returned f) =
    ((c : FeeConfig) × IsBest rows input (some c) × IsComputedFrom c input f) × IsPriced f
IsResolved rows input (thrown message) =
    (to_upper (trim input.currency) ≡ []) ⊎ IsBest rows input none

nearest :
    (z : ℤ)
    → let r = round_div 1000000 z in
      (2000000 * pos_part r + 2 * neg_part z ≤ 2 * pos_part z + 1000000 + 2000000 * neg_part r)
      × (2 * pos_part z + 2000000 * neg_part r < 2000000 * pos_part r + 1000000 + 2 * neg_part z)
unfolding round_div
nearest (pos n) = (omega arith, omega arith)
nearest (negsuc n) = ground arith

rate_of-IsShare : (amount rate : ℤ) → IsShare amount rate (rate_of amount rate)
unfolding rate_of
rate_of-IsShare amount rate = nearest (amount *ℤ rate)

round_sum_lem : (z : ℤ) → round_sum z ≡ z
unfolding round_sum round_div
round_sum_lem (pos n) = ap pos (omega arith)
round_sum_lem (negsuc n) = ground arith

raise_fee_lem :
    (minimum raw : ℤ)
    → ((minimum ≤ℤ pos 0) ⊎ (minimum ≤ℤ raise_fee minimum raw))
      × ((raise_fee minimum raw ≡ raw) ⊎ (raise_fee minimum raw ≡ minimum))
raise_fee_lem minimum raw = elim (Bool-cases (ltb_ℤ (pos 0) minimum)) [
  | inl e ↦ rw e (elim (Bool-cases (leb_ℤ raw minimum)) [
    | inl d ↦ rw d (inr (omega arith), inr refl)
    | inr d ↦ rw d (inr (ground arith), inl refl)
  ])
  | inr e ↦ rw e (inl (ground arith), inl refl)
]

cap_fee-IsClamped :
    (minimum : ℤ) (maximum : Option ℤ) (raw fee : ℤ)
    → ((minimum ≤ℤ pos 0) ⊎ (minimum ≤ℤ fee)) × ((fee ≡ raw) ⊎ (fee ≡ minimum))
    → IsClamped minimum maximum raw (cap_fee maximum fee)
cap_fee-IsClamped minimum none raw fee h = (
  tt,
  (elim h.0 [ inl l ↦ inl l | inr l ↦ inr (inl l) ]),
  (elim h.1 [ inl e ↦ inl e | inr e ↦ inr (inl e) ]),
)
cap_fee-IsClamped minimum (some m) raw fee h = elim (Bool-cases (leb_ℤ fee m)) [
  | inl e ↦ rw e (
    ground arith,
    (elim h.0 [ inl l ↦ inl l | inr l ↦ inr (inl l) ]),
    (elim h.1 [ inl d ↦ inl d | inr d ↦ inr (inl d) ]),
  )
  | inr e ↦ rw e (omega arith, inr (ground arith), inr (inr refl))
]

clamp_fee-IsClamped :
    (minimum : ℤ) (maximum : Option ℤ) (raw : ℤ)
    → IsClamped minimum maximum raw (clamp_fee minimum maximum raw)
unfolding clamp_fee
clamp_fee-IsClamped minimum maximum raw =
    cap_fee-IsClamped minimum maximum raw (raise_fee minimum raw) (raise_fee_lem minimum raw)

service_fee-IsClamped :
    (minimum : ℤ) (maximum : Option ℤ) (raw : ℤ)
    → IsClamped minimum maximum raw (clamp_fee minimum maximum (round_sum raw))
service_fee-IsClamped minimum maximum raw =
    rw (round_sum_lem raw) (clamp_fee-IsClamped minimum maximum raw)

net_lem : (amount total : ℤ) → round_sum (amount -ℤ total) +ℤ total ≡ amount
net_lem amount total = rw (round_sum_lem (amount -ℤ total)) (grind int_laws)

compute_from_config-IsPriced :
    (config : FeeConfig) (amount : ℤ) (currency : Text) (input : FeeInput)
    → IsPriced (compute_from_config config amount currency input)
unfolding compute_from_config
compute_from_config-IsPriced config amount currency input = (
  round_sum_lem _,
  net_lem amount (compute_from_config config amount currency input).total_fee,
  service_fee-IsClamped _ _ _,
  rate_of-IsShare amount _,
  rate_of-IsShare amount _,
  rate_of-IsShare amount _,
)

compute_from_config-IsComputedFrom :
    (c : FeeConfig) (currency : Text) (input : FeeInput)
    → to_upper (trim input.currency) ≡ currency
    → IsComputedFrom c input (compute_from_config c (parse_amount input.amount) currency input)
unfolding compute_from_config
compute_from_config-IsComputedFrom c currency input e =
    (refl, sym e, refl, refl, refl, refl, refl, refl, refl, refl)

with_config-IsResolved :
    (rows : List FeeConfig) (input : FeeInput) (flow currency : Text) (o : Option FeeConfig)
    → to_upper (trim input.currency) ≡ currency
    → IsBest rows input o
    → IsResolved rows input (with_config input flow currency o)
unfolding with_config
with_config-IsResolved rows input flow currency none e h = inr h
with_config-IsResolved rows input flow currency (some c) e h = (
  (c, h, compute_from_config-IsComputedFrom c currency input e),
  compute_from_config-IsPriced c (parse_amount input.amount) currency input,
)

for_currency-IsResolved :
    (rows : List FeeConfig) (input : FeeInput) (flow currency : Text)
    → to_upper (trim input.currency) ≡ currency
    → IsResolved rows input (for_currency rows input flow currency)
unfolding for_currency
for_currency-IsResolved rows input flow [] e = inl e
for_currency-IsResolved rows input flow (c ∷ s) e =
    with_config-IsResolved rows input flow (c ∷ s) (select_best_config rows input) e
      (select_best_config-IsBest rows input)

-- A fee that `resolve_fee` gives is computed from the rates and amounts of the best configuration
-- and from the amount of the input: its shares of the amount are rounded to the nearest hundredth;
-- its service fee is at most the maximum, and at least a positive minimum that is not above the
-- maximum; its total is the sum of its four parts, and the total and the net amount make up the
-- amount. It throws only where the currency is blank or no row is eligible.
pub resolve_fee-IsResolved :
    (rows : List FeeConfig) (input : FeeInput) → IsResolved rows input (resolve_fee rows input)
unfolding resolve_fee
resolve_fee-IsResolved rows input =
    for_currency-IsResolved rows input (to_upper (trim input.flow_code))
      (to_upper (trim input.currency)) refl
