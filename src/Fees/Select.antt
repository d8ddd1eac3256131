-- ===== src/Fees/Select.antt =====
-- `selectBestConfig`, with `matchesOptionalField` and `specificityScore`: the filters, then the sort by
-- specificity and priority, of which the first element is taken.
use orbi_insitutional_core_v.Prelude.{
  ℕ, zero, suc, Bool, true, false, Option, none, some, List, [], ◌∷◌, if◌then◌else◌,
}
use orbi_insitutional_core_v.Prelude.Int.{ℤ, pos, ◌-ℤ◌, leb_ℤ}
use orbi_insitutional_core_v.Prelude.Text.{Text, to_upper, trim, text_eq}
use orbi_insitutional_core_v.Fees.{FeeConfig, FeeInput, normalize_nullable_text, or_null}

-- null, undefined, or only blanks
unfoldable pub is_blank : Option Text → Bool
unfolding trim
is_blank none = true
is_blank (some t) = elim (trim t) [ [] ↦ true | _ ↦ false ]

-- `String(value).trim().toUpperCase()`
abbrev upper_of : Option Text → Text
upper_of none = []
upper_of (some t) = to_upper (trim t)

unfoldable pub matches_optional_field : Option Text → Option Text → Bool
unfolding is_blank text_eq to_upper trim
matches_optional_field config_value input_value =
    if is_blank config_value
    then true
    else (if is_blank input_value
        then false
        else text_eq (upper_of config_value) (upper_of input_value))

-- The dimensions of a configuration, in the order of the filters.
unfoldable pub config_fields : List (FeeConfig → Option Text)
config_fields =
    (λ c. c.provider_id)
    ∷ (λ c. c.currency)
    ∷ (λ c. c.country_code)
    ∷ (λ c. c.rail)
    ∷ (λ c. c.channel)
    ∷ (λ c. c.direction)
    ∷ (λ c. or_null c.transaction_model c.metadata_transaction_model)
    ∷ (λ c. or_null c.category_code c.metadata_category_code)
    ∷ (λ c. or_null c.category_id c.metadata_category_id)
    ∷ (λ c. c.operation_type)
    ∷ (λ c. c.transaction_type)
    ∷ []

-- The same dimensions of an input. `providerId || null` leaves the case of a provider's id alone.
unfoldable pub input_values : FeeInput → List (Option Text)
unfolding normalize_nullable_text
input_values input =
    input.provider_id
    ∷ normalize_nullable_text (some input.currency)
    ∷ normalize_nullable_text input.country_code
    ∷ normalize_nullable_text input.rail
    ∷ normalize_nullable_text input.channel
    ∷ normalize_nullable_text input.direction
    ∷ normalize_nullable_text input.transaction_model
    ∷ normalize_nullable_text input.category_code
    ∷ normalize_nullable_text input.category_id
    ∷ normalize_nullable_text input.operation_type
    ∷ normalize_nullable_text input.transaction_type
    ∷ []

unfoldable pub filter {ℓ} : {A : Type ℓ} → (A → Bool) → List A → List A
filter p [] = []
filter p (x ∷ xs) = let rest = filter p xs in if p x then x ∷ rest else rest

-- The chain of `.filter` calls, one for each dimension.
unfoldable pub filter_by :
    List (FeeConfig → Option Text) → List (Option Text) → List FeeConfig → List FeeConfig
unfolding filter matches_optional_field
filter_by (field ∷ fields) (value ∷ values) configs =
    filter_by fields values (filter (λ c. matches_optional_field (field c) value) configs)
filter_by _ _ configs = configs

-- `[…].filter(filled).length`
unfoldable pub count_filled : List (FeeConfig → Option Text) → FeeConfig → ℕ
unfolding is_blank
count_filled [] c = 0
count_filled (field ∷ fields) c =
    let rest = count_filled fields c in if is_blank (field c) then rest else suc rest

unfoldable pub specificity_score : FeeConfig → ℕ
unfolding count_filled config_fields
specificity_score c = count_filled config_fields c

-- `Number(priority || 100)`: 0 is falsy
unfoldable pub priority_of : FeeConfig → ℤ
priority_of c = elim c.priority [ none ↦ pos 100 | some (pos zero) ↦ pos 100 | some z ↦ z ]

abbrev pub is_zero : ℤ → Bool
is_zero (pos zero) = true
is_zero _ = false

-- The comparison that the sort is given.
unfoldable pub compare_configs : FeeConfig → FeeConfig → ℤ
unfolding specificity_score priority_of ◌-ℤ◌
compare_configs a b =
    let delta = pos (specificity_score b) -ℤ pos (specificity_score a) in
    if is_zero delta then priority_of a -ℤ priority_of b else delta

-- `Array.prototype.sort`, which is stable: an element goes before the first one that it does not come
-- after.
unfoldable pub place_in : FeeConfig → List FeeConfig → List FeeConfig
unfolding compare_configs
place_in c [] = c ∷ []
place_in c (d ∷ ds) =
    let rest = place_in c ds in if leb_ℤ (compare_configs c d) (pos 0) then c ∷ d ∷ ds else d ∷ rest

unfoldable pub sort : List FeeConfig → List FeeConfig
unfolding place_in
sort [] = []
sort (c ∷ cs) = place_in c (sort cs)

abbrev pub first : List FeeConfig → Option FeeConfig
first [] = none
first (c ∷ cs) = some c

unfoldable pub select_best_config : List FeeConfig → FeeInput → Option FeeConfig
unfolding filter_by sort config_fields input_values
select_best_config configs input =
    first (sort (filter_by config_fields (input_values input) configs))
