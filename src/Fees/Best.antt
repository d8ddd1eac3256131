-- ===== src/Fees/Best.antt =====
-- The contract of `selectBestConfig`, without filters or sort: an eligible row that none of the eligible
-- ones is ahead of, and nothing only if no row is eligible.
use mathlib.Core.List.{Memᴰ}
use mathlib.Core.List.Memᴰ
use orbi_insitutional_core_v.Prelude.{
  ◌↔◌, ◌∙◌, ℕ, zero, suc, ◌+◌, ◌<◌, ◌≡◌, refl, sym, ap, ◌⊎◌, inl, inr, arith, Bool, true, false,
  ◌&&◌, Option, none, some, List, [], ◌∷◌, if◌then◌else◌, Bool-cases, All,
}
use orbi_insitutional_core_v.Prelude.Int.{ℤ, pos, negsuc, ◌≤ℤ◌, ◌-ℤ◌, leb_ℤ, pos_part, neg_part}
use orbi_insitutional_core_v.Prelude.Text.{Text}
use orbi_insitutional_core_v.Fees.{FeeConfig, FeeInput}
use orbi_insitutional_core_v.Fees.Select.{
  is_zero, matches_optional_field, config_fields, input_values, filter, filter_by,
  specificity_score, priority_of, compare_configs, place_in, sort, first, select_best_config,
}

abbrev matches_all : List (FeeConfig → Option Text) → List (Option Text) → FeeConfig → Bool
matches_all (field ∷ fields) (value ∷ values) c =
    matches_optional_field (field c) value && matches_all fields values c
matches_all _ _ c = true

-- Every dimension of the row is blank or the input's.
abbrev pub eligible : FeeInput → FeeConfig → Bool
eligible input c = matches_all config_fields (input_values input) c

-- More specific, or as specific with a priority that is no larger.
abbrev pub IsAhead : FeeConfig → FeeConfig → Type 0
IsAhead a b =
    (specificity_score b < specificity_score a)
    ⊎ ((specificity_score a ≡ specificity_score b) × (priority_of a ≤ℤ priority_of b))

abbrev pub IsBest : List FeeConfig → FeeInput → Option FeeConfig → Type 0
IsBest configs input none = All (λ d. eligible input d ≡ false) configs
IsBest configs input (some c) =
    Memᴰ c configs
    × (eligible input c ≡ true)
    × All (λ d. (eligible input d ≡ false) ⊎ IsAhead c d) configs

minus_nonpos_iff : (a b : ℤ) → (leb_ℤ (a -ℤ b) (pos 0) ≡ true) ↔ (a ≤ℤ b)
unfolding ◌-ℤ◌
minus_nonpos_iff a b = ground arith

is_zero_parts : (z : ℤ) → (is_zero z ≡ true) ↔ (pos_part z + neg_part z ≡ 0)
is_zero_parts (pos zero) = (λ h. refl, λ h. refl)
is_zero_parts (pos (suc n)) = ground arith
is_zero_parts (negsuc n) = ground arith

is_zero_iff : (a b : ℕ) → (is_zero (pos a -ℤ pos b) ≡ true) ↔ (a ≡ b)
unfolding ◌-ℤ◌
is_zero_iff a b = ground (arith, is_zero_parts (pos a -ℤ pos b))

-- The comparator on the numbers that it compares, its test given.
module _ (sa sb : ℕ) (pa pb : ℤ) where
  abbrev comparison : Bool → ℤ
  comparison b = if b then pa -ℤ pb else pos sb -ℤ pos sa

  comparison_ahead :
      (b : Bool)
      → (b ≡ true) ↔ (sb ≡ sa)
      → leb_ℤ (comparison b) (pos 0) ≡ true
      → (sb < sa) ⊎ ((sa ≡ sb) × (pa ≤ℤ pb))
  comparison_ahead true k h = inr (sym (k.0 refl), (minus_nonpos_iff pa pb).0 h)
  comparison_ahead false k h = ground (arith, k, minus_nonpos_iff (pos sb) (pos sa))

  comparison_behind :
      (b : Bool)
      → (b ≡ true) ↔ (sb ≡ sa)
      → leb_ℤ (comparison b) (pos 0) ≡ false
      → (sa < sb) ⊎ ((sb ≡ sa) × (pb ≤ℤ pa))
  comparison_behind true k h = inr (k.0 refl, ground (arith, minus_nonpos_iff pa pb))
  comparison_behind false k h = ground (arith, k, minus_nonpos_iff (pos sb) (pos sa))

compare-IsAhead : (a b : FeeConfig) → leb_ℤ (compare_configs a b) (pos 0) ≡ true → IsAhead a b
unfolding compare_configs
compare-IsAhead a b h =
    let t = is_zero_iff (specificity_score b) (specificity_score a) in
    comparison_ahead (specificity_score a) (specificity_score b) (priority_of a) (priority_of b)
      (is_zero (pos (specificity_score b) -ℤ pos (specificity_score a))) t h

compare-IsAhead_flipped :
    (a b : FeeConfig) → leb_ℤ (compare_configs a b) (pos 0) ≡ false → IsAhead b a
unfolding compare_configs
compare-IsAhead_flipped a b h =
    let t = is_zero_iff (specificity_score b) (specificity_score a) in
    comparison_behind (specificity_score a) (specificity_score b) (priority_of a) (priority_of b)
      (is_zero (pos (specificity_score b) -ℤ pos (specificity_score a))) t h

IsAhead-trans : (a b c : FeeConfig) → IsAhead a b → IsAhead b c → IsAhead a c
IsAhead-trans a b c h k = ground arith

module _ {A : Type 0} where
  All-map : (P Q : A → Type 0) → ((x : A) → P x → Q x) → (xs : List A) → All P xs → All Q xs
  All-map P Q f [] h = h
  All-map P Q f (x ∷ xs) h = (f x h.0, All-map P Q f xs h.1)

  All-pick :
      (P : A → Type 0) (b : Bool) (x : A) (l : List A)
      → All P (if b then x ∷ l else l)
      → ((b ≡ false) ⊎ P x) × All P l
  All-pick P true x l h = (inr h.0, h.1)
  All-pick P false x l h = (inl refl, h)

  Mem-pick :
      (b : Bool) (x y : A) (l : List A)
      → Memᴰ x (if b then y ∷ l else l)
      → ((x ≡ y) × (b ≡ true)) ⊎ Memᴰ x l
  Mem-pick true x y l (Memᴰ.head e) = inl (e, refl)
  Mem-pick true x y l (Memᴰ.tail m) = inr m
  Mem-pick false x y l h = inr h

  All-filter :
      (P : A → Type 0) (p : A → Bool) (xs : List A)
      → All P (filter p xs)
      → All (λ x. (p x ≡ false) ⊎ P x) xs
  unfolding filter
  All-filter P p [] h = h
  All-filter P p (x ∷ xs) h =
      let k = All-pick P (p x) x (filter p xs) h in (k.0, All-filter P p xs k.1)

  Mem-filter :
      (p : A → Bool) (x : A) (xs : List A) → Memᴰ x (filter p xs) → Memᴰ x xs × (p x ≡ true)
  unfolding filter
  Mem-filter p x [] h = elim (Memᴰ.not-nil h) [ ]
  Mem-filter p x (y ∷ xs) h = elim (Mem-pick (p y) x y (filter p xs) h) [
    | inl k ↦ (Memᴰ.head k.0, ap p k.0 ∙ k.1)
    | inr m ↦ let k = Mem-filter p x xs m in (Memᴰ.tail k.0, k.1)
  ]

-- What is first after the sort: one of the rows, ahead of all.
abbrev IsFirst : List FeeConfig → Option FeeConfig → Type 0
IsFirst cs none = cs ≡ []
IsFirst cs (some c) = Memᴰ c cs × All (IsAhead c) cs

place_in-IsFirst :
    (c : FeeConfig) (cs ds : List FeeConfig)
    → IsFirst cs (first ds)
    → IsFirst (c ∷ cs) (first (place_in c ds))
unfolding place_in
place_in-IsFirst c cs [] h = rw h (Memᴰ.head refl, (inr (refl, omega arith), tt))
place_in-IsFirst c cs (d ∷ ds) h = elim (Bool-cases (leb_ℤ (compare_configs c d) (pos 0))) [
  | inl e ↦
      let k = compare-IsAhead c d e in
      rw e (
        Memᴰ.head refl,
        (
          inr (refl, omega arith),
          All-map (IsAhead d) (IsAhead c) (λ x. IsAhead-trans c d x k) cs h.1,
        ),
      )
  | inr e ↦ rw e (Memᴰ.tail h.0, (compare-IsAhead_flipped c d e, h.1))
]

sort-IsFirst : (cs : List FeeConfig) → IsFirst cs (first (sort cs))
unfolding sort
sort-IsFirst [] = refl
sort-IsFirst (c ∷ cs) = place_in-IsFirst c cs (sort cs) (sort-IsFirst cs)

drop : {Q : Type 0} (a b : Bool) → (a ≡ false) ⊎ ((b ≡ false) ⊎ Q) → (a && b ≡ false) ⊎ Q
drop true b (inl e) = inl (cc)
drop true b (inr k) = k
drop false b k = inl refl

-- What holds of all rows that are left holds of each row unless a filter drops it.
All-filter_by :
    (P : FeeConfig → Type 0) (fields : List (FeeConfig → Option Text)) (values : List (Option Text))
    (cs : List FeeConfig)
    → All P (filter_by fields values cs)
    → All (λ d. (matches_all fields values d ≡ false) ⊎ P d) cs
unfolding filter_by
All-filter_by P (f ∷ fs) (v ∷ vs) cs h =
    All-map (λ d. (matches_optional_field (f d) v ≡ false) ⊎ ((matches_all fs vs d ≡ false) ⊎ P d))
      (λ d. (matches_all (f ∷ fs) (v ∷ vs) d ≡ false) ⊎ P d)
      (λ d k. drop (matches_optional_field (f d) v) (matches_all fs vs d) k) cs
      (All-filter (λ d. (matches_all fs vs d ≡ false) ⊎ P d) (λ d. matches_optional_field (f d) v)
        cs (All-filter_by P fs vs (filter (λ d. matches_optional_field (f d) v) cs) h))
All-filter_by P [] vs cs h = All-map P (λ d. (true ≡ false) ⊎ P d) (λ d k. inr k) cs h
All-filter_by P (f ∷ fs) [] cs h = All-map P (λ d. (true ≡ false) ⊎ P d) (λ d k. inr k) cs h

Mem-filter_by :
    (fields : List (FeeConfig → Option Text)) (values : List (Option Text)) (c : FeeConfig)
    (cs : List FeeConfig)
    → Memᴰ c (filter_by fields values cs)
    → Memᴰ c cs × (matches_all fields values c ≡ true)
unfolding filter_by
Mem-filter_by (f ∷ fs) (v ∷ vs) c cs h =
    let k = Mem-filter_by fs vs c (filter (λ d. matches_optional_field (f d) v) cs) h in
    let l = Mem-filter (λ d. matches_optional_field (f d) v) c cs k.0 in (l.0, rw (l.1, k.1) refl)
Mem-filter_by [] vs c cs h = (h, refl)
Mem-filter_by (f ∷ fs) [] c cs h = (h, refl)

module _ (configs : List FeeConfig) (input : FeeInput) where
  abbrev left : List FeeConfig
  left = filter_by config_fields (input_values input) configs

  IsFirst-IsBest : (o : Option FeeConfig) → IsFirst left o → IsBest configs input o
  IsFirst-IsBest none h =
      All-map (λ d. (eligible input d ≡ false) ⊎ ⊥) (λ d. eligible input d ≡ false)
        (λ d k. elim k [ inl e ↦ e | inr x ↦ absurd x ]) configs
        (All-filter_by (λ d. ⊥) config_fields (input_values input) configs (rw h tt))
  IsFirst-IsBest (some c) h =
      let k = Mem-filter_by config_fields (input_values input) c configs h.0 in
      (k.0, k.1, All-filter_by (IsAhead c) config_fields (input_values input) configs h.1)

-- `select_best_config` keeps its contract: it gives one of the rows whose every dimension is blank
-- or the input's, such that each other such row is less specific, or as specific with a priority
-- that is no smaller, where a priority that is missing or 0 counts as 100; and it gives none only
-- if there is no such row.
pub select_best_config-IsBest :
    (configs : List FeeConfig) (input : FeeInput)
    → IsBest configs input (select_best_config configs input)
unfolding select_best_config
select_best_config-IsBest configs input =
    IsFirst-IsBest configs input (first (sort (left configs input)))
      (sort-IsFirst (left configs input))
