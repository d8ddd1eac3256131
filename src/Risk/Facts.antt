-- ===== src/Risk/Facts.antt =====
-- What a report is judged by, said of the user, the payment and the history; and that the tests of the code
-- say the same.
use orbi_insitutional_core_v.Prelude.{
  ◌≡◌, ◌≢◌, refl, ap, ◌∙◌, ◌↔◌, ◌⊎◌, inl, inr, arith, ℕ, ◌+◌, ◌*◌, ◌<◌, Bool, true, false, ◌&&◌,
  ◌||◌, Option, none, some, List, [], ◌∷◌, if◌then◌else◌, ltb, leb, length, Bool-cases,
}
use orbi_insitutional_core_v.Prelude.Int.{ℤ, pos, ltb_ℤ, ◌≤ℤ◌, ◌+ℤ◌, ◌*ℤ◌}
use orbi_insitutional_core_v.Prelude.Text.{Text, codes, text_eq}
use orbi_insitutional_core_v.Prelude.Dict.{text_eq_iff}
use orbi_insitutional_core_v.Risk.{Past, RiskUser, Payload, RiskEnv, within, is_given}
use orbi_insitutional_core_v.Risk.Rules.{
  option_is, is_active_user, is_blocked_region, todays_total, count_small, exceeds_day,
  is_high_risk, sum_amounts, is_anomaly,
}
use mathlib.Core.Option.{some-injective}

-- The status in the metadata, if there is one, and the one of the account otherwise.
abbrev pub IsActive : RiskUser → Type 0
IsActive u =
    (u.metadata_status ≡ some (codes "active"))
    ⊎ ((is_given u.metadata_status ≡ false) × (u.account_status ≡ some (codes "active")))

abbrev pub IsFromElsewhere : RiskUser → Type 0
IsFromElsewhere u = u.nationality ≢ some (codes "Blocked-Region")

-- The sum of the amounts, and the number, of the payments that pass a test.
unfoldable pub total : (Past → Bool) → List Past → ℤ
unfolding ◌+ℤ◌
total q [] = pos 0
total q (t ∷ ts) = let rest = total q ts in if q t then t.amount +ℤ rest else rest

unfoldable pub count : (Past → Bool) → List Past → ℕ
count q [] = 0
count q (t ∷ ts) = let rest = count q ts in if q t then 1 + rest else rest

-- The payments that were completed today and this one are within the limit.
abbrev pub IsWithinDay : RiskEnv → Payload → List Past → ℤ → Type 0
IsWithinDay env p history most =
    total (λ t. text_eq t.date env.today && text_eq t.status (codes "completed")) history
      +ℤ p.amount
    ≤ℤ most

abbrev pub is_after : ℕ → Option ℕ → Bool
is_after now none = false
is_after now (some t) = ltb now (t + 4 * 60 * 60 * 1000)

-- Fewer than three payments of more than 900 and less than 1000 in the last four hours.
abbrev pub IsUnstructured : RiskEnv → List Past → Type 0
IsUnstructured env history =
    count
      (λ t.
        is_after env.now (env.time_of t.created_at)
        && ltb_ℤ (pos 90000) t.amount
        && ltb_ℤ t.amount (pos 100000))
      history
    < 3

abbrev pub IsNominalCorridor : Payload → Type 0
IsNominalCorridor p =
    (p.destination_country ≢ some (codes "KY"))
    × (p.destination_country ≢ some (codes "VG"))
    × (p.destination_country ≢ some (codes "PA"))
    × (p.destination_country ≢ some (codes "KP"))
    × (p.destination_country ≢ some (codes "IR"))

-- The history has fewer than ten payments, or the amount is at most twelve times their mean.
abbrev pub IsUsual : Payload → List Past → Type 0
IsUsual p history =
    (length history < 10)
    ⊎ (p.amount *ℤ pos (length history) ≤ℤ total (λ t. true) history *ℤ pos 12)

option_is_iff : (s : Text) (o : Option Text) → (option_is s o ≡ true) ↔ (o ≡ some s)
option_is_iff s none = (λ h. cc, λ h. cc)
option_is_iff s (some t) =
    let k = text_eq_iff t s in (λ h. ap some (k.0 h), λ h. k.1 (some-injective t s h))

option_is_not : (s : Text) (o : Option Text) → (option_is s o ≡ false) ↔ (o ≢ some s)
option_is_not s o =
    let k = option_is_iff s o in
    elim (Bool-cases (option_is s o)) [
      | inl b ↦ (λ h. cc, λ h. elim (h (k.0 b)) [ ])
      | inr b ↦ (λ h e. let c = k.1 e in cc, λ h. b)
    ]

pub IsActive-iff : (u : RiskUser) → (is_active_user u ≡ true) ↔ IsActive u
unfolding is_active_user
IsActive-iff u =
    let m = option_is_iff (codes "active") u.metadata_status in
    let a = option_is_iff (codes "active") u.account_status in
    elim (Bool-cases (is_given u.metadata_status)) [
      | inl g ↦ (
        λ h. inl (m.0 (rw g at h)),
        λ h. elim h [ inl e ↦ rw g (m.1 e) | inr e ↦ let c = e.0 in cc ],
      )
      | inr g ↦ (
        λ h. inr (g, a.0 (rw g at h)),
        λ h. elim h [
          | inl e ↦ let c : is_given (some (codes "active")) ≡ false = rw e at g in cc
          | inr e ↦ rw g (a.1 e.1)
        ],
      )
    ]

pub elsewhere_iff : (u : RiskUser) → (is_blocked_region u ≡ false) ↔ IsFromElsewhere u
unfolding is_blocked_region
elsewhere_iff u = option_is_not (codes "Blocked-Region") u.nationality

todays_total-total :
    (today : Text) (ts : List Past)
    → todays_total today ts
      ≡ total (λ t. text_eq t.date today && text_eq t.status (codes "completed")) ts
unfolding todays_total total
todays_total-total today [] = refl
todays_total-total today (t ∷ ts) =
    ap
      (λ x.
        if text_eq t.date today && text_eq t.status (codes "completed") then t.amount +ℤ x else x)
      (todays_total-total today ts)

sum_amounts-total : (ts : List Past) → sum_amounts ts ≡ total (λ t. true) ts
unfolding sum_amounts total
sum_amounts-total [] = refl
sum_amounts-total (t ∷ ts) = ap (λ x. t.amount +ℤ x) (sum_amounts-total ts)

pub IsWithinDay-iff :
    (env : RiskEnv) (p : Payload) (history : List Past) (most : ℤ)
    → (exceeds_day env p history most ≡ false) ↔ IsWithinDay env p history most
unfolding exceeds_day
IsWithinDay-iff env p history most =
    rw (exceeds_day, todays_total-total env.today history) (λ h. ground arith, λ h. ground arith)

within-is_after : (now : ℕ) (o : Option ℕ) → within now 14400000 o ≡ is_after now o
within-is_after now none = refl
within-is_after now (some t) = refl

small_count :
    (env : RiskEnv) (ts : List Past)
    → count_small env ts
      ≡ count
          (λ t.
            is_after env.now (env.time_of t.created_at)
            && ltb_ℤ (pos 90000) t.amount
            && ltb_ℤ t.amount (pos 100000))
          ts
unfolding count_small count
small_count env [] = refl
small_count env (t ∷ ts) =
    ap
      (λ x.
        if x && ltb_ℤ (pos 90000) t.amount && ltb_ℤ t.amount (pos 100000)
        then 1 + count_small env ts
        else count_small env ts)
      (within-is_after env.now (env.time_of t.created_at))
    ∙ ap
        (λ x.
          if is_after env.now (env.time_of t.created_at)
            && ltb_ℤ (pos 90000) t.amount
            && ltb_ℤ t.amount (pos 100000)
          then 1 + x
          else x)
        (small_count env ts)

pub IsUnstructured-iff :
    (env : RiskEnv) (history : List Past)
    → (count_small env history < 3) ↔ IsUnstructured env history
IsUnstructured-iff env history = rw (small_count env history) (λ h. h, λ h. h)

no_corridor :
    (a b c d e : Bool)
    → ((a || (b || (c || (d || (e || false))))) ≡ false)
      ↔ ((a ≡ false) × (b ≡ false) × (c ≡ false) × (d ≡ false) × (e ≡ false))
no_corridor a b c d e = (λ h. ground arith, λ h. ground arith)

pub corridor_iff : (p : Payload) → (is_high_risk p ≡ false) ↔ IsNominalCorridor p
unfolding is_high_risk
corridor_iff p =
    let o = p.destination_country in
    let ky = option_is_not (codes "KY") o in
    let vg = option_is_not (codes "VG") o in
    let pa = option_is_not (codes "PA") o in
    let kp = option_is_not (codes "KP") o in
    let ir = option_is_not (codes "IR") o in
    let k =
      no_corridor (option_is (codes "KY") o) (option_is (codes "VG") o) (option_is (codes "PA") o)
        (option_is (codes "KP") o) (option_is (codes "IR") o) in
    (
      λ h. let z = k.0 h in (ky.0 z.0, vg.0 z.1, pa.0 z.2, kp.0 z.3, ir.0 z.4),
      λ h. k.1 (ky.1 h.0, vg.1 h.1, pa.1 h.2, kp.1 h.3, ir.1 h.4),
    )

few_or_usual : (n : ℕ) (x y : ℤ) → ((leb 10 n && ltb_ℤ y x) ≡ false) ↔ ((n < 10) ⊎ (x ≤ℤ y))
few_or_usual n x y = (λ h. ground arith, λ h. ground arith)

pub IsUsual-iff :
    (p : Payload) (history : List Past) → (is_anomaly p history ≡ false) ↔ IsUsual p history
unfolding is_anomaly
IsUsual-iff p history =
    rw (is_anomaly, sum_amounts-total history)
      (few_or_usual (length history) (p.amount *ℤ pos (length history))
        (total (λ t. true) history *ℤ pos 12))
