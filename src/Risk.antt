-- ===== src/Risk.antt =====
-- The screening of a payment: `FraudSentinelService` of backend/ledger/fraudEngine.ts. What the database
-- answers is an argument; the record of the check that it keeps is left out.
pub mod Rules
pub mod Failures
pub mod Decided
pub mod Facts
pub mod Justified
pub mod Amounts
mod Tests
use orbi_insitutional_core_v.Prelude.{
  ℕ, ◌+◌, Bool, true, false, not, ◌&&◌, Option, none, some, List, [], ◌∷◌, reverse, if◌then◌else◌,
  ltb, leb,
}
use orbi_insitutional_core_v.Prelude.Int.{ℤ, pos, ltb_ℤ}
use orbi_insitutional_core_v.Prelude.Text.{Text, codes}

-- A transaction of the history. Amounts are in hundredths.
pub record Past : Type 0 where
  pub amount : ℤ
  pub date : Text
  pub created_at : Text
  pub status : Text

pub record RiskUser : Type 0 where
  pub id : Text
  pub metadata_status : Option Text
  pub account_status : Option Text
  pub nationality : Option Text

pub record Payload : Type 0 where
  pub amount : ℤ
  pub target_wallet_id : Option Text
  pub destination_country : Option Text

-- What a query gives: a number of rows, an error, or an exception.
pub data Answer : Type 0 where
  rows : ℕ → Answer
  failed raised : Answer

-- `time_of` is `new Date(s).getTime()`, where it is a number.
pub record RiskEnv : Type 0 where
  pub now : ℕ
  pub today : Text
  pub time_of : Text → Option ℕ
  pub has_database : Bool
  pub recent : Answer
  pub prior : Answer

pub data Screening : Type 0 where
  pass hold block : Screening

pub record FraudDecision : Type 0 where
  pub passed : Bool
  pub risk_score : ℕ
  pub decision : Screening
  pub flags : List Text

abbrev pub within : ℕ → ℕ → Option ℕ → Bool
within now span none = false
within now span (some t) = ltb now (t + span)

unfoldable pub count_recent : RiskEnv → List Past → ℕ
count_recent env [] = 0
count_recent env (t ∷ ts) =
    let others = count_recent env ts in
    if within env.now 3600000 (env.time_of t.date) then 1 + others else others

-- A flag with its share of the score.
abbrev pub Flagged : Type 0
Flagged = ℕ × List Text

abbrev pub with_flag : Bool → ℕ → Text → Flagged → Flagged
with_flag c points flag (score, flags) =
    if c then (points + score, flag ∷ flags) else (score, flags)

abbrev pub is_given : Option Text → Bool
is_given none = false
is_given (some []) = false
is_given (some (c ∷ s)) = true

unfoldable pub velocity_check : RiskEnv → List Past → Answer → Flagged → Flagged
unfolding count_recent
velocity_check env history (rows n) f = with_flag (ltb 5 n) 40 (codes "VELOCITY_BURST") f
velocity_check env history failed f = f
velocity_check env history raised f =
    with_flag (ltb 5 (count_recent env history)) 40 (codes "VELOCITY_BURST_FALLBACK") f

abbrev pub no_rows : Answer → Bool
no_rows (rows n) = leb n 0
no_rows _ = false

abbrev pub screening_of : ℕ → Screening
screening_of score = if leb 80 score then block else (if leb 40 score then hold else pass)

abbrev pub does_pass : Screening → Bool
does_pass block = false
does_pass _ = true

-- The flags in the reverse of their order.
unfoldable pub flagged : RiskEnv → RiskUser → Payload → List Past → Flagged
unfolding velocity_check
flagged env user payload history =
    let asks = env.has_database && is_given (some user.id) in
    let high = with_flag (ltb_ℤ (pos 1000000) payload.amount) 30 (codes "HIGH_VALUE_TX") (0, []) in
    let fast = if asks then velocity_check env history env.recent high else high in
    with_flag (asks && is_given payload.target_wallet_id && no_rows env.prior) 15
      (codes "NEW_BENEFICIARY") fast

unfoldable pub screen : RiskEnv → RiskUser → Payload → List Past → FraudDecision
unfolding flagged
screen env user payload history =
    let (score, flags) = flagged env user payload history in
    record {
      passed = does_pass (screening_of score);
      risk_score = score;
      decision = screening_of score;
      flags = reverse flags;
    }
