-- ===== src/Policy.antt =====
-- `PolicyEngine` of backend/ledger/PolicyEngine.ts: the limits on a user's transactions, over any
-- cache that keeps its laws. The conversion to US dollars and the configured limits are parameters.
pub mod Keys
pub mod Daily
pub mod Freeze
mod Tests
use orbi_insitutional_core_v.Prelude.{
  suc, ℕ, zero, Bool, true, false, ◌||◌, if◌then◌else◌, Option, none, some, List, [], ◌∷◌, ◌++◌,
}
use orbi_insitutional_core_v.Prelude.Int.{ℤ, pos, ◌+ℤ◌, ltb_ℤ}
use orbi_insitutional_core_v.Prelude.Text.{Text, codes}
use orbi_insitutional_core_v.Cache.{Value, number, flag, Cache}

-- An absent number is 0, which `||` takes as absent too.
pub record Limits : Type 0 where
  pub max_per_transaction : ℤ
  pub max_daily_total : ℤ
  pub velocity_limit : ℤ
  pub freeze_duration : ℕ

pub record LedgerConfig : Type 0 where
  pub tx_limit : ℤ
  pub daily_limit : ℤ
  pub velocity_limit : ℤ
  pub freeze_duration : ℕ
  pub daily_ttl : ℕ
  pub velocity_ttl : ℕ

-- What a call meets: the limits of `ConfigClient`, those of `CONFIG.LEDGER`, today's date and hour, and
-- `FXEngine.convertToUSD`.
pub record PolicyEnv : Type 0 where
  pub limits : Limits
  pub ledger : LedgerConfig
  pub today : Text
  pub hour : Text
  pub convert_to_usd : ℤ → Text → ℤ

pub data Verdict : Type 0 where
  allowed : Verdict
  transaction_limit_exceeded daily_limit_exceeded velocity_limit_exceeded : Verdict
  account_frozen : Verdict

-- `a || b` on numbers
abbrev pub or_number : ℤ → ℤ → ℤ
or_number (pos zero) b = b
or_number a b = a

abbrev or_seconds : ℕ → ℕ → ℕ
or_seconds zero b = b
or_seconds (suc a) b = suc a

unfoldable pub daily_key : PolicyEnv → Text → Text
daily_key env user = codes "policy:daily_total:" ++ user ++ codes ":" ++ env.today

unfoldable pub velocity_key : PolicyEnv → Text → Text
velocity_key env user = codes "policy:velocity:" ++ user ++ codes ":" ++ env.hour

unfoldable pub frozen_key : Text → Text
frozen_key user = codes "account:status:" ++ user ++ codes ":frozen"

abbrev pub tx_limit : PolicyEnv → ℤ
tx_limit env = or_number env.limits.max_per_transaction env.ledger.tx_limit

abbrev pub daily_limit : PolicyEnv → ℤ
daily_limit env = or_number env.limits.max_daily_total env.ledger.daily_limit

abbrev pub velocity_limit : PolicyEnv → ℤ
velocity_limit env = or_number env.limits.velocity_limit env.ledger.velocity_limit

-- `(await RedisManager.get(key)) || 0`; the engine stores numbers alone under these keys.
abbrev pub number_or_zero : Option Value → ℤ
number_or_zero (some (number n)) = n
number_or_zero _ = pos 0

abbrev is_truthy : Option Value → Bool
is_truthy (some (flag b)) = b
is_truthy (some (number (pos zero))) = false
is_truthy (some (number n)) = true
is_truthy none = false

module _ {S : Type 0} (cache : Cache S) (env : PolicyEnv) where
  unfoldable pub daily_total : Text → S → ℤ
  daily_total user s = number_or_zero (cache.get (daily_key env user) s)

  unfoldable pub tx_count : Text → S → ℤ
  tx_count user s = number_or_zero (cache.get (velocity_key env user) s)

  unfoldable pub is_frozen : Text → S → Bool
  is_frozen user s = is_truthy (cache.get (frozen_key user) s)

  unfoldable pub evaluate_transaction : Text → ℤ → Text → S → Verdict
  evaluate_transaction user amount currency s =
      let amount_in_usd = env.convert_to_usd amount currency in
      if ltb_ℤ (tx_limit env) amount_in_usd
      then transaction_limit_exceeded
      else if ltb_ℤ (daily_limit env) (daily_total user s +ℤ amount_in_usd)
      then daily_limit_exceeded
      else if ltb_ℤ (velocity_limit env) (tx_count user s)
      then velocity_limit_exceeded
      else if is_frozen user s
      then account_frozen
      else allowed

  -- Both numbers are read before either is written.
  unfoldable pub commit_metrics : Text → ℤ → Text → S → S
  commit_metrics user amount currency s =
      let amount_in_usd = env.convert_to_usd amount currency in
      cache.set (velocity_key env user) (number (tx_count user s +ℤ pos 1)) env.ledger.velocity_ttl
        (cache.set (daily_key env user) (number (daily_total user s +ℤ amount_in_usd))
          env.ledger.daily_ttl s)

  unfoldable pub freeze_account : Text → S → S
  freeze_account user s =
      cache.set (frozen_key user) (flag true)
        (or_seconds env.limits.freeze_duration env.ledger.freeze_duration) s
