-- ===== src/Retry.antt =====
-- `ProviderRetryPolicy` of backend/payments/providers/ProviderRetryPolicy.ts with the errors of
-- ProviderErrorNormalizer.ts: circuit breakers, the bulkhead and the retry loop. Time comes from the
-- caller, in milliseconds; calls of the provider, hooks and sleeps are appended to a log.
pub mod Errors
pub mod Breaker
pub mod Bulkhead
pub mod Loop
pub mod Starvation
mod Tests
use orbi_insitutional_core_v.Prelude.{
  ℕ, zero, suc, ◌+◌, ◌-◌, ◌*◌, ◌^◌, max, Bool, true, false, ◌&&◌, ◌||◌, ltb, leb, ◌==◌,
  if◌then◌else◌, Option, none, some, List, [], ◌∷◌, ◌++◌,
}
use orbi_insitutional_core_v.Prelude.Text.{Text, codes, or_text}
use orbi_insitutional_core_v.Prelude.Dict.{Dict, lookup, insert, erase}
use Errors.{Raised, raw, DomainError, normalize_provider_error, to_provider_domain_error}

pub data CircuitState : Type 0 where
  closed opened half_open : CircuitState

pub record Circuit : Type 0 where
  pub state : CircuitState
  pub failures : ℕ
  pub opened_at : Option ℕ

-- The fields that the constructor reads from the environment, each at least its lower bound.
pub record Config : Type 0 where
  pub default_max_attempts : ℕ
  pub default_base_delay_ms : ℕ
  pub circuit_failure_threshold : ℕ
  pub circuit_cooldown_ms : ℕ
  pub max_concurrent_per_provider : ℕ

pub record Partner : Type 0 where
  pub id : Text
  pub name : Text

unfoldable pub get_provider_key : Partner → Text
unfolding or_text
get_provider_key p = or_text p.id (or_text p.name (codes "unknown_provider"))

unfoldable pub get_circuit_key : Partner → Text → Text
unfolding get_provider_key
get_circuit_key p operation = get_provider_key p ++ (codes ":" ++ operation)

abbrev number_or_zero : Option ℕ → ℕ
number_or_zero none = 0
number_or_zero (some n) = n

-- The circuits when the call may go on; `none` where the source throws PROVIDER_CIRCUIT_OPEN.
-- `Date.now() - openedAt` is below 0 only if the clock was set back, and then below the cooldown too.
unfoldable pub check_circuit : Config → ℕ → Text → Circuit → Dict Circuit → Option (Dict Circuit)
check_circuit cfg now key circuit circuits = elim circuit.state [
  | closed ↦ some circuits
  | _ ↦
      if leb cfg.circuit_cooldown_ms (now - number_or_zero circuit.opened_at)
      then some (insert key (record circuit { state = half_open }) circuits)
      else none
]

unfoldable pub assert_circuit_allows : Config → ℕ → Text → Dict Circuit → Option (Dict Circuit)
assert_circuit_allows cfg now key circuits = elim (lookup key circuits) [
  | none ↦ some circuits
  | some circuit ↦ check_circuit cfg now key circuit circuits
]

abbrev pub closed_circuit : Circuit
closed_circuit = record { state = closed; failures = 0; opened_at = none }

unfoldable pub record_success : Text → Dict Circuit → Dict Circuit
record_success key circuits = insert key closed_circuit circuits

abbrev pub circuit_or_closed : Option Circuit → Circuit
circuit_or_closed none = closed_circuit
circuit_or_closed (some c) = c

abbrev is_half_open : CircuitState → Bool
is_half_open half_open = true
is_half_open _ = false

-- The circuit after one more failure.
unfoldable pub after_failure : Config → ℕ → Circuit → Circuit
after_failure cfg now previous =
    let failures = previous.failures + 1 in
    if leb cfg.circuit_failure_threshold failures || is_half_open previous.state
    then record { state = opened; failures = failures; opened_at = some now }
    else record previous { failures = failures }

unfoldable pub record_failure : Config → ℕ → Text → Dict Circuit → Dict Circuit
record_failure cfg now key circuits =
    insert key (after_failure cfg now (circuit_or_closed (lookup key circuits))) circuits

-- The first half of `runWithBulkhead`; `none` where it throws PROVIDER_BULKHEAD_FULL.
unfoldable pub acquire : Config → Text → Dict ℕ → Option (Dict ℕ)
acquire cfg provider active =
    let n = number_or_zero (lookup provider active) in
    if leb cfg.max_concurrent_per_provider n then none else some (insert provider (n + 1) active)

-- `this.activeByProvider.get(key) || 1`
abbrev number_or_one : Option ℕ → ℕ
number_or_one (some (suc n)) = suc n
number_or_one _ = 1

-- Its `finally`.
unfoldable pub release : Text → Dict ℕ → Dict ℕ
release provider active =
    let n = number_or_one (lookup provider active) - 1 in
    if n == 0 then erase provider active else insert provider n active

pub data Effect : Type 0 where
  worked on_exhausted on_retry on_failover_candidate : ℕ → Effect
  slept : ℕ → Effect

pub record Policy : Type 0 where
  pub circuits : Dict Circuit
  pub active : Dict ℕ
  pub effects : List Effect

pub data Result (A : Type 0) : Type 0 where
  ok : A → Result A
  thrown : Raised → Result A

-- What one call of `execute` is given: at each attempt, the clock and how `work` ends.
pub record Call (A : Type 0) : Type 0 where
  pub partner : Partner
  pub operation : Text
  pub now : ℕ → ℕ
  pub work : ℕ → Result A
  pub max_attempts : ℕ
  pub base_delay_ms : ℕ

abbrev pub emit : List Effect → Policy → Policy
emit es s = record s { effects = s.effects ++ es }

-- `partner.name || partner.id`
abbrev pub label : Partner → Text
label p = or_text p.name p.id

unfoldable pub circuit_open_error : Partner → Text → Raised
circuit_open_error p operation =
    raw (codes "PROVIDER_CIRCUIT_OPEN: " ++ (label p ++ (codes " " ++ operation))) 0

unfoldable pub bulkhead_full_error : Partner → Raised
bulkhead_full_error p = raw (codes "PROVIDER_BULKHEAD_FULL: " ++ label p) 0

-- `options.n || default`, at least a bound
abbrev option_or : ℕ → ℕ → ℕ
option_or zero default = default
option_or (suc n) default = suc n

module _ {A : Type 0} (cfg : Config) (call : Call A) where
  abbrev key : Text
  key = get_circuit_key call.partner call.operation

  -- Nothing else runs between the two halves here; `Retry.Bulkhead` lets other calls in between.
  unfoldable pub run_with_bulkhead : ℕ → Policy → Result A × Policy
  unfolding acquire release bulkhead_full_error
  run_with_bulkhead attempt s =
      let provider = get_provider_key call.partner in
      elim (acquire cfg provider s.active) [
        | none ↦ (thrown (bulkhead_full_error call.partner), s)
        | some active ↦ (
          call.work attempt,
          emit (worked attempt ∷ []) (record s { active = release provider active }),
        )
      ]

  unfoldable pub record_outcome : Result A × Policy → Result A × Policy
  record_outcome (ok a, s) = (ok a, record s { circuits = record_success key s.circuits })
  record_outcome (thrown e, s) = (thrown e, s)

  -- The `try` block.
  unfoldable pub try_attempt : ℕ → Policy → Result A × Policy
  try_attempt attempt s = elim (assert_circuit_allows cfg (call.now attempt) key s.circuits) [
    | none ↦ (thrown (circuit_open_error call.partner call.operation), s)
    | some circuits ↦ record_outcome (run_with_bulkhead attempt (record s { circuits = circuits }))
  ]

  unfoldable pub max_attempts : ℕ
  max_attempts = max 1 (option_or call.max_attempts cfg.default_max_attempts)

  unfoldable pub base_delay_ms : ℕ
  base_delay_ms = option_or call.base_delay_ms cfg.default_base_delay_ms

  -- `Math.round(baseDelayMs * (2 ** (attempt - 1)))`, and no sleep of 0 ms
  abbrev sleep_effect : ℕ → List Effect
  sleep_effect attempt =
      let delay = base_delay_ms * 2 ^ (attempt - 1) in if ltb 0 delay then slept delay ∷ [] else []

  pub fail : ℕ → Policy → Policy
  fail attempt s = record s { circuits = record_failure cfg (call.now attempt) key s.circuits }

  -- The loop, with the attempts that are left. The last attempt always throws, so the statement after
  -- the loop is not reached from `execute`.
  unfoldable pub attempts_from : ℕ → ℕ → Raised → Policy → Result A × Policy
  unfolding fail
  attempts_from zero attempt last_error s = (thrown (to_provider_domain_error last_error), s)
  attempts_from (suc left) attempt last_error s =
      let (r, s') = try_attempt attempt s in
      elim r [
        | ok a ↦ (ok a, s')
        | thrown e ↦
            if (normalize_provider_error e).retryable && ltb attempt max_attempts
            then attempts_from left (attempt + 1) (to_provider_domain_error e) (
                emit (on_retry attempt ∷ on_failover_candidate attempt ∷ sleep_effect attempt)
                  (fail attempt s'))
            else (
              thrown (to_provider_domain_error e),
              emit (on_exhausted attempt ∷ []) (fail attempt s'),
            )
      ]

  unfoldable pub execute : Policy → Result A × Policy
  execute s = attempts_from max_attempts 1 (raw [] 0) s
