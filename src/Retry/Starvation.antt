-- ===== src/Retry/Starvation.antt =====
-- A circuit that has opened stays open under steady traffic: a call that the open circuit turns away
-- counts as a failure and stamps the circuit anew, so the cooldown starts over.
use orbi_insitutional_core_v.Prelude.{
  ap, ◌∙◌, ℕ, zero, suc, ◌<◌, ◌≤◌, ◌+◌, ◌-◌, ◌≡◌, refl, inl, inr, none, some, arith, List, [], ◌∷◌,
}
use orbi_insitutional_core_v.Prelude.Dict.{Dict, lookup, lookup-insert_self}
use orbi_insitutional_core_v.Retry.Loop.{
  calls-exhausted, gave_up, calls-retry, retried, attempts_from-cases, calls,
}
use orbi_insitutional_core_v.Retry.{
  to_provider_domain_error, Text, opened, Circuit, Config, Call, Policy, Result, thrown, key,
  check_circuit, assert_circuit_allows, after_failure, record_failure, circuit_open_error,
  try_attempt, fail, attempts_from, execute, max_attempts,
}
use orbi_insitutional_core_v.Retry.Errors.{Raised, raw}

-- Open since a time, with failures enough that one more opens it again.
pub record IsTripped (cfg : Config) (since : ℕ) (c : Circuit) : Type 0 where
  pub is_open : c.state ≡ opened
  pub since_then : c.opened_at ≡ some since
  pub over : cfg.circuit_failure_threshold ≤ c.failures + 1

-- The calls are made at these times, each within the cooldown of the one before.
abbrev pub AreClose : ℕ → ℕ → List ℕ → Type 0
AreClose cooldown since [] = Unit
AreClose cooldown since (t ∷ ts) = (t - since < cooldown) × AreClose cooldown t ts

pub last_time : ℕ → List ℕ → ℕ
last_time since [] = since
last_time since (t ∷ ts) = last_time t ts

check_circuit-IsTripped :
    (cfg : Config)
    → (now since : ℕ) (k : Text) (c : Circuit) (circuits : Dict Circuit) → IsTripped cfg since c
    → now - since < cfg.circuit_cooldown_ms
    → check_circuit cfg now k c circuits ≡ none
unfolding check_circuit
check_circuit-IsTripped cfg now since k c circuits t close = ground arith

after_failure-IsTripped :
    (cfg : Config)
    → (now since : ℕ) (c : Circuit) → IsTripped cfg since c
    → IsTripped cfg now (after_failure cfg now c)
unfolding after_failure
after_failure-IsTripped cfg now since c t = ground arith

module _ {A : Type 0} (cfg : Config) where
  abbrev pub Tripped : Call A → ℕ → Policy → Type 0
  Tripped call since s =
      (c : Circuit) × (lookup (key cfg call) s.circuits ≡ some c) × IsTripped cfg since c

  -- The same call at a time, its clock standing still.
  abbrev pub call_at : Call A → ℕ → Call A
  call_at call t = record call { now = λ n. t }

  -- The same call again and again, at these times.
  pub execute_at : Call A → List ℕ → Policy → Policy
  execute_at call [] s = s
  execute_at call (t ∷ ts) s = execute_at call ts (execute cfg (call_at call t) s).1

  assert_circuit_allows-Tripped :
      (call : Call A) (now since : ℕ) (s : Policy)
      → Tripped call since s
      → now - since < cfg.circuit_cooldown_ms
      → assert_circuit_allows cfg now (key cfg call) s.circuits ≡ none
  unfolding assert_circuit_allows
  assert_circuit_allows-Tripped call now since s (c, e, t) close =
      rw (e, assert_circuit_allows)
        (check_circuit-IsTripped cfg now since (key cfg call) c s.circuits t close)

  try_attempt-Tripped :
      (call : Call A) (n since : ℕ) (s : Policy)
      → Tripped call since s
      → call.now n - since < cfg.circuit_cooldown_ms
      → try_attempt cfg call n s ≡ (thrown (circuit_open_error call.partner call.operation), s)
  unfolding try_attempt
  try_attempt-Tripped call n since s t close =
      rw (assert_circuit_allows-Tripped call (call.now n) since s t close, try_attempt)

  fail-Tripped :
      (call : Call A) (n since : ℕ) (s : Policy)
      → Tripped call since s
      → Tripped call (call.now n) (fail cfg call n s)
  unfolding fail record_failure
  fail-Tripped call n since s (c, e, t) =
      let now = call.now n in
      (
        after_failure cfg now c,
        rw e (lookup-insert_self (key cfg call) (after_failure cfg now c) s.circuits),
        after_failure-IsTripped cfg now since c t,
      )

  -- What a round of turned-away attempts leaves: no value, no call of the provider, and the circuit open
  -- since the given time.
  abbrev pub TurnsAway : Call A → ℕ → Policy → Result A × Policy → Type 0
  TurnsAway call since s (r, s') =
      ((e : Raised) × (r ≡ thrown e)) × (calls s'.effects ≡ calls s.effects) × Tripped call since s'

  -- One round, given what the rounds after it do.
  TurnsAway-round :
      (call : Call A) (t left n since : ℕ) (last : Raised) (s : Policy)
      → Tripped call since s
      → t - since < cfg.circuit_cooldown_ms
      → ((m : ℕ) (e : Raised) (s' : Policy)
          → Tripped call t s'
          → TurnsAway call t s' (attempts_from cfg (call_at call t) left m e s'))
      → TurnsAway call t s (attempts_from cfg (call_at call t) (suc left) n last s)
  unfolding fail
  TurnsAway-round call t left n since last s trip close later =
      let c = call_at call t in
      let away = try_attempt-Tripped c n since s trip close in
      elim (attempts_from-cases cfg c left n last s) [
        | inl (a, h, w) ↦ cc (ap (λ (p : Result A × Policy). p.0) away)
        | inr (inl (e, h, w)) ↦
            let d = to_provider_domain_error e in
            let go = λ (q : Policy). attempts_from cfg c left (n + 1) d (retried cfg c n q) in
            let l = later (n + 1) d (retried cfg c n s) (fail-Tripped c n since s trip) in
            rw (w ∙ ap go (ap (λ (p : Result A × Policy). p.1) away))
              (l.0, l.1 ∙ calls-retry cfg c n s, l.2)
        | inr (inr (e, h, w)) ↦
            let stop : Policy → Result A × Policy =
              λ q. (thrown (to_provider_domain_error e), gave_up cfg c n q) in
            rw (w ∙ ap stop (ap (λ (p : Result A × Policy). p.1) away))
              ((_, refl), calls-exhausted cfg c n s, fail-Tripped c n since s trip)
      ]

  attempts_from-Tripped :
      (call : Call A) (t left n : ℕ) (last : Raised) (s : Policy)
      → Tripped call t s
      → 0 < cfg.circuit_cooldown_ms
      → TurnsAway call t s (attempts_from cfg (call_at call t) left n last s)
  unfolding attempts_from
  attempts_from-Tripped call t zero n last s trip pos = ((_, refl), refl, trip)
  attempts_from-Tripped call t (suc left) n last s trip pos =
      TurnsAway-round call t left n t last s trip (omega arith)
        (λ m e s' k. attempts_from-Tripped call t left m e s' k pos)

  execute-Tripped :
      (call : Call A) (t since : ℕ) (s : Policy)
      → Tripped call since s
      → t - since < cfg.circuit_cooldown_ms
      → TurnsAway call t s (execute cfg (call_at call t) s)
  unfolding execute max_attempts
  execute-Tripped call t since s trip close =
      let c = call_at call t in
      let e : max_attempts cfg c ≡ suc (max_attempts cfg c - 1) = omega arith in
      rw (e, execute)
        (TurnsAway-round call t (max_attempts cfg c - 1) 1 since (raw [] 0) s trip close
          (λ m x s' k. attempts_from-Tripped call t _ m x s' k (omega arith)))

  -- A circuit that is open stays open, and the provider is not called again, however many calls
  -- are made, if each call, its clock standing still, comes within the cooldown of the one before
  -- and the first within the cooldown of the opening.
  pub open_circuit_starves :
      (call : Call A) (since : ℕ) (times : List ℕ) (s : Policy)
      → Tripped call since s
      → AreClose cfg.circuit_cooldown_ms since times
      → (calls (execute_at call times s).effects ≡ calls s.effects)
        × Tripped call (last_time since times) (execute_at call times s)
  unfolding execute_at last_time
  open_circuit_starves call since [] s trip close = (refl, trip)
  open_circuit_starves call since (t ∷ ts) s trip close =
      let once = execute-Tripped call t since s trip close.0 in
      let rest = open_circuit_starves call t ts (execute cfg (call_at call t) s).1 once.2 close.1 in
      (rest.0 ∙ once.1, rest.1)
