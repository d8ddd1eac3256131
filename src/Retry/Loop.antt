-- ===== src/Retry/Loop.antt =====
-- What a call of `execute` does as a whole.
use orbi_insitutional_core_v.Prelude.{
  ℕ, zero, suc, ◌≤◌, ◌+◌, ◌≡◌, refl, ◌⊎◌, inl, inr, ◌&&◌, ltb, Bool-cases, some, Option-cases,
  arith, List, [], ◌∷◌, ◌++◌,
}
use orbi_insitutional_core_v.Prelude.Text.{Text}
use orbi_insitutional_core_v.Prelude.Dict.{Dict, lookup, lookup-insert_self}
use orbi_insitutional_core_v.Retry.{
  Circuit, Config, Call, Policy, Result, ok, thrown, Effect, worked, on_retry, on_exhausted,
  on_failover_candidate, slept, emit, key, closed_circuit, record_success, record_outcome,
  run_with_bulkhead, try_attempt, fail, attempts_from, max_attempts, execute, assert_circuit_allows,
  sleep_effect,
}
use orbi_insitutional_core_v.Retry.Errors.{
  Raised, raw, domain, DomainError, normalize_provider_error, to_provider_domain_error,
}

-- How often the provider itself was called.
pub calls : List Effect → ℕ
calls [] = 0
calls (worked n ∷ es) = suc (calls es)
calls (_ ∷ es) = calls es

calls-append : (xs ys : List Effect) → calls (xs ++ ys) ≡ calls xs + calls ys
unfolding calls
calls-append [] ys = omega arith
calls-append (worked n ∷ xs) ys = omega (arith, calls-append xs ys)
calls-append (on_exhausted n ∷ xs) ys = calls-append xs ys
calls-append (on_retry n ∷ xs) ys = calls-append xs ys
calls-append (on_failover_candidate n ∷ xs) ys = calls-append xs ys
calls-append (slept n ∷ xs) ys = calls-append xs ys

module _ {A : Type 0} (cfg : Config) (call : Call A) where
  abbrev effects_of : Result A × Policy → List Effect
  effects_of (r, s) = s.effects

  -- The policy when the loop goes on after a failed attempt, and when it gives up.
  abbrev pub retried : ℕ → Policy → Policy
  retried n s =
      emit (on_retry n ∷ on_failover_candidate n ∷ sleep_effect cfg call n) (fail cfg call n s)

  abbrev pub gave_up : ℕ → Policy → Policy
  gave_up n s = emit (on_exhausted n ∷ []) (fail cfg call n s)

  Result-cases : (r : Result A) → ((a : A) × (r ≡ ok a)) ⊎ ((e : Raised) × (r ≡ thrown e))
  Result-cases (ok a) = inl (a, refl)
  Result-cases (thrown e) = inr (e, refl)

  -- The three ways in which a round of the loop ends.
  pub attempts_from-cases :
      (left n : ℕ) (last : Raised) (s : Policy)
      → let (r, s') = try_attempt cfg call n s in
        let whole = attempts_from cfg call (suc left) n last s in
        ((a : A) × (r ≡ ok a) × (whole ≡ (ok a, s')))
        ⊎ ((e : Raised) × (r ≡ thrown e)
            × (whole
                ≡ attempts_from cfg call left (n + 1) (to_provider_domain_error e) (retried n s')))
        ⊎ ((e : Raised) × (r ≡ thrown e)
            × (whole ≡ (thrown (to_provider_domain_error e), gave_up n s')))
  unfolding attempts_from
  attempts_from-cases left n last s = elim (Result-cases (try_attempt cfg call n s).0) [
    | inl (a, h) ↦ inl (a, h, rw (h, attempts_from))
    | inr (e, h) ↦
        elim (Bool-cases
          ((normalize_provider_error e).retryable && ltb n (max_attempts cfg call))) [
            | inl again ↦ inr (inl (e, h, rw (h, attempts_from) (rw again)))
            | inr stop ↦ inr (inr (e, h, rw (h, attempts_from) (rw stop)))
          ]
  ]

  effects-record_outcome :
      (p : Result A × Policy) → (record_outcome cfg call p).1.effects ≡ p.1.effects
  unfolding record_outcome
  effects-record_outcome (ok a, s) = refl
  effects-record_outcome (thrown e, s) = refl

  calls-run_with_bulkhead :
      (n : ℕ) (s : Policy) → calls (run_with_bulkhead cfg call n s).1.effects ≤ calls s.effects + 1
  unfolding run_with_bulkhead calls
  calls-run_with_bulkhead n s = ground (arith, calls-append s.effects (worked n ∷ []))

  calls-try_attempt :
      (n : ℕ) (s : Policy) → calls (try_attempt cfg call n s).1.effects ≤ calls s.effects + 1
  unfolding try_attempt
  calls-try_attempt n s =
      elim (Option-cases (assert_circuit_allows cfg (call.now n) (key cfg call) s.circuits)) [
        | inl e ↦ rw (e, try_attempt) (omega arith)
        | inr (c, e) ↦
            let t = record s { circuits = c } in
            rw (e, try_attempt)
              (rw (effects-record_outcome (run_with_bulkhead cfg call n t))
                (calls-run_with_bulkhead n t))
      ]

  pub calls-retry :
      (n : ℕ) (s : Policy)
      → calls (s.effects ++ (on_retry n ∷ on_failover_candidate n ∷ sleep_effect cfg call n))
        ≡ calls s.effects
  unfolding calls
  calls-retry n s = ground (
    arith,
    calls-append s.effects (on_retry n ∷ on_failover_candidate n ∷ sleep_effect cfg call n),
  )

  pub calls-exhausted :
      (n : ℕ) (s : Policy) → calls (s.effects ++ on_exhausted n ∷ []) ≡ calls s.effects
  unfolding calls
  calls-exhausted n s = ground (arith, calls-append s.effects (on_exhausted n ∷ []))

  calls-attempts_from :
      (left n : ℕ) (e : Raised) (s : Policy)
      → calls (attempts_from cfg call left n e s).1.effects ≤ calls s.effects + left
  unfolding attempts_from fail
  calls-attempts_from zero n e s = omega arith
  calls-attempts_from (suc left) n e s = elim (attempts_from-cases left n e s) [
    | inl (a, h, w) ↦ rw w (omega (arith, calls-try_attempt n s))
    | inr (inl (x, h, w)) ↦
        let s' = (try_attempt cfg call n s).1 in
        rw w (
          omega (
            arith,
            calls-try_attempt n s,
            calls-retry n s',
            calls-attempts_from left (n + 1) (to_provider_domain_error x) (retried n s'),
          ))
    | inr (inr (x, h, w)) ↦
        rw w (omega (arith, calls-try_attempt n s, calls-exhausted n (try_attempt cfg call n s).1))
  ]

  -- One call of `execute` calls the provider at most `max_attempts` times.
  pub calls-execute :
      (s : Policy) → calls (execute cfg call s).1.effects ≤ calls s.effects + max_attempts cfg call
  unfolding execute
  calls-execute s = calls-attempts_from (max_attempts cfg call) 1 (raw [] 0) s

  -- How a call ends: with a value that `work` gave at one of the attempts, and a closed circuit, or
  -- with an error that was normalised.
  abbrev pub IsOutcome : Result A × Policy → Type 0
  IsOutcome (ok a, s) =
      (n : ℕ) × (n ≤ max_attempts cfg call)
      × (call.work n ≡ ok a)
      × (lookup (key cfg call) s.circuits ≡ some closed_circuit)
  IsOutcome (thrown e, s) = (d : DomainError) × (e ≡ domain d)

  to_provider_domain_error-domain :
      (e : Raised) → (d : DomainError) × (to_provider_domain_error e ≡ domain d)
  unfolding to_provider_domain_error
  to_provider_domain_error-domain (raw m c) = (_, refl)
  to_provider_domain_error-domain (domain d) = (d, refl)

  lookup-record_success :
      (k : Text) (circuits : Dict Circuit)
      → lookup k (record_success k circuits) ≡ some closed_circuit
  unfolding record_success
  lookup-record_success k circuits = lookup-insert_self k closed_circuit circuits

  record_outcome-ok :
      (p : Result A × Policy) (a : A)
      → (record_outcome cfg call p).0 ≡ ok a
      → (p.0 ≡ ok a)
        × (lookup (key cfg call) (record_outcome cfg call p).1.circuits ≡ some closed_circuit)
  unfolding record_outcome
  record_outcome-ok (ok b, s) a h = (h, lookup-record_success (key cfg call) s.circuits)
  record_outcome-ok (thrown e, s) a h = cc

  run_with_bulkhead-ok :
      (n : ℕ) (s : Policy) (a : A) → (run_with_bulkhead cfg call n s).0 ≡ ok a → call.work n ≡ ok a
  unfolding run_with_bulkhead
  run_with_bulkhead-ok n s a h = ground arith

  try_attempt-ok :
      (n : ℕ) (s : Policy) (a : A)
      → (try_attempt cfg call n s).0 ≡ ok a
      → (call.work n ≡ ok a)
        × (lookup (key cfg call) (try_attempt cfg call n s).1.circuits ≡ some closed_circuit)
  unfolding try_attempt
  try_attempt-ok n s a h =
      elim (Option-cases (assert_circuit_allows cfg (call.now n) (key cfg call) s.circuits)) [
        | inl e ↦ ground arith
        | inr (c, e) ↦
            let p = run_with_bulkhead cfg call n (record s { circuits = c }) in
            let t = record_outcome-ok p a (rw (e, try_attempt) at h) in
            rw (e, try_attempt) (run_with_bulkhead-ok n (record s { circuits = c }) a t.0, t.1)
      ]

  attempts_from-IsOutcome :
      (left n : ℕ) (e : Raised) (s : Policy)
      → n + left ≤ suc (max_attempts cfg call)
      → IsOutcome (attempts_from cfg call left n e s)
  unfolding attempts_from
  attempts_from-IsOutcome zero n e s b = to_provider_domain_error-domain e
  attempts_from-IsOutcome (suc left) n e s b = elim (attempts_from-cases left n e s) [
    | inl (a, h, w) ↦ let t = try_attempt-ok n s a h in rw w (n, omega arith, t.0, t.1)
    | inr (inl (x, h, w)) ↦
        rw w (attempts_from-IsOutcome left (n + 1) (to_provider_domain_error x) _ (omega arith))
    | inr (inr (x, h, w)) ↦ rw w (to_provider_domain_error-domain x)
  ]

  -- A value that `execute` returns is one that `work` gave at an attempt within the limit, and it
  -- leaves the circuit of the call closed with no failures; an error that it throws is always a
  -- normalised one.
  pub execute-IsOutcome : (s : Policy) → IsOutcome (execute cfg call s)
  unfolding execute
  execute-IsOutcome s = attempts_from-IsOutcome (max_attempts cfg call) 1 (raw [] 0) s (omega arith)
