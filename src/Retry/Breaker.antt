-- ===== src/Retry/Breaker.antt =====
-- The circuit breakers alone.
use mathlib.Core.Path.{subst}
use orbi_insitutional_core_v.Prelude.{
  ℕ, ◌<◌, ◌≡◌, ◌≢◌, ◌⊎◌, inl, inr, Bool-cases, Option, none, some, Option-cases, arith,
}
use orbi_insitutional_core_v.Prelude.Text.{Text, text_eq}
use orbi_insitutional_core_v.Prelude.Dict.{Dict, lookup, insert, lookup-insert}
use orbi_insitutional_core_v.Retry.{
  closed, opened, half_open, Circuit, Config, check_circuit, assert_circuit_allows, record_success,
  closed_circuit, circuit_or_closed, after_failure, record_failure,
}

-- A closed circuit is below the threshold, and an open one has the time at which it opened.
pub record IsSound (cfg : Config) (c : Circuit) : Type 0 where
  pub closed_below : c.state ≡ closed → c.failures < cfg.circuit_failure_threshold
  pub open_stamped : c.state ≡ opened → c.opened_at ≢ none

-- Every circuit in the map is sound.
abbrev pub AreSound : Config → Dict Circuit → Type 0
AreSound cfg circuits = (k : Text) (c : Circuit) → lookup k circuits ≡ some c → IsSound cfg c

-- The same of the circuits that a check lets through, if it does.
abbrev pub AreSoundIfAny : Config → Option (Dict Circuit) → Type 0
AreSoundIfAny cfg none = Unit
AreSoundIfAny cfg (some circuits) = AreSound cfg circuits

module _ (cfg : Config) where
  insert-AreSound :
      (k : Text) (c : Circuit) (circuits : Dict Circuit)
      → AreSound cfg circuits
      → IsSound cfg c
      → AreSound cfg (insert k c circuits)
  insert-AreSound k c circuits h hc j d e = elim (Bool-cases (text_eq k j)) [
    | inl found ↦
        let p : c ≡ d = ground (arith, lookup-insert k j c circuits) in subst (IsSound cfg) p hc
    | inr other ↦ h j d (rw (lookup-insert k j c circuits, other) at e)
  ]

  after_failure-IsSound :
      (now : ℕ) (c : Circuit) → IsSound cfg c → IsSound cfg (after_failure cfg now c)
  unfolding after_failure
  after_failure-IsSound now c h = ground arith

  circuit_or_closed-IsSound :
      0 < cfg.circuit_failure_threshold
      → (k : Text) (circuits : Dict Circuit) → AreSound cfg circuits
      → IsSound cfg (circuit_or_closed (lookup k circuits))
  circuit_or_closed-IsSound pos k circuits h = elim (Option-cases (lookup k circuits)) [
    | inl e ↦ rw e (record { closed_below = λ c. pos; open_stamped = λ c. cc })
    | inr (c, e) ↦ rw e (h k c e)
  ]

  check_circuit-cases :
      (now : ℕ) (k : Text) (c : Circuit) (circuits : Dict Circuit)
      → (check_circuit cfg now k c circuits ≡ none)
        ⊎ (check_circuit cfg now k c circuits ≡ some circuits)
        ⊎ (check_circuit cfg now k c circuits
            ≡ some (insert k (record c { state = half_open }) circuits))
  unfolding check_circuit
  check_circuit-cases now k c circuits = ground arith

  half_open-IsSound : (c : Circuit) → IsSound cfg (record c { state = half_open })
  half_open-IsSound c = record { closed_below = λ e. cc; open_stamped = λ e. cc }

  check_circuit-AreSound :
      (now : ℕ) (k : Text) (c : Circuit) (circuits : Dict Circuit)
      → AreSound cfg circuits
      → AreSoundIfAny cfg (check_circuit cfg now k c circuits)
  check_circuit-AreSound now k c circuits h = elim (check_circuit-cases now k c circuits) [
    | inl e ↦ rw e tt
    | inr (inl e) ↦ rw e h
    | inr (inr e) ↦ rw e (insert-AreSound k _ circuits h (half_open-IsSound c))
  ]

  assert_circuit_allows-AreSound :
      (now : ℕ) (k : Text) (circuits : Dict Circuit)
      → AreSound cfg circuits
      → AreSoundIfAny cfg (assert_circuit_allows cfg now k circuits)
  unfolding assert_circuit_allows
  assert_circuit_allows-AreSound now k circuits h = elim (Option-cases (lookup k circuits)) [
    | inl e ↦ rw (e, assert_circuit_allows) h
    | inr (c, e) ↦ rw (e, assert_circuit_allows) (check_circuit-AreSound now k c circuits h)
  ]

  -- If the threshold is positive, each of the three operations on circuits keeps every circuit
  -- sound, whatever the clock shows: a closed one is below the threshold of failures, and an open
  -- one has the time at which it opened.
  pub circuits-AreSound :
      (now : ℕ) (k : Text) (circuits : Dict Circuit)
      → 0 < cfg.circuit_failure_threshold
      → AreSound cfg circuits
      → AreSoundIfAny cfg (assert_circuit_allows cfg now k circuits)
        × AreSound cfg (record_success k circuits)
        × AreSound cfg (record_failure cfg now k circuits)
  unfolding record_success record_failure
  circuits-AreSound now k circuits pos h = (
    assert_circuit_allows-AreSound now k circuits h,
    insert-AreSound k closed_circuit circuits h
        (record { closed_below = λ c. pos; open_stamped = λ c. cc }),
    insert-AreSound k _ circuits h
        (after_failure-IsSound now _ (circuit_or_closed-IsSound pos k circuits h)),
  )
