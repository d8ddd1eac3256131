-- ===== src/Resilience/Matched.antt =====
-- The circuits and the pool.
use mathlib.Core.Path.{subst}
use orbi_insitutional_core_v.Prelude.{
  ℕ, ◌+◌, ◌≤◌, ◌<◌, ◌≡◌, ◌≢◌, refl, inl, inr, arith, Bool, true, false, Option, none, some, [], ◌∷◌,
  leb, Bool-cases,
}
use orbi_insitutional_core_v.Prelude.Text.{Text, text_eq}
use orbi_insitutional_core_v.Prelude.Dict.{
  Dict, lookup, insert, lookup-insert, lookup-erase, eq_of_text_eq,
}
use orbi_insitutional_core_v.Resilience.{
  closed, opened, half_open, healing, BreakerState, ServiceCircuit, Engine, BreakerConfig, or_new,
  get_circuit, admit_through, has_cooled, restored, restore, admit, on_success, failed, on_failure,
  heal_one, heal_each, run_global_heal_cycle, Reach, start, admitted, succeeded, faulted, healed,
}

-- A circuit that is in the pool has tripped; one that is not is closed, and below the threshold.
abbrev pub IsMatched : BreakerConfig → Option ServiceCircuit → Option (Unit {0}) → Type 0
IsMatched cfg none none = Unit
IsMatched cfg none (some u) = ⊥
IsMatched cfg (some c) none = (c.state ≡ closed) × (c.failures < cfg.breaker_threshold)
IsMatched cfg (some c) (some u) = (c.state ≢ closed) × (cfg.breaker_threshold ≤ c.failures)

abbrev pub AreMatched : BreakerConfig → Engine → Type 0
AreMatched cfg s = (j : Text) → IsMatched cfg (lookup j s.circuits) (lookup j s.healing_pool)

-- A circuit is put in place of the one of its id, and the pool is left.
put-AreMatched :
    (cfg : BreakerConfig) (id : Text) (c : ServiceCircuit) (s : Engine)
    → AreMatched cfg s
    → IsMatched cfg (some c) (lookup id s.healing_pool)
    → AreMatched cfg (record s { circuits = insert id c s.circuits })
put-AreMatched cfg id c s h hc j = elim (Bool-cases (text_eq id j)) [
  | inl e ↦
      rw (lookup-insert id j c s.circuits, e)
        (subst (λ k. IsMatched cfg (some c) (lookup k s.healing_pool)) (eq_of_text_eq id j e) hc)
  | inr e ↦ rw (lookup-insert id j c s.circuits, e) (h j)
]

new-IsMatched :
    (cfg : BreakerConfig) (o : Option ServiceCircuit) (p : Option (Unit {0}))
    → 0 < cfg.breaker_threshold
    → IsMatched cfg o p
    → IsMatched cfg (some (or_new o)) p
new-IsMatched cfg none none pos h = (refl, pos)
new-IsMatched cfg none (some u) pos h = absurd h
new-IsMatched cfg (some c) p pos h = h

through-IsMatched :
    (cfg : BreakerConfig) (now : ℕ) (st : BreakerState) (c : ServiceCircuit) (p : Option (Unit {0}))
    → c.state ≡ st
    → IsMatched cfg (some c) p
    → IsMatched cfg (some (admit_through cfg now st c).1) p
unfolding admit_through
through-IsMatched cfg now closed c p e h = h
through-IsMatched cfg now half_open c p e h = h
through-IsMatched cfg now healing c p e h = h
through-IsMatched cfg now opened c none e h = let k = h.0 in ground arith
through-IsMatched cfg now opened c (some u) e h = elim (Bool-cases (has_cooled cfg now c)) [
  | inl b ↦ rw (b) ((λ k. ground arith), h.1)
  | inr b ↦ rw (b) h
]

get_circuit-AreMatched :
    (cfg : BreakerConfig) (id : Text) (s : Engine)
    → 0 < cfg.breaker_threshold
    → AreMatched cfg s
    → AreMatched cfg (get_circuit id s).1
unfolding get_circuit
get_circuit-AreMatched cfg id s pos h =
    put-AreMatched cfg id (or_new (lookup id s.circuits)) s h
      (new-IsMatched cfg (lookup id s.circuits) (lookup id s.healing_pool) pos (h id))

admit-AreMatched :
    (cfg : BreakerConfig) (now : ℕ) (id : Text) (s : Engine)
    → 0 < cfg.breaker_threshold
    → AreMatched cfg s
    → AreMatched cfg (admit cfg now id s).1
unfolding admit get_circuit
admit-AreMatched cfg now id s pos h =
    let c = or_new (lookup id s.circuits) in
    put-AreMatched cfg id (admit_through cfg now c.state c).1 (get_circuit id s).1
      (get_circuit-AreMatched cfg id s pos h)
      (through-IsMatched cfg now c.state c (lookup id s.healing_pool) refl
        (new-IsMatched cfg (lookup id s.circuits) (lookup id s.healing_pool) pos (h id)))

restore-AreMatched :
    (cfg : BreakerConfig) (id : Text) (o : Option ServiceCircuit) (s : Engine)
    → 0 < cfg.breaker_threshold
    → AreMatched cfg s
    → AreMatched cfg (restore id o s)
restore-AreMatched cfg id none s pos h j = h j
restore-AreMatched cfg id (some c) s pos h j = elim (Bool-cases (text_eq id j)) [
  | inl k ↦
      rw (lookup-insert id j (restored c) s.circuits, lookup-erase id j s.healing_pool, k)
        (refl, pos)
  | inr k ↦
      rw (lookup-insert id j (restored c) s.circuits, lookup-erase id j s.healing_pool, k) (h j)
]

trip-AreMatched :
    (cfg : BreakerConfig) (id : Text) (c : ServiceCircuit) (s : Engine)
    → IsMatched cfg (some c) (some tt)
    → AreMatched cfg s
    → AreMatched cfg
        (record { circuits = insert id c s.circuits; healing_pool = insert id tt s.healing_pool })
trip-AreMatched cfg id c s hc h j = elim (Bool-cases (text_eq id j)) [
  | inl k ↦ rw (lookup-insert id j c s.circuits, lookup-insert id j tt s.healing_pool, k) hc
  | inr k ↦ rw (lookup-insert id j c s.circuits, lookup-insert id j tt s.healing_pool, k) (h j)
]

below-IsMatched :
    (cfg : BreakerConfig) (now : ℕ) (c : ServiceCircuit) (p : Option (Unit {0}))
    → leb cfg.breaker_threshold (c.failures + 1) ≡ false
    → IsMatched cfg (some c) p
    → IsMatched cfg (some (failed now c)) p
below-IsMatched cfg now c none e h = (h.0, ground arith)
below-IsMatched cfg now c (some u) e h =
    let k = h.1 in let none_left : ⊥ = ground arith in absurd none_left

failure-AreMatched :
    (cfg : BreakerConfig) (now : ℕ) (id : Text) (s : Engine)
    → 0 < cfg.breaker_threshold
    → AreMatched cfg s
    → AreMatched cfg (on_failure cfg now id s)
unfolding on_failure get_circuit
failure-AreMatched cfg now id s pos h =
    let c = or_new (lookup id s.circuits) in
    let s' = (get_circuit id s).1 in
    let h' = get_circuit-AreMatched cfg id s pos h in
    elim (Bool-cases (leb cfg.breaker_threshold (c.failures + 1))) [
      | inl b ↦ rw (b) (
          trip-AreMatched cfg id (record (failed now c) { state = opened }) s'
            ((λ k. ground arith), ground arith) h')
      | inr b ↦ rw (b) (
          put-AreMatched cfg id (failed now c) s' h' (
            below-IsMatched cfg now c (lookup id s.healing_pool) b
              (new-IsMatched cfg (lookup id s.circuits) (lookup id s.healing_pool) pos (h id))))
    ]

heal_one-AreMatched :
    (cfg : BreakerConfig) (healthy : Bool) (id : Text) (s : Engine)
    → 0 < cfg.breaker_threshold
    → AreMatched cfg s
    → AreMatched cfg (heal_one healthy id s)
heal_one-AreMatched cfg true id s pos h = restore-AreMatched cfg id (lookup id s.circuits) s pos h
heal_one-AreMatched cfg false id s pos h = h

heal_each-AreMatched :
    (cfg : BreakerConfig) (healthy : Text → Bool) (ids : Dict (Unit {0})) (s : Engine)
    → 0 < cfg.breaker_threshold
    → AreMatched cfg s
    → AreMatched cfg (heal_each healthy ids s)
unfolding heal_each
heal_each-AreMatched cfg healthy [] s pos h = h
heal_each-AreMatched cfg healthy ((id, u) ∷ ids) s pos h =
    heal_each-AreMatched cfg healthy ids (heal_one (healthy id) id s) pos
      (heal_one-AreMatched cfg (healthy id) id s pos h)

-- However calls and cycles interleave, and if the threshold is positive, the pool holds exactly
-- the services whose circuit is not closed, and these have at least the threshold of failures,
-- while a closed circuit is below it.
pub Reach-AreMatched :
    (cfg : BreakerConfig) (s : Engine) → 0 < cfg.breaker_threshold → Reach cfg s → AreMatched cfg s
unfolding on_success run_global_heal_cycle lookup
Reach-AreMatched cfg s pos start = λ j. tt
Reach-AreMatched cfg s pos (admitted now id s' r) =
    admit-AreMatched cfg now id s' pos (Reach-AreMatched cfg s' pos r)
Reach-AreMatched cfg s pos (succeeded id s' r) =
    restore-AreMatched cfg id (lookup id s'.circuits) s' pos (Reach-AreMatched cfg s' pos r)
Reach-AreMatched cfg s pos (faulted now id s' r) =
    failure-AreMatched cfg now id s' pos (Reach-AreMatched cfg s' pos r)
Reach-AreMatched cfg s pos (healed healthy s' r) =
    heal_each-AreMatched cfg healthy s'.healing_pool s' pos (Reach-AreMatched cfg s' pos r)
