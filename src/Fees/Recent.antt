-- ===== src/Fees/Recent.antt =====
-- How old the rows are that `listConfigs` gives, over the calls of several processes that share Redis.
use orbi_insitutional_core_v.Prelude.{
  ◌<◌, ◌==◌, inr, inl, ℕ, ◌+◌, ◌*◌, ◌≤◌, ◌≡◌, refl, arith, Option, none, some, List, Bool-cases,
}
use orbi_insitutional_core_v.Prelude.Text.{Text, to_upper, trim}
use orbi_insitutional_core_v.Prelude.Dict.{Dict, lookup}
use orbi_insitutional_core_v.Fees.{FeeConfig}
use orbi_insitutional_core_v.Fees.Compute.{Outcome, returned, thrown}
use orbi_insitutional_core_v.Fees.Update.{upsert_config, WriteEnv, FeePayload, FeeStore}
use orbi_insitutional_core_v.Fees.Fresh.{
  AreFresh, IsFreshEntry, AreFresh-insert, AreFresh-later, AreFresh-live,
}
use orbi_insitutional_core_v.Fees.Clearing.{upsert_caches}
use orbi_insitutional_core_v.Fees.Catalog.{
  FeeFilters, CacheEntry, Caches, FeeEnv, after, answered_at, build_cache_key, live, redis_get,
  redis_set, entry, from_database, from_redis, from_memory, list_configs,
}
use orbi_insitutional_core_v.Fees.Cluster.{
  Cluster, Reach, started, started_without_redis, waited, listed, upserted, caches_of, put_back,
  end_of_redis, end_of_memory, end_of,
}

module _ (env : FeeEnv) (longest : ℕ) where
  -- For a call from `now` to `end`: the rows are an answer of the database that is less than two minutes and
  -- three waits old, to a query under the same key; a call that throws met an error of the database.
  abbrev pub IsRecent : ℕ → ℕ → FeeFilters → Outcome (List FeeConfig) → Type 0
  IsRecent now end f (returned rows) =
      (t : ℕ) × (g : FeeFilters) × (end < t + (120000 + longest * 3))
      × (t ≤ end)
      × (build_cache_key g ≡ build_cache_key f)
      × (env.answers t (to_upper (trim g.flow_code)) (to_upper (trim g.status)) ≡ some rows)
  IsRecent now end f (thrown m) =
      (t : ℕ) × (now ≤ t)
      × (t ≤ end)
      × (env.answers t (to_upper (trim f.flow_code)) (to_upper (trim f.status)) ≡ none)

  abbrev RedisFresh : ℕ → Option (Dict CacheEntry) → Type 0
  RedisFresh now none = Unit
  RedisFresh now (some r) = AreFresh env (60000 + longest * 2) now r

  abbrev CachesFresh : ℕ → Caches → Type 0
  CachesFresh now s = AreFresh env (120000 + longest * 3) now s.memory × RedisFresh now s.redis

  abbrev Serves : ℕ → ℕ → FeeFilters → Outcome (List FeeConfig) × Caches → Type 0
  Serves now end f r = IsRecent now end f r.0 × CachesFresh end r.1

  none_some : {P : Type 0} (rows : List FeeConfig) → none ≡ some rows → P
  none_some rows e = cc

  redis_get-Fresh :
      (now read : ℕ) (k : Text) (r : Option (Dict CacheEntry)) (rows : List FeeConfig)
      → RedisFresh now r
      → redis_get env read k r ≡ some rows
      → IsFreshEntry env (60000 + longest * 2) now k (record { expires_at = read + 1; rows = rows })
  unfolding redis_get
  redis_get-Fresh now read k none rows h e = cc
  redis_get-Fresh now read k (some r) rows h e = elim (Bool-cases (env.get_fails read)) [
    | inl b ↦ none_some rows (rw b at e)
    | inr b ↦ AreFresh-live env (60000 + longest * 2) now read k r rows h (rw b at e)
  ]

  RedisFresh-later :
      (now later : ℕ) (r : Option (Dict CacheEntry))
      → now ≤ later
      → RedisFresh now r
      → RedisFresh later r
  RedisFresh-later now later none le h = tt
  RedisFresh-later now later (some r) le h =
      AreFresh-later env (60000 + longest * 2) now later r le h

  CachesFresh-later :
      (now later : ℕ) (s : Caches) → now ≤ later → CachesFresh now s → CachesFresh later s
  CachesFresh-later now later s le h = (
    AreFresh-later env (120000 + longest * 3) now later s.memory le h.0,
    RedisFresh-later now later s.redis le h.1,
  )

  redis_set-Fresh :
      (now set : ℕ) (k : Text) (e : CacheEntry) (r : Option (Dict CacheEntry))
      → IsFreshEntry env (60000 + longest * 2) now k e
      → RedisFresh now r
      → RedisFresh now (redis_set env set k e r)
  unfolding redis_set
  redis_set-Fresh now set k e none h g = tt
  redis_set-Fresh now set k e (some r) h g = elim (Bool-cases (env.set_fails set)) [
    | inl b ↦ rw b g
    | inr b ↦ rw b (AreFresh-insert env (60000 + longest * 2) now k e r h g)
  ]

-- No way takes longer than `longest`.
module _ (env : FeeEnv) (longest : ℕ) (quick : (t : ℕ) → env.wait t ≤ longest) where
  from_database-Serves :
      (now answered : ℕ) (f : FeeFilters) (s : Caches) (o : Option (List FeeConfig))
      → now ≤ answered
      → env.answers answered (to_upper (trim f.flow_code)) (to_upper (trim f.status)) ≡ o
      → CachesFresh env longest now s
      → Serves env longest now
          (after env answered)
          f
          (from_database env answered (build_cache_key f) o s)
  unfolding from_database
  from_database-Serves now answered f s none le e h =
      let kept = CachesFresh-later env longest now (after env answered) s (omega (arith, le)) h in
      ((answered, le, omega arith, e), kept)
  from_database-Serves now answered f s (some rows) le e h =
      let back = after env answered in
      let set = after env back in
      let kept = CachesFresh-later env longest now back s (omega (arith, le)) h in
      let q = quick answered in
      let p = quick back in
      (
        (answered, f, omega (arith, q), omega arith, refl, e),
        (
          AreFresh-insert env (120000 + longest * 3) back (build_cache_key f) (entry back rows)
              s.memory (answered, f, omega (arith, q), omega arith, refl, e) kept.0,
          redis_set-Fresh env longest back set (build_cache_key f) (entry set rows) s.redis
              (answered, f, omega (arith, q, p), omega arith, refl, e) kept.1,
        ),
      )

  later_answer : (read : ℕ) (r : Option (Dict CacheEntry)) → read ≤ answered_at env read r
  later_answer read none = omega arith
  later_answer read (some r) = omega arith

  from_redis-Serves :
      (now read : ℕ) (f : FeeFilters) (s : Caches) (o : Option (List FeeConfig))
      → now ≤ read
      → redis_get env read (build_cache_key f) s.redis ≡ o
      → CachesFresh env longest now s
      → Serves env longest now (end_of_redis env read s.redis o) f (from_redis env read f o s)
  unfolding from_redis
  from_redis-Serves now read f s none le e h =
      let answered = answered_at env read s.redis in
      from_database-Serves now answered f s
        (env.answers answered (to_upper (trim f.flow_code)) (to_upper (trim f.status)))
        (omega (arith, le, later_answer read s.redis)) refl h
  from_redis-Serves now read f s (some rows) le e h =
      let k = redis_get-Fresh env longest now read (build_cache_key f) s.redis rows h.1 e in
      let end = after env read in
      let q = quick read in
      let kept = CachesFresh-later env longest now end s (omega (arith, le)) h in
      (
        (k.0, k.1, omega (arith, k.2, q), omega (arith, k.3, le), k.4, k.5),
        (
          AreFresh-insert env (120000 + longest * 3) end (build_cache_key f) (entry end rows)
              s.memory (k.0, k.1, omega (arith, k.2, q), omega (arith, k.3, le), k.4, k.5) kept.0,
          kept.1,
        ),
      )

  from_memory-Serves :
      (now : ℕ) (f : FeeFilters) (s : Caches) (o : Option (List FeeConfig))
      → live now (lookup (build_cache_key f) s.memory) ≡ o
      → CachesFresh env longest now s
      → Serves env longest now (end_of_memory env now f s o) f (from_memory env now f o s)
  unfolding from_memory
  from_memory-Serves now f s none e h =
      from_redis-Serves now (after env now) f s
        (redis_get env (after env now) (build_cache_key f) s.redis) (omega arith) refl h
  from_memory-Serves now f s (some rows) e h =
      let k =
        AreFresh-live env (120000 + longest * 3) now now (build_cache_key f) s.memory rows h.0 e in
      ((k.0, k.1, omega (arith, k.2), k.3, k.4, k.5), h)

  list_configs-Serves :
      (now : ℕ) (f : FeeFilters) (s : Caches)
      → CachesFresh env longest now s
      → Serves env longest now (end_of env now f s) f (list_configs env now f s)
  unfolding list_configs
  list_configs-Serves now f s h =
      from_memory-Serves now f s (live now (lookup (build_cache_key f) s.memory)) refl h

  abbrev IsFresh : ℕ → Cluster → Type 0
  IsFresh now c =
      ((i : ℕ) → AreFresh env (120000 + longest * 3) now (c.memory i))
      × RedisFresh env longest now c.redis

  IsFresh-later : (now later : ℕ) (c : Cluster) → now ≤ later → IsFresh now c → IsFresh later c
  IsFresh-later now later c le h = (
    λ i. AreFresh-later env (120000 + longest * 3) now later (c.memory i) le (h.0 i),
    RedisFresh-later env longest now later c.redis le h.1,
  )

  put_back-IsFresh :
      (now i : ℕ) (s : Caches) (c : Cluster)
      → CachesFresh env longest now s
      → IsFresh now c
      → IsFresh now (put_back i s c)
  put_back-IsFresh now i s c h g =
      (λ j. elim (Bool-cases (j == i)) [ inl e ↦ rw e h.0 | inr e ↦ rw e (g.0 j) ], h.1)

  upsert_keeps :
      (now : ℕ) (w : WriteEnv) (p : FeePayload) (id : Text) (s : FeeStore)
      → CachesFresh env longest now s.caches
      → CachesFresh env longest now (upsert_config w p id s).1.caches
  upsert_keeps now w p id s h = elim (upsert_caches w p id s) [
    | inl e ↦ rw e h
    | inr e ↦ rw e (tt, h.1)
  ]

  end_after_read :
      (now read : ℕ) (r : Option (Dict CacheEntry)) (o : Option (List FeeConfig))
      → now ≤ read
      → now ≤ end_of_redis env read r o
  end_after_read now read r (some rows) le = omega (arith, le)
  end_after_read now read r none le = omega (arith, le, later_answer read r)

  end_after :
      (now : ℕ) (f : FeeFilters) (s : Caches) (o : Option (List FeeConfig))
      → now ≤ end_of_memory env now f s o
  end_after now f s (some rows) = omega arith
  end_after now f s none =
      end_after_read now (after env now) s.redis
        (redis_get env (after env now) (build_cache_key f) s.redis) (omega arith)

  Reach-IsFresh : (now : ℕ) (c : Cluster) → Reach env now c → IsFresh now c
  Reach-IsFresh _ _ (started now) = ((λ i. tt), tt)
  Reach-IsFresh _ _ (started_without_redis now) = ((λ i. tt), tt)
  Reach-IsFresh _ _ (waited {now} {c} later le r) =
      IsFresh-later now later c le (Reach-IsFresh now c r)
  Reach-IsFresh _ _ (listed {now} {c} later i f le r) =
      let h = Reach-IsFresh now c r in
      let s = caches_of i c in
      let end = end_of env now f s in
      let called = (list_configs env now f s).1 in
      let grown = end_after now f s (live now (lookup (build_cache_key f) s.memory)) in
      IsFresh-later end later (put_back i called c) le (
        put_back-IsFresh end i called c (list_configs-Serves now f s (h.0 i, h.1)).1
          (IsFresh-later now end c grown h))
  Reach-IsFresh _ _ (upserted {now} {c} i w p id s e r) =
      let h = Reach-IsFresh now c r in
      put_back-IsFresh now i (upsert_config w p id s).1.caches c
        (upsert_keeps now w p id s (rw e (h.0 i, h.1))) h

-- Among processes that share Redis, and after any sequence of `list_configs` and `upsert_config`
-- in them, one call after the other, where no way to Redis or to the database or back takes longer
-- than a given time: when `list_configs` gives its rows, they are an answer of the database, under
-- the same cache key, that is less than two minutes and three such times old; and it throws only
-- where the database answers with an error during the call.
pub list_configs-IsRecent :
    (env : FeeEnv) (longest now : ℕ) (c : Cluster) (i : ℕ) (f : FeeFilters)
    → ((t : ℕ) → env.wait t ≤ longest)
    → Reach env now c
    → IsRecent env longest now
        (end_of env now f (caches_of i c))
        f
        (list_configs env now f (caches_of i c)).0
list_configs-IsRecent env longest now c i f quick r =
    let h = Reach-IsFresh env longest quick now c r in
    (list_configs-Serves env longest quick now f (caches_of i c) (h.0 i, h.1)).0
