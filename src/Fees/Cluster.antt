-- ===== src/Fees/Cluster.antt =====
-- Processes that share Redis, with the calls of `listConfigs` and `upsertConfig` in them.
use orbi_insitutional_core_v.Prelude.{
  ◌==◌, ℕ, ◌≤◌, ◌≡◌, Option, none, some, List, [], if◌then◌else◌,
}
use orbi_insitutional_core_v.Prelude.Text.{Text}
use orbi_insitutional_core_v.Prelude.Dict.{Dict, lookup}
use orbi_insitutional_core_v.Fees.{FeeConfig}
use orbi_insitutional_core_v.Fees.Update.{upsert_config, WriteEnv, FeePayload, FeeStore}
use orbi_insitutional_core_v.Fees.Catalog.{
  FeeFilters, CacheEntry, Caches, FeeEnv, after, answered_at, build_cache_key, live, redis_get,
  list_configs,
}

-- The processes, each with its map, and the Redis that they share.
pub record Cluster : Type 0 where
  pub memory : ℕ → Dict CacheEntry
  pub redis : Option (Dict CacheEntry)

abbrev pub caches_of : ℕ → Cluster → Caches
caches_of i c = record { memory = c.memory i; redis = c.redis }

abbrev pub put_back : ℕ → Caches → Cluster → Cluster
put_back i s c = record { memory = λ j. if j == i then s.memory else c.memory j; redis = s.redis }

module _ (env : FeeEnv) where
  -- When a call has its rows: at once, with the answer of Redis, or with that of the database.
  abbrev pub end_of_redis : ℕ → Option (Dict CacheEntry) → Option (List FeeConfig) → ℕ
  end_of_redis read r (some rows) = after env read
  end_of_redis read r none = after env (answered_at env read r)

  abbrev pub end_of_memory : ℕ → FeeFilters → Caches → Option (List FeeConfig) → ℕ
  end_of_memory now f s (some rows) = now
  end_of_memory now f s none =
      end_of_redis (after env now) s.redis
        (redis_get env (after env now) (build_cache_key f) s.redis)

  abbrev pub end_of : ℕ → FeeFilters → Caches → ℕ
  end_of now f s = end_of_memory now f s (live now (lookup (build_cache_key f) s.memory))

  -- Calls of `listConfigs` and `upsertConfig` in the processes, one after the other, as time goes on.
  pub data Reach : ℕ → Cluster → Type 0 where
    started : (now : ℕ) → Reach now (record { memory = λ i. []; redis = some [] })
    started_without_redis : (now : ℕ) → Reach now (record { memory = λ i. []; redis = none })
    waited : {now : ℕ} {c : Cluster} (later : ℕ) → now ≤ later → Reach now c → Reach later c
    listed :
        {now : ℕ} {c : Cluster} (later i : ℕ) (f : FeeFilters)
        → end_of now f (caches_of i c) ≤ later
        → Reach now c
        → Reach later (put_back i (list_configs env now f (caches_of i c)).1 c)
    upserted :
        {now : ℕ} {c : Cluster} (i : ℕ) (w : WriteEnv) (p : FeePayload) (id : Text) (s : FeeStore)
        → s.caches ≡ caches_of i c
        → Reach now c
        → Reach now (put_back i (upsert_config w p id s).1.caches c)
