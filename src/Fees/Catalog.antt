-- ===== src/Fees/Catalog.antt =====
-- `listConfigs` with its two caches, and `upsertConfig`. The database is an argument: what it answers to
-- a query at a time (nothing for an error), and which writes it refuses. What a call awaits takes
-- time, and both spellings of a payload's key are one field.
use orbi_insitutional_core_v.Prelude.{
  ℕ, ◌+◌, Bool, ◌||◌, Option, none, some, List, [], ◌∷◌, ◌++◌, if◌then◌else◌, ltb, ◌==◌,
}
use orbi_insitutional_core_v.Prelude.Text.{Text, codes, to_upper, trim}
use orbi_insitutional_core_v.Prelude.Dict.{Dict, lookup, insert}
use orbi_insitutional_core_v.Fees.{FeeConfig}
use orbi_insitutional_core_v.Fees.Compute.{Outcome, returned, thrown}

-- `PlatformFeeFilters`; a missing filter is the empty text.
pub record FeeFilters : Type 0 where
  pub flow_code : Text
  pub status : Text
  pub provider_id : Text
  pub currency : Text
  pub country_code : Text
  pub rail : Text
  pub transaction_model : Text
  pub category_code : Text
  pub category_id : Text

pub record CacheEntry : Type 0 where
  pub expires_at : ℕ
  pub rows : List FeeConfig

-- The map of the process, and Redis where there is a client and it is not disabled.
pub record Caches : Type 0 where
  pub memory : Dict CacheEntry
  pub redis : Option (Dict CacheEntry)

abbrev pub cache_ttl_ms : ℕ
cache_ttl_ms = 60000

-- The characters of a text in JSON; control characters do not come up.
abbrev escape : Text → Text
escape [] = []
escape (c ∷ s) = if c == 34 || c == 92 then 92 ∷ c ∷ escape s else c ∷ escape s

-- `"key":"value"`
abbrev json_field : Text → Text → Text
json_field key value = 34 ∷ key ++ codes "\":\"" ++ escape value ++ 34 ∷ []

abbrev upper : Text → Text
upper t = to_upper (trim t)

unfoldable pub build_cache_key : FeeFilters → Text
unfolding to_upper trim
build_cache_key f =
    codes "{"
    ++ json_field (codes "flowCode") (upper f.flow_code)
    ++ codes ","
    ++ json_field (codes "status") (upper f.status)
    ++ codes ","
    ++ json_field (codes "providerId") f.provider_id
    ++ codes ","
    ++ json_field (codes "currency") (upper f.currency)
    ++ codes ","
    ++ json_field (codes "countryCode") (upper f.country_code)
    ++ codes ","
    ++ json_field (codes "rail") (upper f.rail)
    ++ codes ","
    ++ json_field (codes "transactionModel") (upper f.transaction_model)
    ++ codes ","
    ++ json_field (codes "categoryCode") (upper f.category_code)
    ++ codes ","
    ++ json_field (codes "categoryId") (trim f.category_id)
    ++ codes "}"

-- What the database answers to the query for a flow code and a status, empty where it is not asked to
-- compare, which calls of Redis fail, and how long what is awaited at a time takes, on the way to the database
-- or to Redis as on the way back.
pub record FeeEnv : Type 0 where
  pub answers : ℕ → Text → Text → Option (List FeeConfig)
  pub error_message : Text
  pub get_fails : ℕ → Bool
  pub set_fails : ℕ → Bool
  pub wait : ℕ → ℕ

-- The time after a way.
abbrev pub after : FeeEnv → ℕ → ℕ
after env t = t + env.wait t

-- An entry that has not expired.
abbrev pub live : ℕ → Option CacheEntry → Option (List FeeConfig)
live now none = none
live now (some e) = if ltb now e.expires_at then some e.rows else none

unfoldable pub redis_get : FeeEnv → ℕ → Text → Option (Dict CacheEntry) → Option (List FeeConfig)
unfolding lookup
redis_get env now key none = none
redis_get env now key (some r) = if env.get_fails now then none else live now (lookup key r)

unfoldable pub redis_set :
    FeeEnv → ℕ → Text → CacheEntry → Option (Dict CacheEntry) → Option (Dict CacheEntry)
unfolding insert
redis_set env now key e none = none
redis_set env now key e (some r) = if env.set_fails now then some r else some (insert key e r)

abbrev pub entry : ℕ → List FeeConfig → CacheEntry
entry now rows = record { expires_at = now + cache_ttl_ms; rows = rows }

-- From the answer of the database, at its time.
unfoldable pub from_database :
    FeeEnv → ℕ → Text → Option (List FeeConfig) → Caches → Outcome (List FeeConfig) × Caches
unfolding redis_set insert
from_database env answered key none s = (thrown env.error_message, s)
from_database env answered key (some rows) s =
    let back = after env answered in
    let set = after env back in
    (
      returned rows,
      record {
        memory = insert key (entry back rows) s.memory;
        redis = redis_set env set key (entry set rows) s.redis;
      },
    )

-- When the database answers: where there is Redis, its answer comes first.
abbrev pub answered_at : FeeEnv → ℕ → Option (Dict CacheEntry) → ℕ
answered_at env read none = read
answered_at env read (some r) = after env (after env read)

-- From the read in Redis, at its time.
unfoldable pub from_redis :
    FeeEnv → ℕ → FeeFilters → Option (List FeeConfig) → Caches → Outcome (List FeeConfig) × Caches
unfolding build_cache_key from_database insert to_upper trim
from_redis env read f (some rows) s = (
  returned rows,
  record s { memory = insert (build_cache_key f) (entry (after env read) rows) s.memory },
)
from_redis env read f none s =
    let answered = answered_at env read s.redis in
    from_database env answered (build_cache_key f)
      (env.answers answered (upper f.flow_code) (upper f.status)) s

unfoldable pub from_memory :
    FeeEnv → ℕ → FeeFilters → Option (List FeeConfig) → Caches → Outcome (List FeeConfig) × Caches
unfolding from_redis redis_get build_cache_key
from_memory env now f (some rows) s = (returned rows, s)
from_memory env now f none s =
    let read = after env now in
    from_redis env read f (redis_get env read (build_cache_key f) s.redis) s

unfoldable pub list_configs : FeeEnv → ℕ → FeeFilters → Caches → Outcome (List FeeConfig) × Caches
unfolding from_memory lookup build_cache_key
list_configs env now f s = from_memory env now f (live now (lookup (build_cache_key f) s.memory)) s
