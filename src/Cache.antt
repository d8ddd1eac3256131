-- ===== src/Cache.antt =====
-- What the limits and locks ask of a cache, and `RedisManager` of
-- backend/enterprise/infrastructure/RedisManager.ts as it is without a Redis client: its own maps, and
-- the timers that `setTimeout` starts.
pub mod Timers
pub mod Expiry
pub mod Locks
mod Tests
use orbi_insitutional_core_v.Prelude.{
  ℕ, ◌+◌, ◌*◌, ◌≡◌, Bool, true, false, ◌==◌, if◌then◌else◌, Option, none, some, List, [], ◌∷◌, ◌++◌,
}
use orbi_insitutional_core_v.Prelude.Int.{ℤ}
use orbi_insitutional_core_v.Prelude.Text.{Text, text_eq}
use orbi_insitutional_core_v.Prelude.Dict.{Dict, lookup, insert, erase, lookup-insert}
use orbi_insitutional_core_v.Cache.Timers.{Timer, erase_due, pending}

-- The values that are stored.
pub data Value : Type 0 where
  number : ℤ → Value
  flag : Bool → Value

-- What a client of the cache relies on while no key expires. `set` takes the key, the value and the
-- seconds to live.
pub record Cache (S : Type 0) : Type 0 where
  pub get : Text → S → Option Value
  pub set : Text → Value → ℕ → S → S
  pub get-set :
      (k j : Text) (v : Value) (ttl : ℕ) (s : S)
      → get j (set k v ttl s) ≡ (if text_eq k j then some v else get j s)

pub record Memory : Type 0 where
  pub now : ℕ
  pub memory_store : Dict Value
  pub locks : Dict (Unit {0})
  pub store_timers : List Timer
  pub lock_timers : List Timer

-- The timer of a key, in milliseconds; a time to live of 0 starts none.
unfoldable pub timer_for : Text → ℕ → ℕ → List Timer
timer_for k ttl now = if ttl == 0 then [] else record { key = k; due = now + ttl * 1000 } ∷ []

unfoldable pub get : Text → Memory → Option Value
get k s = lookup k s.memory_store

unfoldable pub set : Text → Value → ℕ → Memory → Memory
set k v ttl s = record s {
  memory_store = insert k v s.memory_store;
  store_timers = s.store_timers ++ timer_for k ttl s.now;
}

unfoldable pub delete : Text → Memory → Memory
delete k s = record s { memory_store = erase k s.memory_store }

-- `setTimeout` is called whatever the time to live is.
unfoldable pub acquire_lock : Text → ℕ → Memory → Memory × Bool
acquire_lock k ttl s = elim (lookup k s.locks) [
  | some u ↦ (s, false)
  | none ↦ (
    record s {
      locks = insert k tt s.locks;
      lock_timers = s.lock_timers ++ record { key = k; due = s.now + ttl * 1000 } ∷ [];
    },
    true,
  )
]

unfoldable pub release_lock : Text → Memory → Memory
release_lock k s = record s { locks = erase k s.locks }

-- Some milliseconds pass, and the timers that are due fire.
unfoldable pub wait : ℕ → Memory → Memory
wait ms s =
    let t = s.now + ms in
    record s {
      now = t;
      memory_store = erase_due t s.store_timers s.memory_store;
      locks = erase_due t s.lock_timers s.locks;
      store_timers = pending t s.store_timers;
      lock_timers = pending t s.lock_timers;
    }

pub get-set :
    (k j : Text) (v : Value) (ttl : ℕ) (s : Memory)
    → get j (set k v ttl s) ≡ (if text_eq k j then some v else get j s)
unfolding get set
get-set k j v ttl s = lookup-insert k j v s.memory_store

abbrev pub memory_cache : Cache Memory
memory_cache = record { get = get; set = set; get-set = get-set }
