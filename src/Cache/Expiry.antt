-- ===== src/Cache/Expiry.antt =====
-- How long a key of the memory store lives.
use orbi_insitutional_core_v.Prelude.{ℕ, suc, ◌+◌, ◌*◌, ◌<◌, ◌≤◌, ◌≡◌, leb, none, ◌++◌, arith}
use orbi_insitutional_core_v.Prelude.Text.{Text}
use orbi_insitutional_core_v.Prelude.Dict.{insert, text_eq_refl}
use orbi_insitutional_core_v.Cache.Timers.{is_due, lookup-erase_due, is_due-append, is_due-pending}
use orbi_insitutional_core_v.Cache.{Value, Memory, timer_for, get, set, wait}

is_due-timer_for :
    (t now ttl : ℕ) (k : Text)
    → is_due t k (timer_for k (suc ttl) now) ≡ leb (now + suc ttl * 1000) t
unfolding is_due timer_for
is_due-timer_for t now ttl k = ground (arith, text_eq_refl k)

-- A key that is set again before its time to live is over is gone when the first time is over,
-- whatever the second time to live is.
pub refreshed_key_expires_early :
    (k : Text) (v w : Value) (ttl ttl' ms ms' : ℕ) (s : Memory)
    → ms < suc ttl * 1000
    → suc ttl * 1000 ≤ ms + ms'
    → get k (wait ms' (set k w ttl' (wait ms (set k v (suc ttl) s)))) ≡ none
unfolding get set wait timer_for
refreshed_key_expires_early k v w ttl ttl' ms ms' s h h' =
    let s' = wait ms (set k v (suc ttl) s) in
    let t = s.now + ms + ms' in
    ground (
      arith,
      lookup-erase_due t k (s'.store_timers ++ timer_for k ttl' (s.now + ms))
          (insert k w s'.memory_store),
      is_due-append t k s'.store_timers (timer_for k ttl' (s.now + ms)),
      is_due-pending (s.now + ms) t (s.now + suc ttl * 1000) k s.store_timers,
    )
