-- ===== src/Cache/Locks.antt =====
-- Who holds a lock of the memory store.
use orbi_insitutional_core_v.Prelude.{
  ℕ, ◌+◌, ◌*◌, ◌<◌, ◌≤◌, ◌≡◌, refl, Bool, true, false, none, some, [], ◌∷◌, ◌++◌, arith,
}
use orbi_insitutional_core_v.Prelude.Text.{Text}
use orbi_insitutional_core_v.Prelude.Dict.{lookup, insert, lookup-insert_self, lookup-erase_self}
use orbi_insitutional_core_v.Cache.Timers.{
  Timer, erase_due, is_due, lookup-erase_due, is_due-append, is_due-pending,
}
use orbi_insitutional_core_v.Cache.{Memory, acquire_lock, release_lock, wait}

acquired : Text → ℕ → Memory → Memory
acquired k ttl s = record s {
  locks = insert k tt s.locks;
  lock_timers = s.lock_timers ++ record { key = k; due = s.now + ttl * 1000 } ∷ [];
}

acquire_lock-free :
    (k : Text) (ttl : ℕ) (s : Memory)
    → lookup k s.locks ≡ none
    → acquire_lock k ttl s ≡ (acquired k ttl s, true)
unfolding acquire_lock acquired
acquire_lock-free k ttl s h = rw (h, acquire_lock) refl

acquire_lock-held :
    (k : Text) (ttl : ℕ) (s : Memory)
    → lookup k s.locks ≡ some tt
    → acquire_lock k ttl s ≡ (s, false)
unfolding acquire_lock
acquire_lock-held k ttl s h = rw (h, acquire_lock) refl

locks-after :
    (k : Text) (ttl ms : ℕ) (s : Memory)
    → is_due (s.now + ms) k s.lock_timers ≡ false
    → ms < ttl * 1000
    → lookup k (wait ms (acquired k ttl s)).locks ≡ some tt
unfolding wait acquired is_due
locks-after k ttl ms s h h' =
    let t = s.now + ms in
    let x : Timer = record { key = k; due = s.now + ttl * 1000 } in
    ground (
      arith,
      lookup-erase_due t k (s.lock_timers ++ x ∷ []) (insert k tt s.locks),
      is_due-append t k s.lock_timers (x ∷ []),
      lookup-insert_self k tt s.locks,
    )

-- A lock of the memory store that was free is not given a second time before its time to live is
-- over, if no older timer of the lock fires meanwhile.
pub lock_excludes :
    (k : Text) (ttl ttl' ms : ℕ) (s : Memory)
    → lookup k s.locks ≡ none
    → is_due (s.now + ms) k s.lock_timers ≡ false
    → ms < ttl * 1000
    → (acquire_lock k ttl' (wait ms (acquire_lock k ttl s).0)).1 ≡ false
lock_excludes k ttl ttl' ms s free h h' =
    rw
      (
        acquire_lock-free k ttl s free,
        acquire_lock-held k ttl' (wait ms (acquired k ttl s)) (locks-after k ttl ms s h h'),
      )
      refl

-- The second holder takes the lock after `ms` milliseconds, when the first releases it.
abbrev pub handed_over : Text → ℕ → ℕ → ℕ → Memory → Memory × Bool
handed_over k ttl ttl' ms s =
    acquire_lock k ttl' (release_lock k (wait ms (acquire_lock k ttl s).0))

-- If the first holder releases a lock and a second takes it before the first time to live is over,
-- the lock is given to a third when that time is over, whatever the time to live of the second
-- holder is.
pub second_holder_loses_lock :
    (k : Text) (ttl ttl' ttl'' ms ms' : ℕ) (s : Memory)
    → lookup k s.locks ≡ none
    → ms < ttl * 1000
    → ttl * 1000 ≤ ms + ms'
    → let (held, second) = handed_over k ttl ttl' ms s in
      (second ≡ true) × ((acquire_lock k ttl'' (wait ms' held)).1 ≡ true)
unfolding release_lock wait acquired erase_due is_due
second_holder_loses_lock k ttl ttl' ttl'' ms ms' s free h h' =
    let released : Memory = release_lock k (wait ms (acquired k ttl s)) in
    let x : Timer = record { key = k; due = s.now + ms + ttl' * 1000 } in
    let u = s.now + ms + ms' in
    let gone : lookup k released.locks ≡ none =
      lookup-erase_self k (wait ms (acquired k ttl s)).locks in
    let lost : lookup k (wait ms' (acquired k ttl' released)).locks ≡ none = ground (
      arith,
      lookup-erase_due u k (released.lock_timers ++ x ∷ []) (insert k tt released.locks),
      is_due-append u k released.lock_timers (x ∷ []),
      is_due-pending (s.now + ms) u (s.now + ttl * 1000) k s.lock_timers,
    ) in
    rw
      (
        acquire_lock-free k ttl s free,
        acquire_lock-free k ttl' released gone,
        acquire_lock-free k ttl'' (wait ms' (acquired k ttl' released)) lost,
      )
      (refl, refl)
