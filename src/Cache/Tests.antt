-- ===== src/Cache/Tests.antt =====
-- The theorems on the memory store at single inputs.
use orbi_insitutional_core_v.Prelude.{◌≡◌, refl, true, false, none, [], arith}
use orbi_insitutional_core_v.Prelude.Int.{pos}
use orbi_insitutional_core_v.Prelude.Text.{codes}
use orbi_insitutional_core_v.Prelude.Dict.{lookup}
use orbi_insitutional_core_v.Cache.Timers.{is_due}
use orbi_insitutional_core_v.Cache.{Memory, number, get, set, wait, acquire_lock}
use orbi_insitutional_core_v.Cache.Expiry.{refreshed_key_expires_early}
use orbi_insitutional_core_v.Cache.Locks.{lock_excludes, handed_over, second_holder_loses_lock}

abbrev empty_memory : Memory
empty_memory = record {
  now = 5;
  memory_store = [];
  locks = [];
  store_timers = [];
  lock_timers = [];
}

refreshed_key_expires_early_example :
    get (codes "k") (
      wait 100 (
        set
          (codes "k")
          (number (pos 8))
          2
          (wait 1900 (set (codes "k") (number (pos 7)) 2 empty_memory))))
    ≡ none
refreshed_key_expires_early_example =
    refreshed_key_expires_early (codes "k") (number (pos 7)) (number (pos 8)) 1 2 1900 100
      empty_memory (omega arith) (omega arith)

lock_excludes_example :
    (acquire_lock (codes "w") 10 (wait 9000 (acquire_lock (codes "w") 10 empty_memory).0)).1 ≡ false
unfolding lookup is_due
lock_excludes_example = lock_excludes (codes "w") 10 10 9000 empty_memory refl refl (omega arith)

second_holder_loses_lock_example :
    let (held, second) = handed_over (codes "w") 10 10 9000 empty_memory in
    (second ≡ true) × ((acquire_lock (codes "w") 10 (wait 1000 held)).1 ≡ true)
unfolding lookup
second_holder_loses_lock_example =
    second_holder_loses_lock (codes "w") 10 10 10 9000 1000 empty_memory refl (omega arith)
      (omega arith)
