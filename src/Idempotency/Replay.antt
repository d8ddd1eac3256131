-- ===== src/Idempotency/Replay.antt =====
-- A duplicate of a request, while it runs and afterwards.
use orbi_insitutional_core_v.Prelude.{
  inr, inl, Bool-cases, ℕ, ◌≡◌, refl, Bool, true, false, ◌||◌, none, some,
}
use orbi_insitutional_core_v.Prelude.Text.{Text, codes, text_eq}
use orbi_insitutional_core_v.Prelude.Dict.{Dict, lookup}
use orbi_insitutional_core_v.Idempotency.{
  answer, Redis, Store, Body, CachedResponse, processing, completed, runs, in_progress, replayed,
  redis_key, handle_key, respond, read_idempotency_cache, reserve_idempotency_key, reserve_and_run,
  write_idempotency_cache,
}

-- A client whose calls do not throw and that keeps what is set, while no key expires.
pub record IsReliable {R : Type 0} (redis : Redis R) : Type 0 where
  pub contents : R → Dict CachedResponse
  pub get_reads : (k : Text) (r : R) → redis.get k r ≡ some (lookup k (contents r))
  pub set_nx_takes :
      (k : Text) (c : CachedResponse) (r : R)
      → lookup k (contents r) ≡ none
      → (r' : R) × (redis.set_nx k c r ≡ some (true, r')) × (lookup k (contents r') ≡ some c)
  pub set_writes :
      (k : Text) (c : CachedResponse) (r : R)
      → (r' : R) × (redis.set k c r ≡ some r') × (lookup k (contents r') ≡ some c)

abbrev pub is_challenge : Body → Bool
is_challenge body = text_eq body.error (codes "SECURITY_CHALLENGE") || body.challenge_required

module _ {R : Type 0} (redis : Redis R) (allow_local : Bool) where
  -- A request, its duplicate while it runs, its answer, and another duplicate.
  abbrev pub IsReplayed : Text → ℕ → Body → Store R → Type 0
  IsReplayed key status body st =
      let (first, running) = handle_key redis allow_local key st in
      let (second, still_running) = handle_key redis allow_local key running in
      let answered = respond redis allow_local key status body still_running in
      (first ≡ runs key)
      × (second ≡ in_progress)
      × ((handle_key redis allow_local key answered).0 ≡ replayed status body)

  abbrev online : R → Dict CachedResponse → Store R
  online r cache = record { redis_client = some r; idempotency_cache = cache }

  handle_key-stored :
      (reliable : IsReliable redis) (key : Text) (c : CachedResponse) (r : R)
      (cache : Dict CachedResponse)
      → lookup (redis_key key) (reliable.contents r) ≡ some c
      → handle_key redis allow_local key (online r cache)
        ≡ (answer redis allow_local c, online r cache)
  unfolding handle_key read_idempotency_cache
  handle_key-stored reliable key c r cache h =
      rw (handle_key, read_idempotency_cache, reliable.get_reads (redis_key key) r, h) refl

  handle_key-fresh :
      (reliable : IsReliable redis) (key : Text) (r r' : R) (cache : Dict CachedResponse)
      → lookup (redis_key key) (reliable.contents r) ≡ none
      → lookup key cache ≡ none
      → redis.set_nx (redis_key key) processing r ≡ some (true, r')
      → handle_key redis allow_local key (online r cache) ≡ (runs key, online r' cache)
  unfolding handle_key read_idempotency_cache reserve_and_run reserve_idempotency_key
  handle_key-fresh reliable key r r' cache h h' taken = elim (Bool-cases allow_local) [
    | inl e ↦
        rw
          (
            handle_key,
            read_idempotency_cache,
            reliable.get_reads (redis_key key) r,
            h,
            e,
            h',
            reserve_and_run,
            reserve_idempotency_key,
            taken,
          )
          refl
    | inr e ↦
        rw
          (
            handle_key,
            read_idempotency_cache,
            reliable.get_reads (redis_key key) r,
            h,
            e,
            reserve_and_run,
            reserve_idempotency_key,
            taken,
          )
          refl
  ]

  respond-plain :
      (key : Text) (status : ℕ) (body : Body) (r r' : R) (cache : Dict CachedResponse)
      → is_challenge body ≡ false
      → redis.set (redis_key key) (completed status body) r ≡ some r'
      → respond redis allow_local key status body (online r cache) ≡ online r' cache
  unfolding respond write_idempotency_cache
  respond-plain key status body r r' cache plain written =
      rw (plain, respond, write_idempotency_cache, written) refl

  -- With a Redis client that does not fail, a request with a new key runs, a duplicate of it is
  -- refused until the answer, and a duplicate after the answer gets that answer, if the answer is
  -- not a security challenge.
  pub replay_with_redis :
      (reliable : IsReliable redis) (key : Text) (status : ℕ) (body : Body) (r : R)
      (cache : Dict CachedResponse)
      → lookup (redis_key key) (reliable.contents r) ≡ none
      → lookup key cache ≡ none
      → is_challenge body ≡ false
      → IsReplayed key status body (online r cache)
  replay_with_redis reliable key status body r cache fresh unused plain =
      let (r', taken, kept) = reliable.set_nx_takes (redis_key key) processing r fresh in
      let (r'', written, kept') = reliable.set_writes (redis_key key) (completed status body) r' in
      rw
        (
          handle_key-fresh reliable key r r' cache fresh unused taken,
          handle_key-stored reliable key processing r' cache kept,
          respond-plain key status body r' r'' cache plain written,
          handle_key-stored reliable key (completed status body) r'' cache kept',
        )
        (refl, refl, refl)
