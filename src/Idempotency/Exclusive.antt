-- ===== src/Idempotency/Exclusive.antt =====
-- Without Redis: while a request runs, no duplicate of it runs.
use orbi_insitutional_core_v.Prelude.{
  ◌-◌, ℕ, suc, ◌≤◌, ◌≡◌, refl, ◌⊎◌, inl, inr, true, false, if◌then◌else◌, none, some, List, [], ◌∷◌,
  length, arith, Bool-cases, Option-cases,
}
use orbi_insitutional_core_v.Prelude.Text.{Text, text_eq}
use orbi_insitutional_core_v.Prelude.Dict.{
  Dict, lookup, insert, lookup-insert, lookup-erase, text_eq_refl, text_eq_iff,
}
use orbi_insitutional_core_v.Idempotency.{
  answer, Redis, Store, Body, CachedResponse, processing, completed, Outcome, runs, in_progress,
  handle_key, respond, read_idempotency_cache, reserve_idempotency_key, reserve_and_run,
  write_idempotency_cache, clear_idempotency_cache, evict,
}
use orbi_insitutional_core_v.Idempotency.Replay.{is_challenge}

-- How many requests with the key are running.
unfoldable pub count : Text → List Text → ℕ
count k [] = 0
count k (j ∷ js) = let n = count k js in if text_eq j k then suc n else n

-- One that has answered is taken off.
unfoldable pub finished : Text → List Text → List Text
finished k [] = []
finished k (j ∷ js) = if text_eq j k then js else j ∷ finished k js

abbrev pub ran : Outcome → List Text → List Text
ran (runs k) running = k ∷ running
ran _ running = running

module _ {R : Type 0} (redis : Redis R) where
  abbrev pub offline : Dict CachedResponse → Store R
  offline cache = record { redis_client = none; idempotency_cache = cache }

  -- What the local cache is after requests and answers, with the keys that run; no answer comes when the
  -- cache is so full that it drops a key.
  pub data Reach : Dict CachedResponse → List Text → Type 0 where
    idle : Reach [] []
    arrived :
        {cache : Dict CachedResponse} {running : List Text}
        → Reach cache running
        → (key : Text)
        → Reach
            (handle_key redis true key (offline cache)).1.idempotency_cache
            (ran (handle_key redis true key (offline cache)).0 running)
    answered :
        {cache : Dict CachedResponse} {running : List Text}
        → Reach cache running
        → (key : Text) (status : ℕ) (body : Body) → (count key running ≡ 1)
        → length (insert key (completed status body) cache) ≤ 1000
        → Reach
            (respond redis true key status body (offline cache)).idempotency_cache
            (finished key running)

-- Every key runs at most once, and one that runs is in the cache as such.
abbrev pub IsExclusive : Dict CachedResponse → List Text → Type 0
IsExclusive cache running =
    (k : Text)
    → (count k running ≡ 0) ⊎ ((count k running ≡ 1) × (lookup k cache ≡ some processing))

count-finished :
    (k j : Text) (running : List Text)
    → count k (finished j running) ≡ (if text_eq j k then count k running - 1 else count k running)
unfolding count finished
count-finished k j [] = ground arith
count-finished k j (i ∷ running) =
    ground (arith, text_eq_iff i j, text_eq_iff i k, text_eq_iff j k, count-finished k j running)

module _ {R : Type 0} (redis : Redis R) where
  handle_key-found :
      (key : Text) (c : CachedResponse) (cache : Dict CachedResponse)
      → lookup key cache ≡ some c
      → handle_key redis true key (offline redis cache) ≡ (answer redis true c, offline redis cache)
  unfolding handle_key read_idempotency_cache
  handle_key-found key c cache h = rw (handle_key, read_idempotency_cache, h) refl

  handle_key-new :
      (key : Text) (cache : Dict CachedResponse)
      → lookup key cache ≡ none
      → handle_key redis true key (offline redis cache)
        ≡ (runs key, offline redis (insert key processing cache))
  unfolding handle_key read_idempotency_cache reserve_and_run reserve_idempotency_key
  handle_key-new key cache h =
      rw (handle_key, read_idempotency_cache, h)
        (rw (reserve_and_run, reserve_idempotency_key, h) refl)

  ran-answer :
      (c : CachedResponse) (running : List Text) → ran (answer redis true c) running ≡ running
  ran-answer processing running = refl
  ran-answer (completed status body) running = refl

  arrived-IsExclusive :
      (cache : Dict CachedResponse) (running : List Text) (key : Text)
      → IsExclusive cache running
      → let (o, st) = handle_key redis true key (offline redis cache) in
        IsExclusive st.idempotency_cache (ran o running)
  unfolding count
  arrived-IsExclusive cache running key h = elim (Option-cases (lookup key cache)) [
    | inr (c, e) ↦ rw (handle_key-found key c cache e, ran-answer c running) h
    | inl e ↦ rw (handle_key-new key cache e) (λ k.
        (let hk = h k in
          let hkey = h key in
          ground (arith, lookup-insert key k processing cache, text_eq_iff key k)))
  ]

  evict-small : (cache : Dict CachedResponse) → length cache ≤ 1000 → evict redis true cache ≡ cache
  evict-small [] h = refl
  evict-small (e ∷ cache) h = ground arith

  answered-IsExclusive :
      (cache : Dict CachedResponse) (running : List Text) (key : Text) (status : ℕ) (body : Body)
      → IsExclusive cache running
      → length (insert key (completed status body) cache) ≤ 1000
      → count key running ≡ 1
      → IsExclusive
          (respond redis true key status body (offline redis cache)).idempotency_cache
          (finished key running)
  unfolding respond write_idempotency_cache clear_idempotency_cache
  answered-IsExclusive cache running key status body h small one =
      elim (Bool-cases (is_challenge body)) [
        | inl e ↦
            rw (respond, e)
              (λ k.
                (let hk = h k in
                  ground (
                    arith,
                    lookup-erase key k cache,
                    text_eq_iff key k,
                    count-finished k key running,
                  )))
        | inr e ↦
            rw (respond, e, evict-small (insert key (completed status body) cache) small)
              (λ k.
                (let hk = h k in
                  ground (
                    arith,
                    lookup-insert key k (completed status body) cache,
                    text_eq_iff key k,
                    count-finished k key running,
                  )))
      ]

  -- Without Redis and with the local cache, after any requests and answers in any order, every key
  -- runs at most once at a time, and while it runs the cache says so, if no answer comes when the
  -- cache holds more than 1000 keys.
  pub Reach-IsExclusive :
      {cache : Dict CachedResponse} {running : List Text}
      → Reach redis cache running
      → IsExclusive cache running
  unfolding count
  Reach-IsExclusive idle = λ k. inl refl
  Reach-IsExclusive (arrived {cache} {running} before key) =
      arrived-IsExclusive cache running key (Reach-IsExclusive before)
  Reach-IsExclusive (answered {cache} {running} before key status body one small) =
      answered-IsExclusive cache running key status body (Reach-IsExclusive before) small one

-- A key that runs and was inserted first is dropped when another answer fills the cache.
module _ {R : Type 0} (redis : Redis R) where
  evict-full :
      (e : Text × CachedResponse) (cache : Dict CachedResponse)
      → 1000 ≤ length cache
      → evict redis true (e ∷ cache) ≡ cache
  evict-full e cache h = ground arith

  -- Without Redis, the answer to another request that makes the local cache hold more than 1000
  -- keys drops the first key, so that a duplicate of a request that is still running under it runs
  -- as well.
  pub full_cache_drops_running :
      (key other : Text) (status : ℕ) (body : Body) (rest : Dict CachedResponse)
      → text_eq key other ≡ false
      → is_challenge body ≡ false
      → lookup key rest ≡ none
      → 1000 ≤ length (insert other (completed status body) rest)
      → let full = offline redis ((key, processing) ∷ rest) in
        ((handle_key redis true key full).0 ≡ in_progress)
        × ((handle_key redis true key (respond redis true other status body full)).0 ≡ runs key)
  unfolding insert lookup respond write_idempotency_cache
  full_cache_drops_running key other status body rest differs plain absent full =
      let c = completed status body in
      let kept : lookup key (insert other c rest) ≡ none =
        ground
          (arith, lookup-insert other key c rest, text_eq_iff key other, text_eq_iff other key) in
      let running : handle_key redis true key (offline redis ((key, processing) ∷ rest))
          ≡ (in_progress, offline redis ((key, processing) ∷ rest)) =
        handle_key-found redis key processing ((key, processing) ∷ rest)
          (rw (text_eq_refl key) refl) in
      let dropped : respond redis true other status body (offline redis ((key, processing) ∷ rest))
          ≡ offline redis (insert other c rest) =
        rw (respond, plain, differs, evict-full (key, processing) (insert other c rest) full)
          refl in
      rw (running, dropped, handle_key-new redis key (insert other c rest) kept) (refl, refl)
