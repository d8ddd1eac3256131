-- ===== src/Idempotency/Tests.antt =====
-- Runs of the idempotency middleware, and the theorems at single inputs.
use orbi_insitutional_core_v.Prelude.{
  ℕ, zero, suc, ◌≡◌, refl, Bool, true, false, Option, none, some, [], ◌∷◌, arith,
}
use orbi_insitutional_core_v.Prelude.Text.{
  Text, codes, text_eq, to_upper, trim, trim_start, or_text,
}
use orbi_insitutional_core_v.Prelude.Dict.{Dict, lookup, insert, erase, lookup-insert_self}
use orbi_insitutional_core_v.Idempotency.{
  Redis, Store, Body, Request, CachedResponse, processing, completed, runs, in_progress,
  handle_request, handle_key, respond, resolve_idempotency_header, build_request_fingerprint,
  read_idempotency_cache, reserve_idempotency_key, reserve_and_run, write_idempotency_cache,
}
use orbi_insitutional_core_v.Idempotency.Replay.{IsReliable, IsReplayed, replay_with_redis}
use orbi_insitutional_core_v.Idempotency.Exclusive.{
  idle, arrived, answered, IsExclusive, count, finished, full_cache_drops_running,
  Reach-IsExclusive,
}

-- A client that keeps its keys in a map.
abbrev take :
    Text
    → CachedResponse
    → Dict CachedResponse
    → Option CachedResponse
    → Option (Bool × Dict CachedResponse)
take k c m none = some (true, insert k c m)
take k c m (some d) = some (false, m)

abbrev map_client : Redis (Dict CachedResponse)
map_client = record {
  get = λ k m. some (lookup k m);
  set_nx = λ k c m. take k c m (lookup k m);
  set = λ k c m. some (insert k c m);
  del = λ k m. some (erase k m);
}

map_client_takes :
    (k : Text) (c : CachedResponse) (m : Dict CachedResponse)
    → lookup k m ≡ none
    → (m' : Dict CachedResponse) × (map_client.set_nx k c m ≡ some (true, m'))
      × (lookup k m' ≡ some c)
map_client_takes k c m h = (insert k c m, (rw h refl), lookup-insert_self k c m)

map_client_reliable : IsReliable map_client
map_client_reliable = record {
  contents = λ m. m;
  get_reads = λ k m. refl;
  set_nx_takes = map_client_takes;
  set_writes = λ k c m. (insert k c m, refl, lookup-insert_self k c m);
}

abbrev receipt : Body
receipt = record { error = []; challenge_required = false; content = codes "ok" }

replay_with_redis_example :
    IsReplayed map_client true
      (codes "POST:/pay:k1:ab")
      201
      receipt
      (record { redis_client = some []; idempotency_cache = [] })
unfolding map_client_reliable lookup text_eq
replay_with_redis_example =
    replay_with_redis map_client true map_client_reliable (codes "POST:/pay:k1:ab") 201 receipt []
      [] refl refl refl

-- Two requests of one key, and the answer of the first.
Reach-IsExclusive_example : IsExclusive ((codes "k1", completed 201 receipt) ∷ []) []
unfolding handle_key read_idempotency_cache reserve_and_run reserve_idempotency_key respond
    write_idempotency_cache lookup insert text_eq count finished
Reach-IsExclusive_example = Reach-IsExclusive map_client (
    answered (arrived (arrived idle (codes "k1")) (codes "k1")) (codes "k1") 201 receipt refl
      (omega arith))

abbrev request : Request
request = record {
  idempotency_key_header = [];
  x_idempotency_key_header = codes " k1 ";
  idempotency_key = [];
  snake_idempotency_key = [];
  method = codes "post";
  base_url = [];
  path = codes "/";
  original_url = codes "/pay?x=1";
  body_hash = codes "ab";
}

request_runs :
    (handle_request map_client true request
      (record { redis_client = none; idempotency_cache = [] })).0
    ≡ runs (codes "POST:/pay:k1:ab")
unfolding handle_request handle_key read_idempotency_cache reserve_and_run reserve_idempotency_key
    resolve_idempotency_header build_request_fingerprint lookup text_eq to_upper trim trim_start
    or_text
request_runs = refl

abbrev fill : ℕ → Dict CachedResponse
fill zero = []
fill (suc n) = (n ∷ [], completed 200 receipt) ∷ fill n

full_cache_drops_running_example :
    let full : Store (Dict CachedResponse) = record {
      redis_client = none;
      idempotency_cache = (codes "k1", processing) ∷ fill 999;
    } in
    ((handle_key map_client true (codes "k1") full).0 ≡ in_progress)
    × ((handle_key map_client true
          (codes "k1")
          (respond map_client true (codes "k2") 200 receipt full)).0
        ≡ runs (codes "k1"))
unfolding lookup text_eq insert
full_cache_drops_running_example =
    full_cache_drops_running map_client (codes "k1") (codes "k2") 200 receipt (fill 999) refl refl
      refl (omega arith)
