-- ===== src/Idempotency.antt =====
-- The middleware of src/middleware/security/idempotency.ts: a request with a key runs once, and a
-- duplicate gets the stored answer. The Redis client and the hash of the body are parameters.
pub mod Replay
pub mod Exclusive
mod Tests
use orbi_insitutional_core_v.Prelude.{
  ℕ, Bool, true, false, ◌||◌, ◌==◌, if◌then◌else◌, leb, Option, none, some, List, [], ◌∷◌, ◌++◌,
  length,
}
use orbi_insitutional_core_v.Prelude.Text.{Text, codes, text_eq, trim, to_upper, or_text}
use orbi_insitutional_core_v.Prelude.Dict.{Dict, lookup, insert, erase}

pub record Body : Type 0 where
  pub error : Text
  pub challenge_required : Bool
  pub content : Text

pub data CachedResponse : Type 0 where
  processing : CachedResponse
  completed : ℕ → Body → CachedResponse

-- The calls of the client that the middleware makes; `none` where one throws.
pub record Redis (R : Type 0) : Type 0 where
  pub get : Text → R → Option (Option CachedResponse)
  pub set_nx : Text → CachedResponse → R → Option (Bool × R)
  pub set : Text → CachedResponse → R → Option R
  pub del : Text → R → Option R

pub record Store (R : Type 0) : Type 0 where
  pub redis_client : Option R
  pub idempotency_cache : Dict CachedResponse

-- An absent header or field is the empty text.
pub record Request : Type 0 where
  pub idempotency_key_header : Text
  pub x_idempotency_key_header : Text
  pub idempotency_key : Text
  pub snake_idempotency_key : Text
  pub method : Text
  pub base_url : Text
  pub path : Text
  pub original_url : Text
  pub body_hash : Text

unfoldable pub resolve_idempotency_header : Request → Text
resolve_idempotency_header req =
    or_text req.idempotency_key_header
      (or_text req.x_idempotency_key_header (or_text req.idempotency_key req.snake_idempotency_key))

-- `s.split('?')[0]`
abbrev before_query : Text → Text
before_query [] = []
before_query (c ∷ s) = if c == b'?' then [] else c ∷ before_query s

abbrev request_path : Request → Text
request_path req = elim req.base_url [
  | [] ↦ before_query req.original_url
  | c ∷ s ↦ (c ∷ s) ++ req.path
]

unfoldable pub build_request_fingerprint : Request → Text → Text
build_request_fingerprint req key =
    to_upper req.method
    ++ codes ":"
    ++ request_path req
    ++ codes ":"
    ++ key
    ++ codes ":"
    ++ req.body_hash

pub data Outcome : Type 0 where
  passed_on in_progress : Outcome
  replayed : ℕ → Body → Outcome
  runs : Text → Outcome

abbrev is_blank : Text → Bool
is_blank [] = true
is_blank (c ∷ s) = false

-- `requireIdempotencyKey`: `true` where the request goes on.
unfoldable pub require_idempotency_key : Request → Bool
require_idempotency_key req =
    let key = resolve_idempotency_header req in
    if is_blank key || is_blank (trim key) then false else true

abbrev pub redis_key : Text → Text
redis_key key = codes "idempotency:" ++ key

module _ {R : Type 0} (redis : Redis R) (allow_local : Bool) where
  abbrev read_local : Text → Store R → Option CachedResponse
  read_local key st = if allow_local then lookup key st.idempotency_cache else none

  unfoldable pub read_idempotency_cache : Text → Store R → Option CachedResponse
  read_idempotency_cache key st = elim st.redis_client [
    | none ↦ read_local key st
    | some r ↦ elim (redis.get (redis_key key) r) [
      | none ↦ read_local key st
      | some none ↦ read_local key st
      | some (some cached) ↦ some cached
    ]
  ]

  abbrev reserve_local : Text → Store R → Bool × Store R
  reserve_local key st =
      if allow_local
      then (elim (lookup key st.idempotency_cache) [
        | some c ↦ (false, st)
        | none ↦
            (true, record st { idempotency_cache = insert key processing st.idempotency_cache })
      ])
      else (true, st)

  unfoldable pub reserve_idempotency_key : Text → Store R → Bool × Store R
  reserve_idempotency_key key st = elim st.redis_client [
    | none ↦ reserve_local key st
    | some r ↦ elim (redis.set_nx (redis_key key) processing r) [
      | none ↦ reserve_local key st
      | some (reserved, r') ↦ (reserved, record st { redis_client = some r' })
    ]
  ]

  -- More than 1000 keys: the one that was inserted first goes.
  abbrev pub evict : Dict CachedResponse → Dict CachedResponse
  evict [] = []
  evict (e ∷ m) = if leb (length m) 999 then e ∷ m else m

  abbrev write_local : Text → CachedResponse → Store R → Store R
  write_local key c st =
      if allow_local
      then record st { idempotency_cache = evict (insert key c st.idempotency_cache) }
      else st

  unfoldable pub write_idempotency_cache : Text → CachedResponse → Store R → Store R
  write_idempotency_cache key c st = elim st.redis_client [
    | none ↦ write_local key c st
    | some r ↦ elim (redis.set (redis_key key) c r) [
      | none ↦ write_local key c st
      | some r' ↦ record st { redis_client = some r' }
    ]
  ]

  abbrev clear_local : Text → Store R → Store R
  clear_local key st =
      if allow_local then record st { idempotency_cache = erase key st.idempotency_cache } else st

  unfoldable pub clear_idempotency_cache : Text → Store R → Store R
  clear_idempotency_cache key st = elim st.redis_client [
    | none ↦ clear_local key st
    | some r ↦ elim (redis.del (redis_key key) r) [
      | none ↦ clear_local key st
      | some r' ↦ record st { redis_client = some r' }
    ]
  ]

  abbrev pub answer : CachedResponse → Outcome
  answer processing = in_progress
  answer (completed status body) = replayed status body

  unfoldable pub reserve_and_run : Text → Store R → Outcome × Store R
  reserve_and_run key st =
      let (reserved, st') = reserve_idempotency_key key st in
      (if reserved then runs key else in_progress, st')

  -- The middleware from the fingerprint on.
  unfoldable pub handle_key : Text → Store R → Outcome × Store R
  handle_key key st = elim (read_idempotency_cache key st) [
    | some cached ↦ (answer cached, st)
    | none ↦ reserve_and_run key st
  ]

  unfoldable pub handle_request : Request → Store R → Outcome × Store R
  handle_request req st =
      let raw_key = resolve_idempotency_header req in
      if is_blank raw_key
      then (passed_on, st)
      else handle_key (build_request_fingerprint req (trim raw_key)) st

  -- `res.json` of a request that runs.
  unfoldable pub respond : Text → ℕ → Body → Store R → Store R
  respond key status body st =
      if text_eq body.error (codes "SECURITY_CHALLENGE") || body.challenge_required
      then clear_idempotency_cache key st
      else write_idempotency_cache key (completed status body) st
