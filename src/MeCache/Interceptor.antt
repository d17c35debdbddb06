-- ===== src/MeCache/Interceptor.antt =====
-- The interceptor of GET /v1/users/me (services/users/src/shared/cache/me-cache.interceptor.ts).
use microservices_running.Prelude.{
  ℕ, ◌==◌, Bool, true, false, Option, none, some, [], ◌∷◌, ◌++◌, if◌then◌else◌,
}
use microservices_running.Session.{codes}
use microservices_running.Effects.{returned, Io, return, ◌>>=◌}
use microservices_running.MeCache.{Text, Redis, Json, CacheGetResult, get, set, invalidate}

abbrev pub me_key_prefix : Text
me_key_prefix = codes "users:me:v1"

abbrev pub me_cache_key : (cognito_sub user_id : Text) → Text
me_cache_key cognito_sub user_id = me_key_prefix ++ codes ":" ++ cognito_sub ++ codes ":" ++ user_id

abbrev pub me_cache_ttl_seconds : ℕ
me_cache_ttl_seconds = 300

-- The caller: the id it presents, and the lookup of its row, of which the code reads the id.
pub record CurrentUser (W : Type 0) : Type 0 where
  pub identity : Text
  pub resolve : Io W Text (Option Text)

pub data CacheDecision (B : Type 0) : Type 0 where
  skip : CacheDecision B
  hit : Option B → (ttl_remaining : Option ℕ) → CacheDecision B
  miss bypass : (key : Text) → CacheDecision B

-- What the route's handler answers; a body that is undefined is none.
pub record Reply (B : Type 0) : Type 0 where
  pub status_code : ℕ
  pub body : Option B

pub data XCache : Type 0 where
  x_hit x_miss x_bypass : XCache

-- The answer with its two headers, and the write to the cache that is not awaited.
pub record Stamped (B : Type 0) : Type 0 where
  pub body : Option B
  pub x_cache : Option XCache
  pub x_cache_ttl : Option ℕ
  pub write : Option (Text × B)

abbrev pub truthy : Option Text → Option Text
truthy none = none
truthy (some []) = none
truthy (some (c ∷ cs)) = some (c ∷ cs)

module _ {W B : Type 0} (redis : Redis W) (json : Json B) (enabled : Bool) where
  abbrev pub decision_of : (key : Text) → CacheGetResult B → CacheDecision B
  decision_of key result =
      if result.hit
      then hit result.value result.ttl_remaining
      else (if result.bypass then bypass key else miss key)

  abbrev pub look_in_cache : (key : Text) → Io W Text (CacheDecision B)
  look_in_cache key w =
      let (result, w') = get redis json enabled key w in (returned (decision_of key result), w')

  abbrev pub lookup_row : (identity : Text) → Option Text → Io W Text (CacheDecision B)
  lookup_row identity none = return skip
  lookup_row identity (some id) = look_in_cache (me_cache_key identity id)

  abbrev pub lookup : Bool → Option (CurrentUser W) → Io W Text (CacheDecision B)
  lookup false user = return skip
  lookup true none = return skip
  lookup true (some user) = user.resolve >>= λ id. lookup_row user.identity (truthy id)

  abbrev pub write_of : (key : Text) → (status_code : ℕ) → Option B → Option (Text × B)
  write_of key status_code none = none
  write_of key status_code (some body) = if status_code == 200 then some (key, body) else none

  abbrev pub plain : Reply B → Stamped B
  plain reply = record { body = reply.body; x_cache = none; x_cache_ttl = none; write = none }

  abbrev pub stamped_bypass : Reply B → Stamped B
  stamped_bypass reply = record {
    body = reply.body;
    x_cache = some x_bypass;
    x_cache_ttl = none;
    write = none;
  }

  abbrev pub stamped_miss : (key : Text) → Reply B → Stamped B
  stamped_miss key reply = record {
    body = reply.body;
    x_cache = some x_miss;
    x_cache_ttl = none;
    write = write_of key reply.status_code reply.body;
  }

  abbrev pub answer_by : Io W Text (Reply B) → CacheDecision B → Io W Text (Stamped B)
  answer_by next skip = next >>= λ reply. return (plain reply)
  answer_by next (hit value ttl) =
      return (record { body = value; x_cache = some x_hit; x_cache_ttl = ttl; write = none })
  answer_by next (miss key) = next >>= λ reply. return (stamped_miss key reply)
  answer_by next (bypass key) = next >>= λ reply. return (stamped_bypass reply)

  -- `intercept`, `next` being the handler of the route.
  unfoldable pub intercept : Option (CurrentUser W) → Io W Text (Reply B) → Io W Text (Stamped B)
  intercept user next = lookup enabled user >>= answer_by next

  -- The write that an answer left, when it runs.
  unfoldable pub run_write : Option (Text × B) → W → W
  run_write none w = w
  run_write (some (key, body)) w = set redis json enabled key body me_cache_ttl_seconds w

  -- With a gateway.
  unfoldable pub invalidate_me_cache : (cognito_sub user_id : Option Text) → W → W
  invalidate_me_cache cognito_sub user_id w = elim (truthy cognito_sub) [
    | none ↦ w
    | some sub ↦ elim (truthy user_id) [
      | none ↦ w
      | some id ↦ invalidate redis json enabled (me_cache_key sub id ∷ []) w
    ]
  ]
