-- ===== src/MeCache.antt =====
-- The cached profile of the users service (services/users/src/shared/cache: cache-gateway.ts,
-- me-cache.interceptor.ts, cache-keys.ts). Metrics, spans and logs are left out.
pub mod Interceptor
pub mod Held
pub mod Served
pub mod Again
mod Examples
use microservices_running.Prelude.{
  ℕ, zero, suc, ◌+◌, ◌/◌, Bool, true, false, Option, none, some, List, [], ◌∷◌,
}
use microservices_running.Effects.{Outcome, returned, threw, Io}

abbrev pub Text : Type 0
Text = List ℕ

-- The answer of PTTL.
pub data Pttl : Type 0 where
  no_such_key no_expiry : Pttl
  milliseconds : ℕ → Pttl

-- Redis, each operation raced with the gateway's budget of 50 ms, so that a slow one throws.
-- `entries` is its content.
pub record Redis (W : Type 0) : Type 0 where
  pub entries : W → Text → Option Text
  pub get_pttl : Text → Io W Text (Option Text × Pttl)
  pub set_ex : (key value : Text) (seconds : ℕ) → Io W Text (Unit {0})
  pub del : List Text → Io W Text (Unit {0})

-- `JSON.parse`, none where it throws, and `JSON.stringify`.
pub record Json (B : Type 0) : Type 0 where
  pub parse : Text → Option B
  pub stringify : B → Text

pub record CacheGetResult (B : Type 0) : Type 0 where
  pub hit : Bool
  pub value : Option B
  pub ttl_remaining : Option ℕ
  pub bypass : Bool

abbrev pub ttl_seconds_left : Pttl → Option ℕ
ttl_seconds_left no_such_key = none
ttl_seconds_left no_expiry = none
ttl_seconds_left (milliseconds zero) = none
ttl_seconds_left (milliseconds (suc n)) = some ((suc n + 999) / 1000)

module _ {W B : Type 0} (redis : Redis W) (json : Json B) (enabled : Bool) where
  abbrev pub missed : (bypass : Bool) → CacheGetResult B
  missed bypass = record { hit = false; value = none; ttl_remaining = none; bypass = bypass }

  abbrev pub hit_if_parsed : Pttl → Option B → CacheGetResult B
  hit_if_parsed pttl none = missed true
  hit_if_parsed pttl (some value) = record {
    hit = true;
    value = some value;
    ttl_remaining = ttl_seconds_left pttl;
    bypass = false;
  }

  abbrev pub get_result : Outcome Text (Option Text × Pttl) → CacheGetResult B
  get_result (returned (none, pttl)) = missed false
  get_result (returned (some raw, pttl)) = hit_if_parsed pttl (json.parse raw)
  get_result (threw err) = missed true

  -- `CacheGateway`: no operation throws.
  abbrev pub get_when : Bool → Text → W → CacheGetResult B × W
  get_when false key w = (missed false, w)
  get_when true key w = let (o, w') = redis.get_pttl key w in (get_result o, w')

  unfoldable pub get : Text → W → CacheGetResult B × W
  get key w = get_when enabled key w

  abbrev pub set_when : Bool → (key : Text) → B → (ttl_seconds : ℕ) → W → W
  set_when false key value ttl_seconds w = w
  set_when true key value ttl_seconds w = (redis.set_ex key (json.stringify value) ttl_seconds w).1

  unfoldable pub set : (key : Text) → B → (ttl_seconds : ℕ) → W → W
  set key value ttl_seconds w = set_when enabled key value ttl_seconds w

  abbrev pub invalidate_when : Bool → List Text → W → W
  invalidate_when false keys w = w
  invalidate_when true [] w = w
  invalidate_when true (key ∷ keys) w = (redis.del (key ∷ keys) w).1

  unfoldable pub invalidate : List Text → W → W
  invalidate keys w = invalidate_when enabled keys w
