-- ===== src/MeCache/Held.antt =====
-- What is said of a cache and of the answers of GET /v1/users/me (services/users/src/shared/cache).
use microservices_running.Prelude.{ℕ, Bool, Option, none, some, ◌≡◌, ◌⊎◌}
use microservices_running.Prelude.Texts.{Lacks}
use microservices_running.Effects.{Outcome, returned, threw}
use microservices_running.MeCache.{Text, Pttl, Redis, Json}
use microservices_running.MeCache.Interceptor.{
  me_cache_key, CacheDecision, skip, hit, miss, bypass, Reply, Stamped, run_write,
}

-- What the code relies on: GET adds no entry and answers one, and what stands under a key after a
-- SET is the text that it set, if it is the key of the SET, or what was there.
pub record IsRedis {W : Type 0} (redis : Redis W) : Type 0 where
  pub get_keeps :
      (key k raw : Text) (w : W)
      → redis.entries (redis.get_pttl key w).1 k ≡ some raw
      → redis.entries w k ≡ some raw
  pub get_reads :
      (key raw : Text) (pttl : Pttl) (w : W)
      → (redis.get_pttl key w).0 ≡ returned (some raw, pttl)
      → redis.entries w key ≡ some raw
  pub set_writes :
      (key value k raw : Text) (seconds : ℕ) (w : W)
      → redis.entries (redis.set_ex key value seconds w).1 k ≡ some raw
      → ((k ≡ key) × (raw ≡ value)) ⊎ (redis.entries w k ≡ some raw)

-- A test of the bodies of every caller, by its identity.
abbrev pub Test : Type 0 → Type 1
Test B = (identity : Text) → B → Type 0

-- What is in the cache under the keys of a caller is good for that caller, whoever it is; an identity
-- has no colon (58).
abbrev pub Holds : {W B : Type 0} → Redis W → Json B → Test B → W → Type 0
Holds {B = B} redis json Good w =
    (identity id raw : Text) (body : B)
    → Lacks 58 identity
    → redis.entries w (me_cache_key identity id) ≡ some raw
    → json.parse raw ≡ some body
    → Good identity body

-- A body that passes `Good`, if there is one.
abbrev pub All : {B : Type 0} → (B → Type 0) → Option B → Type 0
All Good none = Unit {0}
All Good (some body) = Good body

-- A write is of a body that is good for the caller, under a key of the caller.
abbrev pub IsOwnKey : (identity key : Text) → Type 0
IsOwnKey identity key = (id : Text) × (key ≡ me_cache_key identity id)

abbrev pub WriteIsGood : {B : Type 0} → Test B → (identity : Text) → Option (Text × B) → Type 0
WriteIsGood Good identity none = Unit {0}
WriteIsGood Good identity (some write) = IsOwnKey identity write.0 × Good identity write.1

abbrev pub IsServed :
    {W B : Type 0}
    → Redis W
    → Json B
    → (Good Shown : Test B) → (identity : Text) → Outcome Text (Stamped B) × W
    → Type 0
IsServed redis json Good Shown identity (returned answer, w) =
    All (Shown identity) answer.body
    × WriteIsGood Good identity answer.write
    × Holds redis json Good w
IsServed redis json Good Shown identity (threw _, w) = Holds redis json Good w

-- The answer may be shown to the caller, and what is cached stays good when the write of the answer
-- runs, at any later time.
abbrev pub IsSafe :
    {W B : Type 0}
    → Redis W
    → Json B
    → (enabled : Bool) → (Good Shown : Test B) → (identity : Text) → Outcome Text (Stamped B) × W
    → Type 0
IsSafe {W = W} redis json enabled Good Shown identity (returned answer, w) =
    All (Shown identity) answer.body
    × Holds redis json Good w
    × ((v : W)
        → Holds redis json Good v
        → Holds redis json Good (run_write redis json enabled answer.write v))
IsSafe redis json enabled Good Shown identity (threw _, w) = Holds redis json Good w

-- A body that the handler answers may be shown, and with the status 200 it is good.
abbrev pub IsReplied :
    {W B : Type 0}
    → Redis W
    → Json B
    → (Good Shown : Test B) → (identity : Text) → Outcome Text (Reply B) × W
    → Type 0
IsReplied redis json Good Shown identity (returned reply, w) =
    All (Shown identity) reply.body
    × (reply.status_code ≡ 200 → All (Good identity) reply.body)
    × Holds redis json Good w
IsReplied redis json Good Shown identity (threw _, w) = Holds redis json Good w

abbrev pub DecisionIsGood : {B : Type 0} → Test B → (identity : Text) → CacheDecision B → Type 0
DecisionIsGood Good identity skip = Unit {0}
DecisionIsGood Good identity (hit value ttl) = All (Good identity) value
DecisionIsGood Good identity (miss key) = IsOwnKey identity key
DecisionIsGood Good identity (bypass key) = Unit {0}

abbrev pub IsDecided :
    {W B : Type 0}
    → Redis W
    → Json B
    → Test B
    → (identity : Text) → Outcome Text (CacheDecision B) × W
    → Type 0
IsDecided redis json Good identity (returned decision, w) =
    DecisionIsGood Good identity decision × Holds redis json Good w
IsDecided redis json Good identity (threw _, w) = Holds redis json Good w
