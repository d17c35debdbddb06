-- ===== src/MeCache/Served.antt =====
-- What a caller of GET /v1/users/me is answered (services/users/src/shared/cache).
use microservices_running.Prelude.{
  ℕ, ◌==◌, ◌++◌, Bool, true, false, Option, none, some, if◌then◌else◌, ◌≡◌, refl, sym, ap, subst,
  arith, ◌∙◌, inl, inr,
}
use microservices_running.Prelude.Texts.{Lacks, split-Lacks, append-injective}
use microservices_running.Session.{codes}
use microservices_running.Effects.{Outcome, returned, threw, Io, continue, return}
use microservices_running.MeCache.{
  Text, Pttl, Redis, Json, get_result, hit_if_parsed, get_when, set_when, get, set,
}
use microservices_running.MeCache.Held.{
  IsRedis, Test, Holds, All, IsOwnKey, WriteIsGood, IsServed, IsSafe, IsReplied, DecisionIsGood,
  IsDecided,
}
use microservices_running.MeCache.Interceptor.{
  me_key_prefix, me_cache_key, me_cache_ttl_seconds, CacheDecision, skip, hit, miss, bypass, Reply,
  Stamped, truthy, decision_of, lookup_row, lookup, write_of, plain, stamped_bypass, stamped_miss,
  answer_by, intercept, run_write,
}

-- The keys of two callers differ.
pub me_cache_key-injective :
    (identity identity' id id' : Text)
    → Lacks 58 identity
    → Lacks 58 identity'
    → me_cache_key identity id ≡ me_cache_key identity' id'
    → identity ≡ identity'
me_cache_key-injective identity identity' id id' clean clean' same =
    let (_, rest) =
      append-injective (me_key_prefix ++ codes ":") (me_key_prefix ++ codes ":")
        ((identity ++ codes ":") ++ id) ((identity' ++ codes ":") ++ id') refl same in
    split-Lacks 58 identity identity' id id' clean clean' rest

module _ {W B : Type 0} (redis : Redis W) (laws : IsRedis redis) (json : Json B) (enabled : Bool)
    (Good Shown : Test B) (identity : Text) (no_colon : Lacks 58 identity) where
  abbrev Held : W → Type 0
  Held = Holds redis json Good

  write_of-Good :
      (key : Text) (status_code : ℕ) (body : Option B)
      → IsOwnKey identity key
      → (status_code ≡ 200 → All (Good identity) body)
      → WriteIsGood Good identity (write_of redis json enabled key status_code body)
  write_of-Good key status_code none own good = tt
  write_of-Good key status_code (some body) own good =
      written (status_code == 200) (λ same. good (ground (arith, same)))
    where
      written :
          (b : Bool)
          → (b ≡ true → Good identity body)
          → WriteIsGood Good identity (if b then some (key, body) else none)
      written true good = (own, good refl)
      written false good = tt

  replied-Served :
      (f : Reply B → Stamped B) (o : Outcome Text (Reply B) × W)
      → ((reply : Reply B)
          → All (Shown identity) reply.body
          → (reply.status_code ≡ 200 → All (Good identity) reply.body)
          → All (Shown identity) (f reply).body × WriteIsGood Good identity (f reply).write)
      → IsReplied redis json Good Shown identity o
      → IsServed redis json Good Shown identity (continue o (λ reply. return (f reply)))
  replied-Served f (returned reply, w) kept (shown, good, held) =
      let (body, write) = kept reply shown good in (body, write, held)
  replied-Served f (threw err, w) kept held = held

  parsed-Decided :
      (key : Text) (pttl : Pttl) (body : Option B)
      → ((b : B) → body ≡ some b → Good identity b)
      → DecisionIsGood Good identity
          (decision_of redis json enabled key (hit_if_parsed redis json enabled pttl body))
  parsed-Decided key pttl none good = tt
  parsed-Decided key pttl (some body) good = good body refl

  got-Decided :
      (id : Text) (w : W) (o : Outcome Text (Option Text × Pttl))
      → Held w
      → ((raw : Text) (pttl : Pttl)
          → o ≡ returned (some raw, pttl)
          → redis.entries w (me_cache_key identity id) ≡ some raw)
      → DecisionIsGood Good identity (
          decision_of redis json enabled
            (me_cache_key identity id)
            (get_result redis json enabled o))
  got-Decided id w (returned (none, pttl)) held reads = (id, refl)
  got-Decided id w (returned (some raw, pttl)) held reads =
      parsed-Decided (me_cache_key identity id) pttl (json.parse raw)
        (λ b same. held identity id raw b no_colon (reads raw pttl refl) same)
  got-Decided id w (threw err) held reads = tt

  look_in_cache-Decided :
      (on : Bool) (id : Text) (w : W)
      → Held w
      → let (result, w') = get_when redis json enabled on (me_cache_key identity id) w in
        DecisionIsGood Good identity
          (decision_of redis json enabled (me_cache_key identity id) result)
        × Held w'
  look_in_cache-Decided false id w held = ((id, refl), held)
  look_in_cache-Decided true id w held = (
    got-Decided id w (redis.get_pttl (me_cache_key identity id) w).0 held
        (λ raw pttl same. laws.get_reads (me_cache_key identity id) raw pttl w same),
    λ other id' raw b clean entry.
        held other id' raw b clean
          (laws.get_keeps (me_cache_key identity id) (me_cache_key other id') raw w entry),
  )

  lookup_row-Decided :
      (id : Option Text) (w : W)
      → Held w
      → IsDecided redis json Good identity (lookup_row redis json enabled identity id w)
  unfolding get
  lookup_row-Decided none w held = (tt, held)
  lookup_row-Decided (some id) w held = look_in_cache-Decided enabled id w held

  answer_by-Served :
      (next : Io W Text (Reply B)) (decision : CacheDecision B) (w : W)
      → ((body : B) → Good identity body → Shown identity body)
      → ((v : W) → Held v → IsReplied redis json Good Shown identity (next v))
      → DecisionIsGood Good identity decision
      → Held w
      → IsServed redis json Good Shown identity (answer_by redis json enabled next decision w)
  answer_by-Served next skip w shows replied good held =
      replied-Served (plain redis json enabled) (next w) (λ r shown fine. (shown, tt))
        (replied w held)
  answer_by-Served next (hit none ttl) w shows replied good held = (tt, tt, held)
  answer_by-Served next (hit (some value) ttl) w shows replied good held =
      (shows value good, tt, held)
  answer_by-Served next (miss key) w shows replied own held =
      replied-Served (stamped_miss redis json enabled key) (next w)
        (λ r shown fine. (shown, write_of-Good key r.status_code r.body own fine)) (replied w held)
  answer_by-Served next (bypass key) w shows replied good held =
      replied-Served (stamped_bypass redis json enabled) (next w) (λ r shown fine. (shown, tt))
        (replied w held)

  decided-Served :
      (next : Io W Text (Reply B)) (o : Outcome Text (CacheDecision B) × W)
      → ((body : B) → Good identity body → Shown identity body)
      → ((v : W) → Held v → IsReplied redis json Good Shown identity (next v))
      → IsDecided redis json Good identity o
      → IsServed redis json Good Shown identity (continue o (answer_by redis json enabled next))
  decided-Served next (returned decision, w) shows replied (good, held) =
      answer_by-Served next decision w shows replied good held
  decided-Served next (threw err, w) shows replied held = held

  resolved-Decided :
      (o : Outcome Text (Option Text) × W)
      → Held o.1
      → IsDecided redis json Good identity
          (continue o (λ id. lookup_row redis json enabled identity (truthy id)))
  resolved-Decided (returned id, w) held = lookup_row-Decided (truthy id) w held
  resolved-Decided (threw err, w) held = held

  lookup-Decided :
      (on : Bool) (resolve : Io W Text (Option Text)) (w : W)
      → Held w
      → Held (resolve w).1
      → IsDecided redis json Good identity (
          lookup redis json enabled on (some (record { identity = identity; resolve = resolve })) w)
  lookup-Decided false resolve w held kept = (tt, held)
  lookup-Decided true resolve w held kept = resolved-Decided (resolve w) kept

  set_when-Held :
      (on : Bool) (id : Text) (body : B) (w : W)
      → ((body stored : B)
          → Good identity body
          → json.parse (json.stringify body) ≡ some stored
          → Good identity stored)
      → Good identity body
      → Held w
      → Held (set_when redis json enabled on (me_cache_key identity id) body me_cache_ttl_seconds w)
  set_when-Held false id body w reads good held = held
  set_when-Held true id body w reads good held = λ other id' raw b clean entry parsed.
      elim (laws.set_writes (me_cache_key identity id) (json.stringify body)
        (me_cache_key other id') raw me_cache_ttl_seconds w entry) [
          | inl stored ↦
              subst (λ caller. Good caller b)
                (sym (me_cache_key-injective other identity id' id clean no_colon stored.0))
                (reads body b good (ap json.parse (sym stored.1) ∙ parsed))
          | inr old ↦ held other id' raw b clean old parsed
        ]

  run_write-Held :
      (write : Option (Text × B)) (w : W)
      → ((body stored : B)
          → Good identity body
          → json.parse (json.stringify body) ≡ some stored
          → Good identity stored)
      → WriteIsGood Good identity write
      → Held w
      → Held (run_write redis json enabled write w)
  unfolding run_write set
  run_write-Held none w reads good held = held
  run_write-Held (some (key, body)) w reads ((id, own), good) held =
      subst (λ k. Held (set_when redis json enabled enabled k body me_cache_ttl_seconds w))
        (sym own) (set_when-Held enabled id body w reads good held)

  -- Two tests are given of the bodies of every caller, who is told apart by an identity without a colon:
  -- what may be shown to the caller, and what may be cached for it, which may also be shown. Let
  -- what is cached under the keys of each caller be such for that caller, and let the handler answer
  -- this caller a body that may be shown and, with the status 200, be cached. Then the body that this
  -- caller is answered may be shown to it, whether the cache hits, misses, is down, holds a text
  -- that does not parse or is switched off; what is cached for each caller still is as it has to
  -- be, and stays so when the write that the answer leaves runs, at whatever time. What may be
  -- cached is kept through JSON, and the steps of the handler and of the lookup of the caller keep
  -- what is said of the cache.
  pub intercept_profile :
      (resolve : Io W Text (Option Text)) (next : Io W Text (Reply B)) (w : W)
      → ((body : B) → Good identity body → Shown identity body)
      → ((body stored : B)
          → Good identity body
          → json.parse (json.stringify body) ≡ some stored
          → Good identity stored)
      → ((v : W) → Held v → Held (resolve v).1)
      → ((v : W) → Held v → IsReplied redis json Good Shown identity (next v))
      → Held w
      → IsSafe redis json enabled Good Shown identity (
          intercept redis json enabled
            (some (record { identity = identity; resolve = resolve }))
            next
            w)
  unfolding intercept
  intercept_profile resolve next w shows reads resolves replied held = Served-Safe _ (
      decided-Served next _ shows replied (lookup-Decided enabled resolve w held (resolves w held)))
    where
      Served-Safe :
          (o : Outcome Text (Stamped B) × W)
          → IsServed redis json Good Shown identity o
          → IsSafe redis json enabled Good Shown identity o
      Served-Safe (returned answer, v) (good, write, now) =
          (good, now, λ later still. run_write-Held answer.write later reads write still)
      Served-Safe (threw err, v) now = now
