-- ===== src/MeCache/Again.antt =====
-- A second GET /v1/users/me (services/users/src/shared/cache), with a Redis that answers in time.
mod Examples
use microservices_running.Prelude.{ℕ, Bool, true, Option, none, some, ◌∷◌, ◌≡◌, refl, sym, ap, ◌∙◌}
use microservices_running.Effects.{Outcome, returned, threw, Io, continue, return}
use microservices_running.MeCache.{
  Text, Pttl, Redis, Json, get_result, ttl_seconds_left, hit_if_parsed, get, set,
}
use microservices_running.MeCache.Interceptor.{
  me_cache_key, me_cache_ttl_seconds, CurrentUser, CacheDecision, hit, miss, Reply, XCache, x_hit,
  x_miss, Stamped, truthy, decision_of, look_in_cache, lookup_row, lookup, answer_by, intercept,
  write_of, run_write,
}

-- A GET answers what stands under its key; right after a SET its text stands there.
pub record IsInTime {W : Type 0} (redis : Redis W) : Type 0 where
  pub get_answers :
      (key : Text) (w : W)
      → (pttl : Pttl) × ((redis.get_pttl key w).0 ≡ returned (redis.entries w key, pttl))
  pub set_stores :
      (key value : Text) (seconds : ℕ) (w : W)
      → redis.entries (redis.set_ex key value seconds w).1 key ≡ some value

-- The write that an answer leaves.
abbrev pub write_left : {B : Type 0} → Outcome Text (Stamped B) → Option (Text × B)
write_left (returned answer) = answer.write
write_left (threw err) = none

module _ {W B : Type 0} (redis : Redis W) (laws : IsInTime redis) (json : Json B)
    (user : CurrentUser W) (first : ℕ) (rest : Text)
    (resolves : (w : W) → (user.resolve w).0 ≡ returned (some (first ∷ rest)))
    (resolve_same : (k : Text) (w : W)
      → redis.entries (user.resolve w).1 k ≡ redis.entries w k) where
  abbrev own_key : Text
  own_key = me_cache_key user.identity (first ∷ rest)

  abbrev decided : (entry : Option Text) → Pttl → CacheDecision B
  decided entry pttl =
      decision_of redis json true own_key (get_result redis json true (returned (entry, pttl)))

  looked-up :
      (o : Outcome Text (Option Text) × W)
      → o.0 ≡ returned (some (first ∷ rest))
      → continue o (λ id. lookup_row redis json true user.identity (truthy id))
        ≡ look_in_cache redis json true own_key o.1
  looked-up (o, w) same =
      ap (λ r. continue (r, w) (λ id. lookup_row redis json true user.identity (truthy id))) same

  -- What the lookup decides is decided by the entry of the caller.
  lookup-decided :
      (entry : Option Text) (w : W)
      → redis.entries w own_key ≡ entry
      → (pttl : Pttl) × (v : W) × (lookup redis json true true (some user) w
          ≡ (returned (decided entry pttl), v))
  unfolding get
  lookup-decided entry w same =
      let v = (user.resolve w).1 in
      let (pttl, answer) = laws.get_answers own_key v in
      (
        pttl,
        (redis.get_pttl own_key v).1,
        looked-up (user.resolve w) (resolves w)
            ∙ ap
                (λ o. (
                  returned (decision_of redis json true own_key (get_result redis json true o)),
                  (redis.get_pttl own_key v).1,
                ))
                answer
            ∙ ap (λ e. (returned (decided e pttl), (redis.get_pttl own_key v).1))
                (resolve_same own_key w ∙ same),
      )

  abbrev missed_once : B → Stamped B
  missed_once body = record {
    body = some body;
    x_cache = some x_miss;
    x_cache_ttl = none;
    write = some (own_key, body);
  }

  abbrev ok : B → Reply B
  ok body = record { status_code = 200; body = some body }

  -- Where nothing is cached for a caller and the handler answers 200 with a body: the caller is
  -- answered that body, and once the write that this leaves has run, at whatever time, the next
  -- request of the caller is answered the body as it comes back through JSON, as a hit, whatever the
  -- handler would do. Redis answers in time and has, right after a SET, its text, and the lookup of
  -- the caller finds its row.
  pub intercept-again :
      (body stored : B) (next again : Io W Text (Reply B)) (w v : W)
      → redis.entries w own_key ≡ none
      → ((u : W) → (next u).0 ≡ returned (ok body))
      → json.parse (json.stringify body) ≡ some stored
      → let answer = (intercept redis json true (some user) next w).0 in
        (answer ≡ returned (missed_once body))
        × ((ttl : Option ℕ) × ((intercept redis json true
                (some user)
                again
                (run_write redis json true (write_left answer) v)).0
              ≡ returned (record {
                body = some stored;
                x_cache = some x_hit;
                x_cache_ttl = ttl;
                write = none;
              })))
  unfolding intercept run_write set
  intercept-again body stored next again w v empty replies parses =
      let (pttl, u, decision) = lookup-decided none w empty in
      let answered : (intercept redis json true (some user) next w).0
          ≡ returned (missed_once body) =
        ap (λ o. (continue o (answer_by redis json true next)).0) decision
        ∙ ap
            (λ r.
              (continue (r, (next u).1)
                (λ reply. return (record {
                  body = reply.body;
                  x_cache = some x_miss;
                  x_cache_ttl = none;
                  write = write_of redis json true own_key reply.status_code reply.body;
                }))).0)
            (replies u) in
      let v' = (redis.set_ex own_key (json.stringify body) me_cache_ttl_seconds v).1 in
      let (pttl', u', decision') =
        lookup-decided (some (json.stringify body)) v'
          (laws.set_stores own_key (json.stringify body) me_cache_ttl_seconds v) in
      (
        answered,
        (
          ttl_seconds_left pttl',
          ap
                (λ a.
                  (intercept redis json true (some user) again
                    (run_write redis json true (write_left a) v)).0)
                answered
              ∙ ap (λ o. (continue o (answer_by redis json true again)).0) decision'
              ∙ ap
                  (λ p.
                    (answer_by redis json true again
                      (decision_of redis json true own_key (hit_if_parsed redis json true pttl' p))
                      u').0)
                  parses,
        ),
      )
