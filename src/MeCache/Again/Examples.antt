-- ===== src/MeCache/Again/Examples.antt =====
-- Two requests of a caller, with a cache of every key.
use microservices_running.Prelude.{ℕ, true, Option, none, some, ◌≡◌, refl, ap, if◌then◌else◌}
use microservices_running.Prelude.Texts.{same_text, same_text_self}
use microservices_running.Effects.{returned, threw, Io}
use microservices_running.Session.{codes}
use microservices_running.MeCache.{Text, milliseconds, Redis, Json}
use microservices_running.MeCache.Interceptor.{
  CurrentUser, Reply, x_hit, x_miss, intercept, me_cache_key, run_write,
}
use microservices_running.MeCache.Again.{IsInTime, write_left, intercept-again}

abbrev Cache : Type 0
Cache = Text → Option Text

abbrev cache : Redis Cache
cache = record {
  entries = λ w key. w key;
  get_pttl = λ key w. (returned (w key, milliseconds 1500), w);
  set_ex = λ key value _ w. (returned tt, λ k. if same_text k key then some value else w k);
  del = λ _ _. (returned tt, λ _. none);
}

cache-IsInTime : IsInTime cache
cache-IsInTime = record {
  get_answers = λ key w. (milliseconds 1500, refl);
  set_stores =
      λ key value seconds w. ap (λ b. if b then some value else w key) (same_text_self key);
}

abbrev plain_text : Json Text
plain_text = record { parse = some; stringify = λ text. text }

abbrev ana : CurrentUser Cache
ana = record { identity = codes "sub-1"; resolve = λ w. (returned (some (codes "usr_1")), w) }

abbrev profile : Text
profile = codes "ana"

abbrev me : Io Cache Text (Reply Text)
me w = (returned (record { status_code = 200; body = some profile }), w)

-- The handler of the second request throws.
abbrev down : Io Cache Text (Reply Text)
down w = (threw (codes "down"), w)

abbrev nothing : Cache
nothing = λ _. none

intercept-again_example :
    let answer = (intercept cache plain_text true (some ana) me nothing).0 in
    (answer
      ≡ returned (record {
        body = some profile;
        x_cache = some x_miss;
        x_cache_ttl = none;
        write = some (me_cache_key (codes "sub-1") (codes "usr_1"), profile);
      }))
    × ((ttl : Option ℕ) × ((intercept cache plain_text true
            (some ana)
            down
            (run_write cache plain_text true (write_left answer) nothing)).0
          ≡ returned (record {
            body = some profile;
            x_cache = some x_hit;
            x_cache_ttl = ttl;
            write = none;
          })))
intercept-again_example =
    intercept-again cache cache-IsInTime plain_text ana b'u' (codes "sr_1") (λ w. refl)
      (λ k w. refl) profile profile me down nothing nothing refl (λ u. refl) refl
