-- ===== src/MeCache/Examples.antt =====
-- The theorem on the cached profile, with a cache of every key.
use microservices_running.Prelude.{
  Option, none, some, ◌≡◌, refl, sym, ◌∙◌, ap, inl, inr, ◌⊎◌, Bool, true, false, if◌then◌else◌,
  arith,
}
use microservices_running.Prelude.Texts.{same_text, same_text_sound, Lacks}
use mathlib.Core.Option.{some-injective}
use microservices_running.Effects.{Outcome, returned, threw, Io}
use microservices_running.Session.{codes}
use microservices_running.MeCache.{Text, Pttl, milliseconds, Redis, Json}
use microservices_running.MeCache.Interceptor.{Reply, intercept, me_cache_key}
use microservices_running.MeCache.Served.{me_cache_key-injective, intercept_profile}
use microservices_running.MeCache.Held.{IsRedis, Test, Holds, IsSafe}

-- The entries by their keys.
abbrev Cache : Type 0
Cache = Text → Option Text

abbrev written : (key value : Text) → Cache → Cache
written key value cache k = if same_text k key then some value else cache k

abbrev cache : Redis Cache
cache = record {
  entries = λ w key. w key;
  get_pttl = λ key w. (returned (w key, milliseconds 1500), w);
  set_ex = λ key value _ w. (returned tt, written key value w);
  del = λ _ _. (returned tt, λ _. none);
}

abbrev read_of : Outcome Text (Option Text × Pttl) → Option Text
read_of (returned (raw, pttl)) = raw
read_of (threw err) = none

written_or_old :
    (b : Bool) (key value k raw : Text) (old : Option Text)
    → same_text k key ≡ b
    → (if b then some value else old) ≡ some raw
    → ((k ≡ key) × (raw ≡ value)) ⊎ (old ≡ some raw)
written_or_old true key value k raw old here same =
    inl (same_text_sound k key here, sym (some-injective value raw same))
written_or_old false key value k raw old here same = inr same

cache-IsRedis : IsRedis cache
cache-IsRedis = record {
  get_keeps = λ key k raw w same. same;
  get_reads = λ key raw pttl w same. ap read_of same;
  set_writes = λ key value k raw seconds w same.
      written_or_old (same_text k key) key value k raw (w k) refl same;
}

abbrev plain_text : Json Text
plain_text = record { parse = some; stringify = λ text. text }

-- The profile of a caller is its identity; `missing` may be shown to everybody.
abbrev is_profile : Test Text
is_profile identity body = body ≡ identity

abbrev missing : Text
missing = codes "missing"

abbrev is_shown : Test Text
is_shown identity body = (body ≡ identity) ⊎ (body ≡ missing)

abbrev resolve : Io Cache Text (Option Text)
resolve w = (returned (some (codes "usr_1")), w)

abbrev me : Io Cache Text (Reply Text)
me w = (returned (record { status_code = 200; body = some (codes "sub-1") }), w)

-- The profile of another caller is cached.
abbrev of_another : Cache
of_another = written (me_cache_key (codes "sub-2") (codes "usr_2")) (codes "sub-2") (λ _. none)

no_colon_1 : Lacks 58 (codes "sub-1")
no_colon_1 = ground arith

no_colon_2 : Lacks 58 (codes "sub-2")
no_colon_2 = ground arith

another-Holds : Holds cache plain_text is_profile of_another
another-Holds identity id raw body clean entry parsed =
    elim (written_or_old _ (me_cache_key (codes "sub-2") (codes "usr_2")) (codes "sub-2")
      (me_cache_key identity id) raw none refl entry) [
        | inl stored ↦
            sym (some-injective raw body parsed)
            ∙ stored.1
            ∙ sym (
                me_cache_key-injective identity (codes "sub-2") id (codes "usr_2") clean no_colon_2
                  stored.0)
        | inr old ↦ ground (arith, old)
      ]

intercept_profile_example : IsSafe cache plain_text true is_profile is_shown (codes "sub-1") (
    intercept cache plain_text true
      (some (record { identity = codes "sub-1"; resolve = resolve }))
      me
      of_another)
intercept_profile_example =
    intercept_profile cache cache-IsRedis plain_text true is_profile is_shown (codes "sub-1")
      no_colon_1 resolve me of_another (λ body good. inl good)
      (λ body stored good same. sym (some-injective body stored same) ∙ good) (λ v held. held)
      (λ v held. (inl refl, (λ _. refl), held)) another-Holds
