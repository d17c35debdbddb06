-- ===== src/Accounts/Examples.antt =====
-- The theorems on the account commands at a store of one key and a user who is linked to Cognito.
use microservices_running.Prelude.{
  ℕ, suc, String, true, false, Option, none, some, [], ◌∷◌, ◌≡◌, refl, sym, ap, arith,
}
use microservices_running.Effects.{returned, threw}
use microservices_running.OtpChallenge.{Text}
use microservices_running.OtpChallenge.Events.{text_eq}
use microservices_running.Accounts.{User, truthy, other}
use microservices_running.Accounts.ResetCodes.{RedisClient, store, verify_and_consume}
use microservices_running.Accounts.SingleUse.{IsRedis, verify_and_consume-store}
use microservices_running.Accounts.Deletion.{DeletionServices, delete_account, send}
use microservices_running.Accounts.Deleted.{Cascaded, delete_account-Cascaded}

-- The world is the value of the only key.
abbrev redis : RedisClient (Option Text)
redis = record {
  get = λ key w. (returned w, w);
  set = λ key value seconds w. (returned tt, some value);
  del = λ key w. (returned tt, none);
  sha256 = λ text. 1 ∷ text;
  hash_email = λ text. text;
  timing_safe_equal = text_eq;
}

text_eq_self : (text : Text) → text_eq text text ≡ true
text_eq_self [] = refl
text_eq_self (c ∷ cs) = ground (arith, text_eq_self cs)

redis-IsRedis : IsRedis redis
redis-IsRedis = record {
  get_set = λ key value seconds w w' same. ap (λ v. (returned v, w')) (sym (ap (λ o. o.1) same));
  get_del = λ key w w' same. ap (λ v. (returned v, w')) (sym (ap (λ o. o.1) same));
  timing_safe_equal_self = text_eq_self;
}

abbrev email : Text
email = 97 ∷ []

abbrev code : Text
code = 48 ∷ 55 ∷ []

verify_and_consume-store_example :
    (verify_and_consume redis email code (some (1 ∷ code)) ≡ (returned true, none))
    × (verify_and_consume redis email code none ≡ (returned false, none))
unfolding store
verify_and_consume-store_example =
    verify_and_consume-store redis redis-IsRedis email code code none (some (1 ∷ code)) none refl
      refl

abbrev ana : User
ana = record { id = "usr_1"; email = "ana@x.do"; full_name = "Ana"; cognito_sub = some "sub_1" }

-- The world counts the calls; the cache and the identity provider are down.
abbrev services : DeletionServices ℕ
services = record {
  resolve = λ w. (returned (some ana), w);
  fetch = λ service path body w. (returned (record { ok = true; status_text = "200" }), suc w);
  delete_user_row = λ id w. (returned tt, suc w);
  invalidate_me = λ sub id w. (threw (other "cache"), suc w);
  delete_cognito_user = λ email w. (threw (other "cognito"), suc w);
  publish_metric = λ name w. (returned tt, w);
}

delete_account-Cascaded_example :
    (user : User) × (w₀ : ℕ) × (services.resolve 0 ≡ (returned (some user), w₀))
    × (cognito_sub : String) × (truthy user.cognito_sub ≡ some cognito_sub)
    × Cascaded services user cognito_sub w₀
unfolding delete_account send
delete_account-Cascaded_example = delete_account-Cascaded services 0 5 refl
