-- ===== src/Accounts/SingleUse.antt =====
-- How often a password-reset code is accepted (services/users/src/shared/cache/reset-code-store.ts).
use microservices_running.Prelude.{ℕ, true, false, none, some, if◌then◌else◌, ◌≡◌, ap, ◌∙◌, arith}
use microservices_running.Effects.{returned, continue, return, ◌>>◌}
use microservices_running.OtpChallenge.{Text}
use microservices_running.Accounts.ResetCodes.{
  RedisClient, key_for, reset_code_matches, reset_code_ttl_seconds, store, consume,
  verify_and_consume,
}

-- What the code relies on: a key that was set is read back, a key that was deleted is not there.
-- The seconds to live have not passed in the worlds that are named.
pub record IsRedis {W : Type 0} (redis : RedisClient W) : Type 0 where
  pub get_set :
      (key value : Text) (seconds : ℕ) (w w' : W)
      → redis.set key value seconds w ≡ (returned tt, w')
      → redis.get key w' ≡ (returned (some value), w')
  pub get_del :
      (key : Text) (w w' : W)
      → redis.del key w ≡ (returned tt, w')
      → redis.get key w' ≡ (returned none, w')
  pub timing_safe_equal_self : (text : Text) → redis.timing_safe_equal text text ≡ true

module _ {W : Type 0} (redis : RedisClient W) where
  consume-matching :
      (email code hash : Text) (w w₁ : W)
      → reset_code_matches redis code hash ≡ true
      → redis.del (key_for redis email) w ≡ (returned tt, w₁)
      → consume redis email code (some hash) w ≡ (returned true, w₁)
  unfolding consume
  consume-matching email code hash w w₁ matches deleted =
      ap (λ b. (if b then (redis.del (key_for redis email) >> return true) else return false) w)
        matches
      ∙ ap (λ o. continue o (λ _. return true)) deleted

module _ {W : Type 0} (redis : RedisClient W) (laws : IsRedis redis) where
  reset_code_matches-sha256 :
      (code : Text) → reset_code_matches redis code (redis.sha256 code) ≡ true
  reset_code_matches-sha256 code = ground (arith, laws.timing_safe_equal_self (redis.sha256 code))

  -- A code that was stored is accepted if the deletion returns, and then no code at all is accepted
  -- until another is stored: the second attempt, with whatever code, is refused.
  pub verify_and_consume-store :
      (email code again : Text) (w w₁ w₂ : W)
      → store redis email code w ≡ (returned tt, w₁)
      → redis.del (key_for redis email) w₁ ≡ (returned tt, w₂)
      → (verify_and_consume redis email code w₁ ≡ (returned true, w₂))
        × (verify_and_consume redis email again w₂ ≡ (returned false, w₂))
  unfolding store verify_and_consume consume
  verify_and_consume-store email code again w w₁ w₂ stored deleted =
      let hash = redis.sha256 code in
      (
        ap (λ o. continue o (consume redis email code))
              (laws.get_set (key_for redis email) hash reset_code_ttl_seconds w w₁ stored)
            ∙ consume-matching redis email code hash w₁ w₂ (reset_code_matches-sha256 code) deleted,
        ap (λ o. continue o (consume redis email again))
            (laws.get_del (key_for redis email) w₁ w₂ deleted),
      )
