-- ===== src/Accounts/ResetCodes.antt =====
-- The password-reset codes: services/users/src/shared/auth/reset-code.ts and
-- shared/cache/reset-code-store.ts. A text is the list of its code points.
use microservices_running.Prelude.{
  ℕ, ◌==◌, Bool, true, false, Option, none, some, ◌++◌, length, if◌then◌else◌,
}
use microservices_running.Effects.{Io, return, ◌>>=◌, ◌>>◌}
use microservices_running.Session.{codes}
use microservices_running.OtpChallenge.{Text}
use microservices_running.OtpChallenge.Code.{decimal, pad_start, ten_to}
use microservices_running.Accounts.{AccountError}

abbrev pub reset_code_length : ℕ
reset_code_length = 6

abbrev pub reset_code_ttl_seconds : ℕ
reset_code_ttl_seconds = 600

-- `random_int` is `randomInt(0, max)` of node:crypto.
unfoldable pub generate_reset_code :
    {W : Type 0} (random_int : (max : ℕ) → W → ℕ × W) → W → Text × W
generate_reset_code random_int w =
    let (n, w') = random_int (ten_to reset_code_length) w in
    (pad_start reset_code_length (decimal n), w')

-- Redis, where `set` gives the seconds to live, and the functions of node:crypto.
pub record RedisClient (W : Type 0) : Type 0 where
  pub get : (key : Text) → Io W AccountError (Option Text)
  pub set : (key value : Text) (seconds : ℕ) → Io W AccountError (Unit {0})
  pub del : (key : Text) → Io W AccountError (Unit {0})
  pub sha256 : Text → Text
  pub hash_email : Text → Text
  pub timing_safe_equal : Text → Text → Bool

module _ {W : Type 0} (redis : RedisClient W) where
  -- `resetCodeMatches`; both sides are hexadecimal digits, whose bytes are their code points.
  abbrev pub reset_code_matches : (code stored_hash : Text) → Bool
  reset_code_matches code stored_hash =
      let candidate = redis.sha256 code in
      if length candidate == length stored_hash
      then redis.timing_safe_equal candidate stored_hash
      else false

  abbrev pub key_for : (email : Text) → Text
  key_for email = codes "password-reset:" ++ redis.hash_email email

  unfoldable pub store : (email code : Text) → Io W AccountError (Unit {0})
  store email code = redis.set (key_for email) (redis.sha256 code) reset_code_ttl_seconds

  -- The rest of `verifyAndConsume`, from the answer of the `GET`.
  unfoldable pub consume : (email code : Text) → Option Text → Io W AccountError Bool
  consume email code none = return false
  consume email code (some stored_hash) =
      if reset_code_matches code stored_hash
      then (redis.del (key_for email) >> return true)
      else return false

  unfoldable pub verify_and_consume : (email code : Text) → Io W AccountError Bool
  verify_and_consume email code = redis.get (key_for email) >>= consume email code
