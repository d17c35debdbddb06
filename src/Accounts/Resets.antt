-- ===== src/Accounts/Resets.antt =====
-- Asking for a password-reset code and confirming it
-- (services/users/src/users/commands/forgot-password.command.ts, confirm-password-reset.command.ts).
-- Logs, spans and the actor of the audit trail are left out.
use microservices_running.Prelude.{ℕ, String, Bool, true, false, Option, none, some}
use microservices_running.Effects.{Io, return, throw, attempt, ◌>>=◌, ◌>>◌}
use microservices_running.Session.{codes}
use microservices_running.OtpChallenge.{Text}
use microservices_running.Accounts.{User, AccountError, invalid_reset_code, truthy}
use microservices_running.Accounts.ResetCodes.{
  RedisClient, generate_reset_code, store, verify_and_consume, reset_code_ttl_seconds,
}

-- The event `PASSWORD_RESET_REQUESTED`.
pub record ResetRequested : Type 0 where
  pub user_id : String
  pub email : String
  pub full_name : String
  pub code : Text
  pub ttl_seconds : ℕ
  pub cognito_sub : Option String

-- The dependencies of the two commands: the database, the event publisher, the identity provider,
-- the cache and the metrics.
pub record ResetServices (W : Type 0) : Type 0 where
  pub find_by_email : (email : String) → Io W AccountError (Option User)
  pub random_int : (max : ℕ) → W → ℕ × W
  pub publish_password_reset_requested : ResetRequested → Io W AccountError (Unit {0})
  pub set_password : (email password : String) → Io W AccountError (Unit {0})
  pub clear_must_change_password : (user_id : String) → Io W AccountError (Unit {0})
  pub invalidate_me : (cognito_sub user_id : String) → Io W AccountError (Unit {0})
  pub set_must_change_password : (email : String) → Bool → Io W AccountError (Unit {0})
  pub publish_metric : (name : String) → Io W AccountError (Unit {0})

module _ {W : Type 0} (redis : RedisClient W) (services : ResetServices W) where
  abbrev pub reset_requested : User → (email : String) → Text → ResetRequested
  reset_requested user email code = record {
    user_id = user.id;
    email = email;
    full_name = user.full_name;
    code = code;
    ttl_seconds = reset_code_ttl_seconds;
    cognito_sub = truthy user.cognito_sub;
  }

  -- A known email: the code is stored, and a publisher that throws is only logged.
  abbrev pub mint : (email : String) → User → Io W AccountError (Unit {0})
  mint email user w =
      let (code, w') = generate_reset_code services.random_int w in
      ((store redis (codes email) code
            >> attempt
                (services.publish_password_reset_requested (reset_requested user email code)))
          >>= λ _. return tt)
        w'

  abbrev pub mint_if_known : (email : String) → Option User → Io W AccountError (Unit {0})
  mint_if_known email none = return tt
  mint_if_known email (some user) = mint email user

  unfoldable pub forgot_password : (email : String) → Io W AccountError (Unit {0})
  forgot_password email = services.find_by_email email >>= mint_if_known email

  abbrev pub invalidate_if_linked : User → Io W AccountError (Unit {0})
  invalidate_if_linked user = elim (truthy user.cognito_sub) [
    | none ↦ return tt
    | some sub ↦ services.invalidate_me sub user.id
  ]

  abbrev pub apply_password :
      (email new_password : String) → User → Bool → Io W AccountError (Unit {0})
  apply_password email new_password user false = throw invalid_reset_code
  apply_password email new_password user true = do
    services.set_password email new_password
    services.clear_must_change_password user.id
    invalidate_if_linked user
    _ ← attempt (services.set_must_change_password email false)
    services.publish_metric "password_resets_total"

  abbrev pub confirm_if_known :
      (email : String) (code : Text) (new_password : String)
      → Option User
      → Io W AccountError (Unit {0})
  confirm_if_known email code new_password none = throw invalid_reset_code
  confirm_if_known email code new_password (some user) =
      verify_and_consume redis (codes email) code >>= apply_password email new_password user

  unfoldable pub confirm_password_reset :
      (email : String) (code : Text) (new_password : String) → Io W AccountError (Unit {0})
  confirm_password_reset email code new_password =
      services.find_by_email email >>= confirm_if_known email code new_password
