-- ===== src/Credentials.antt =====
-- Logging in and changing what a user holds (services/users/src/users/commands: login,
-- change-password, update-profile, start-otp-challenge, verify-otp-challenge). Logs, spans and the
-- audit actor are left out.
pub mod Refusals
pub mod Passwords
mod Examples
use microservices_running.Prelude.{Bool, true, false, Option, none, some, get_or}
use microservices_running.Prelude.Texts.{Text}
use microservices_running.Effects.{Outcome, returned, threw, Io, return, throw, ◌>>=◌, ◌>>◌}
use microservices_running.CognitoAuth.{
  AuthError, invalid_credentials, CognitoClient, AuthTokens, start_otp_challenge,
  respond_to_otp_challenge, set_password, set_must_change_password,
}
use microservices_running.CognitoAuth
use microservices_running.Registration.{AuthType, password, passwordless}

-- The columns that the commands read and write.
pub record UserRow : Type 0 where
  pub id : Text
  pub email : Text
  pub auth_type : AuthType
  pub full_name : Text
  pub address : Option Text
  pub phone_number : Option Text
  pub must_change_password : Bool

-- `UpdateProfileInput`: a field that is left out is none.
pub record UpdateProfileInput : Type 0 where
  pub full_name : Option Text
  pub address : Option Text
  pub phone_number : Option Text

-- The caller's row, or the routine failure `unknown_user`.
pub data UserResult : Type 0 where
  unknown_user : UserResult
  answered : UserRow → UserResult

-- The table of users; `row` is its content, and `update` applies a change to the row of an id.
pub record Users (W : Type 0) : Type 0 where
  pub row : W → (id : Text) → Option UserRow
  pub find_by_email : (email : Text) → Io W AuthError (Option UserRow)
  pub resolve : Io W AuthError (Option UserRow)
  pub update : (id : Text) → (UserRow → UserRow) → Io W AuthError UserRow

abbrev pub cleared_flag : UserRow → UserRow
cleared_flag row = record row { must_change_password = false }

-- A field that is left out stays.
abbrev pub patched_field : Option Text → Option Text → Option Text
patched_field none old = old
patched_field (some text) old = some text

abbrev pub patched : UpdateProfileInput → UserRow → UserRow
patched input row = record row {
  full_name = get_or input.full_name row.full_name;
  address = patched_field input.address row.address;
  phone_number = patched_field input.phone_number row.phone_number;
}

module _ {W : Type 0} (users : Users W) (client : CognitoClient W) where
  abbrev pub login_by : AuthType → (email secret : Text) → Io W AuthError AuthTokens
  login_by passwordless email secret = throw invalid_credentials
  login_by password email secret = CognitoAuth.login client email secret

  abbrev pub login_found : (email secret : Text) → Option UserRow → Io W AuthError AuthTokens
  login_found email secret none = CognitoAuth.login client email secret
  login_found email secret (some user) = login_by user.auth_type email secret

  -- `LoginHandler.execute`.
  unfoldable pub login : (email secret : Text) → Io W AuthError AuthTokens
  login email secret = users.find_by_email email >>= login_found email secret

  -- A mirror that throws is logged.
  abbrev pub swallowed : Outcome AuthError (Unit {0}) × W → Outcome AuthError (Unit {0}) × W
  swallowed (returned u, w) = (returned tt, w)
  swallowed (threw err, w) = (returned tt, w)

  abbrev pub mirror_flag_to_cognito : (email : Text) → Io W AuthError (Unit {0})
  mirror_flag_to_cognito email w = swallowed (set_must_change_password client email false w)

  -- Cognito first, then the database.
  abbrev pub change_for : (new_password : Text) → UserRow → Io W AuthError UserResult
  change_for new_password target = do
    set_password client target.email new_password
    row ← users.update target.id cleared_flag
    mirror_flag_to_cognito target.email
    return (answered row)

  abbrev pub change_resolved : (new_password : Text) → Option UserRow → Io W AuthError UserResult
  change_resolved new_password none = return unknown_user
  change_resolved new_password (some target) = change_for new_password target

  -- `ChangePasswordHandler.execute`.
  unfoldable pub change_password : (new_password : Text) → Io W AuthError UserResult
  change_password new_password = users.resolve >>= change_resolved new_password

  abbrev pub update_resolved : UpdateProfileInput → Option UserRow → Io W AuthError UserResult
  update_resolved input none = return unknown_user
  update_resolved input (some target) = do
    row ← users.update target.id (patched input)
    return (answered row)

  -- `UpdateProfileHandler.execute`.
  unfoldable pub update_profile : UpdateProfileInput → Io W AuthError UserResult
  update_profile input = users.resolve >>= update_resolved input

  -- `StartOtpChallengeHandler.execute` and `VerifyOtpChallengeHandler.execute`.
  unfoldable pub start_otp : (email : Text) → Io W AuthError Text
  unfolding start_otp_challenge
  start_otp email = start_otp_challenge client email

  unfoldable pub verify_otp : (email session code : Text) → Io W AuthError AuthTokens
  unfolding respond_to_otp_challenge
  verify_otp email session code = respond_to_otp_challenge client email session code
