-- ===== src/CognitoAuth.antt =====
-- The identity provider of the users service (services/users/src/shared/auth/
-- cognito-auth-provider.ts, auth-errors.ts). The client metadata of the trace is left out.
use microservices_running.Prelude.{
  Bool, Option, none, some, List, [], ◌∷◌, ◌||◌, get_or, if◌then◌else◌,
}
use microservices_running.Prelude.Texts.{Text, same_text}
use microservices_running.Effects.{
  Outcome, returned, threw, Io, return, throw, continue, ◌>>=◌, ◌>>◌,
}
use microservices_running.Session.{codes}

-- What the provider throws, and what the commands over it throw: the three typed errors, an error of
-- the SDK by its name, one of the database, or any other.
pub data AuthError : Type 0 where
  invalid_credentials email_already_exists invalid_otp : AuthError
  cognito_error : (name : Text) → AuthError
  database_error : (message : Text) → AuthError
  failure : (message : Text) → AuthError

abbrev pub Attributes : Type 0
Attributes = List (Text × Text)

-- `AuthFlow` with its parameters.
pub data AuthFlow : Type 0 where
  admin_user_password_auth : (username password : Text) → AuthFlow
  custom_auth : (username : Text) → AuthFlow
  refresh_token_auth : (refresh_token : Text) → AuthFlow

pub record AuthenticationResult : Type 0 where
  pub id_token : Option Text
  pub access_token : Option Text
  pub refresh_token : Option Text

pub record AuthAnswer : Type 0 where
  pub session : Option Text
  pub result : Option AuthenticationResult

-- Cognito, whose commands throw an error by its name; `taken` says that there is an account of a user
-- name.
pub record CognitoClient (W : Type 0) : Type 0 where
  pub taken : W → (username : Text) → Bool
  pub admin_create_user : (username : Text) → Attributes → Io W Text Attributes
  pub admin_set_user_password : (username password : Text) → Io W Text (Unit {0})
  pub admin_initiate_auth : AuthFlow → Io W Text AuthAnswer
  pub respond_to_auth_challenge : (username session answer : Text) → Io W Text AuthAnswer
  pub admin_update_user_attributes : (username : Text) → Attributes → Io W Text (Unit {0})
  pub admin_delete_user : (username : Text) → Io W Text (Unit {0})
  pub global_sign_out : (access_token : Text) → Io W Text (Unit {0})

pub record AuthTokens : Type 0 where
  pub id_token : Text
  pub access_token : Text
  pub refresh_token : Text

pub record CognitoSignUpResult : Type 0 where
  pub sub : Text
  pub email : Text
  pub email_verified : Option Text

abbrev pub username_exists : Text
username_exists = codes "UsernameExistsException"

abbrev pub user_not_found : Text
user_not_found = codes "UserNotFoundException"

abbrev pub not_authorized : Text
not_authorized = codes "NotAuthorizedException"

-- What a `catch` makes of the name of an error.
abbrev pub create_refusal : Text → AuthError
create_refusal name =
    if same_text name username_exists then email_already_exists else cognito_error name

abbrev pub missing_user : Text → AuthError
missing_user name =
    if same_text name user_not_found then invalid_credentials else cognito_error name

abbrev pub is_refusal : Text → Bool
is_refusal name = same_text name user_not_found || same_text name not_authorized

abbrev pub bad_credentials : Text → AuthError
bad_credentials name = if is_refusal name then invalid_credentials else cognito_error name

abbrev pub bad_otp : Text → AuthError
bad_otp name = if is_refusal name then invalid_otp else cognito_error name

abbrev pub translated :
    {W A : Type 0} → (Text → AuthError) → Outcome Text A × W → Outcome AuthError A × W
translated refusal (returned a, w) = (returned a, w)
translated refusal (threw name, w) = (threw (refusal name), w)

abbrev pub attribute : (name : Text) → Attributes → Option Text
attribute name [] = none
attribute name ((key, value) ∷ rest) =
    if same_text key name then some value else attribute name rest

abbrev pub truthy : Option Text → Option Text
truthy none = none
truthy (some []) = none
truthy (some (c ∷ cs)) = some (c ∷ cs)

abbrev pub tokens_of : Option AuthenticationResult → AuthTokens
tokens_of none = record { id_token = []; access_token = []; refresh_token = [] }
tokens_of (some result) = record {
  id_token = get_or result.id_token [];
  access_token = get_or result.access_token [];
  refresh_token = get_or result.refresh_token [];
}

module _ {W : Type 0} (client : CognitoClient W) where
  abbrev pub new_attributes : (email app_user_id full_name : Text) → Attributes
  new_attributes email app_user_id full_name =
      (codes "email", email)
      ∷ (codes "email_verified", codes "true")
      ∷ (codes "custom:app_user_id", app_user_id)
      ∷ (codes "custom:must_change_password", codes "false")
      ∷ (codes "name", full_name)
      ∷ []

  abbrev pub signed_up :
      (email : Text) → Attributes → Option Text → Io W AuthError CognitoSignUpResult
  signed_up email created none = throw (failure (codes "Cognito AdminCreateUser returned no sub"))
  signed_up email created (some sub) = return (record {
    sub = sub;
    email = email;
    email_verified = attribute (codes "email_verified") created;
  })

  abbrev pub create_user : (email : Text) → Attributes → Io W AuthError Attributes
  create_user email attributes w =
      translated create_refusal (client.admin_create_user email attributes w)

  abbrev pub set_created_password : (email password : Text) → Io W AuthError (Unit {0})
  set_created_password email password w =
      translated cognito_error (client.admin_set_user_password email password w)

  unfoldable pub sign_up :
      (email password app_user_id full_name : Text) → Io W AuthError CognitoSignUpResult
  sign_up email password app_user_id full_name = do
    created ← create_user email (new_attributes email app_user_id full_name)
    set_created_password email password
    signed_up email created (truthy (attribute (codes "sub") created))

  unfoldable pub login : (email password : Text) → Io W AuthError AuthTokens
  login email password w =
      continue
        (translated bad_credentials
          (client.admin_initiate_auth (admin_user_password_auth email password) w))
        (λ answer. return (tokens_of answer.result))

  abbrev pub session_of : Option Text → Io W AuthError Text
  session_of none = throw (failure (codes "CUSTOM_AUTH InitiateAuth returned no session"))
  session_of (some session) = return session

  unfoldable pub start_otp_challenge : (email : Text) → Io W AuthError Text
  start_otp_challenge email w =
      continue (translated missing_user (client.admin_initiate_auth (custom_auth email) w))
        (λ answer. session_of (truthy answer.session))

  -- A second challenge in place of tokens counts as a wrong code.
  abbrev pub otp_tokens : Option AuthenticationResult → Io W AuthError AuthTokens
  otp_tokens none = throw invalid_otp
  otp_tokens (some result) = return (tokens_of (some result))

  unfoldable pub respond_to_otp_challenge : (email session code : Text) → Io W AuthError AuthTokens
  respond_to_otp_challenge email session code w =
      continue (translated bad_otp (client.respond_to_auth_challenge email session code w))
        (λ answer. otp_tokens answer.result)

  unfoldable pub set_password : (email new_password : Text) → Io W AuthError (Unit {0})
  set_password email new_password w =
      translated missing_user (client.admin_set_user_password email new_password w)

  unfoldable pub set_must_change_password : (email : Text) → Bool → Io W AuthError (Unit {0})
  set_must_change_password email must_change_password w = translated missing_user (
      client.admin_update_user_attributes email
        ((
          codes "custom:must_change_password",
          if must_change_password then codes "true" else codes "false",
        )
          ∷ [])
        w)

  unfoldable pub delete_user : (email : Text) → Io W AuthError (Unit {0})
  delete_user email w = translated missing_user (client.admin_delete_user email w)

  -- The identity and the access token; the refresh token stays.
  unfoldable pub refresh : (refresh_token : Text) → Io W AuthError (Text × Text)
  refresh refresh_token w =
      continue
        (translated bad_credentials
          (client.admin_initiate_auth (refresh_token_auth refresh_token) w))
        (λ answer.
          let tokens = tokens_of answer.result in return (tokens.id_token, tokens.access_token))

  abbrev pub signed_out : Outcome Text (Unit {0}) × W → Outcome AuthError (Unit {0}) × W
  signed_out (returned u, w) = (returned u, w)
  signed_out (threw name, w) =
      (if is_refusal name then returned tt else threw (cognito_error name), w)

  unfoldable pub sign_out : (access_token : Text) → Io W AuthError (Unit {0})
  sign_out access_token w = signed_out (client.global_sign_out access_token w)
