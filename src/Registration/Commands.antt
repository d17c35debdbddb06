-- ===== src/Registration/Commands.antt =====
-- The commands (services/users/src/users/commands/register.command.ts,
-- register-passwordless.command.ts). The audit actor, logs and spans are left out.
use microservices_running.Prelude.{Bool, some, List, [], ◌∷◌, if◌then◌else◌}
use microservices_running.Prelude.Texts.{Text}
use microservices_running.Effects.{Outcome, returned, threw, Io, ◌>>=◌, ◌>>◌}
use microservices_running.Session.{codes}
use microservices_running.Identity.{CognitoWebhookPayload, CaptureError, CaptureResult}
use microservices_running.Identity.Capture.{IdentityServices, execute}
use microservices_running.CognitoAuth.{AuthError, CognitoClient, CognitoSignUpResult, sign_up}
use microservices_running.Registration.{AuthType, password, passwordless, RegisterInput, UserRow}
use microservices_running.Registration.Publishing.{
  UserCreatedPayload, EventServices, publish_user_created,
}

-- What the handlers call: ids, the random password, the table of users, the metrics, which never
-- throw, and `is_production`, read from the environment. `raw_event` is the object that is captured.
pub record RegisterServices (W : Type 0) : Type 0 where
  pub client : CognitoClient W
  pub client_id : Text
  pub generate_id : (prefix : Text) → W → Text × W
  pub random_password : W → Text × W
  pub create_row : (W → UserRow) → Io W AuthError UserRow
  pub now : W → Text
  pub identities : IdentityServices W
  pub raw_event : CognitoSignUpResult → Text
  pub is_production : Bool
  pub events : EventServices W
  pub publish_metric : (name : Text) → W → W

module _ {W : Type 0} (services : RegisterServices W) where
  abbrev pub tags_of : (e2e_source : Bool) → List Text
  tags_of e2e_source = if e2e_source then codes "E2E Source" ∷ [] else []

  abbrev pub row_of : AuthType → (id : Text) → RegisterInput → CognitoSignUpResult → W → UserRow
  row_of auth_type id input signed w = record {
    id = id;
    email = input.email;
    cognito_sub = signed.sub;
    full_name = input.full_name;
    address = input.address;
    phone_number = input.phone_number;
    auth_type = auth_type;
    tags = tags_of input.e2e_source;
    created_at = services.now w;
  }

  abbrev pub captured_payload : CognitoSignUpResult → CognitoWebhookPayload
  captured_payload signed = record {
    trigger_source = codes "PostConfirmation_ConfirmSignUp";
    client_id = services.client_id;
    sub = signed.sub;
    email = signed.email;
    raw = services.raw_event signed;
  }

  -- A capture that throws is logged.
  abbrev pub swallowed_capture :
      Outcome CaptureError CaptureResult × W → Outcome AuthError (Unit {0}) × W
  swallowed_capture (returned result, w) = (returned tt, w)
  swallowed_capture (threw err, w) = (returned tt, w)

  unfoldable pub capture_identity : CognitoSignUpResult → Io W AuthError (Unit {0})
  capture_identity signed w =
      if services.is_production
      then (returned tt, w)
      else swallowed_capture (execute services.identities (captured_payload signed) w)

  abbrev pub created_payload :
      (id : Text) → RegisterInput → UserRow → CognitoSignUpResult → UserCreatedPayload
  created_payload id input row signed = record {
    id = id;
    email = input.email;
    full_name = input.full_name;
    created_at = row.created_at;
    cognito_sub = some signed.sub;
  }

  abbrev pub count_registration : UserRow → Io W AuthError UserRow
  count_registration row w =
      (returned row, services.publish_metric (codes "users_registered_total") w)

  -- What follows the row.
  unfoldable pub after_row :
      (id : Text) → RegisterInput → CognitoSignUpResult → UserRow → Io W AuthError UserRow
  after_row id input signed row = do
    capture_identity signed
    publish_user_created services.events (created_payload id input row signed)
    count_registration row

  abbrev pub create_row :
      AuthType → (id : Text) → RegisterInput → CognitoSignUpResult → Io W AuthError UserRow
  create_row auth_type id input signed = services.create_row (row_of auth_type id input signed)

  unfoldable pub register_with :
      AuthType → (id secret : Text) → RegisterInput → Io W AuthError UserRow
  register_with auth_type id secret input = do
    signed ← sign_up services.client input.email secret id input.full_name
    row ← create_row auth_type id input signed
    after_row id input signed row

  unfoldable pub register : RegisterInput → Io W AuthError UserRow
  register input w =
      let (id, w') = services.generate_id (codes "usr_") w in
      register_with password id input.password input w'

  -- The random password is nowhere else.
  unfoldable pub register_passwordless : RegisterInput → Io W AuthError UserRow
  register_passwordless input w =
      let (id, w₁) = services.generate_id (codes "usr_") w in
      let (secret, w₂) = services.random_password w₁ in
      register_with passwordless id secret input w₂
