-- ===== src/Registration/Publishing.antt =====
-- The events of the users service (services/users/src/shared/messaging/event-publisher.ts). The trace
-- context, logs and spans are left out.
use microservices_running.Prelude.{ℕ, Option, none}
use microservices_running.Prelude.Texts.{Text}
use microservices_running.Effects.{Outcome, returned, threw, Io}
use microservices_running.Session.{codes}
use microservices_running.CognitoAuth.{AuthError, truthy}

pub record UserCreatedPayload : Type 0 where
  pub id : Text
  pub email : Text
  pub full_name : Text
  pub created_at : Text
  pub cognito_sub : Option Text

pub record PasswordResetRequestedPayload : Type 0 where
  pub user_id : Text
  pub email : Text
  pub full_name : Text
  pub code : Text
  pub ttl_seconds : ℕ
  pub cognito_sub : Option Text

pub data EventPayload : Type 0 where
  user_created : (email full_name user_id created_at : Text) → EventPayload
  password_reset_requested : (email full_name code : Text) (ttl_seconds : ℕ) → EventPayload

-- The envelope; `order_id` is always there, and null.
pub record Envelope : Type 0 where
  pub event_id : Text
  pub request_id : Option Text
  pub run_id : Option Text
  pub type : Text
  pub source : Text
  pub user_id : Text
  pub order_id : Option Text
  pub author_actor : Text
  pub author_user_id : Text
  pub author_cognito_sub : Option Text
  pub payload : EventPayload

-- A `PublishCommand`: the message and the attributes that copy its type and its source.
pub record PublishCommand : Type 0 where
  pub message : Envelope
  pub type : Text
  pub source : Text

-- SNS, the id of an event and what the log context holds.
pub record EventServices (W : Type 0) : Type 0 where
  pub new_event_id : W → Text × W
  pub request_id : W → Option Text
  pub run_id : W → Option Text
  pub send : PublishCommand → Io W Text (Unit {0})

abbrev pub event_source : Text
event_source = codes "users"

abbrev pub command_of : Envelope → PublishCommand
command_of envelope = record { message = envelope; type = envelope.type; source = envelope.source }

module _ {W : Type 0} (services : EventServices W) where
  -- A send that throws is logged.
  abbrev pub swallowed : Outcome Text (Unit {0}) × W → Outcome AuthError (Unit {0}) × W
  swallowed (returned _, w) = (returned tt, w)
  swallowed (threw err, w) = (returned tt, w)

  abbrev pub sent : Envelope → Io W AuthError (Unit {0})
  sent envelope w = swallowed (services.send (command_of envelope) w)

  abbrev pub envelope_with :
      (event_id type actor user_id : Text) → Option Text → EventPayload → W → Envelope
  envelope_with event_id type actor user_id cognito_sub payload w = record {
    event_id = event_id;
    request_id = services.request_id w;
    run_id = truthy (services.run_id w);
    type = type;
    source = event_source;
    user_id = user_id;
    order_id = none;
    author_actor = actor;
    author_user_id = user_id;
    author_cognito_sub = truthy cognito_sub;
    payload = payload;
  }

  unfoldable pub publish_user_created : UserCreatedPayload → Io W AuthError (Unit {0})
  publish_user_created payload w =
      let (event_id, w') = services.new_event_id w in
      sent
        (envelope_with event_id (codes "USER_CREATED") (codes "users_api:register") payload.id
          payload.cognito_sub
          (user_created payload.email payload.full_name payload.id payload.created_at) w)
        w'

  unfoldable pub publish_password_reset_requested :
      PasswordResetRequestedPayload → Io W AuthError (Unit {0})
  publish_password_reset_requested payload w =
      let (event_id, w') = services.new_event_id w in
      sent
        (envelope_with event_id (codes "PASSWORD_RESET_REQUESTED")
          (codes "users_api:password_reset_requested") payload.user_id payload.cognito_sub
          (password_reset_requested payload.email payload.full_name payload.code
            payload.ttl_seconds)
          w)
        w'
