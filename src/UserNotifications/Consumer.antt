-- ===== src/UserNotifications/Consumer.antt =====
-- One message of the notifications queue (services/users/src/notifications/messaging/
-- notification-consumer.service.ts) and the command that it runs (commands/
-- create-notification.command.ts). Logs, spans and the trace context are left out.
use microservices_running.Prelude.{ℕ, Option, none, some}
use microservices_running.Effects.{Io, return, attempt, ◌>>=◌}
use microservices_running.UserNotifications.{Text, Envelope}
use microservices_running.UserNotifications.Copy.{truthy}
use microservices_running.UserNotifications.Mapping.{MappedNotification, map_event}

pub record NotificationRow : Type 0 where
  pub id : Text
  pub user_id : Text
  pub mapped : MappedNotification
  pub read_at : Option Text

-- `NOTIFICATION_CREATED`, with the row that was stored.
pub record NotificationCreated : Type 0 where
  pub notification : NotificationRow
  pub unread_count : ℕ

pub data CreateResult : Type 0 where
  created discarded : CreateResult

-- The database, the fan-out to the owner's sockets, the ids, the clock, and `JSON.parse` with the
-- schema of the envelope. `find_cognito_sub` answers none for no user and for a user without one.
pub record NotificationServices (W E : Type 0) : Type 0 where
  pub new_id : W → Text × W
  pub now : W → Text
  pub format_stamp : Text → Text
  pub create_row : NotificationRow → Io W E NotificationRow
  pub find_cognito_sub : (user_id : Text) → Io W E (Option Text)
  pub count_unread : (user_id : Text) → Io W E ℕ
  pub publish_to_user : (cognito_sub : Text) → NotificationCreated → Io W E (Unit {0})
  pub parse_envelope : Text → Option Envelope

module _ {W E : Type 0} (services : NotificationServices W E) where
  abbrev pub cognito_sub_of : Envelope → Option Text → Io W E (Option Text)
  cognito_sub_of envelope none = services.find_cognito_sub envelope.user_id
  cognito_sub_of envelope (some sub) = return (some sub)

  abbrev pub push_to : Envelope → NotificationRow → Option Text → Io W E (Unit {0})
  push_to envelope row none = return tt
  push_to envelope row (some sub) = do
    unread ← services.count_unread envelope.user_id
    services.publish_to_user sub (record { notification = row; unread_count = unread })

  unfoldable pub push : Envelope → NotificationRow → Io W E (Unit {0})
  push envelope row = do
    sub ← cognito_sub_of envelope (truthy envelope.author_cognito_sub)
    push_to envelope row (truthy sub)

  abbrev pub new_row : Envelope → MappedNotification → Text → NotificationRow
  new_row envelope mapped id = record {
    id = id;
    user_id = envelope.user_id;
    mapped = mapped;
    read_at = none;
  }

  -- The row is stored; a push that throws is only logged.
  abbrev pub create_and_push : Envelope → MappedNotification → Io W E CreateResult
  create_and_push envelope mapped w =
      let (id, w') = services.new_id w in
      (do
        row ← services.create_row (new_row envelope mapped id)
        _ ← attempt (push envelope row)
        return created)
        w'

  abbrev pub create_if_mapped : Envelope → Option MappedNotification → Io W E CreateResult
  create_if_mapped envelope none = return discarded
  create_if_mapped envelope (some mapped) = create_and_push envelope mapped

  -- `CreateNotificationHandler.execute`
  unfoldable pub create_notification : Envelope → Io W E CreateResult
  create_notification envelope w =
      create_if_mapped envelope (map_event services.format_stamp (services.now w) envelope) w

  abbrev pub parse : Option Text → Option Envelope
  parse body = elim (truthy body) [ none ↦ none | some text ↦ services.parse_envelope text ]

  abbrev pub handle_parsed : Option Envelope → Io W E (Unit {0})
  handle_parsed none = return tt
  handle_parsed (some envelope) = do _ ← create_notification envelope; return tt

  -- A message that is handled without a throw is deleted from the queue.
  unfoldable pub handle_message : (body : Option Text) → Io W E (Unit {0})
  handle_message body = handle_parsed (parse body)
