-- ===== src/UserNotifications/Stored.antt =====
-- When a message of the notifications queue comes again
-- (services/users/src/notifications/messaging/notification-consumer.service.ts).
use microservices_running.Prelude.{Option, none, some, ◌≡◌, refl, arith}
use microservices_running.Effects.{
  Outcome, returned, threw, continue, return, attempt, ◌>>=◌, threw-threw,
}
use microservices_running.UserNotifications.{Text, Envelope}
use microservices_running.UserNotifications.Mapping.{MappedNotification, map_event}
use microservices_running.UserNotifications.Consumer.{
  NotificationRow, NotificationServices, CreateResult, created, push, new_row, create_if_mapped,
  create_notification, parse, handle_parsed, handle_message,
}

module _ {W E : Type 0} (services : NotificationServices W E) where
  -- The insert of the row that an envelope becomes threw.
  abbrev pub InsertThrew : Envelope → MappedNotification → (w : W) → E → W → Type 0
  InsertThrew envelope mapped w e w' =
      let (id, w₁) = services.new_id w in
      services.create_row (new_row services envelope mapped id) w₁ ≡ (threw e, w')

  insert-threw :
      (o : Outcome E NotificationRow × W) (envelope : Envelope) (e : E) (w' : W)
      → continue o (λ row. attempt (push services envelope row) >>= λ _. return created)
        ≡ (threw e, w')
      → o ≡ (threw e, w')
  insert-threw (returned row, w) envelope e w' same = ground (arith, same)
  insert-threw (threw x, w) envelope e w' same = threw-threw _ (threw x, w) x e w w' refl same refl

  mapped-threw :
      (mapped : Option MappedNotification) (envelope : Envelope) (e : E) (w w' : W)
      → create_if_mapped services envelope mapped w ≡ (threw e, w')
      → (m : MappedNotification) × (mapped ≡ some m) × InsertThrew envelope m w e w'
  mapped-threw none envelope e w w' same = ground (arith, same)
  mapped-threw (some m) envelope e w w' same =
      let (id, w₁) = services.new_id w in
      (
        m,
        refl,
        insert-threw (services.create_row (new_row services envelope m id) w₁) envelope e w' same,
      )

  create-threw :
      (o : Outcome E CreateResult × W) (e : E) (w' : W)
      → continue o (λ _. return tt) ≡ (threw e, w')
      → o ≡ (threw e, w')
  create-threw (returned row, w) e w' same = ground (arith, same)
  create-threw (threw x, w) e w' same = threw-threw _ (threw x, w) x e w w' refl same refl

  parsed-threw :
      (parsed : Option Envelope) (e : E) (w w' : W)
      → handle_parsed services parsed w ≡ (threw e, w')
      → (envelope : Envelope) × (parsed ≡ some envelope)
        × (mapped : MappedNotification) × (map_event services.format_stamp (services.now w) envelope
            ≡ some mapped)
        × InsertThrew envelope mapped w e w'
  unfolding create_notification
  parsed-threw none e w w' same = ground (arith, same)
  parsed-threw (some envelope) e w w' same =
      let event = map_event services.format_stamp (services.now w) envelope in
      let (m, is_mapped, thrown) =
        mapped-threw event envelope e w w'
          (create-threw (create_if_mapped services envelope event w) e w' same) in
      (envelope, refl, m, is_mapped, thrown)

  -- Handling a message throws, so that the queue delivers it again, only if its body is an envelope
  -- that becomes a notification and the insert of that notification's row threw.
  pub handle_message-threw :
      (body : Option Text) (e : E) (w w' : W)
      → handle_message services body w ≡ (threw e, w')
      → (envelope : Envelope) × (parse services body ≡ some envelope)
        × (mapped : MappedNotification) × (map_event services.format_stamp (services.now w) envelope
            ≡ some mapped)
        × InsertThrew envelope mapped w e w'
  unfolding handle_message
  handle_message-threw body e w w' same = parsed-threw (parse services body) e w w' same
