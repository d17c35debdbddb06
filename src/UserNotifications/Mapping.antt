-- ===== src/UserNotifications/Mapping.antt =====
-- Which event becomes which notification (`map` of
-- services/users/src/notifications/commands/create-notification.command.ts).
use microservices_running.Prelude.{Option, none, some, get_or, if◌then◌else◌}
use microservices_running.Session.{codes}
use microservices_running.UserNotifications.{Text, Envelope}
use microservices_running.UserNotifications.Copy.{
  TrackingStatus, placed, NotificationCopy, text_eq, truthy, tracking_event_status, welcome_copy,
  placed_copy, tracking_copy,
}

pub data NotificationType : Type 0 where
  welcome order_status : NotificationType

pub record Metadata : Type 0 where
  pub status : Option TrackingStatus
  pub order_id : Option Text
  pub order_number : Option Text
  pub occurred_at : Text

pub record MappedNotification : Type 0 where
  pub type : NotificationType
  pub copy : NotificationCopy
  pub metadata : Metadata

-- `a ?? b`
abbrev pub or_else : Option Text → Option Text → Option Text
or_else none b = b
or_else (some a) b = some a

-- `now` is `new Date().toISOString()`.
module _ (format_stamp : Text → Text) (now : Text) where
  abbrev pub map_welcome : Envelope → MappedNotification
  map_welcome envelope = record {
    type = welcome;
    copy = welcome_copy;
    metadata = record {
      status = none;
      order_id = none;
      order_number = none;
      occurred_at = get_or envelope.payload.registered_at now;
    };
  }

  abbrev pub placed_at : Envelope → Option Text → Option MappedNotification
  placed_at envelope none = none
  placed_at envelope (some created_at) = some (record {
    type = order_status;
    copy = placed_copy envelope.payload.order_number_formatted;
    metadata = record {
      status = some placed;
      order_id = truthy (or_else envelope.order_id envelope.payload.order_id);
      order_number = truthy envelope.payload.order_number_formatted;
      occurred_at = created_at;
    };
  })

  abbrev pub map_order_placed : Envelope → Option MappedNotification
  map_order_placed envelope = placed_at envelope (truthy envelope.payload.created_at)

  abbrev pub status_in : Option Text → Option TrackingStatus
  status_in none = none
  status_in (some value) = tracking_event_status value

  abbrev pub transition_to : Envelope → Option TrackingStatus → Option MappedNotification
  transition_to envelope none = none
  transition_to envelope (some status) =
      let occurred_at = get_or envelope.payload.changed_at now in
      some (record {
        type = order_status;
        copy =
            tracking_copy format_stamp status envelope.payload.order_number_formatted occurred_at;
        metadata = record {
          status = some status;
          order_id = truthy envelope.order_id;
          order_number = truthy envelope.payload.order_number_formatted;
          occurred_at = occurred_at;
        };
      })

  abbrev pub map_tracking_transition : Envelope → Option MappedNotification
  map_tracking_transition envelope = transition_to envelope (status_in envelope.payload.status)

  unfoldable pub map_event : Envelope → Option MappedNotification
  map_event envelope =
      if text_eq envelope.type (codes "USER_CREATED")
      then some (map_welcome envelope)
      else if text_eq envelope.type (codes "ORDER_CREATED")
      then map_order_placed envelope
      else if text_eq envelope.type (codes "TRACKING_STATUS_CHANGED")
      then map_tracking_transition envelope
      else none
