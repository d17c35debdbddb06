-- ===== src/UserNotifications/Examples.antt =====
-- The theorem on the notifications consumer at a database that is down.
use microservices_running.Prelude.{ℕ, suc, none, some, ◌≡◌, refl, String}
use microservices_running.Effects.{returned, threw}
use microservices_running.Session.{codes}
use microservices_running.UserNotifications.{Envelope}
use microservices_running.UserNotifications.Copy.{tracking_event_status, tracking_copy}
use microservices_running.UserNotifications.Mapping.{MappedNotification, map_event}
use microservices_running.UserNotifications.Consumer.{
  NotificationServices, parse, handle_message, create_notification,
}
use microservices_running.UserNotifications.Stored.{InsertThrew, handle_message-threw}

abbrev shipped_event : Envelope
shipped_event = record {
  type = codes "TRACKING_STATUS_CHANGED";
  user_id = codes "usr_1";
  order_id = some (codes "ord_1");
  author_cognito_sub = none;
  payload = record {
    registered_at = none;
    created_at = none;
    order_number_formatted = none;
    order_id = none;
    status = some (codes "SHIPPED");
    changed_at = some (codes "now");
  };
}

-- The world counts the ids.
abbrev services : NotificationServices ℕ String
services = record {
  new_id = λ w. (codes "ntf", suc w);
  now = λ w. codes "now";
  format_stamp = λ text. text;
  create_row = λ row w. (threw "down", w);
  find_cognito_sub = λ user w. (returned none, w);
  count_unread = λ user w. (returned 0, w);
  publish_to_user = λ sub message w. (returned tt, w);
  parse_envelope = λ body. some shipped_event;
}

handle_message-threw_example :
    (envelope : Envelope) × (parse services (some (codes "{}")) ≡ some envelope)
    × (mapped : MappedNotification) × (map_event services.format_stamp (services.now 0) envelope
        ≡ some mapped)
    × InsertThrew services envelope mapped 0 "down" 1
unfolding handle_message create_notification map_event tracking_event_status tracking_copy
handle_message-threw_example = handle_message-threw services (some (codes "{}")) "down" 0 1 refl
