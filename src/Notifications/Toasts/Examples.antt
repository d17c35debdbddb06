-- ===== src/Notifications/Toasts/Examples.antt =====
-- The theorems on the toast queue at a queue.
use microservices_running.Prelude.{String, none}
use microservices_running.Notifications.Types.{AppNotification}
use microservices_running.Notifications.Toasts.{ToastQueue, initial, enqueue}

abbrev note : String → AppNotification
note id = record {
  id = id;
  type = "WELCOME";
  title = "t";
  body = "b";
  metadata = "{}";
  read_at = none;
  created_at = "c";
}

abbrev one : ToastQueue
one = enqueue 100 (note "a") initial
