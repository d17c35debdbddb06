-- ===== src/UserNotifications/Copy.antt =====
-- The words of a notification (services/users/src/features/notifications/domain/
-- notification-copy.ts). `format_stamp` is `formatStamp`, which `Date` and `Intl` compute.
use microservices_running.Prelude.{
  Option, none, some, [], ◌∷◌, ◌++◌, Bool, true, false, ◌==◌, if◌then◌else◌,
}
use microservices_running.Session.{codes}
use microservices_running.UserNotifications.{Text}

pub data TrackingStatus : Type 0 where
  placed processing shipped out_for_delivery delivered : TrackingStatus

pub record NotificationCopy : Type 0 where
  pub title : Text
  pub body : Text

abbrev pub text_eq : Text → Text → Bool
text_eq [] [] = true
text_eq (c ∷ cs) (d ∷ ds) = if c == d then text_eq cs ds else false
text_eq _ _ = false

-- `isTrackingEventStatus`, which leaves out `PLACED`.
unfoldable pub tracking_event_status : Text → Option TrackingStatus
tracking_event_status value =
    if text_eq value (codes "PROCESSING")
    then some processing
    else if text_eq value (codes "SHIPPED")
    then some shipped
    else if text_eq value (codes "OUT_FOR_DELIVERY")
    then some out_for_delivery
    else if text_eq value (codes "DELIVERED")
    then some delivered
    else none

abbrev pub tracking_title : TrackingStatus → Text
tracking_title placed = codes "Order placed"
tracking_title processing = codes "Your order is being prepared"
tracking_title shipped = codes "Your order has shipped"
tracking_title out_for_delivery = codes "Out for delivery"
tracking_title delivered = codes "Delivered"

-- The empty text counts as absent.
abbrev pub truthy : Option Text → Option Text
truthy none = none
truthy (some []) = none
truthy (some (c ∷ cs)) = some (c ∷ cs)

abbrev pub with_order_number : Text → Option Text → Text
with_order_number sentence order_number = elim (truthy order_number) [
  | none ↦ sentence
  | some formatted ↦ formatted ++ codes " · " ++ sentence
]

unfoldable pub welcome_copy : NotificationCopy
welcome_copy = record {
  title = codes "Welcome to 3MRAI!";
  body = codes "Your account is ready. Start exploring orders, tracking and more.";
}

unfoldable pub placed_copy : Option Text → NotificationCopy
placed_copy order_number = record {
  title = tracking_title placed;
  body = with_order_number (codes "Received and confirmed. We'll email your receipt.") order_number;
}

-- `placed` is no event status.
abbrev pub tracking_sentence : (format_stamp : Text → Text) → TrackingStatus → Text → Text
tracking_sentence format_stamp placed changed_at = []
tracking_sentence format_stamp processing changed_at = codes "Being picked and packed for shipment."
tracking_sentence format_stamp shipped changed_at =
    codes "Handed to the carrier and on its way to you."
tracking_sentence format_stamp out_for_delivery changed_at = codes "Arriving today, by 6:00 pm."
tracking_sentence format_stamp delivered changed_at =
    codes "Delivered " ++ format_stamp changed_at ++ codes "."

unfoldable pub tracking_copy :
    (format_stamp : Text → Text) → TrackingStatus → Option Text → Text → NotificationCopy
tracking_copy format_stamp status order_number changed_at = record {
  title = tracking_title status;
  body = with_order_number (tracking_sentence format_stamp status changed_at) order_number;
}
