-- ===== src/EventsPipeline/Handlers.antt =====
-- The handlers of the events (functions/events-pipeline/src/handlers). The text in which a failed
-- schema names its fields is a parameter.
pub mod Schemas
use Prim.Native.String
use microservices_running.Prelude.{
  String, Option, none, some, List, [], ◌∷◌, map, str_eq, if◌then◌else◌,
}
use microservices_running.Effects.{returned, throw, Io, ◌>>=◌, ◌>>◌, return}
use microservices_running.EventsPipeline.Domain.{Envelope, Payload, Failure, permanent}
use microservices_running.EventsPipeline.Record.{HandlerMap}
use microservices_running.EventsPipeline.Wire.{Reader, Addressed, OrderNumber, minutes}
use microservices_running.EventsPipeline.Email.{
  EmailItem, Props, user_created_props, order_created_props, tracking_status_changed_props,
  code_props, MailServices, render_template, send_email,
}
use microservices_running.EventsPipeline.Push.{StatusMessage, PushServices, publish_to_user}
use microservices_running.EventsPipeline.Handlers.Schemas.{
  UserCreatedPayload, OrderCreatedPayload, TrackingStatusChangedPayload, CodePayload, Item,
  TrackingStatus, placed, processing, shipped, out_for_delivery, delivered, user_created_schema,
  order_created_schema, tracking_status_changed_schema, code_schema,
}

-- `TEMPLATE_BY_STATUS`, which has every status of the schema.
abbrev pub template_by_status : TrackingStatus → String
template_by_status placed = "tracking-status-changed-placed"
template_by_status processing = "tracking-status-changed-processing"
template_by_status shipped = "tracking-status-changed-shipped"
template_by_status out_for_delivery = "tracking-status-changed-out-for-delivery"
template_by_status delivered = "tracking-status-changed-delivered"

abbrev pub status_name : TrackingStatus → String
status_name placed = "PLACED"
status_name processing = "PROCESSING"
status_name shipped = "SHIPPED"
status_name out_for_delivery = "OUT_FOR_DELIVERY"
status_name delivered = "DELIVERED"

-- `status.replace(/_/g, " ").toLowerCase()`
abbrev pub status_words : TrackingStatus → String
status_words placed = "placed"
status_words processing = "processing"
status_words shipped = "shipped"
status_words out_for_delivery = "out for delivery"
status_words delivered = "delivered"

-- Without a number and an id, the template literal prints the `null` of the envelope.
abbrev subject_order : Option OrderNumber → Option String → String
subject_order (some number) order_id = number.formatted
subject_order none (some order_id) = order_id
subject_order none none = "null"

abbrev pub tracking_subject : Option OrderNumber → Option String → TrackingStatus → String
tracking_subject number order_id status =
    String.◌++◌ "Order "
      (String.◌++◌ (subject_order number order_id) (String.◌++◌ ": " (status_words status)))

abbrev email_item : Item → EmailItem
email_item i = record {
  name = i.name;
  quantity = i.quantity;
  unit_price_cents = i.unit_price_cents;
}

module _ {W : Type 0} (reader : Reader) (invalid_fields : Payload → String) (mail : MailServices W)
    (push : PushServices W) where
  abbrev pub invalid : (type : String) → Payload → Failure
  invalid type payload = permanent (
      String.◌++◌ "invalid "
        (String.◌++◌ type (String.◌++◌ " payload: invalid fields: " (invalid_fields payload))))

  -- Render, then send.
  unfoldable pub deliver :
      (template_key : String)
      → Props
      → (to subject : String) (code : Option String) → Io W Failure (Unit {0})
  deliver template_key props to subject code = do
    html ← render_template mail template_key props
    send_email mail (record {
      to = to;
      subject = subject;
      html = html;
      template_key = template_key;
      code = code;
    })

  unfoldable pub user_created_for :
      Payload → Option (Addressed UserCreatedPayload) → Io W Failure (Unit {0})
  unfolding deliver
  user_created_for payload none = throw (invalid "USER_CREATED" payload)
  user_created_for payload (some data_) =
      deliver "user-created"
        (user_created_props data_.rest.full_name data_.email data_.rest.user_id
          data_.rest.created_at)
        data_.email "Welcome to 3MRAI" none

  unfoldable pub user_created_handler : Envelope → Io W Failure (Unit {0})
  unfolding user_created_for
  user_created_handler envelope =
      user_created_for envelope.payload (user_created_schema reader envelope.payload)

  unfoldable pub order_created_for :
      Payload → Option (Addressed OrderCreatedPayload) → Io W Failure (Unit {0})
  unfolding deliver
  order_created_for payload none = throw (invalid "ORDER_CREATED" payload)
  order_created_for payload (some data_) =
      deliver "order-created"
        (order_created_props (record {
          order_id = data_.rest.order_id;
          order_number = data_.rest.order_number;
          full_name = data_.rest.full_name;
          subtotal_cents = data_.rest.subtotal_cents;
          tax_cents = data_.rest.tax_cents;
          shipping_cents = data_.rest.shipping_cents;
          total_cents = data_.rest.total_cents;
          shipping_address = data_.rest.shipping_address;
          items = map email_item data_.rest.items;
          created_at = data_.rest.created_at;
        }))
        data_.email "Order confirmed" none

  unfoldable pub order_created_handler : Envelope → Io W Failure (Unit {0})
  unfolding order_created_for
  order_created_handler envelope =
      order_created_for envelope.payload (order_created_schema reader envelope.payload)

  -- The two events that carry a code.
  unfoldable pub code_for :
      (type template_key subject : String)
      → Payload
      → Option (Addressed CodePayload)
      → Io W Failure (Unit {0})
  unfolding deliver
  code_for type template_key subject payload none = throw (invalid type payload)
  code_for type template_key subject payload (some data_) =
      deliver template_key
        (code_props data_.rest.code (minutes data_.rest.ttl_seconds) data_.rest.full_name)
        data_.email subject (some data_.rest.code)

  unfoldable pub auth_otp_requested_handler : Envelope → Io W Failure (Unit {0})
  unfolding code_for
  auth_otp_requested_handler envelope =
      code_for "AUTH_OTP_REQUESTED" "auth-otp" "Your one-time code" envelope.payload
        (code_schema reader envelope.payload)

  unfoldable pub password_reset_requested_handler : Envelope → Io W Failure (Unit {0})
  unfolding code_for
  password_reset_requested_handler envelope =
      code_for "PASSWORD_RESET_REQUESTED" "forgot-password" "Reset your password" envelope.payload
        (code_schema reader envelope.payload)

  -- The push, for an author whose `sub` is there and not empty.
  abbrev pub pushed_to : Envelope → TrackingStatusChangedPayload → Option String → W → W
  pushed_to envelope changed none w = w
  pushed_to envelope changed (some sub) w =
      if str_eq sub ""
      then w
      else publish_to_user push sub
          (record {
            type = "TRACKING_STATUS_CHANGED";
            order_id = envelope.order_id;
            status = status_name changed.status;
            previous_status = changed.previous_status;
            changed_at = changed.changed_at;
          })
          w

  unfoldable pub pushed : Envelope → TrackingStatusChangedPayload → W → W
  pushed envelope changed w = pushed_to envelope changed envelope.author.cognito_sub w

  unfoldable pub tracking_for :
      Envelope → Option (Addressed TrackingStatusChangedPayload) → Io W Failure (Unit {0})
  unfolding deliver pushed
  tracking_for envelope none = throw (invalid "TRACKING_STATUS_CHANGED" envelope.payload)
  tracking_for envelope (some data_) = do
    deliver (template_by_status data_.rest.status)
        (tracking_status_changed_props (record {
          order_id = data_.rest.order_id;
          order_number = data_.rest.order_number;
          status = status_name data_.rest.status;
          previous_status = data_.rest.previous_status;
          changed_at = data_.rest.changed_at;
          full_name = data_.rest.full_name;
          tracking_number = data_.rest.tracking_number;
          shipping_address = data_.rest.shipping_address;
          history = data_.rest.history;
        }))
        data_.email (tracking_subject data_.rest.order_number envelope.order_id data_.rest.status)
        none
    λ w. (returned tt, pushed envelope data_.rest w)

  unfoldable pub tracking_status_changed_handler : Envelope → Io W Failure (Unit {0})
  unfolding tracking_for
  tracking_status_changed_handler envelope =
      tracking_for envelope (tracking_status_changed_schema reader envelope.payload)

  -- The dispatch table.
  unfoldable pub handlers : HandlerMap W
  handlers =
      ("USER_CREATED", user_created_handler)
      ∷ ("ORDER_CREATED", order_created_handler)
      ∷ ("TRACKING_STATUS_CHANGED", tracking_status_changed_handler)
      ∷ ("AUTH_OTP_REQUESTED", auth_otp_requested_handler)
      ∷ ("PASSWORD_RESET_REQUESTED", password_reset_requested_handler)
      ∷ []
