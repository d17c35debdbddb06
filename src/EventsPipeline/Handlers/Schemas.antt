-- ===== src/EventsPipeline/Handlers/Schemas.antt =====
-- The payloads that the handlers accept (the `...PayloadSchema` of
-- functions/events-pipeline/src/handlers). A schema checks its fields in another order than it lists
-- them, which only the text of a failure shows.
use microservices_running.Prelude.{
  ℕ, String, Option, none, some, List, [], ◌∷◌, str_eq, if◌then◌else◌,
}
use microservices_running.EventsPipeline.Domain.{Payload}
use microservices_running.EventsPipeline.Wire.{
  Json, array, object, Items, no_items, item, Members, Reader, ◌>>=◌, property, member_of, string,
  nonempty_string, email_string, nonnegative_int, positive_int, positive, optional_record, Number,
  Addressed, addressed, OrderNumber, optional_order_number,
}
use microservices_running.EventsPipeline.Email.{HistoryEntry}

pub record UserCreatedPayload : Type 0 where
  pub full_name : String
  pub user_id : String
  pub created_at : String

pub record Item : Type 0 where
  pub name : String
  pub quantity : ℕ
  pub unit_price_cents : ℕ

pub record OrderCreatedPayload : Type 0 where
  pub order_id : String
  pub order_number : Option OrderNumber
  pub user_id : String
  pub full_name : String
  pub subtotal_cents : ℕ
  pub tax_cents : ℕ
  pub shipping_cents : ℕ
  pub total_cents : ℕ
  pub shipping_address : Option Members
  pub items : List Item
  pub created_at : String

-- The payload of AUTH_OTP_REQUESTED, and of PASSWORD_RESET_REQUESTED.
pub record CodePayload : Type 0 where
  pub full_name : String
  pub code : String
  pub ttl_seconds : Number

pub data TrackingStatus : Type 0 where
  placed processing shipped out_for_delivery delivered : TrackingStatus

pub record TrackingStatusChangedPayload : Type 0 where
  pub status : TrackingStatus
  pub previous_status : String
  pub changed_at : String
  pub full_name : String
  pub order_id : String
  pub order_number : Option OrderNumber
  pub tracking_number : String
  pub shipping_address : Option Members
  pub history : List HistoryEntry

-- `z.enum([...])`
abbrev tracking_status : Option Json → Option TrackingStatus
tracking_status json = do
  name ← string json
  if str_eq name "PLACED"
      then some placed
      else if str_eq name "PROCESSING"
      then some processing
      else if str_eq name "SHIPPED"
      then some shipped
      else if str_eq name "OUT_FOR_DELIVERY"
      then some out_for_delivery
      else if str_eq name "DELIVERED"
      then some delivered
      else none

-- `z.array(element)`
unfoldable pub elements : {A : Type 0} → (Json → Option A) → Items → Option (List A)
elements element no_items = some []
elements element (item json items) = do
  first ← element json
  rest ← elements element items
  some (first ∷ rest)

abbrev array_of : {A : Type 0} → (Json → Option A) → Option Json → Option (List A)
array_of element (some (array items)) = elements element items
array_of element _ = none

-- `.min(1)`
abbrev nonempty : {A : Type 0} → List A → Option (List A)
nonempty [] = none
nonempty (first ∷ rest) = some (first ∷ rest)

abbrev receipt_line : Json → Option Item
receipt_line (object members) = do
  name ← nonempty_string (member_of "name" members)
  quantity ← positive_int (member_of "quantity" members)
  unit_price_cents ← nonnegative_int (member_of "unit_price_cents" members)
  some (record { name = name; quantity = quantity; unit_price_cents = unit_price_cents })
receipt_line _ = none

abbrev history_entry : Json → Option HistoryEntry
history_entry (object members) = do
  status ← nonempty_string (member_of "status" members)
  datetime ← nonempty_string (member_of "datetime" members)
  some (record { status = status; datetime = datetime })
history_entry _ = none

module _ (reader : Reader) (payload : Payload) where
  abbrev pub field : String → Option Json
  field name = property reader name payload

  abbrev pub recipient : Option String
  recipient = email_string reader (field "email")

  unfoldable pub user_created_schema : Option (Addressed UserCreatedPayload)
  unfolding property
  user_created_schema = addressed recipient (do
    full_name ← nonempty_string (field "fullName")
    user_id ← nonempty_string (field "userId")
    created_at ← nonempty_string (field "createdAt")
    some (record { full_name = full_name; user_id = user_id; created_at = created_at }))

  unfoldable pub order_created_schema : Option (Addressed OrderCreatedPayload)
  unfolding property elements optional_order_number member_of
  order_created_schema = addressed recipient (do
    order_id ← nonempty_string (field "order_id")
    order_number ← optional_order_number (field "order_number")
    user_id ← nonempty_string (field "user_id")
    full_name ← nonempty_string (field "full_name")
    subtotal_cents ← nonnegative_int (field "subtotal_cents")
    tax_cents ← nonnegative_int (field "tax_cents")
    shipping_cents ← nonnegative_int (field "shipping_cents")
    total_cents ← nonnegative_int (field "total_cents")
    shipping_address ← optional_record (field "shipping_address")
    lines ← array_of receipt_line (field "items")
    items ← nonempty lines
    created_at ← nonempty_string (field "created_at")
    some (record {
      order_id = order_id;
      order_number = order_number;
      user_id = user_id;
      full_name = full_name;
      subtotal_cents = subtotal_cents;
      tax_cents = tax_cents;
      shipping_cents = shipping_cents;
      total_cents = total_cents;
      shipping_address = shipping_address;
      items = items;
      created_at = created_at;
    }))

  unfoldable pub code_schema : Option (Addressed CodePayload)
  unfolding property
  code_schema = addressed recipient (do
    full_name ← string (field "full_name")
    code ← nonempty_string (field "code")
    ttl_seconds ← positive (field "ttlSeconds")
    some (record { full_name = full_name; code = code; ttl_seconds = ttl_seconds }))

  unfoldable pub tracking_status_changed_schema : Option (Addressed TrackingStatusChangedPayload)
  unfolding property elements optional_order_number member_of
  tracking_status_changed_schema = addressed recipient (do
    status ← tracking_status (field "status")
    previous_status ← nonempty_string (field "previous_status")
    changed_at ← nonempty_string (field "changed_at")
    full_name ← string (field "full_name")
    order_id ← nonempty_string (field "order_id")
    order_number ← optional_order_number (field "order_number")
    tracking_number ← nonempty_string (field "tracking_number")
    shipping_address ← optional_record (field "shipping_address")
    history ← array_of history_entry (field "history")
    some (record {
      status = status;
      previous_status = previous_status;
      changed_at = changed_at;
      full_name = full_name;
      order_id = order_id;
      order_number = order_number;
      tracking_number = tracking_number;
      shipping_address = shipping_address;
      history = history;
    }))
