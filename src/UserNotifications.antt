-- ===== src/UserNotifications.antt =====
-- The notifications that the users service stores and pushes (services/users/src/notifications,
-- services/users/src/features/notifications/domain). A text is the list of its code points.
pub mod Copy
pub mod Mapping
pub mod Consumer
pub mod Stored
pub mod Inbox
pub mod Marking
mod Examples
use microservices_running.Prelude.{ℕ, List, Option}

abbrev pub Text : Type 0
Text = List ℕ

-- `NotificationEnvelope`. Of the payload the fields that are read, each absent unless it is a text.
pub record Payload : Type 0 where
  pub registered_at : Option Text
  pub created_at : Option Text
  pub order_number_formatted : Option Text
  pub order_id : Option Text
  pub status : Option Text
  pub changed_at : Option Text

pub record Envelope : Type 0 where
  pub type : Text
  pub user_id : Text
  pub order_id : Option Text
  pub author_cognito_sub : Option Text
  pub payload : Payload
