-- ===== src/Notifications/Types.antt =====
-- `AppNotification` of apps/web/src/app/core/api/types.ts. The metadata is kept as its JSON text.
use microservices_running.Prelude.{String, Option}

pub record AppNotification : Type 0 where
  pub id : String
  pub type : String
  pub title : String
  pub body : String
  pub metadata : String
  pub read_at : Option String
  pub created_at : String
