-- ===== src/Registration.antt =====
-- Registration, by password or without (services/users/src/users/commands/register.command.ts,
-- register-passwordless.command.ts) and the event that it publishes (shared/messaging/
-- event-publisher.ts).
pub mod Publishing
pub mod Commands
pub mod Essential
pub mod Orphans
mod Examples
use microservices_running.Prelude.{Bool, Option, List}
use microservices_running.Prelude.Texts.{Text}

pub data AuthType : Type 0 where
  password passwordless : AuthType

-- `RegisterInput`; `address` stands for the JSON of the address.
pub record RegisterInput : Type 0 where
  pub email : Text
  pub password : Text
  pub full_name : Text
  pub address : Option Text
  pub phone_number : Option Text
  pub e2e_source : Bool

-- The row of a user.
pub record UserRow : Type 0 where
  pub id : Text
  pub email : Text
  pub cognito_sub : Text
  pub full_name : Text
  pub address : Option Text
  pub phone_number : Option Text
  pub auth_type : AuthType
  pub tags : List Text
  pub created_at : Text
