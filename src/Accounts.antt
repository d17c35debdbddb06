-- ===== src/Accounts.antt =====
-- The account commands of the users service (services/users/src/users/commands).
pub mod ResetCodes
pub mod Resets
pub mod SingleUse
pub mod Deletion
pub mod Deleted
mod Examples
use microservices_running.Prelude.{
  ℕ, String, Bool, true, false, Option, none, some, List, str_eq, if◌then◌else◌,
}

-- The columns of a user that the commands read.
pub record User : Type 0 where
  pub id : String
  pub email : String
  pub full_name : String
  pub cognito_sub : Option String

-- What a command throws: `InvalidResetCodeError`, `CascadeFailedError`, `CascadeUnavailableError`,
-- or any error of a dependency.
pub data AccountError : Type 0 where
  invalid_reset_code : AccountError
  cascade_failed : (service reason : String) → AccountError
  cascade_unavailable : (reason : String) → AccountError
  other : (message : String) → AccountError

-- `x ? x : absent`, the empty text counting as absent.
abbrev pub truthy : Option String → Option String
truthy none = none
truthy (some text) = if str_eq text "" then none else some text
