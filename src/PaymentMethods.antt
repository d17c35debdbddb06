-- ===== src/PaymentMethods.antt =====
-- The stored cards of a user (services/users/src/payment-methods and what it uses of
-- services/users/src/shared): the local table and the errors.
pub mod Table
pub mod Stripe
pub mod Commands
pub mod Reconcile
pub mod Defaults
pub mod Steps
pub mod SetDefault
pub mod Detach
pub mod Customers
pub mod Attach
pub mod FirstCard
pub mod CustomerKept
pub mod Attached
pub mod Invariant
pub mod Events
pub mod Sequences
mod Examples
use microservices_running.Prelude.{String, Bool, true, false, Option, none, some, str_eq, not, ◌&&◌}

-- A row of `stripe_payment_methods`. `deleted` says that `deleted_at` is set; `card` stands for the
-- fields that `mapStripePaymentMethodFields` fills.
pub record StripePaymentMethod : Type 0 where
  pub id : String
  pub stripe_payment_method_id : String
  pub user_id : String
  pub is_default : Bool
  pub deleted : Bool
  pub card : String

-- `p2025` is Prisma's "no record matched". `says_detached` tells whether the message contains "is not attached to a customer".
pub data PaymentError : Type 0 where
  stripe_unavailable p2025 record_not_found : PaymentError
  stripe_card_error payment_method_declined payment_method_rejected : PaymentError
  stripe_invalid_request : (code : Option String) (says_detached : Bool) → PaymentError
  failure : (message : String) → PaymentError

unfoldable pub is_resource_missing : PaymentError → Bool
is_resource_missing (stripe_invalid_request (some code) _) = str_eq code "resource_missing"
is_resource_missing (stripe_invalid_request none says_detached) = says_detached
is_resource_missing _ = false

-- The `where` clauses of the code, as tests on a row.
abbrev pub is_method : String → StripePaymentMethod → Bool
is_method pm row = str_eq row.stripe_payment_method_id pm

abbrev pub is_owned : String → String → StripePaymentMethod → Bool
is_owned user pm row = str_eq row.user_id user && is_method pm row

abbrev pub is_row : String → StripePaymentMethod → Bool
is_row id row = str_eq row.id id

abbrev pub is_user_default : String → StripePaymentMethod → Bool
is_user_default user row = str_eq row.user_id user && row.is_default

abbrev pub with_default : Bool → StripePaymentMethod → StripePaymentMethod
with_default value row = record row { is_default = value }
