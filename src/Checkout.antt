-- ===== src/Checkout.antt =====
-- The last page of the checkout (apps/web/src/app/features/checkout/checkout-payment.ts) and the
-- call that places the order (core/api/orders-api.ts).
pub mod Paying
pub mod Keys
pub mod Retries
pub mod Address
pub mod Shown
mod Examples
use microservices_running.Prelude.{
  ℕ, String, Bool, true, false, Option, none, some, List, [], ◌∷◌, str_eq, keep, map, leb, ltb,
  ◌&&◌, if◌then◌else◌,
}
use microservices_running.Effects.{Outcome, returned, threw, Io}
use microservices_running.Cart.{CartStore}

-- A line of the cart as the page reads it; `quantity` is what `toInt` reads.
pub record CheckoutLine : Type 0 where
  pub product_id : String
  pub quantity : ℕ
  pub available : Bool

pub record CreateOrderLine : Type 0 where
  pub product_id : String
  pub quantity : ℕ

pub record CardMetadata : Type 0 where
  pub brand : Option String
  pub last4 : Option String
  pub exp_month : Option ℕ
  pub exp_year : Option ℕ

-- `paymentMethodId` is empty or absent when none is chosen.
pub record CreateOrderOptions : Type 0 where
  pub payment_method_id : Option String
  pub card : Option CardMetadata
  pub idempotency_key : Option String

-- The body of `POST /orders`, with the `Idempotency-Key` header.
pub record OrderRequest : Type 0 where
  pub lines : List CreateOrderLine
  pub payment_method_id : Option String
  pub card : Option CardMetadata
  pub idempotency_key : Option String

pub record Order : Type 0 where
  pub id : String

-- The signals of the page that `pay` reads and writes, with the store of the cart.
pub record Page : Type 0 where
  pub idempotency_key : String
  pub placing : Bool
  pub checkout_error : Option String
  pub stripe_enabled : Bool
  pub selected_payment_method_id : Option String
  pub cart : CartStore

-- `x ? x : absent`, the empty text counting as absent.
abbrev pub truthy : Option String → Option String
truthy none = none
truthy (some text) = if str_eq text "" then none else some text
