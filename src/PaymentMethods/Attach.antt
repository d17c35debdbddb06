-- ===== src/PaymentMethods/Attach.antt =====
-- Attaching a card (services/users/src/payment-methods/commands/attach-payment-method.command.ts).
use microservices_running.Prelude.{
  ℕ, ◌==◌, String, Bool, true, false, Option, none, some, str_eq, not, ◌&&◌, if◌then◌else◌,
}
use microservices_running.Effects.{
  Outcome, returned, threw, Io, return, throw, attempt, ◌>>=◌, ◌>>◌,
}
use microservices_running.PaymentMethods.{
  StripePaymentMethod, PaymentError, stripe_invalid_request, stripe_card_error,
  payment_method_declined, payment_method_rejected, is_method,
}
use microservices_running.PaymentMethods.Table.{Prisma}
use microservices_running.PaymentMethods.Stripe.{StripeClient, StripeMethod}
use microservices_running.PaymentMethods.Commands.{with_client}
use microservices_running.PaymentMethods.Reconcile.{new_row, with_card}
use microservices_running.PaymentMethods.Customers.{Customers, ensure_stripe_customer}

-- What attaching calls besides: Stripe's `paymentMethods.attach`, and the `count` of the user's live
-- rows of other cards.
pub record Attaching (W : Type 0) : Type 0 where
  pub attach : (payment_method_id customer_id : String) → Io W PaymentError StripeMethod
  pub count_others : (user_id payment_method_id : String) → Io W PaymentError ℕ

abbrev pub is_other_card : (user pm : String) → StripePaymentMethod → Bool
is_other_card user pm row = not row.deleted && (str_eq row.user_id user && not (is_method pm row))

abbrev pub is_customer : String → Option String → Bool
is_customer customer none = false
is_customer customer (some id) = str_eq id customer

-- The first card is created as the default, or its row is made the default.
abbrev pub first_row : (id user : String) → StripeMethod → StripePaymentMethod
first_row id user method = record (new_row id user method) { is_default = true }

abbrev pub with_first : StripeMethod → StripePaymentMethod → StripePaymentMethod
with_first method row = record row { card = method.card; is_default = true }

-- The `catch` around the attachment.
abbrev pub classified :
    {W : Type 0} → Outcome PaymentError StripeMethod × W → Outcome PaymentError StripeMethod × W
classified (returned method, w) = (returned method, w)
classified (threw stripe_card_error, w) = (threw payment_method_declined, w)
classified (threw (stripe_invalid_request code says), w) = (threw payment_method_rejected, w)
classified (threw err, w) = (threw err, w)

module _ {W : Type 0} (db : Prisma W) (customers : Customers W) (attaching : Attaching W)
    (client : StripeClient W) where
  abbrev pub owned_or_throw : String → PaymentError → StripeMethod → Io W PaymentError StripeMethod
  owned_or_throw customer err method =
      if is_customer customer method.customer then return method else throw err

  abbrev pub attached_or_owned :
      (pm customer : String) → Outcome PaymentError StripeMethod → Io W PaymentError StripeMethod
  attached_or_owned pm customer (returned method) = return method
  attached_or_owned pm customer (threw (stripe_invalid_request code says)) =
      client.retrieve_method pm >>= owned_or_throw customer (stripe_invalid_request code says)
  attached_or_owned pm customer (threw err) = throw err

  unfoldable pub attach_or_verify_ownership :
      (pm customer : String) → Io W PaymentError StripeMethod
  attach_or_verify_ownership pm customer =
      attempt (attaching.attach pm customer) >>= attached_or_owned pm customer

  -- The upsert, the first card being the default at Stripe and here.
  abbrev pub write_card :
      (new_id user customer : String) → StripeMethod → ℕ → Io W PaymentError (Unit {0})
  write_card new_id user customer method others =
      if others == 0
      then (client.update_default customer method.id
          >> db.upsert method.id (first_row new_id user method) (with_first method))
      else db.upsert method.id (new_row new_id user method) (with_card method)

  -- The body of the transaction.
  unfoldable pub place_card :
      (new_id user customer : String) → StripeMethod → Io W PaymentError (Unit {0})
  place_card new_id user customer method = do
    db.lock_user_row user
    others ← attaching.count_others user method.id
    write_card new_id user customer method others

  abbrev pub classified_attach : (pm customer : String) → Io W PaymentError StripeMethod
  classified_attach pm customer w = classified (attach_or_verify_ownership pm customer w)

  -- The handler, once Stripe is configured.
  abbrev pub attach_configured :
      (new_id : String) (e2e_source : Bool) (user pm : String) → Io W PaymentError String
  attach_configured new_id e2e_source user pm = do
    found ← customers.find_user user
    customer ← ensure_stripe_customer customers true e2e_source user found.email
    method ← classified_attach pm customer
    db.transaction (place_card new_id user customer method)
    return method.id

-- `AttachPaymentMethodHandler.execute`.
unfoldable pub attach_payment_method :
    {W : Type 0} (db : Prisma W) (customers : Customers W) (attaching : Attaching W)
    (stripe : Option (StripeClient W)) (new_id : String) (e2e_source : Bool) (user pm : String)
    → Io W PaymentError String
attach_payment_method db customers attaching stripe new_id e2e_source user pm =
    with_client db stripe
      (λ client. attach_configured db customers attaching client new_id e2e_source user pm)
