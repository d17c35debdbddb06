-- ===== src/PaymentMethods/Commands.antt =====
-- The commands on stored cards (services/users/src/payment-methods/commands): detach, set-default,
-- and the reconciliation of a Stripe event.
use microservices_running.Prelude.{String, true, false, Option, none, some, if◌then◌else◌}
use microservices_running.Effects.{
  Outcome, returned, threw, Io, return, throw, attempt, ◌>>=◌, ◌>>◌,
}
use microservices_running.PaymentMethods.Customers.{truthy}
use microservices_running.PaymentMethods.{
  StripePaymentMethod, PaymentError, stripe_unavailable, is_resource_missing, is_owned, is_row,
  is_user_default, with_default,
}
use microservices_running.PaymentMethods.Table.{Prisma, find_first, update, update_many, delete}
use microservices_running.PaymentMethods.Stripe.{StripeClient}

pub data CommandResult : Type 0 where
  detached set_default not_found : CommandResult

module _ {W : Type 0} (db : Prisma W) where
  -- `if (!this.stripe.client) throw new StripeUnavailableException()`
  abbrev pub with_client :
      {A : Type 0}
      → Option (StripeClient W)
      → (StripeClient W → Io W PaymentError A)
      → Io W PaymentError A
  with_client none command = throw stripe_unavailable
  with_client (some client) command = command client

  abbrev pub after_detach :
      StripePaymentMethod → Outcome PaymentError (Unit {0}) → Io W PaymentError CommandResult
  after_detach row (returned _) = delete db (is_row row.id) >> return detached
  after_detach row (threw err) =
      if is_resource_missing err then (delete db (is_row row.id) >> return detached) else throw err

  abbrev pub detach_row :
      StripeClient W → Option StripePaymentMethod → String → Io W PaymentError CommandResult
  detach_row client none pm = return not_found
  detach_row client (some row) pm = do answer ← attempt (client.detach pm); after_detach row answer

  -- `DetachPaymentMethodHandler.execute`
  unfoldable pub detach :
      Option (StripeClient W)
      → (user_id payment_method_id : String) → Io W PaymentError CommandResult
  unfolding find_first delete is_resource_missing
  detach stripe user pm =
      with_client stripe
        (λ client. do row ← find_first db (is_owned user pm); detach_row client row pm)

  -- The body of the transaction of `SetDefaultPaymentMethodHandler.execute`.
  unfoldable pub flip_default :
      StripeClient W → (user customer pm row_id : String) → Io W PaymentError (Unit {0})
  unfolding update update_many
  flip_default client user customer pm row_id = do
    db.lock_user_row user
    client.update_default customer pm
    update_many db (is_user_default user) (with_default false)
    update db (is_row row_id) (with_default true)

  abbrev pub set_default_for :
      StripeClient W
      → (user pm : String) → StripePaymentMethod
      → Option String
      → Io W PaymentError CommandResult
  set_default_for client user pm row none = return not_found
  set_default_for client user pm row (some customer) =
      db.transaction (flip_default client user customer pm row.id) >> return set_default

  abbrev pub set_default_row :
      StripeClient W
      → (user pm : String) → Option StripePaymentMethod
      → Io W PaymentError CommandResult
  set_default_row client user pm none = return not_found
  set_default_row client user pm (some row) = do
    customer ← db.find_customer user
    set_default_for client user pm row (truthy customer)

  -- `SetDefaultPaymentMethodHandler.execute`
  unfoldable pub set_default_payment_method :
      Option (StripeClient W)
      → (user_id payment_method_id : String) → Io W PaymentError CommandResult
  unfolding find_first flip_default
  set_default_payment_method stripe user pm =
      with_client stripe
        (λ client. do row ← find_first db (is_owned user pm); set_default_row client user pm row)
