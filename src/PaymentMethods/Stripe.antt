-- ===== src/PaymentMethods/Stripe.antt =====
-- What services/users/src/payment-methods calls of Stripe.
use microservices_running.Prelude.{String, Option, ◌≡◌}
use microservices_running.Effects.{Io}
use microservices_running.PaymentMethods.{PaymentError}
use microservices_running.PaymentMethods.Table.{Prisma}

-- Stripe's PaymentMethod: the customer that it is attached to, and its card.
pub record StripeMethod : Type 0 where
  pub id : String
  pub customer : Option String
  pub card : String

-- `retrieve_customer` answers none for a deleted customer, else the default payment method.
pub record StripeClient (W : Type 0) : Type 0 where
  pub detach : String → Io W PaymentError (Unit {0})
  pub update_default : (customer_id payment_method_id : String) → Io W PaymentError (Unit {0})
  pub retrieve_method : String → Io W PaymentError StripeMethod
  pub retrieve_customer : String → Io W PaymentError (Option (Option String))

-- A call of Stripe does not write the local table.
pub record IsRemote {W : Type 0} (db : Prisma W) (client : StripeClient W) : Type 0 where
  pub detach_remote : (pm : String) (w : W) → db.rows (client.detach pm w).1 ≡ db.rows w
  pub update_default_remote :
      (customer pm : String) (w : W) → db.rows (client.update_default customer pm w).1 ≡ db.rows w
  pub retrieve_method_remote :
      (pm : String) (w : W) → db.rows (client.retrieve_method pm w).1 ≡ db.rows w
  pub retrieve_customer_remote :
      (id : String) (w : W) → db.rows (client.retrieve_customer id w).1 ≡ db.rows w
