-- ===== src/PaymentMethods/Reconcile.antt =====
-- The reconciliation of a Stripe event (services/users/src/payment-methods/commands/
-- reconcile-payment-method.command.ts).
use microservices_running.Prelude.{
  String, Bool, true, false, Option, none, some, str_eq, not, if◌then◌else◌,
}
use microservices_running.Effects.{
  Outcome, returned, threw, Io, return, throw, attempt, ◌>>=◌, ◌>>◌,
}
use microservices_running.PaymentMethods.{
  StripePaymentMethod, PaymentError, is_resource_missing, is_method, is_owned, is_row,
  is_user_default, with_default,
}
use microservices_running.PaymentMethods.Table.{Prisma, find_first, update_many, delete}
use microservices_running.PaymentMethods.Stripe.{StripeMethod, StripeClient}
use microservices_running.PaymentMethods.Commands.{with_client}

-- The types of event that are reconciled, with the object that the code reads off the event.
pub data StripeEvent : Type 0 where
  payment_method_event : (payment_method_id : String) → StripeEvent
  customer_updated : (customer_id : String) → StripeEvent
  other_event : StripeEvent

-- The row that the upsert creates, and what it changes of a row that is there
-- (`mapStripePaymentMethodFields`).
abbrev pub new_row : (id user : String) → StripeMethod → StripePaymentMethod
new_row id user method = record {
  id = id;
  stripe_payment_method_id = method.id;
  user_id = user;
  is_default = false;
  deleted = false;
  card = method.card;
}

abbrev pub with_card : StripeMethod → StripePaymentMethod → StripePaymentMethod
with_card method row = record row { card = method.card }

-- Whether the local default is already what Stripe says.
abbrev pub matches_default : Option String → Option StripePaymentMethod → Bool
matches_default (some pm) (some row) = is_method pm row
matches_default none none = true
matches_default _ _ = false

module _ {W : Type 0} (db : Prisma W) (new_id : String) where
  abbrev pub delete_found : Option StripePaymentMethod → Io W PaymentError (Unit {0})
  delete_found none = return tt
  delete_found (some row) = delete db (is_row row.id)

  unfoldable pub soft_delete_if_present : String → Io W PaymentError (Unit {0})
  unfolding find_first delete
  soft_delete_if_present pm = do row ← find_first db (is_method pm); delete_found row

  abbrev pub write_unless_foreign :
      StripeMethod → (user : String) → Option StripePaymentMethod → Io W PaymentError (Unit {0})
  write_unless_foreign method user none =
      db.upsert method.id (new_row new_id user method) (with_card method)
  write_unless_foreign method user (some existing) =
      if not (str_eq existing.user_id user)
      then return tt
      else db.upsert method.id (new_row new_id user method) (with_card method)

  abbrev pub place : StripeMethod → Option String → Io W PaymentError (Unit {0})
  place method none = return tt
  place method (some user) = do
    existing ← find_first db (is_method method.id)
    write_unless_foreign method user existing

  abbrev pub reconcile_attached :
      String → StripeMethod → Option String → Io W PaymentError (Unit {0})
  reconcile_attached pm method none = soft_delete_if_present pm
  reconcile_attached pm method (some customer) = db.find_user_by_customer customer >>= place method

  abbrev pub reconcile_retrieved :
      String → Outcome PaymentError StripeMethod → Io W PaymentError (Unit {0})
  reconcile_retrieved pm (threw err) =
      if is_resource_missing err then soft_delete_if_present pm else throw err
  reconcile_retrieved pm (returned method) = reconcile_attached pm method method.customer

  unfoldable pub reconcile_payment_method : StripeClient W → String → Io W PaymentError (Unit {0})
  unfolding soft_delete_if_present is_resource_missing find_first
  reconcile_payment_method client pm = do
    retrieved ← attempt (client.retrieve_method pm)
    reconcile_retrieved pm retrieved

  abbrev pub mark_default : String → Option String → Io W PaymentError (Unit {0})
  mark_default user none = return tt
  mark_default user (some pm) = update_many db (is_owned user pm) (with_default true)

  abbrev pub sync_found :
      String → Option String → Option StripePaymentMethod → Io W PaymentError (Unit {0})
  sync_found user default current =
      if matches_default default current
      then return tt
      else (update_many db (is_user_default user) (with_default false) >> mark_default user default)

  abbrev pub sync_customer : String → Option (Option String) → Io W PaymentError (Unit {0})
  sync_customer user none = return tt
  sync_customer user (some default) = do
    current ← find_first db (is_user_default user)
    sync_found user default current

  -- The body of the transaction of `reconcileDefault`.
  unfoldable pub sync_default :
      StripeClient W → (user customer : String) → Io W PaymentError (Unit {0})
  unfolding find_first update_many
  sync_default client user customer = do
    db.lock_user_row user
    retrieved ← client.retrieve_customer customer
    sync_customer user retrieved

  abbrev pub reconcile_user : StripeClient W → String → Option String → Io W PaymentError (Unit {0})
  reconcile_user client customer none = return tt
  reconcile_user client customer (some user) = db.transaction (sync_default client user customer)

  unfoldable pub reconcile_default : StripeClient W → String → Io W PaymentError (Unit {0})
  unfolding sync_default
  reconcile_default client customer = do
    user ← db.find_user_by_customer customer
    reconcile_user client customer user

  abbrev pub reconcile_event : StripeEvent → StripeClient W → Io W PaymentError (Unit {0})
  reconcile_event (payment_method_event pm) client = reconcile_payment_method client pm
  reconcile_event (customer_updated customer) client = reconcile_default client customer
  reconcile_event other_event client = return tt

  -- `ReconcilePaymentMethodHandler.execute`
  unfoldable pub reconcile : Option (StripeClient W) → StripeEvent → Io W PaymentError (Unit {0})
  unfolding reconcile_payment_method reconcile_default
  reconcile stripe event = with_client db stripe (reconcile_event event)
