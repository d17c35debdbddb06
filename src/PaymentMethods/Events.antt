-- ===== src/PaymentMethods/Events.antt =====
-- The reconciliation of a Stripe event keeps "at most one default card"
-- (services/users/src/payment-methods/commands).
use microservices_running.Prelude.{
  ◌≤◌, String, Bool, true, false, Option, none, some, [], ◌∷◌, str_eq, not, ◌&&◌, keep, length,
  if◌then◌else◌, ◌≡◌, refl, sym, subst, arith,
}
use microservices_running.Effects.{Outcome, returned, threw, Io, attempt}
use microservices_running.PaymentMethods.{
  StripePaymentMethod, PaymentError, is_owned, is_row, is_method, is_user_default, with_default,
  is_resource_missing,
}
use microservices_running.PaymentMethods.Table.{
  Prisma, IsPrisma, changed, live, find_first, update_many,
}
use microservices_running.PaymentMethods.Stripe.{StripeClient, IsRemote, StripeMethod}
use microservices_running.PaymentMethods.Reconcile.{
  StripeEvent, payment_method_event, customer_updated, other_event, delete_found,
  soft_delete_if_present, write_unless_foreign, place, reconcile_attached, reconcile_retrieved,
  reconcile_payment_method, mark_default, sync_found, sync_customer, sync_default, reconcile_user,
  reconcile_default, reconcile_event, matches_default,
}
use microservices_running.PaymentMethods.Defaults.{
  Key, on_key, on_key_not_of, IsKeyOf, cleared, cleared-HasOneDefault, flipped-HasOneDefault,
}
use microservices_running.PaymentMethods.Steps.{
  Rows, After, After-continue, After-weaken, After-transaction,
}
use microservices_running.PaymentMethods.SetDefault.{Becomes, After-update_many}
use microservices_running.PaymentMethods.Invariant.{
  One, Keeps, Keeps-bind, Keeps-read, Keeps-attempt, Keeps-find, Keeps-delete, Keeps-upsert,
  Keeps-if,
}

-- The rows of one user and one method.
abbrev owned_key : (user pm : String) → Key
owned_key user pm id method owner = str_eq owner user && str_eq method pm

owned_key-not_of :
    (user pm : String) (rows : Rows)
    → length (keep (on_key_not_of (owned_key user pm) user) rows) ≡ 0
owned_key-not_of user pm [] = ground arith
owned_key-not_of user pm (x ∷ xs) = ground (arith, owned_key-not_of user pm xs)

keep-owned_key :
    (user pm : String) (rows : Rows)
    → length (keep (on_key (owned_key user pm)) rows) ≤ length (keep (is_method pm) rows)
keep-owned_key user pm [] = ground arith
keep-owned_key user pm (x ∷ xs) = ground (arith, keep-owned_key user pm xs)

module _ {W : Type 0} (db : Prisma W) (laws : IsPrisma db) (other : String) where
  IsKeyOf-owned_key : (user pm : String) (w : W) → IsKeyOf user (owned_key user pm) (db.rows w)
  IsKeyOf-owned_key user pm w = (
    omega (arith, keep-owned_key user pm (db.rows w), laws.unique_method pm w),
    owned_key-not_of user pm (db.rows w),
  )

  module _ (new_id : String) where
    delete_found-Keeps :
        (row : Option StripePaymentMethod) → Keeps db laws other (delete_found db new_id row)
    delete_found-Keeps none = λ w one. one
    delete_found-Keeps (some row) = Keeps-delete db laws other (is_row row.id)

    soft_delete-Keeps : (pm : String) → Keeps db laws other (soft_delete_if_present db new_id pm)
    unfolding soft_delete_if_present
    soft_delete-Keeps pm =
        Keeps-bind db laws other (find_first db (is_method pm)) _
          (Keeps-find db laws other (is_method pm)) delete_found-Keeps

    write_unless_foreign-Keeps :
        (method : StripeMethod) (user : String) (row : Option StripePaymentMethod)
        → Keeps db laws other (write_unless_foreign db new_id method user row)
    write_unless_foreign-Keeps method user none = Keeps-upsert db laws other new_id user method
    write_unless_foreign-Keeps method user (some row) =
        Keeps-if db laws other (not (str_eq row.user_id user)) _ _ (λ w one. one)
          (Keeps-upsert db laws other new_id user method)

    place-Keeps :
        (method : StripeMethod) (user : Option String)
        → Keeps db laws other (place db new_id method user)
    place-Keeps method none = λ w one. one
    place-Keeps method (some user) =
        Keeps-bind db laws other (find_first db (is_method method.id)) _
          (Keeps-find db laws other (is_method method.id)) (write_unless_foreign-Keeps method user)

    attached-Keeps :
        (pm : String) (method : StripeMethod) (customer : Option String)
        → Keeps db laws other (reconcile_attached db new_id pm method customer)
    attached-Keeps pm method none = soft_delete-Keeps pm
    attached-Keeps pm method (some customer) =
        Keeps-bind db laws other (db.find_user_by_customer customer) _
          (Keeps-read db laws other (db.find_user_by_customer customer) (laws.user_reads customer))
          (place-Keeps method)

    retrieved-Keeps :
        (pm : String) (answer : Outcome PaymentError StripeMethod)
        → Keeps db laws other (reconcile_retrieved db new_id pm answer)
    retrieved-Keeps pm (threw err) =
        Keeps-if db laws other (is_resource_missing err) _ _ (soft_delete-Keeps pm) (λ w one. one)
    retrieved-Keeps pm (returned method) = attached-Keeps pm method method.customer

    -- A synchronization keeps the invariant when it returns; when it throws, it may have cleared
    -- the defaults, which the transaction undoes.
    abbrev Syncs : {A : Type 0} → Io W PaymentError A → Type 0
    Syncs m =
        (w : W)
        → One db laws other (db.rows w)
        → After db (m w) (λ _. One db laws other) (λ _. Unit)

    Syncs-if :
        {A : Type 0} (b : Bool) (m m' : Io W PaymentError A)
        → Syncs m
        → Syncs m'
        → Syncs (if b then m else m')
    Syncs-if true m m' kept kept' = kept
    Syncs-if false m m' kept kept' = kept'

    quiet :
        {A : Type 0} (o : Outcome PaymentError A × W)
        → After db o (λ _. One db laws other) (One db laws other)
        → After db o (λ _. One db laws other) (λ _. Unit)
    quiet o kept =
        After-weaken db (λ _. One db laws other) (λ _. One db laws other) (One db laws other)
          (λ _. Unit) o kept (λ _ r one. one) (λ r one. tt)

    -- The second statement starts from the cleared rows of `w`.
    mark_default-After :
        (user : String) (default : Option String) (w w' : W)
        → One db laws other (db.rows w)
        → db.rows w' ≡ cleared user (db.rows w)
        → After db (mark_default db new_id user default w') (λ _. One db laws other) (λ _. Unit)
    mark_default-After user none w w' one same =
        subst (One db laws other) (sym same) (cleared-HasOneDefault user other (db.rows w) one)
    mark_default-After user (some pm) w w' one same =
        After-update_many db laws (One db laws other) (λ _. Unit) (is_owned user pm)
          (with_default true) w'
          (subst (λ r. One db laws other (changed (live (is_owned user pm)) (with_default true) r))
            (sym same)
            (flipped-HasOneDefault user other (owned_key user pm) (db.rows w)
              (IsKeyOf-owned_key user pm w) one))
          tt

    sync_found-Syncs :
        (user : String) (default : Option String) (current : Option StripePaymentMethod)
        → Syncs (sync_found db new_id user default current)
    sync_found-Syncs user default current =
        Syncs-if (matches_default default current) _ _ (λ w one. one)
          (λ w one.
            After-continue db (λ _ r. r ≡ cleared user (db.rows w)) (λ _. One db laws other)
              (λ _. Unit) (update_many db (is_user_default user) (with_default false) w) _
              (After-update_many db laws (Becomes (cleared user (db.rows w))) (λ _. Unit)
                (is_user_default user) (with_default false) w refl tt)
              (λ _ w' same. mark_default-After user default w w' one same))

    sync_customer-Syncs :
        (user : String) (retrieved : Option (Option String))
        → Syncs (sync_customer db new_id user retrieved)
    sync_customer-Syncs user none = λ w one. one
    sync_customer-Syncs user (some default) = λ w one.
        After-continue db (λ _. One db laws other) (λ _. One db laws other) (λ _. Unit)
          (find_first db (is_user_default user) w) _
          (quiet _ (Keeps-find db laws other (is_user_default user) w one))
          (sync_found-Syncs user default)

    module _ (client : StripeClient W) (remote : IsRemote db client) where
      method-Keeps :
          (pm : String) → Keeps db laws other (reconcile_payment_method db new_id client pm)
      unfolding reconcile_payment_method
      method-Keeps pm =
          Keeps-bind db laws other (attempt (client.retrieve_method pm)) _
            (Keeps-attempt db laws other (client.retrieve_method pm)
              (remote.retrieve_method_remote pm))
            (retrieved-Keeps pm)

      sync_default-Syncs :
          (user customer : String) → Syncs (sync_default db new_id client user customer)
      unfolding sync_default
      sync_default-Syncs user customer w one =
          After-continue db (λ _. One db laws other) (λ _. One db laws other) (λ _. Unit)
            (db.lock_user_row user w) _
            (quiet _
              (Keeps-read db laws other (db.lock_user_row user) (laws.lock_reads user) w one))
            (λ _ w₁ one₁.
              After-continue db (λ _. One db laws other) (λ _. One db laws other) (λ _. Unit)
                (client.retrieve_customer customer w₁) _
                (quiet _ (
                  Keeps-read db laws other (client.retrieve_customer customer)
                    (remote.retrieve_customer_remote customer) w₁ one₁))
                (sync_customer-Syncs user))

      reconcile_user-Keeps :
          (customer : String) (user : Option String)
          → Keeps db laws other (reconcile_user db new_id client customer user)
      reconcile_user-Keeps customer none = λ w one. one
      reconcile_user-Keeps customer (some user) = λ w one.
          After-weaken db (λ _. One db laws other) (λ _. One db laws other) (Becomes (db.rows w))
            (One db laws other) (db.transaction (sync_default db new_id client user customer) w)
            (After-transaction db laws (One db laws other) (λ _. Unit)
              (sync_default db new_id client user customer) w
              (sync_default-Syncs user customer w one))
            (λ _ r now. now) (λ r same. subst (One db laws other) (sym same) one)

      pub event-Keeps :
          (event : StripeEvent) → Keeps db laws other (reconcile_event db new_id event client)
      unfolding reconcile_default
      event-Keeps (payment_method_event pm) = method-Keeps pm
      event-Keeps (customer_updated customer) =
          Keeps-bind db laws other (db.find_user_by_customer customer) _
            (Keeps-read db laws other (db.find_user_by_customer customer)
              (laws.user_reads customer))
            (reconcile_user-Keeps customer)
      event-Keeps other_event = λ w one. one
