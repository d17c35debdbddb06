-- ===== src/PaymentMethods/Attached.antt =====
-- Attaching a card and "at most one default card"
-- (services/users/src/payment-methods/commands/attach-payment-method.command.ts).
mod Examples
use microservices_running.Prelude.{
  ℕ, zero, suc, ◌==◌, String, Bool, true, false, Option, none, some, length, keep, if◌then◌else◌,
  ◌≡◌, refl, sym, subst, arith,
}
use microservices_running.Effects.{Outcome, returned, threw, Io, continue, attempt}
use microservices_running.PaymentMethods.{
  PaymentError, stripe_invalid_request, stripe_card_error, stripe_unavailable, p2025,
  record_not_found, payment_method_declined, payment_method_rejected, failure,
}
use microservices_running.PaymentMethods.Table.{Prisma, IsPrisma, upserted}
use microservices_running.PaymentMethods.Stripe.{StripeClient, IsRemote, StripeMethod}
use microservices_running.PaymentMethods.Defaults.{HasOneDefault}
use microservices_running.PaymentMethods.Steps.{
  Rows, After, After-continue, After-read, After-write, After-weaken, After-transaction,
}
use microservices_running.PaymentMethods.FirstCard.{upserted_first-HasOneDefault}
use microservices_running.PaymentMethods.Invariant.{
  One, Keeps, Keeps-bind, Keeps-read, Keeps-upsert, Keeps-if, Keeps-attempt,
}
use microservices_running.PaymentMethods.Reconcile.{new_row, with_card}
use microservices_running.PaymentMethods.Customers.{Customers, ensure_stripe_customer}
use microservices_running.PaymentMethods.CustomerKept.{IsAttaching, ensure_stripe_customer-Keeps}
use microservices_running.PaymentMethods.Attach.{
  Attaching, is_other_card, is_customer, first_row, with_first, classified, owned_or_throw,
  attached_or_owned, attach_or_verify_ownership, write_card, place_card, classified_attach,
  attach_configured, attach_payment_method,
}

suc_zero : (n : ℕ) → (suc n == 0) ≡ false
suc_zero n = ground arith

module _ {W : Type 0} (db : Prisma W) (laws : IsPrisma db) (user : String) where
  Keeps-transaction :
      (body : Io W PaymentError (Unit {0}))
      → Keeps db laws user body
      → Keeps db laws user (db.transaction body)
  Keeps-transaction body kept w one =
      After-weaken db (λ _. One db laws user) (λ _. One db laws user) (λ r. r ≡ db.rows w)
        (One db laws user) (db.transaction body w)
        (After-transaction db laws (One db laws user) (One db laws user) body w (kept w one))
        (λ _ r now. now) (λ r same. subst (One db laws user) (sym same) one)

  After-classified :
      (o : Outcome PaymentError StripeMethod × W)
      → After db o (λ _. One db laws user) (One db laws user)
      → After db (classified o) (λ _. One db laws user) (One db laws user)
  After-classified (returned method, w) now = now
  After-classified (threw stripe_card_error, w) now = now
  After-classified (threw (stripe_invalid_request code says), w) now = now
  After-classified (threw stripe_unavailable, w) now = now
  After-classified (threw p2025, w) now = now
  After-classified (threw record_not_found, w) now = now
  After-classified (threw payment_method_declined, w) now = now
  After-classified (threw payment_method_rejected, w) now = now
  After-classified (threw (failure message), w) now = now

  -- The first card, when the user has no other live card.
  Keeps-upsert_first :
      (id : String) (method : StripeMethod) (w : W)
      → length (keep (is_other_card user method.id) (db.rows w)) ≡ 0
      → One db laws user (db.rows w)
      → After db
          (db.upsert method.id (first_row id user method) (with_first method) w)
          (λ _. One db laws user)
          (One db laws user)
  Keeps-upsert_first id method w alone one =
      After-write db (One db laws user) (One db laws user)
        (db.upsert method.id (first_row id user method) (with_first method) w) (db.rows w)
        (upserted method.id (first_row id user method) (with_first method) (db.rows w))
        (laws.upsert_writes method.id (first_row id user method) (with_first method) w) one
        (upserted_first-HasOneDefault user id user method (db.rows w)
          (laws.unique_method method.id w) alone)

  module _ (customers : Customers W) (attaching : Attaching W)
      (quiet : IsAttaching db customers attaching) (client : StripeClient W)
      (remote : IsRemote db client) where
    owned_or_throw-Keeps :
        (customer : String) (err : PaymentError) (method : StripeMethod)
        → Keeps db laws user (owned_or_throw db customers attaching client customer err method)
    owned_or_throw-Keeps customer err method =
        Keeps-if db laws user (is_customer customer method.customer) _ _ (λ w one. one)
          (λ w one. one)

    attached_or_owned-Keeps :
        (pm customer : String) (o : Outcome PaymentError StripeMethod)
        → Keeps db laws user (attached_or_owned db customers attaching client pm customer o)
    attached_or_owned-Keeps pm customer (returned method) = λ w one. one
    attached_or_owned-Keeps pm customer (threw (stripe_invalid_request code says)) =
        Keeps-bind db laws user (client.retrieve_method pm) _
          (Keeps-read db laws user (client.retrieve_method pm) (remote.retrieve_method_remote pm))
          (owned_or_throw-Keeps customer (stripe_invalid_request code says))
    attached_or_owned-Keeps pm customer (threw stripe_unavailable) = λ w one. one
    attached_or_owned-Keeps pm customer (threw p2025) = λ w one. one
    attached_or_owned-Keeps pm customer (threw record_not_found) = λ w one. one
    attached_or_owned-Keeps pm customer (threw stripe_card_error) = λ w one. one
    attached_or_owned-Keeps pm customer (threw payment_method_declined) = λ w one. one
    attached_or_owned-Keeps pm customer (threw payment_method_rejected) = λ w one. one
    attached_or_owned-Keeps pm customer (threw (failure message)) = λ w one. one

    classified_attach-Keeps :
        (pm customer : String)
        → Keeps db laws user (classified_attach db customers attaching client pm customer)
    unfolding attach_or_verify_ownership
    classified_attach-Keeps pm customer w one =
        After-classified (attach_or_verify_ownership db customers attaching client pm customer w) (
          Keeps-bind db laws user (attempt (attaching.attach pm customer)) _
            (Keeps-attempt db laws user (attaching.attach pm customer)
              (quiet.attach_remote pm customer))
            (attached_or_owned-Keeps pm customer) w one)

    -- With the count that was read.
    write_card-One :
        (new_id customer : String) (method : StripeMethod) (others : ℕ) (w : W)
        → others ≡ length (keep (is_other_card user method.id) (db.rows w))
        → One db laws user (db.rows w)
        → After db
            (write_card db customers attaching client new_id user customer method others w)
            (λ _. One db laws user)
            (One db laws user)
    write_card-One new_id customer method zero w counted one =
        let Same = λ (r : Rows). r ≡ db.rows w in
        After-continue db (λ _. Same) (λ _. One db laws user) (One db laws user)
          (client.update_default customer method.id w) _
          (After-read db Same (One db laws user) (client.update_default customer method.id w)
            (db.rows w) (remote.update_default_remote customer method.id w) refl one)
          (λ _ w' same.
            Keeps-upsert_first new_id method w'
              (subst (λ r. length (keep (is_other_card user method.id) r) ≡ 0) (sym same)
                (sym counted))
              (subst (One db laws user) (sym same) one))
    write_card-One new_id customer method (suc n) w counted one =
        let first = λ (v : W).
          (continue (client.update_default customer method.id v)
            (λ _. db.upsert method.id (first_row new_id user method) (with_first method))) in
        let next = db.upsert method.id (new_row new_id user method) (with_card method) in
        subst
          (λ b. After db ((if b then first else next) w) (λ _. One db laws user) (One db laws user))
          (sym (suc_zero n)) (Keeps-upsert db laws user new_id user method w one)

    -- What the count leaves, from what it answers.
    After-count :
        (pm : String) (old : Rows) (o : Outcome PaymentError ℕ × W)
        → db.rows o.1 ≡ old
        → ((w' : W) (n : ℕ) → o ≡ (returned n, w') → n ≡ length (keep (is_other_card user pm) old))
        → One db laws user old
        → After db o
            (λ n r. (n ≡ length (keep (is_other_card user pm) r)) × One db laws user r)
            (One db laws user)
    After-count pm old (returned n, w) same counts one =
        subst (λ r. (n ≡ length (keep (is_other_card user pm) r)) × One db laws user r) (sym same)
          (counts w n refl, one)
    After-count pm old (threw e, w) same counts one = subst (One db laws user) (sym same) one

    place_card-Keeps :
        (new_id customer : String) (method : StripeMethod)
        → Keeps db laws user (place_card db customers attaching client new_id user customer method)
    unfolding place_card
    place_card-Keeps new_id customer method =
        Keeps-bind db laws user (db.lock_user_row user) _
          (Keeps-read db laws user (db.lock_user_row user) (laws.lock_reads user))
          (λ _ w one.
            After-continue db _ (λ _. One db laws user) (One db laws user)
              (attaching.count_others user method.id w) _
              (After-count method.id (db.rows w) (attaching.count_others user method.id w)
                (quiet.count_reads user method.id w)
                (λ w' n same. quiet.count_counts user method.id w w' n same) one)
              (λ n w' counted. write_card-One new_id customer method n w' counted.0 counted.1))

    attach_configured-Keeps :
        (new_id : String) (e2e_source : Bool) (pm : String)
        → Keeps db laws user
            (attach_configured db customers attaching client new_id e2e_source user pm)
    attach_configured-Keeps new_id e2e_source pm =
        Keeps-bind db laws user (customers.find_user user) _
          (Keeps-read db laws user (customers.find_user user) (quiet.find_user_reads user))
          (λ found.
            Keeps-bind db laws user
              (ensure_stripe_customer customers true e2e_source user found.email) _
              (ensure_stripe_customer-Keeps db laws user customers attaching quiet e2e_source user
                found.email)
              (λ customer.
                Keeps-bind db laws user
                  (classified_attach db customers attaching client pm customer) _
                  (classified_attach-Keeps pm customer)
                  (λ method.
                    Keeps-bind db laws user
                      (db.transaction
                        (place_card db customers attaching client new_id user customer method))
                      _
                      (Keeps-transaction
                        (place_card db customers attaching client new_id user customer method)
                        (place_card-Keeps new_id customer method))
                      (λ _ w one. one))))

  module _ (customers : Customers W) (attaching : Attaching W)
      (quiet : IsAttaching db customers attaching) where
    -- Attaching a card leaves the user who asks for it with at most one live default card, if there
    -- was at most one, whether the command answers or throws, whichever call of it failed, and
    -- whether or not Stripe is configured.
    pub attach_payment_method-HasOneDefault :
        (stripe : Option (StripeClient W)) (new_id : String) (e2e_source : Bool) (pm : String)
        (w : W)
        → ((client : StripeClient W) → stripe ≡ some client → IsRemote db client)
        → HasOneDefault user (db.rows w)
        → After db
            (attach_payment_method db customers attaching stripe new_id e2e_source user pm w)
            (λ _. HasOneDefault user)
            (HasOneDefault user)
    unfolding attach_payment_method
    attach_payment_method-HasOneDefault none new_id e2e_source pm w remote one = one
    attach_payment_method-HasOneDefault (some client) new_id e2e_source pm w remote one =
        attach_configured-Keeps customers attaching quiet client (remote client refl) new_id
          e2e_source pm w one
