-- ===== src/PaymentMethods/CustomerKept.antt =====
-- Finding or creating a user's customer leaves the stored cards
-- (services/users/src/payment-methods/ensure-stripe-customer.ts).
use microservices_running.Prelude.{
  ℕ, ◌==◌, String, Bool, true, Option, none, some, length, keep, ◌≡◌,
}
use microservices_running.Effects.{returned}
use microservices_running.PaymentMethods.Table.{Prisma, IsPrisma}
use microservices_running.PaymentMethods.Invariant.{Keeps, Keeps-bind, Keeps-read, Keeps-if}
use microservices_running.PaymentMethods.Customers.{
  Customers, NewCustomer, StripeUser, ensure_stripe_customer, existing_or_new, new_customer,
  claimed, winner_of, truthy,
}
use microservices_running.PaymentMethods.Attach.{Attaching, is_other_card}

-- What the code relies on: neither the rows of the users nor Stripe writes the table of the cards,
-- and the `count` counts it.
pub record IsAttaching {W : Type 0} (db : Prisma W) (customers : Customers W)
    (attaching : Attaching W) : Type 0 where
  pub find_user_reads : (user : String) (w : W) → db.rows (customers.find_user user w).1 ≡ db.rows w
  pub claim_reads :
      (user customer : String) (w : W)
      → db.rows (customers.claim_customer user customer w).1 ≡ db.rows w
  pub create_remote :
      (body : NewCustomer) (w : W) → db.rows (customers.create_customer body w).1 ≡ db.rows w
  pub attach_remote :
      (pm customer : String) (w : W) → db.rows (attaching.attach pm customer w).1 ≡ db.rows w
  pub count_reads :
      (user pm : String) (w : W) → db.rows (attaching.count_others user pm w).1 ≡ db.rows w
  pub count_counts :
      (user pm : String) (w w' : W) (n : ℕ)
      → attaching.count_others user pm w ≡ (returned n, w')
      → n ≡ length (keep (is_other_card user pm) (db.rows w))

module _ {W : Type 0} (db : Prisma W) (laws : IsPrisma db) (user : String) (customers : Customers W)
    (attaching : Attaching W) (quiet : IsAttaching db customers attaching) where
  winner_of-Keeps : (o : Option String) → Keeps db laws user (winner_of customers o)
  winner_of-Keeps none = λ w one. one
  winner_of-Keeps (some c) = λ w one. one

  claimed-Keeps :
      (owner customer : String) (n : ℕ) → Keeps db laws user (claimed customers owner customer n)
  claimed-Keeps owner customer n =
      Keeps-if db laws user (n == 0) _ _
        (Keeps-bind db laws user (customers.find_user owner) _
          (Keeps-read db laws user (customers.find_user owner) (quiet.find_user_reads owner))
          (λ winner. winner_of-Keeps (truthy winner.stripe_customer_id)))
        (λ w one. one)

  existing_or_new-Keeps :
      (e2e_source : Bool) (owner email : String) (found : StripeUser) (o : Option String)
      → Keeps db laws user (existing_or_new customers e2e_source owner email found o)
  existing_or_new-Keeps e2e_source owner email found (some c) = λ w one. one
  existing_or_new-Keeps e2e_source owner email found none =
      let body = new_customer customers e2e_source owner email found in
      Keeps-bind db laws user (customers.create_customer body) _
        (Keeps-read db laws user (customers.create_customer body) (quiet.create_remote body))
        (λ c.
          Keeps-bind db laws user (customers.claim_customer owner c) _
            (Keeps-read db laws user (customers.claim_customer owner c) (quiet.claim_reads owner c))
            (claimed-Keeps owner c))

  pub ensure_stripe_customer-Keeps :
      (e2e_source : Bool) (owner email : String)
      → Keeps db laws user (ensure_stripe_customer customers true e2e_source owner email)
  unfolding ensure_stripe_customer
  ensure_stripe_customer-Keeps e2e_source owner email =
      Keeps-bind db laws user (customers.find_user owner) _
        (Keeps-read db laws user (customers.find_user owner) (quiet.find_user_reads owner))
        (λ found.
          existing_or_new-Keeps e2e_source owner email found (truthy found.stripe_customer_id))
