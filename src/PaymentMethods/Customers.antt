-- ===== src/PaymentMethods/Customers.antt =====
-- A user's customer at Stripe (services/users/src/payment-methods/ensure-stripe-customer.ts). What
-- other requests do meanwhile happens in the steps of the parameters.
use microservices_running.Prelude.{
  ℕ, ◌==◌, String, Bool, true, false, Option, none, some, str_eq, if◌then◌else◌, ◌≡◌, refl, sym, ap,
  ◌∙◌, subst, ◌⊎◌, inl, inr, Bool-cases, Option-cases, arith,
}
use microservices_running.Effects.{
  returned, Io, return, throw, ◌>>=◌, continue-returned, returned-injective,
}
use microservices_running.PaymentMethods.{PaymentError, stripe_unavailable, failure}

pub record StripeUser : Type 0 where
  pub id : String
  pub email : String
  pub cognito_sub : Option String
  pub stripe_customer_id : Option String

-- The body of `customers.create`; its idempotency key is made of the user's id.
pub record NewCustomer : Type 0 where
  pub email : String
  pub user_id : String
  pub cognito_sub : Option String
  pub e2e_source : Bool

-- The rows of the users at the primary, and Stripe's `customers.create`. `claim_customer` is the
-- `updateMany` on a user without a customer, and answers how many rows it matched; `stored` is the
-- column that it writes.
pub record Customers (W : Type 0) : Type 0 where
  pub stored : (user_id : String) → W → Option String
  pub find_user : (user_id : String) → Io W PaymentError StripeUser
  pub claim_customer : (user_id customer_id : String) → Io W PaymentError ℕ
  pub create_customer : NewCustomer → Io W PaymentError String

abbrev pub truthy : Option String → Option String
truthy none = none
truthy (some text) = if str_eq text "" then none else some text

module _ {W : Type 0} (customers : Customers W) where
  abbrev pub new_customer :
      (e2e_source : Bool) → (user_id email : String) → StripeUser → NewCustomer
  new_customer e2e_source user_id email user = record {
    email = email;
    user_id = user_id;
    cognito_sub = truthy user.cognito_sub;
    e2e_source = e2e_source;
  }

  abbrev pub winner_of : Option String → Io W PaymentError String
  winner_of none = throw (failure "Lost the stripeCustomerId race but the winner has none")
  winner_of (some customer) = return customer

  abbrev pub claimed : (user_id customer : String) → ℕ → Io W PaymentError String
  claimed user_id customer count =
      if count == 0
      then (customers.find_user user_id >>= λ winner. winner_of (truthy winner.stripe_customer_id))
      else return customer

  abbrev pub existing_or_new :
      (e2e_source : Bool)
      → (user_id email : String) → StripeUser
      → Option String
      → Io W PaymentError String
  existing_or_new e2e_source user_id email user (some customer) = return customer
  existing_or_new e2e_source user_id email user none = do
    customer ← customers.create_customer (new_customer e2e_source user_id email user)
    count ← customers.claim_customer user_id customer
    claimed user_id customer count

  abbrev pub ensured : (e2e_source : Bool) → (user_id email : String) → Io W PaymentError String
  ensured e2e_source user_id email = do
    user ← customers.find_user user_id
    existing_or_new e2e_source user_id email user (truthy user.stripe_customer_id)

  -- `configured` tells whether the holder has a client.
  unfoldable pub ensure_stripe_customer :
      (configured e2e_source : Bool) → (user_id email : String) → Io W PaymentError String
  ensure_stripe_customer false e2e_source user_id email = throw stripe_unavailable
  ensure_stripe_customer true e2e_source user_id email = ensured e2e_source user_id email

-- What the code relies on: the user that is found has the customer that is stored when the answer
-- comes, and a claim that matched a row has stored its customer.
pub record IsCustomers {W : Type 0} (customers : Customers W) : Type 0 where
  pub find_stored :
      (user_id : String) (w w' : W) (user : StripeUser)
      → customers.find_user user_id w ≡ (returned user, w')
      → customers.stored user_id w' ≡ user.stripe_customer_id
  pub claim_stored :
      (user_id customer : String) (w w' : W) (count : ℕ)
      → customers.claim_customer user_id customer w ≡ (returned count, w')
      → (count == 0) ≡ false
      → customers.stored user_id w' ≡ some customer

truthy-some : (o : Option String) (text : String) → truthy o ≡ some text → o ≡ some text
truthy-some none text same = ground (arith, same)
truthy-some (some t) text same = ground (arith, same)

truthy-cases : (stored o : Option String) → stored ≡ o → (truthy o ≡ none) ⊎ (stored ≡ truthy o)
truthy-cases stored o same = elim (Option-cases (truthy o)) [
  | inl absent ↦ inl absent
  | inr (text, present) ↦ inr (same ∙ truthy-some o text present ∙ sym present)
]

module _ {W : Type 0} (customers : Customers W) (laws : IsCustomers customers) where
  winner-stored :
      (o : Option String) (customer user_id : String) (w w' : W)
      → winner_of customers o w ≡ (returned customer, w')
      → (o ≡ some customer) × (w ≡ w')
  winner-stored none customer user_id w w' same = ground (arith, same)
  winner-stored (some c) customer user_id w w' same =
      (ap some (returned-injective (returned c, w) c customer w w' refl same), ap (λ r. r.1) same)

  found-stored :
      (customer user_id : String) (w w' : W)
      → (customers.find_user user_id >>= λ winner.
            winner_of customers (truthy winner.stripe_customer_id))
          w
        ≡ (returned customer, w')
      → customers.stored user_id w' ≡ some customer
  found-stored customer user_id w w' same =
      let (winner, w₁, found, rest) =
        continue-returned (customers.find_user user_id w) _ customer w' same in
      let (is_winner, moved) =
        winner-stored (truthy winner.stripe_customer_id) customer user_id w₁ w' rest in
      subst (λ v. customers.stored user_id v ≡ some customer) moved
        (laws.find_stored user_id w w₁ winner found
          ∙ truthy-some winner.stripe_customer_id customer is_winner)

  claimed-stored :
      (customer answer user_id : String) (count : ℕ) (v w w' : W)
      → customers.claim_customer user_id customer v ≡ (returned count, w)
      → claimed customers user_id customer count w ≡ (returned answer, w')
      → customers.stored user_id w' ≡ some answer
  claimed-stored customer answer user_id count v w w' claim same =
      let lost = customers.find_user user_id >>= λ winner.
      winner_of customers (truthy winner.stripe_customer_id) in
      let branch = λ (b : Bool). (if b then lost else return customer) w in
      elim (Bool-cases (count == 0)) [
        | inl none_matched ↦ found-stored answer user_id w w' (sym (ap branch none_matched) ∙ same)
        | inr matched ↦
            let mine = sym (ap branch matched) ∙ same in
            ap (customers.stored user_id) (sym (ap (λ r. r.1) mine))
            ∙ laws.claim_stored user_id customer v w count claim matched
            ∙ ap some (returned-injective (returned customer, w) customer answer w w' refl mine)
      ]

  existing-stored :
      (e2e_source : Bool) (user_id email answer : String) (user : StripeUser) (o : Option String)
      (w w' : W)
      → (o ≡ none) ⊎ (customers.stored user_id w ≡ o)
      → existing_or_new customers e2e_source user_id email user o w ≡ (returned answer, w')
      → customers.stored user_id w' ≡ some answer
  existing-stored e2e_source user_id email answer user (some c) w w' (inl absent) same =
      ground (arith, absent)
  existing-stored e2e_source user_id email answer user (some c) w w' (inr here) same =
      ap (customers.stored user_id) (sym (ap (λ r. r.1) same))
      ∙ here
      ∙ ap some (returned-injective (returned c, w) c answer w w' refl same)
  existing-stored e2e_source user_id email answer user none w w' here same =
      let body = new_customer customers e2e_source user_id email user in
      let (c, w₁, _, rest) =
        continue-returned (customers.create_customer body w) _ answer w' same in
      let (n, w₂, claim, rest') =
        continue-returned (customers.claim_customer user_id c w₁) _ answer w' rest in
      claimed-stored c answer user_id n w₁ w₂ w' claim rest'

  -- When a customer is answered, it is the one that is stored for the user in the world that is left,
  -- whichever customer another request stored while this one waited for Stripe or for the rows.
  pub ensure_stripe_customer-stored :
      (configured e2e_source : Bool) (user_id email answer : String) (w w' : W)
      → ensure_stripe_customer customers configured e2e_source user_id email w
        ≡ (returned answer, w')
      → customers.stored user_id w' ≡ some answer
  unfolding ensure_stripe_customer
  ensure_stripe_customer-stored false e2e_source user_id email answer w w' same =
      ground (arith, same)
  ensure_stripe_customer-stored true e2e_source user_id email answer w w' same =
      let (user, w₁, found, rest) =
        continue-returned (customers.find_user user_id w) _ answer w' same in
      existing-stored e2e_source user_id email answer user (truthy user.stripe_customer_id) w₁ w'
        (truthy-cases (customers.stored user_id w₁) user.stripe_customer_id
          (laws.find_stored user_id w w₁ user found))
        rest
