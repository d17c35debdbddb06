-- ===== src/PaymentMethods/Attached/Examples.antt =====
-- The theorems on attaching, with a user whose customer another request stores first, and with a
-- table of one row.
use microservices_running.Prelude.{
  ℕ, ◌==◌, String, true, false, Option, none, some, [], ◌∷◌, length, keep, ◌≡◌, refl, sym, ◌∙◌, ap,
  subst, arith,
}
use mathlib.Core.Option.{some-injective}
use microservices_running.PaymentMethods.Stripe.{IsRemote}
use microservices_running.Effects.{Outcome, returned, threw}
use microservices_running.PaymentMethods.{PaymentError}
use microservices_running.PaymentMethods.Defaults.{HasOneDefault}
use microservices_running.PaymentMethods.Steps.{After}
use microservices_running.PaymentMethods.Customers.{
  StripeUser, Customers, IsCustomers, ensure_stripe_customer, ensure_stripe_customer-stored,
}
use microservices_running.PaymentMethods.Attach.{Attaching, is_other_card, attach_payment_method}
use microservices_running.PaymentMethods.CustomerKept.{IsAttaching}
use microservices_running.PaymentMethods.Attached.{attach_payment_method-HasOneDefault}
use microservices_running.PaymentMethods.Examples.{
  World, table, table-IsPrisma, stripe, stripe-IsRemote, card,
}

abbrev ana : Option String → StripeUser
ana customer = record {
  id = "ana";
  email = "ana@example.com";
  cognito_sub = some "sub-1";
  stripe_customer_id = customer;
}

abbrev claim : String → Option String → Outcome PaymentError ℕ × Option String
claim customer none = (returned 1, some customer)
claim customer (some stored) = (returned 0, some stored)

-- The only user's customer is the world; while Stripe creates one, another request stores its own.
abbrev raced : Customers (Option String)
raced = record {
  stored = λ _ w. w;
  find_user = λ _ w. (returned (ana w), w);
  claim_customer = λ _ customer w. claim customer w;
  create_customer = λ body w. (returned "cus_mine", some "cus_theirs");
}

abbrev customer_of : Outcome PaymentError StripeUser × Option String → Option String
customer_of (returned user, w) = user.stripe_customer_id
customer_of (threw e, w) = none

abbrev matched : Outcome PaymentError ℕ × Option String → ℕ
matched (returned n, w) = n
matched (threw e, w) = 0

find_stored :
    (w w' : Option String) (user : StripeUser)
    → raced.find_user "ana" w ≡ (returned user, w')
    → w' ≡ user.stripe_customer_id
find_stored w w' user same = sym (ap (λ r. r.1) same) ∙ ap customer_of same

claim_stored :
    (customer : String) (w w' : Option String) (count : ℕ)
    → claim customer w ≡ (returned count, w')
    → (count == 0) ≡ false
    → w' ≡ some customer
claim_stored customer none w' count same some_matched = sym (ap (λ r. r.1) same)
claim_stored customer (some stored) w' count same some_matched =
    ground (arith, ap matched same, some_matched)

raced-IsCustomers : IsCustomers raced
raced-IsCustomers = record {
  find_stored = λ _ w w' user same. find_stored w w' user same;
  claim_stored =
      λ _ customer w w' count same some_matched. claim_stored customer w w' count same some_matched;
}

ensure_stripe_customer-stored_example : raced.stored "ana" (some "cus_theirs") ≡ some "cus_theirs"
unfolding ensure_stripe_customer
ensure_stripe_customer-stored_example =
    ensure_stripe_customer-stored raced raced-IsCustomers true false "ana" "ana@example.com"
      "cus_theirs" none (some "cus_theirs") refl

abbrev customers : Customers World
customers = record {
  stored = λ _ _. some "cus_1";
  find_user = λ _ w. (returned (ana (some "cus_1")), w);
  claim_customer = λ _ _ w. (returned 0, w);
  create_customer = λ _ w. (returned "cus_2", w);
}

abbrev attaching : Attaching World
attaching = record {
  attach =
      λ pm customer w. (returned (record { id = pm; customer = some customer; card = "visa" }), w);
  count_others = λ user pm w. (returned (length (keep (is_other_card user pm) (w ∷ []))), w);
}

abbrev counted : Outcome PaymentError ℕ × World → ℕ
counted (returned n, w) = n
counted (threw e, w) = 0

attaching-IsAttaching : IsAttaching table customers attaching
attaching-IsAttaching = record {
  find_user_reads = λ user w. refl;
  claim_reads = λ user customer w. refl;
  create_remote = λ body w. refl;
  attach_remote = λ pm customer w. refl;
  count_reads = λ user pm w. refl;
  count_counts = λ user pm w w' n same. sym (ap counted same);
}

attach_payment_method-HasOneDefault_example :
    After table
      (attach_payment_method table customers attaching
        (some stripe)
        "spm_9"
        false
        "ana"
        "pm_1"
        card)
      (λ _. HasOneDefault "ana")
      (HasOneDefault "ana")
attach_payment_method-HasOneDefault_example =
    attach_payment_method-HasOneDefault table table-IsPrisma "ana" customers attaching
      attaching-IsAttaching (some stripe) "spm_9" false "pm_1" card
      (λ client same. subst (IsRemote table) (some-injective stripe client same) stripe-IsRemote)
      (omega arith)
