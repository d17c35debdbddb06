-- ===== src/PaymentMethods/Examples.antt =====
-- The theorems on stored cards at a table of one row.
use microservices_running.Prelude.{
  Bool, true, false, Option, none, some, [], ◌∷◌, str_eq_refl, keep, length, if◌then◌else◌, ◌≡◌,
  refl, subst, ap, arith,
}
use mathlib.Core.Option.{some-injective}
use microservices_running.Effects.{Outcome, returned, threw}
use microservices_running.PaymentMethods.{
  StripePaymentMethod, PaymentError, p2025, failure, is_method,
}
use microservices_running.PaymentMethods.Table.{Test, Change, Prisma, IsPrisma, is_other_owner}
use microservices_running.PaymentMethods.Stripe.{StripeClient, IsRemote}
use microservices_running.PaymentMethods.Commands.{set_default_payment_method, detach}
use microservices_running.PaymentMethods.Reconcile.{payment_method_event, customer_updated}
use microservices_running.PaymentMethods.Defaults.{HasOneDefault}
use microservices_running.PaymentMethods.Steps.{After}
use microservices_running.PaymentMethods.SetDefault.{Promised, Becomes, set_default_atomic}
use microservices_running.PaymentMethods.Detach.{Detached, detach_atomic}
use microservices_running.PaymentMethods.Sequences.{
  detach_command, set_default_command, event_command, execute_all, execute_all-HasOneDefault,
}

-- The table's only row.
abbrev pub World : Type 0
World = StripePaymentMethod

abbrev found : Bool → World → Option StripePaymentMethod
found true row = some row
found false row = none

abbrev written : Bool → PaymentError → Change → World → Outcome PaymentError (Unit {0}) × World
written true err f row = (returned tt, f row)
written false err f row = (threw err, row)

abbrev committed :
    Outcome PaymentError (Unit {0}) × World → World → Outcome PaymentError (Unit {0}) × World
committed (returned _, after) row = (returned tt, after)
committed (threw err, after) row = (threw err, row)

abbrev pub table : Prisma World
table = record {
  rows = λ row. row ∷ [];
  find_first = λ p row. (returned (found (p row) row), row);
  update = λ p f row. written (p row) p2025 f row;
  update_many = λ p f row. (returned tt, if p row then f row else row);
  upsert = λ pm created f row. written (is_method pm row) (failure "full") f row;
  find_customer = λ id row. (returned (some "cus_1"), row);
  find_user_by_customer = λ id row. (returned (some "ana"), row);
  lock_user_row = λ id row. (returned tt, row);
  transaction = λ body row. committed (body row) row;
}

abbrev answer :
    Outcome PaymentError (Option StripePaymentMethod) × World → Option StripePaymentMethod
answer (returned row, w) = row
answer (threw e, w) = none

only_row : (b : Bool) (w row : StripePaymentMethod) → found b w ≡ some row → (b ≡ true) × (w ≡ row)
only_row true w row same = (refl, some-injective w row same)
only_row false w row same = ground arith

row_alone : (w : StripePaymentMethod) → length (keep (is_other_owner w) (w ∷ [])) ≡ 0
row_alone w = ground (arith, str_eq_refl w.user_id)

row_matches :
    (p : Test) (w row : StripePaymentMethod)
    → (p w ≡ true) × (w ≡ row)
    → (p row ≡ true) × (length (keep (is_other_owner row) (w ∷ [])) ≡ 0)
row_matches p w row (passes, same) = (
  subst (λ r. p r ≡ true) same passes,
  subst (λ r. length (keep (is_other_owner r) (w ∷ [])) ≡ 0) same (row_alone w),
)

pub table-IsPrisma : IsPrisma table
table-IsPrisma = record {
  find_reads = λ p w. refl;
  find_matches = λ p w w' row same. row_matches p w row (only_row (p w) w row (ap answer same));
  customer_reads = λ id w. refl;
  user_reads = λ id w. refl;
  lock_reads = λ id w. refl;
  update_writes = λ p f w. ground arith;
  update_many_writes = λ p f w. refl;
  upsert_writes = λ pm created f w. ground arith;
  transaction_writes = λ body w. ground arith;
  transaction_returns = λ body w done. ground arith;
  unique_id = λ id w. ground arith;
  unique_method = λ pm w. ground arith;
}

abbrev pub stripe : StripeClient World
stripe = record {
  detach = λ pm row. (returned tt, row);
  update_default = λ customer pm row. (returned tt, row);
  retrieve_method =
      λ pm row. (returned (record { id = pm; customer = some "cus_1"; card = "visa" }), row);
  retrieve_customer = λ id row. (returned (some (some "pm_1")), row);
}

pub stripe-IsRemote : IsRemote table stripe
stripe-IsRemote = record {
  detach_remote = λ pm w. refl;
  update_default_remote = λ customer pm w. refl;
  retrieve_method_remote = λ pm w. refl;
  retrieve_customer_remote = λ id w. refl;
}

abbrev pub card : StripePaymentMethod
card = record {
  id = "spm_1";
  stripe_payment_method_id = "pm_1";
  user_id = "ana";
  is_default = false;
  deleted = false;
  card = "visa";
}

set_default_atomic_example :
    After table
      (set_default_payment_method table (some stripe) "ana" "pm_1" card)
      (Promised table table-IsPrisma "ana" "pm_1" (card ∷ []))
      (Becomes (card ∷ []))
set_default_atomic_example =
    set_default_atomic table table-IsPrisma stripe stripe-IsRemote "ana" "pm_1" card

execute_all-HasOneDefault_example : HasOneDefault "ana" (
    table.rows (
      execute_all table stripe
        (set_default_command "ana" "pm_1"
          ∷ event_command "spm_2" (payment_method_event "pm_1")
          ∷ event_command "spm_3" (customer_updated "cus_1")
          ∷ detach_command "ana" "pm_1"
          ∷ [])
        card))
execute_all-HasOneDefault_example =
    execute_all-HasOneDefault table table-IsPrisma "ana" stripe stripe-IsRemote
      (set_default_command "ana" "pm_1"
        ∷ event_command "spm_2" (payment_method_event "pm_1")
        ∷ event_command "spm_3" (customer_updated "cus_1")
        ∷ detach_command "ana" "pm_1"
        ∷ [])
      card (omega arith)

detach_atomic_example :
    After table
      (detach table (some stripe) "ana" "pm_1" card)
      (Detached table table-IsPrisma "ana" "pm_1" (card ∷ []))
      (Becomes (card ∷ []))
detach_atomic_example = detach_atomic table table-IsPrisma stripe stripe-IsRemote "ana" "pm_1" card
