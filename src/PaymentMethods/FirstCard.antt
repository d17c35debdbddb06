-- ===== src/PaymentMethods/FirstCard.antt =====
-- What attaching a user's first card does to the rows
-- (services/users/src/payment-methods/commands/attach-payment-method.command.ts).
use microservices_running.Prelude.{◌≤◌, ◌+◌, String, [], ◌∷◌, ◌++◌, length, keep, ◌≡◌, arith}
use microservices_running.PaymentMethods.{is_method}
use microservices_running.PaymentMethods.Table.{changed, upserted}
use microservices_running.PaymentMethods.Stripe.{StripeMethod}
use microservices_running.PaymentMethods.Defaults.{defaults, HasOneDefault}
use microservices_running.PaymentMethods.Steps.{Rows}
use microservices_running.PaymentMethods.Attach.{is_other_card, first_row, with_first}

firsts-defaults :
    (user pm : String) (method : StripeMethod) (rows : Rows)
    → length (defaults user (changed (is_method pm) (with_first method) rows))
      ≤ length (keep (is_method pm) rows) + length (keep (is_other_card user pm) rows)
firsts-defaults user pm method [] = ground arith
firsts-defaults user pm method (x ∷ xs) = ground (arith, firsts-defaults user pm method xs)

first_created-defaults :
    (user id owner pm : String) (method : StripeMethod) (rows : Rows)
    → length (defaults user (rows ++ first_row id owner method ∷ []))
      ≤ 1 + (length (keep (is_method pm) rows) + length (keep (is_other_card user pm) rows))
first_created-defaults user id owner pm method [] = ground arith
first_created-defaults user id owner pm method (x ∷ xs) =
    ground (arith, first_created-defaults user id owner pm method xs)

pub upserted_first-HasOneDefault :
    (user id owner : String) (method : StripeMethod) (rows : Rows)
    → length (keep (is_method method.id) rows) ≤ 1
    → length (keep (is_other_card user method.id) rows) ≡ 0
    → HasOneDefault user (upserted method.id (first_row id owner method) (with_first method) rows)
upserted_first-HasOneDefault user id owner method rows unique alone = ground (
  arith,
  firsts-defaults user method.id method rows,
  first_created-defaults user id owner method.id method rows,
  unique,
  alone,
)
