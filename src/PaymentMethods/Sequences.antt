-- ===== src/PaymentMethods/Sequences.antt =====
-- Sequences of commands on stored cards (services/users/src/payment-methods/commands).
use microservices_running.Prelude.{String, some, List, [], ◌∷◌}
use microservices_running.Effects.{Outcome, returned, threw}
use microservices_running.PaymentMethods.{PaymentError}
use microservices_running.PaymentMethods.Table.{Prisma, IsPrisma}
use microservices_running.PaymentMethods.Stripe.{StripeClient, IsRemote}
use microservices_running.PaymentMethods.Commands.{detach, set_default_payment_method}
use microservices_running.PaymentMethods.Reconcile.{StripeEvent, reconcile}
use microservices_running.PaymentMethods.Defaults.{HasOneDefault}
use microservices_running.PaymentMethods.Steps.{After}
use microservices_running.PaymentMethods.Invariant.{One, set_default-Keeps, detach-Keeps}
use microservices_running.PaymentMethods.Events.{event-Keeps}

-- What a request or a webhook runs; an event brings the id that a new row would get.
pub data Command : Type 0 where
  detach_command set_default_command : (user_id payment_method_id : String) → Command
  event_command : (new_id : String) (event : StripeEvent) → Command

module _ {W : Type 0} (db : Prisma W) (client : StripeClient W) where
  unfoldable pub execute : Command → W → W
  unfolding detach set_default_payment_method reconcile
  execute (detach_command user pm) w = (detach db (some client) user pm w).1
  execute (set_default_command user pm) w =
      (set_default_payment_method db (some client) user pm w).1
  execute (event_command new_id event) w = (reconcile db new_id (some client) event w).1

  unfoldable pub execute_all : List Command → W → W
  unfolding execute
  execute_all [] w = w
  execute_all (command ∷ commands) w = execute_all commands (execute command w)

module _ {W : Type 0} (db : Prisma W) (laws : IsPrisma db) (other : String)
    (client : StripeClient W) (remote : IsRemote db client) where
  kept :
      {A : Type 0} (o : Outcome PaymentError A × W)
      → After db o (λ _. One db laws other) (One db laws other)
      → One db laws other (db.rows o.1)
  kept (returned a, w) now = now
  kept (threw e, w) now = now

  execute-HasOneDefault :
      (command : Command) (w : W)
      → HasOneDefault other (db.rows w)
      → HasOneDefault other (db.rows (execute db client command w))
  unfolding execute reconcile
  execute-HasOneDefault (detach_command user pm) w one =
      kept _ (detach-Keeps db laws other client remote user pm w one)
  execute-HasOneDefault (set_default_command user pm) w one =
      kept _ (set_default-Keeps db laws other client remote user pm w one)
  execute-HasOneDefault (event_command new_id event) w one =
      kept _ (event-Keeps db laws other new_id client remote event w one)

  -- Once Stripe is configured, whatever detach and set-default requests and Stripe events are
  -- executed one after another, in any order and with whatever failures of the database and of
  -- Stripe, a user who had at most one live default card has at most one.
  pub execute_all-HasOneDefault :
      (commands : List Command) (w : W)
      → HasOneDefault other (db.rows w)
      → HasOneDefault other (db.rows (execute_all db client commands w))
  unfolding execute_all
  execute_all-HasOneDefault [] w one = one
  execute_all-HasOneDefault (command ∷ commands) w one =
      execute_all-HasOneDefault commands (execute db client command w)
        (execute-HasOneDefault command w one)
