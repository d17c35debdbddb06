-- ===== src/PaymentMethods/Detach.antt =====
-- `DetachPaymentMethodHandler` against the table
-- (services/users/src/payment-methods/commands/detach-payment-method.command.ts).
use microservices_running.Prelude.{
  String, Bool, true, false, Option, none, some, if◌then◌else◌, ◌≡◌, ◌∙◌, ap,
}
use microservices_running.Effects.{Outcome, returned, threw, Io, continue, return, throw}
use microservices_running.PaymentMethods.{
  StripePaymentMethod, PaymentError, is_owned, is_row, is_resource_missing,
}
use microservices_running.PaymentMethods.Table.{
  Change, Prisma, IsPrisma, changed, live, find_first, delete,
}
use microservices_running.PaymentMethods.Stripe.{StripeClient, IsRemote}
use microservices_running.PaymentMethods.Commands.{
  CommandResult, detached, detach, after_detach, detach_row,
}
use microservices_running.PaymentMethods.Defaults.{IsKeyOf}
use microservices_running.PaymentMethods.Steps.{Rows, After, After-continue, After-write}
use microservices_running.PaymentMethods.SetDefault.{
  Becomes, row_key, FoundBy, After-find, IsKeyOf-found,
}

abbrev pub with_deleted : Change
with_deleted row = record row { deleted = true }

module _ {W : Type 0} (db : Prisma W) (laws : IsPrisma db) where
  -- `detached` leaves one row of the user and the method that was asked for deleted; `not_found`
  -- leaves the table.
  abbrev pub Detached : (user pm : String) → Rows → CommandResult → Rows → Type 0
  Detached user pm old detached r =
      (row : StripePaymentMethod) × (live (is_owned user pm) row ≡ true)
      × IsKeyOf user (row_key row.id) old
      × (r ≡ changed (is_row row.id) with_deleted old)
  Detached user pm old _ r = r ≡ old

  delete-After :
      (user pm : String) (row : StripePaymentMethod) (old : Rows) (w : W)
      → live (is_owned user pm) row ≡ true
      → IsKeyOf user (row_key row.id) old
      → db.rows w ≡ old
      → After db
          (continue (delete db (is_row row.id) w) (λ _. return detached))
          (Detached user pm old)
          (Becomes old)
  unfolding delete
  delete-After user pm row old w found key same =
      let new = changed (is_row row.id) with_deleted in
      After-continue db (λ _. Becomes (new old)) (Detached user pm old) (Becomes old)
        (delete db (is_row row.id) w) _
        (After-write db (Becomes old) (Becomes (new old)) (delete db (is_row row.id) w) (db.rows w)
          (new (db.rows w)) (laws.update_writes (is_row row.id) with_deleted w) same (ap new same))
        (λ _ w' done. (row, found, key, done))

  After-if :
      {A : Type 0} (b : Bool) (m m' : Io W PaymentError A) (Q : A → Rows → Type 0)
      (R : Rows → Type 0) (w : W)
      → After db (m w) Q R
      → After db (m' w) Q R
      → After db ((if b then m else m') w) Q R
  After-if true m m' Q R w kept kept' = kept
  After-if false m m' Q R w kept kept' = kept'

  after_detach-After :
      (user pm : String) (row : StripePaymentMethod) (answer : Outcome PaymentError (Unit {0}))
      (old : Rows) (w : W)
      → live (is_owned user pm) row ≡ true
      → IsKeyOf user (row_key row.id) old
      → db.rows w ≡ old
      → After db (after_detach db row answer w) (Detached user pm old) (Becomes old)
  after_detach-After user pm row (returned _) old w found key same =
      delete-After user pm row old w found key same
  after_detach-After user pm row (threw err) old w found key same =
      After-if (is_resource_missing err) _ (throw err) (Detached user pm old) (Becomes old) w
        (delete-After user pm row old w found key same) same

  module _ (client : StripeClient W) (remote : IsRemote db client) where
    detach_row-After :
        (user pm : String) (row : Option StripePaymentMethod) (w₀ w : W)
        → FoundBy db laws (is_owned user pm) (db.rows w₀) row (db.rows w)
        → After db
            (detach_row db client row pm w)
            (Detached user pm (db.rows w₀))
            (Becomes (db.rows w₀))
    detach_row-After user pm none w₀ w same = same
    detach_row-After user pm (some row) w₀ w (same, found, alone) =
        after_detach-After user pm row (client.detach pm w).0 (db.rows w₀) (client.detach pm w).1
          found (IsKeyOf-found db laws user pm w₀ row found alone)
          (remote.detach_remote pm w ∙ same)

    -- Detaching a card, once Stripe is configured: when the command answers `detached`, also when
    -- Stripe says that the card is already gone, the row of the requested method, which the user
    -- owns and no other row shares its id with, is soft-deleted and no other row changes; when it
    -- answers `not_found` or throws, whatever call failed, the table is as it was.
    pub detach_atomic :
        (user pm : String) (w : W)
        → After db
            (detach db (some client) user pm w)
            (Detached user pm (db.rows w))
            (Becomes (db.rows w))
    unfolding detach
    detach_atomic user pm w =
        After-continue db (FoundBy db laws (is_owned user pm) (db.rows w))
          (Detached user pm (db.rows w)) (Becomes (db.rows w)) (find_first db (is_owned user pm) w)
          _ (After-find db laws (is_owned user pm) w)
          (λ row w' found. detach_row-After user pm row w w' found)
