-- ===== src/PaymentMethods/Invariant.antt =====
-- Every command on stored cards keeps "at most one default card"
-- (services/users/src/payment-methods/commands).
use microservices_running.Prelude.{
  ◌≤◌, String, Bool, true, false, Option, none, some, [], ◌∷◌, ◌++◌, length, if◌then◌else◌, ◌≡◌,
  sym, subst, arith,
}
use microservices_running.Effects.{Outcome, returned, threw, Io, continue, attempt}
use microservices_running.PaymentMethods.{
  StripePaymentMethod, PaymentError, is_owned, is_row, is_method, is_resource_missing,
}
use microservices_running.PaymentMethods.Table.{
  Test, Prisma, IsPrisma, changed, upserted, live, find_first, delete,
}
use microservices_running.PaymentMethods.Stripe.{StripeClient, IsRemote, StripeMethod}
use microservices_running.PaymentMethods.Commands.{
  CommandResult, set_default, not_found, detached, detach, after_detach, detach_row,
  set_default_payment_method,
}
use microservices_running.PaymentMethods.Reconcile.{new_row, with_card}
use microservices_running.PaymentMethods.Defaults.{
  defaults, HasOneDefault, flipped-HasOneDefault, deleted-HasOneDefault,
}
use microservices_running.PaymentMethods.Steps.{
  Rows, After, After-continue, After-weaken, After-read, After-write,
}
use microservices_running.PaymentMethods.SetDefault.{Becomes, row_key, Promised, set_default_atomic}

carded-defaults :
    (user pm : String) (method : StripeMethod) (rows : Rows)
    → length (defaults user (changed (is_method pm) (with_card method) rows))
      ≡ length (defaults user rows)
carded-defaults user pm method [] = ground arith
carded-defaults user pm method (x ∷ xs) = ground (arith, carded-defaults user pm method xs)

created-defaults :
    (user id owner : String) (method : StripeMethod) (rows : Rows)
    → length (defaults user (rows ++ new_row id owner method ∷ [])) ≡ length (defaults user rows)
created-defaults user id owner method [] = ground arith
created-defaults user id owner method (x ∷ xs) =
    ground (arith, created-defaults user id owner method xs)

upserted-defaults :
    (user id owner : String) (method : StripeMethod) (rows : Rows)
    → length (defaults user (upserted method.id (new_row id owner method) (with_card method) rows))
      ≡ length (defaults user rows)
upserted-defaults user id owner method rows =
    ground (
      arith,
      carded-defaults user method.id method rows,
      created-defaults user id owner method rows,
    )

module _ {W : Type 0} (db : Prisma W) (laws : IsPrisma db) (other : String) where
  abbrev pub One : Rows → Type 0
  One = HasOneDefault other

  abbrev pub Keeps : {A : Type 0} → Io W PaymentError A → Type 0
  Keeps m = (w : W) → One (db.rows w) → After db (m w) (λ _. One) One

  pub Keeps-bind :
      {A B : Type 0} (m : Io W PaymentError A) (f : A → Io W PaymentError B)
      → Keeps m
      → ((a : A) → Keeps (f a))
      → Keeps (λ w. continue (m w) f)
  Keeps-bind m f first rest w one =
      After-continue db (λ _. One) (λ _. One) One (m w) f (first w one) rest

  pub Keeps-read :
      {A : Type 0} (m : Io W PaymentError A) → ((w : W) → db.rows (m w).1 ≡ db.rows w) → Keeps m
  Keeps-read m reads w one = After-read db One One (m w) (db.rows w) (reads w) one one

  pub Keeps-attempt :
      {A : Type 0} (m : Io W PaymentError A)
      → ((w : W) → db.rows (m w).1 ≡ db.rows w)
      → Keeps (attempt m)
  Keeps-attempt m reads w one = subst One (sym (reads w)) one

  pub Keeps-find : (p : Test) → Keeps (find_first db p)
  unfolding find_first
  Keeps-find p = Keeps-read (db.find_first (live p)) (laws.find_reads (live p))

  pub Keeps-delete : (p : Test) → Keeps (delete db p)
  unfolding delete
  Keeps-delete p w one =
      let gone = λ (row : StripePaymentMethod). record row { deleted = true } in
      After-write db One One (db.update p gone w) (db.rows w) (changed p gone (db.rows w))
        (laws.update_writes p gone w) one (deleted-HasOneDefault other p (db.rows w) one)

  pub Keeps-upsert :
      (id user : String) (method : StripeMethod)
      → Keeps (db.upsert method.id (new_row id user method) (with_card method))
  Keeps-upsert id user method w one =
      let new = upserted method.id (new_row id user method) (with_card method) (db.rows w) in
      After-write db One One (db.upsert method.id (new_row id user method) (with_card method) w)
        (db.rows w) new (laws.upsert_writes method.id (new_row id user method) (with_card method) w)
        one (subst (λ n. n ≤ 1) (sym (upserted-defaults other id user method (db.rows w))) one)

  pub Keeps-if :
      {A : Type 0} (b : Bool) (m m' : Io W PaymentError A)
      → Keeps m
      → Keeps m'
      → Keeps (if b then m else m')
  Keeps-if true m m' kept kept' = kept
  Keeps-if false m m' kept kept' = kept'

  Promised-One :
      (user pm : String) (old : Rows) (result : CommandResult) (r : Rows)
      → One old
      → Promised db laws user pm old result r
      → One r
  Promised-One user pm old set_default r one (row, found, key, done) =
      subst One (sym done) (flipped-HasOneDefault user other (row_key row.id) old key one)
  Promised-One user pm old not_found r one same = subst One (sym same) one
  Promised-One user pm old detached r one same = subst One (sym same) one

  module _ (client : StripeClient W) (remote : IsRemote db client) where
    pub set_default-Keeps :
        (user pm : String) → Keeps (set_default_payment_method db (some client) user pm)
    set_default-Keeps user pm w one =
        After-weaken db (Promised db laws user pm (db.rows w)) (λ _. One) (Becomes (db.rows w)) One
          (set_default_payment_method db (some client) user pm w)
          (set_default_atomic db laws client remote user pm w)
          (λ result r. Promised-One user pm (db.rows w) result r one)
          (λ r same. subst One (sym same) one)

    after_detach-Keeps :
        (row : StripePaymentMethod) (answer : Outcome PaymentError (Unit {0}))
        → Keeps (after_detach db row answer)
    after_detach-Keeps row (returned _) =
        Keeps-bind (delete db (is_row row.id)) _ (Keeps-delete (is_row row.id)) (λ _ w one. one)
    after_detach-Keeps row (threw err) =
        Keeps-if (is_resource_missing err) _ _
          (Keeps-bind (delete db (is_row row.id)) _ (Keeps-delete (is_row row.id)) (λ _ w one. one))
          (λ w one. one)

    detach_row-Keeps :
        (row : Option StripePaymentMethod) (pm : String) → Keeps (detach_row db client row pm)
    detach_row-Keeps none pm = λ w one. one
    detach_row-Keeps (some row) pm =
        Keeps-bind (attempt (client.detach pm)) _
          (Keeps-attempt (client.detach pm) (remote.detach_remote pm)) (after_detach-Keeps row)

    pub detach-Keeps : (user pm : String) → Keeps (detach db (some client) user pm)
    unfolding detach
    detach-Keeps user pm =
        Keeps-bind (find_first db (is_owned user pm)) _ (Keeps-find (is_owned user pm))
          (λ row. detach_row-Keeps row pm)
