-- ===== src/PaymentMethods/Steps.antt =====
-- What a step leaves in the table: one claim for the step that returns, one for the step that
-- throws, and how they compose along the code of the commands on stored cards.
use microservices_running.Prelude.{List, ◌≡◌, refl, sym, subst, arith}
use microservices_running.Effects.{Outcome, returned, threw, Io, continue}
use microservices_running.PaymentMethods.{StripePaymentMethod, PaymentError}
use microservices_running.PaymentMethods.Table.{Prisma, IsPrisma, Wrote}

abbrev pub Rows : Type 0
Rows = List StripePaymentMethod

module _ {W : Type 0} (db : Prisma W) where
  abbrev pub After :
      {A : Type 0} → Outcome PaymentError A × W → (A → Rows → Type 0) → (Rows → Type 0) → Type 0
  After (returned a, w) Q R = Q a (db.rows w)
  After (threw e, w) Q R = R (db.rows w)

  pub After-continue :
      {A B : Type 0} (Q : A → Rows → Type 0) (Q' : B → Rows → Type 0) (R : Rows → Type 0)
      (o : Outcome PaymentError A × W) (f : A → Io W PaymentError B)
      → After o Q R
      → ((a : A) (w : W) → Q a (db.rows w) → After (f a w) Q' R)
      → After (continue o f) Q' R
  After-continue Q Q' R (returned a, w) f now later = later a w now
  After-continue Q Q' R (threw e, w) f now later = now

  pub After-weaken :
      {A : Type 0} (Q Q' : A → Rows → Type 0) (R R' : Rows → Type 0)
      (o : Outcome PaymentError A × W)
      → After o Q R
      → ((a : A) (r : Rows) → Q a r → Q' a r)
      → ((r : Rows) → R r → R' r)
      → After o Q' R'
  After-weaken Q Q' R R' (returned a, w) now good bad = good a (db.rows w) now
  After-weaken Q Q' R R' (threw e, w) now good bad = bad (db.rows w) now

  -- A step that writes nothing keeps what holds of the rows.
  pub After-read :
      {A : Type 0} (P R : Rows → Type 0) (o : Outcome PaymentError A × W) (r : Rows)
      → db.rows o.1 ≡ r
      → P r
      → R r
      → After o (λ _. P) R
  After-read P R (returned a, w) r same now thrown = subst P (sym same) now
  After-read P R (threw e, w) r same now thrown = subst R (sym same) thrown

  -- A statement that writes leaves its new rows, or, when it throws, the old ones.
  pub After-write :
      {A : Type 0} (P Q : Rows → Type 0) (o : Outcome PaymentError A × W) (old new : Rows)
      → Wrote o.0 old new (db.rows o.1)
      → P old
      → Q new
      → After o (λ _. Q) P
  After-write P Q (returned a, w) old new wrote was now = subst Q (sym wrote) now
  After-write P Q (threw e, w) old new wrote was now = subst P (sym wrote) was

  After-returned :
      (Q R : Rows → Type 0) (o : Outcome PaymentError (Unit {0}) × W)
      → After o (λ _. Q) R
      → o.0 ≡ returned tt
      → Q (db.rows o.1)
  After-returned Q R (returned b, w) now done = now
  After-returned Q R (threw e, w) now done = ground arith

  After-committed :
      (Q : Rows → Type 0) (o body : Outcome PaymentError (Unit {0}) × W) (old : Rows)
      → Wrote o.0 old (db.rows body.1) (db.rows o.1)
      → (o.0 ≡ returned tt → Q (db.rows body.1))
      → After o (λ _. Q) (λ r. r ≡ old)
  After-committed Q (returned tt, w) body old wrote done = subst Q (sym wrote) (done refl)
  After-committed Q (threw e, w) body old wrote done = wrote

  module _ (laws : IsPrisma db) where
    -- A transaction that returns leaves what its body leaves, one that throws what was there.
    pub After-transaction :
        (Q R : Rows → Type 0) (body : Io W PaymentError (Unit {0})) (w : W)
        → After (body w) (λ _. Q) R
        → After (db.transaction body w) (λ _. Q) (λ r. r ≡ db.rows w)
    After-transaction Q R body w now =
        After-committed Q (db.transaction body w) (body w) (db.rows w)
          (laws.transaction_writes body w)
          (λ done. After-returned Q R (body w) now (laws.transaction_returns body w done))
