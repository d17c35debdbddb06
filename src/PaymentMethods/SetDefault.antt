-- ===== src/PaymentMethods/SetDefault.antt =====
-- `SetDefaultPaymentMethodHandler` against the table
-- (services/users/src/payment-methods/commands/set-default-payment-method.command.ts).
use microservices_running.Prelude.{
  String, true, false, Option, none, some, str_eq, str_eq_iff, not, ◌&&◌, keep, length, ◌≡◌, refl,
  sym, ◌∙◌, ap, subst, arith,
}
use microservices_running.Effects.{Outcome, returned, threw}
use microservices_running.PaymentMethods.{
  StripePaymentMethod, PaymentError, p2025, record_not_found, stripe_unavailable, stripe_card_error,
  payment_method_declined, payment_method_rejected, stripe_invalid_request, failure, is_owned,
  is_row, is_user_default, with_default,
}
use microservices_running.PaymentMethods.Table.{
  Test, Change, Prisma, IsPrisma, changed, live, find_first, update, update_many, translated,
  is_other_owner,
}
use microservices_running.PaymentMethods.Stripe.{StripeClient, IsRemote}
use microservices_running.PaymentMethods.Customers.{truthy}
use microservices_running.PaymentMethods.Commands.{
  CommandResult, set_default, flip_default, set_default_payment_method, set_default_for,
  set_default_row,
}
use microservices_running.PaymentMethods.Defaults.{Key, IsKeyOf, cleared, flipped}
use microservices_running.PaymentMethods.Steps.{
  Rows, After, After-continue, After-read, After-write, After-transaction,
}

-- The rows `r` are those that `r'` says.
abbrev pub Becomes : Rows → Rows → Type 0
Becomes r' r = r ≡ r'

abbrev pub row_key : String → Key
row_key row_id id pm user = str_eq id row_id

module _ {W : Type 0} (db : Prisma W) (laws : IsPrisma db) where
  After-translated :
      (P : Rows → Type 0) (o : Outcome PaymentError (Unit {0}) × W)
      → After db o (λ _. P) (λ _. Unit)
      → After db (translated o) (λ _. P) (λ _. Unit)
  After-translated P (returned u, w) now = now
  After-translated P (threw stripe_unavailable, w) now = tt
  After-translated P (threw p2025, w) now = tt
  After-translated P (threw record_not_found, w) now = tt
  After-translated P (threw stripe_card_error, w) now = tt
  After-translated P (threw payment_method_declined, w) now = tt
  After-translated P (threw payment_method_rejected, w) now = tt
  After-translated P (threw (stripe_invalid_request code says), w) now = tt
  After-translated P (threw (failure message), w) now = tt

  pub After-update :
      (P : Rows → Type 0) (p : Test) (f : Change) (w : W)
      → P (changed (live p) f (db.rows w))
      → After db (update db p f w) (λ _. P) (λ _. Unit)
  unfolding update
  After-update P p f w now = After-translated P (db.update (live p) f w) (
      After-write db (λ _. Unit) P (db.update (live p) f w) (db.rows w)
        (changed (live p) f (db.rows w)) (laws.update_writes (live p) f w) tt now)

  pub After-update_many :
      (P R : Rows → Type 0) (p : Test) (f : Change) (w : W)
      → P (changed (live p) f (db.rows w))
      → R (db.rows w)
      → After db (update_many db p f w) (λ _. P) R
  unfolding update_many
  After-update_many P R p f w now was =
      After-write db R P (db.update_many (live p) f w) (db.rows w) (changed (live p) f (db.rows w))
        (laws.update_many_writes (live p) f w) was now

  module _ (client : StripeClient W) (remote : IsRemote db client) where
    flip_default-After :
        (user customer pm row_id : String) (w : W)
        → After db
            (flip_default db client user customer pm row_id w)
            (λ _ r. r ≡ flipped user (row_key row_id) (db.rows w))
            (λ _. Unit)
    unfolding flip_default
    flip_default-After user customer pm row_id w =
        let old = db.rows w in
        let Q = Becomes (flipped user (row_key row_id) old) in
        After-continue db (λ _. Becomes old) (λ _. Q) (λ _. Unit) (db.lock_user_row user w) _
          (After-read db (Becomes old) (λ _. Unit) _ old (laws.lock_reads user w) refl tt)
          (λ _ w₁ same.
            After-continue db (λ _. Becomes old) (λ _. Q) (λ _. Unit)
              (client.update_default customer pm w₁) _
              (After-read db (Becomes old) (λ _. Unit) _ old
                (remote.update_default_remote customer pm w₁ ∙ same) refl tt)
              (λ _ w₂ same₂.
                After-continue db (λ _. Becomes (cleared user old)) (λ _. Q) (λ _. Unit)
                  (update_many db (is_user_default user) (with_default false) w₂) _
                  (After-update_many (Becomes (cleared user old)) (λ _. Unit) (is_user_default user)
                    (with_default false) w₂ (ap (cleared user) same₂) tt)
                  (λ _ w₃ done.
                    After-update Q (is_row row_id) (with_default true) w₃
                      (ap (changed (live (is_row row_id)) (with_default true)) done))))

  -- What a read by a test says of the rows `old`, which it leaves.
  abbrev pub FoundBy : Test → Rows → Option StripePaymentMethod → Rows → Type 0
  FoundBy p old none r = r ≡ old
  FoundBy p old (some row) r =
      (r ≡ old) × (live p row ≡ true) × (length (keep (is_other_owner row) old) ≡ 0)

  After-found :
      (p : Test) (old : Rows) (o : Outcome PaymentError (Option StripePaymentMethod) × W)
      → db.rows o.1 ≡ old
      → ((w' : W) (row : StripePaymentMethod)
          → o ≡ (returned (some row), w')
          → (live p row ≡ true) × (length (keep (is_other_owner row) old) ≡ 0))
      → After db o (FoundBy p old) (Becomes old)
  After-found p old (returned none, w) same found = same
  After-found p old (returned (some row), w) same found =
      let (matches, alone) = found w row refl in (same, matches, alone)
  After-found p old (threw e, w) same found = same

  pub After-find :
      (p : Test) (w : W)
      → After db (find_first db p w) (FoundBy p (db.rows w)) (Becomes (db.rows w))
  unfolding find_first
  After-find p w =
      After-found p (db.rows w) (db.find_first (live p) w) (laws.find_reads (live p) w)
        (λ w' row found. laws.find_matches (live p) w w' row found)

  owner-found :
      (user pm : String) (row : StripePaymentMethod)
      → live (is_owned user pm) row ≡ true
      → row.user_id ≡ user
  owner-found user pm row found = ground (arith, str_eq_iff row.user_id user)

  pub IsKeyOf-found :
      (user pm : String) (w : W) (row : StripePaymentMethod)
      → live (is_owned user pm) row ≡ true
      → length (keep (is_other_owner row) (db.rows w)) ≡ 0
      → IsKeyOf user (row_key row.id) (db.rows w)
  IsKeyOf-found user pm w row found alone = (
    laws.unique_id row.id w,
    subst (λ u. length (keep (λ x. is_row row.id x && not (str_eq x.user_id u)) (db.rows w)) ≡ 0)
        (owner-found user pm row found) alone,
  )

  -- `set_default` leaves the defaults of the user cleared and the row of the method that was asked
  -- for, alone, default; `not_found` leaves the table.
  abbrev pub Promised : (user pm : String) → Rows → CommandResult → Rows → Type 0
  Promised user pm old set_default r =
      (row : StripePaymentMethod) × (live (is_owned user pm) row ≡ true)
      × IsKeyOf user (row_key row.id) old
      × (r ≡ flipped user (row_key row.id) old)
  Promised user pm old _ r = r ≡ old

  module _ (client : StripeClient W) (remote : IsRemote db client) where
    set_default_for-After :
        (user pm : String) (row : StripePaymentMethod) (customer : Option String) (w : W)
        → live (is_owned user pm) row ≡ true
        → IsKeyOf user (row_key row.id) (db.rows w)
        → After db
            (set_default_for db client user pm row customer w)
            (Promised user pm (db.rows w))
            (Becomes (db.rows w))
    set_default_for-After user pm row none w found key = refl
    set_default_for-After user pm row (some customer) w found key =
        After-continue db (λ _. Becomes (flipped user (row_key row.id) (db.rows w)))
          (Promised user pm (db.rows w)) (Becomes (db.rows w))
          (db.transaction (flip_default db client user customer pm row.id) w) _
          (After-transaction db laws (Becomes (flipped user (row_key row.id) (db.rows w)))
            (λ _. Unit) (flip_default db client user customer pm row.id) w
            (flip_default-After client remote user customer pm row.id w))
          (λ _ w' done. (row, found, key, done))

    set_default_row-After :
        (user pm : String) (row : Option StripePaymentMethod) (w₀ w : W)
        → FoundBy (is_owned user pm) (db.rows w₀) row (db.rows w)
        → After db
            (set_default_row db client user pm row w)
            (Promised user pm (db.rows w₀))
            (Becomes (db.rows w₀))
    set_default_row-After user pm none w₀ w same = same
    set_default_row-After user pm (some row) w₀ w (same, found, alone) =
        After-continue db (λ _. Becomes (db.rows w₀)) (Promised user pm (db.rows w₀))
          (Becomes (db.rows w₀)) (db.find_customer user w) _
          (After-read db (Becomes (db.rows w₀)) (Becomes (db.rows w₀)) (db.find_customer user w)
            (db.rows w₀) (laws.customer_reads user w ∙ same) refl refl)
          (λ customer w' same'.
            subst
              (λ old.
                After db (set_default_for db client user pm row (truthy customer) w')
                  (Promised user pm old) (Becomes old))
              same'
              (set_default_for-After user pm row (truthy customer) w' found (
                subst (IsKeyOf user (row_key row.id)) (sym same')
                  (IsKeyOf-found user pm w₀ row found alone))))

    -- Setting a default card, once Stripe is configured: when the command answers `set_default`,
    -- the live default rows of the user are cleared and the row of the requested method, which the
    -- user owns and no other row shares its id with, is made default; when it answers `not_found`
    -- or throws, whatever call failed, the table is as it was.
    pub set_default_atomic :
        (user pm : String) (w : W)
        → After db
            (set_default_payment_method db (some client) user pm w)
            (Promised user pm (db.rows w))
            (Becomes (db.rows w))
    unfolding set_default_payment_method
    set_default_atomic user pm w =
        After-continue db (FoundBy (is_owned user pm) (db.rows w)) (Promised user pm (db.rows w))
          (Becomes (db.rows w)) (find_first db (is_owned user pm) w) _
          (After-find (is_owned user pm) w)
          (λ row w' found. set_default_row-After user pm row w w' found)
