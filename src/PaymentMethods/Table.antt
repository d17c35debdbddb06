-- ===== src/PaymentMethods/Table.antt =====
-- The table behind Prisma, and the cross-cutting rules that services/users/src/shared/db/
-- prisma-extensions.ts lays over it: soft-deleted rows are left out of reads and updates, and
-- `delete` sets `deleted_at`.
use microservices_running.Prelude.{
  ◌≤◌, String, Bool, true, Option, some, List, [], ◌∷◌, ◌++◌, map, not, ◌&&◌, str_eq, keep, length,
  if◌then◌else◌, ◌≡◌,
}
use microservices_running.Effects.{Outcome, returned, threw, Io}
use microservices_running.PaymentMethods.{
  StripePaymentMethod, PaymentError, p2025, record_not_found, is_method, is_row,
}

abbrev pub Test : Type 0
Test = StripePaymentMethod → Bool

abbrev pub Change : Type 0
Change = StripePaymentMethod → StripePaymentMethod

-- The base client over the service's world. `rows` is the content of the primary's table. An
-- interactive transaction is a step that the client runs.
pub record Prisma (W : Type 0) : Type 0 where
  pub rows : W → List StripePaymentMethod
  pub find_first : Test → Io W PaymentError (Option StripePaymentMethod)
  pub update : Test → Change → Io W PaymentError (Unit {0})
  pub update_many : Test → Change → Io W PaymentError (Unit {0})
  pub upsert : String → StripePaymentMethod → Change → Io W PaymentError (Unit {0})
  pub find_customer : (user_id : String) → Io W PaymentError (Option String)
  pub find_user_by_customer : (customer_id : String) → Io W PaymentError (Option String)
  pub lock_user_row : String → Io W PaymentError (Unit {0})
  pub transaction : Io W PaymentError (Unit {0}) → Io W PaymentError (Unit {0})

abbrev pub changed : Test → Change → List StripePaymentMethod → List StripePaymentMethod
changed p f = map (λ row. if p row then f row else row)

-- A write that returned left `new`, one that threw left `old`.
abbrev pub Wrote :
    {A : Type 0} → Outcome PaymentError A → (old new after : List StripePaymentMethod) → Type 0
Wrote (returned _) old new after = after ≡ new
Wrote (threw _) old new after = after ≡ old

abbrev pub upserted :
    String → StripePaymentMethod → Change → List StripePaymentMethod → List StripePaymentMethod
upserted pm created f rows = elim (keep (is_method pm) rows) [
  | [] ↦ rows ++ created ∷ []
  | _ ∷ _ ↦ changed (is_method pm) f rows
]

-- The rows of the same id that belong to someone else.
abbrev pub is_other_owner : StripePaymentMethod → Test
is_other_owner found row = is_row found.id row && not (str_eq row.user_id found.user_id)

-- What the code relies on: a row that is found passes the test and is the table's row of its id,
-- with the same owner; reads and locks write nothing, a statement that throws writes nothing,
-- a transaction that throws is rolled back, and the two unique columns are unique.
pub record IsPrisma {W : Type 0} (db : Prisma W) : Type 0 where
  pub find_reads : (p : Test) (w : W) → db.rows (db.find_first p w).1 ≡ db.rows w
  pub find_matches :
      (p : Test) (w w' : W) (row : StripePaymentMethod)
      → db.find_first p w ≡ (returned (some row), w')
      → (p row ≡ true) × (length (keep (is_other_owner row) (db.rows w)) ≡ 0)
  pub customer_reads : (id : String) (w : W) → db.rows (db.find_customer id w).1 ≡ db.rows w
  pub user_reads : (id : String) (w : W) → db.rows (db.find_user_by_customer id w).1 ≡ db.rows w
  pub lock_reads : (id : String) (w : W) → db.rows (db.lock_user_row id w).1 ≡ db.rows w
  pub update_writes :
      (p : Test) (f : Change) (w : W)
      → Wrote
          (db.update p f w).0
          (db.rows w)
          (changed p f (db.rows w))
          (db.rows (db.update p f w).1)
  pub update_many_writes :
      (p : Test) (f : Change) (w : W)
      → Wrote
          (db.update_many p f w).0
          (db.rows w)
          (changed p f (db.rows w))
          (db.rows (db.update_many p f w).1)
  pub upsert_writes :
      (pm : String) (created : StripePaymentMethod) (f : Change) (w : W)
      → Wrote
          (db.upsert pm created f w).0
          (db.rows w)
          (upserted pm created f (db.rows w))
          (db.rows (db.upsert pm created f w).1)
  pub transaction_writes :
      (body : Io W PaymentError (Unit {0})) (w : W)
      → Wrote
          (db.transaction body w).0
          (db.rows w)
          (db.rows (body w).1)
          (db.rows (db.transaction body w).1)
  pub transaction_returns :
      (body : Io W PaymentError (Unit {0})) (w : W)
      → (db.transaction body w).0 ≡ returned tt
      → (body w).0 ≡ returned tt
  pub unique_id : (id : String) (w : W) → length (keep (is_row id) (db.rows w)) ≤ 1
  pub unique_method : (pm : String) (w : W) → length (keep (is_method pm) (db.rows w)) ≤ 1

-- `excludeSoftDeleted`, for a `where` that does not itself filter on `deletedAt`.
abbrev pub live : Test → Test
live p row = not row.deleted && p row

abbrev pub translated :
    {W : Type 0} → Outcome PaymentError (Unit {0}) × W → Outcome PaymentError (Unit {0}) × W
translated (returned u, w) = (returned u, w)
translated (threw p2025, w) = (threw record_not_found, w)
translated (threw err, w) = (threw err, w)

module _ {W : Type 0} (db : Prisma W) where
  unfoldable pub find_first : Test → Io W PaymentError (Option StripePaymentMethod)
  find_first p = db.find_first (live p)

  -- `update`, where "no record matched" becomes `RecordNotFoundError`.
  unfoldable pub update : Test → Change → Io W PaymentError (Unit {0})
  update p f w = translated (db.update (live p) f w)

  unfoldable pub update_many : Test → Change → Io W PaymentError (Unit {0})
  update_many p f = db.update_many (live p) f

  -- `delete`, which goes to the base client's `update`.
  unfoldable pub delete : Test → Io W PaymentError (Unit {0})
  delete p = db.update p (λ row. record row { deleted = true })
