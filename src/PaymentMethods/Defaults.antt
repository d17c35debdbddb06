-- ===== src/PaymentMethods/Defaults.antt =====
-- A user has at most one default card: what the writes of the commands on stored cards do to the
-- rows (services/users/src/payment-methods/commands).
use microservices_running.Prelude.{
  ◌≤◌, ◌+◌, String, Bool, true, false, List, [], ◌∷◌, str_eq, str_eq_iff, not, ◌&&◌, keep, length,
  ◌≡◌, refl, subst, arith,
}
use microservices_running.PaymentMethods.{StripePaymentMethod, is_user_default, with_default}
use microservices_running.PaymentMethods.Table.{Test, changed, live}

-- The default cards that the user sees.
abbrev pub defaults : String → List StripePaymentMethod → List StripePaymentMethod
defaults user = keep (live (is_user_default user))

abbrev pub HasOneDefault : String → List StripePaymentMethod → Type 0
HasOneDefault user rows = length (defaults user rows) ≤ 1

-- Deleting rows, whatever the test, makes no default.
deleted-defaults :
    (user : String) (p : Test) (rows : List StripePaymentMethod)
    → length (defaults user (changed p (λ row. record row { deleted = true }) rows))
      ≤ length (defaults user rows)
deleted-defaults user p [] = ground arith
deleted-defaults user p (x ∷ xs) = ground (arith, deleted-defaults user p xs)

-- Clearing the defaults of one user makes none for anyone.
cleared-defaults :
    (user other : String) (rows : List StripePaymentMethod)
    → length (defaults other (changed (live (is_user_default user)) (with_default false) rows))
      ≤ length (defaults other rows)
cleared-defaults user other [] = ground arith
cleared-defaults user other (x ∷ xs) = ground (arith, cleared-defaults user other xs)

cleared-own_defaults :
    (user : String) (rows : List StripePaymentMethod)
    → length (defaults user (changed (live (is_user_default user)) (with_default false) rows)) ≡ 0
cleared-own_defaults user [] = ground arith
cleared-own_defaults user (x ∷ xs) = ground (arith, cleared-own_defaults user xs)

-- A test that reads only the columns that never change.
abbrev pub Key : Type 0
Key = (id stripe_payment_method_id user_id : String) → Bool

abbrev pub on_key : Key → Test
on_key k row = k row.id row.stripe_payment_method_id row.user_id

abbrev pub on_key_of : Key → (user : String) → Test
on_key_of k user row = on_key k row && str_eq row.user_id user

abbrev pub on_key_not_of : Key → (user : String) → Test
on_key_not_of k user row = on_key k row && not (str_eq row.user_id user)

-- Setting the flag on the rows that pass a test adds at most as many defaults as pass it.
marked-defaults :
    (user : String) (k : Key) (rows : List StripePaymentMethod)
    → length (defaults user (changed (live (on_key k)) (with_default true) rows))
      ≤ length (defaults user rows) + length (keep (on_key_of k user) rows)
marked-defaults user k [] = ground arith
marked-defaults user k (x ∷ xs) = ground (arith, marked-defaults user k xs)

keep-on_key_of :
    (user : String) (k : Key) (rows : List StripePaymentMethod)
    → length (keep (on_key_of k user) rows) ≤ length (keep (on_key k) rows)
keep-on_key_of user k [] = ground arith
keep-on_key_of user k (x ∷ xs) = ground (arith, keep-on_key_of user k xs)

keep-on_key_not_of :
    (user other : String) (k : Key) (rows : List StripePaymentMethod)
    → str_eq user other ≡ false
    → length (keep (on_key_of k other) rows) ≤ length (keep (on_key_not_of k user) rows)
keep-on_key_not_of user other k [] differ = ground arith
keep-on_key_not_of user other k (x ∷ xs) differ = ground (
  arith,
  keep-on_key_not_of user other k xs differ,
  str_eq_iff x.user_id user,
  str_eq_iff x.user_id other,
  str_eq_iff user other,
)

keep-cleared :
    (user : String) (k : Key) (rows : List StripePaymentMethod)
    → length (keep (on_key k) (changed (live (is_user_default user)) (with_default false) rows))
      ≡ length (keep (on_key k) rows)
keep-cleared user k [] = ground arith
keep-cleared user k (x ∷ xs) = ground (arith, keep-cleared user k xs)

abbrev pub cleared : String → List StripePaymentMethod → List StripePaymentMethod
cleared user = changed (live (is_user_default user)) (with_default false)

-- One user's defaults are cleared, then the rows of a key are made default.
abbrev pub flipped : String → Key → List StripePaymentMethod → List StripePaymentMethod
flipped user k rows = changed (live (on_key k)) (with_default true) (cleared user rows)

-- At most one row has the key, and it is not another user's.
abbrev pub IsKeyOf : String → Key → List StripePaymentMethod → Type 0
IsKeyOf user k rows =
    (length (keep (on_key k) rows) ≤ 1) × (length (keep (on_key_not_of k user) rows) ≡ 0)

pub cleared-HasOneDefault :
    (user other : String) (rows : List StripePaymentMethod)
    → HasOneDefault other rows
    → HasOneDefault other (cleared user rows)
cleared-HasOneDefault user other rows one = omega (arith, cleared-defaults user other rows, one)

flipped-own_default :
    (user : String) (k : Key) (rows : List StripePaymentMethod)
    → IsKeyOf user k rows
    → HasOneDefault user (flipped user k rows)
flipped-own_default user k rows key = omega (
  arith,
  marked-defaults user k (cleared user rows),
  cleared-own_defaults user rows,
  keep-on_key_of user k (cleared user rows),
  keep-cleared user k rows,
  key.0,
)

flipped-other_default :
    (user other : String) (k : Key) (rows : List StripePaymentMethod)
    → IsKeyOf user k rows
    → HasOneDefault other rows
    → str_eq user other ≡ false
    → HasOneDefault other (flipped user k rows)
flipped-other_default user other k rows key one differ = omega (
  arith,
  marked-defaults other k (cleared user rows),
  cleared-defaults user other rows,
  keep-on_key_not_of user other k (cleared user rows) differ,
  keep-cleared user (λ id pm owner. k id pm owner && not (str_eq owner user)) rows,
  key.1,
  one,
)

flipped-by_owner :
    (user other : String) (k : Key) (rows : List StripePaymentMethod) (same : Bool)
    → IsKeyOf user k rows
    → HasOneDefault other rows
    → str_eq user other ≡ same
    → HasOneDefault other (flipped user k rows)
flipped-by_owner user other k rows false key one differ =
    flipped-other_default user other k rows key one differ
flipped-by_owner user other k rows true key one same =
    subst (λ u. HasOneDefault u (flipped user k rows)) ((str_eq_iff user other).0 same)
      (flipped-own_default user k rows key)

pub flipped-HasOneDefault :
    (user other : String) (k : Key) (rows : List StripePaymentMethod)
    → IsKeyOf user k rows
    → HasOneDefault other rows
    → HasOneDefault other (flipped user k rows)
flipped-HasOneDefault user other k rows key one =
    flipped-by_owner user other k rows (str_eq user other) key one refl

pub deleted-HasOneDefault :
    (user : String) (p : Test) (rows : List StripePaymentMethod)
    → HasOneDefault user rows
    → HasOneDefault user (changed p (λ row. record row { deleted = true }) rows)
deleted-HasOneDefault user p rows one = omega (arith, deleted-defaults user p rows, one)
