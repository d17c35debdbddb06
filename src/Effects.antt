-- ===== src/Effects.antt =====
-- Asynchronous code that may throw: a step from a world to an outcome and the world after it.
-- A step that throws keeps what it did before; a database transaction that undoes it is written
-- out where the source opens one.

use microservices_running.Prelude.{◌≡◌, refl, ◌⊎◌, inl, inr, sym, ap, ◌∙◌, arith}

pub data Outcome {ℓ κ} (E : Type ℓ) (A : Type κ) : Type (ℓ ⊔ κ) where
  returned : A → Outcome E A
  threw : E → Outcome E A

pub Outcome-cases {ℓ κ} :
    {E : Type ℓ} {A : Type κ} (o : Outcome E A)
    → ((a : A) × (o ≡ returned a)) ⊎ ((e : E) × (o ≡ threw e))
Outcome-cases (returned a) = inl (a, refl)
Outcome-cases (threw e) = inr (e, refl)

abbrev value_or : {E A : Type 0} → A → Outcome E A → A
value_or a (returned b) = b
value_or a (threw _) = a

abbrev error_or : {E A : Type 0} → E → Outcome E A → E
error_or e (returned _) = e
error_or _ (threw e) = e

abbrev pub Io : Type 0 → Type 0 → Type 0 → Type 0
Io W E A = W → Outcome E A × W

module _ {W E : Type 0} where
  abbrev pub continue : {A B : Type 0} → Outcome E A × W → (A → Io W E B) → Outcome E B × W
  continue (returned a, w) f = f a w
  continue (threw e, w) f = (threw e, w)

  infixl 5 ◌>>=◌ ◌>>◌
  abbrev pub ◌>>=◌ : {A B : Type 0} → Io W E A → (A → Io W E B) → Io W E B
  ◌>>=◌ m f w = continue (m w) f

  abbrev pub ◌>>◌ : {B : Type 0} → Io W E (Unit {0}) → Io W E B → Io W E B
  ◌>>◌ m k w = continue (m w) (λ _. k)

  abbrev pub return : {A : Type 0} → A → Io W E A
  return a w = (returned a, w)

  abbrev pub throw : {A : Type 0} → E → Io W E A
  throw e w = (threw e, w)

  -- `try { ... } catch`: what the step threw becomes a value.
  abbrev pub attempt : {A : Type 0} → Io W E A → Io W E (Outcome E A)
  attempt m w = let (o, w') = m w in (returned o, w')

  -- A composition that returns has a first part that returned.
  pub continue-returned :
      {A B : Type 0} (o : Outcome E A × W) (f : A → Io W E B) (b : B) (w' : W)
      → continue o f ≡ (returned b, w')
      → (a : A) × (w : W) × (o ≡ (returned a, w)) × (f a w ≡ (returned b, w'))
  continue-returned (returned a, w) f b w' same = (a, w, refl, same)
  continue-returned (threw e, w) f b w' same = ground (arith, same)

  pub returned-injective :
      {A : Type 0} (o : Outcome E A × W) (a b : A) (w w' : W)
      → o ≡ (returned a, w)
      → o ≡ (returned b, w')
      → a ≡ b
  returned-injective o a b w w' first second = ap (λ o. value_or a o.0) (sym first ∙ second)

  -- What is thrown is the same at every type.
  pub threw-threw :
      {A B : Type 0} (o : Outcome E A × W) (o' : Outcome E B × W) (x e : E) (w w' : W)
      → o ≡ (threw x, w)
      → o ≡ (threw e, w')
      → o' ≡ (threw x, w)
      → o' ≡ (threw e, w')
  threw-threw o o' x e w w' first second other =
      other ∙ ap (λ r. (threw (error_or x r.0), r.1)) (sym first ∙ second)
