-- ===== src/CardValidation/Luhn.antt =====
-- The checksum of card-validation.ts catches every mistyped digit.
use microservices_running.Prelude.{
  ℕ, ◌+◌, ◌%◌, ◌≤◌, Bool, true, false, List, [], ◌∷◌, ◌++◌, not, ◌≡◌, ◌≢◌, arith, ◌∙◌,
}
use mathlib.Core.List.{reverse, reverse-append, append_assoc, reverse-cons}
use microservices_running.CardValidation.{luhn_digit, luhn_from, passes_luhn}

-- The sum of the contributions, without the accumulator.
luhn_sum : Bool → List ℕ → ℕ
luhn_sum should_double [] = 0
luhn_sum should_double (c ∷ digits) =
    luhn_digit should_double c + luhn_sum (not should_double) digits

luhn_from-eq : (b : Bool) (sum : ℕ) (l : List ℕ) → luhn_from b sum l ≡ sum + luhn_sum b l
unfolding luhn_from luhn_sum
luhn_from-eq b sum [] = omega arith
luhn_from-eq b sum (c ∷ l) = omega (arith, luhn_from-eq (not b) (sum + luhn_digit b c) l)

-- Whether the digit after `l` is doubled.
after : Bool → List ℕ → Bool
after b [] = b
after b (_ ∷ l) = after (not b) l

luhn_sum-append :
    (b : Bool) (l r : List ℕ) → luhn_sum b (l ++ r) ≡ luhn_sum b l + luhn_sum (after b l) r
unfolding luhn_sum after
luhn_sum-append b [] r = omega arith
luhn_sum-append b (c ∷ l) r = omega (arith, luhn_sum-append (not b) l r)

luhn_digit_inj :
    (b : Bool) (x y s : ℕ)
    → 48 ≤ x
    → x ≤ 57
    → 48 ≤ y
    → y ≤ 57
    → (luhn_digit b x + s) % 10 ≡ (luhn_digit b y + s) % 10
    → x ≡ y
unfolding luhn_digit
luhn_digit_inj true x y s a b c d h = ground arith
luhn_digit_inj false x y s a b c d h = ground arith

-- The sum of a number, with the part of one digit apart.
luhn-split :
    (l r : List ℕ) (x : ℕ)
    → luhn_from false 0 (reverse (l ++ x ∷ r))
      ≡ luhn_digit (after false (reverse r)) x
        + (luhn_sum false (reverse r) + luhn_sum (not (after false (reverse r))) (reverse l))
unfolding luhn_sum
luhn-split l r x =
    luhn_from-eq false 0 (reverse (l ++ x ∷ r))
    ∙ rw (reverse-append l (x ∷ r), reverse-cons, append_assoc, luhn_sum-append) (omega arith)

-- Two numbers that differ in one digit do not both pass.
pub passes_luhn_one_digit :
    (l r : List ℕ) (x y : ℕ)
    → 48 ≤ x
    → x ≤ 57
    → 48 ≤ y
    → y ≤ 57
    → x ≢ y
    → passes_luhn (l ++ x ∷ r) ≡ true
    → passes_luhn (l ++ y ∷ r) ≡ false
unfolding passes_luhn
passes_luhn_one_digit l r x y a b c e ne h =
    let b' : Bool = after false (reverse r) in
    let s : ℕ = luhn_sum false (reverse r) + luhn_sum (not b') (reverse l) in
    ground (arith, luhn-split l r x, luhn-split l r y, luhn_digit_inj b' x y s a b c e)
