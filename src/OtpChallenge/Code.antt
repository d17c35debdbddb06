-- ===== src/OtpChallenge/Code.antt =====
-- The code that is mailed (`generateCode` of infra/modules/cognito/otp-challenge-lambda/index.mjs).
use microservices_running.Prelude.{
  ℕ, zero, suc, ◌+◌, ◌-◌, ◌*◌, ◌/◌, ◌%◌, ◌≤◌, ◌<◌, [], ◌∷◌, ◌++◌, length, length-append, ltb, Bool,
  true, false, if◌then◌else◌, ◌≡◌, refl, ap, ◌∙◌, arith, All,
}
use microservices_running.OtpChallenge.{Text}

-- `String(n)`: the decimal digits, in front of those already written.
abbrev pub digits : (fuel n : ℕ) → Text → Text
digits zero n rest = (48 + n) ∷ rest
digits (suc fuel) n rest =
    let longer = digits fuel (n / 10) ((48 + n % 10) ∷ rest) in
    if ltb n 10 then (48 + n) ∷ rest else longer

abbrev pub decimal : ℕ → Text
decimal n = digits n n []

abbrev pub zeros : ℕ → Text
zeros zero = []
zeros (suc n) = 48 ∷ zeros n

-- `text.padStart(width, '0')`
abbrev pub pad_start : (width : ℕ) → Text → Text
pad_start width text = zeros (width - length text) ++ text

-- `10 ** n`
abbrev pub ten_to : ℕ → ℕ
ten_to zero = 1
ten_to (suc n) = 10 * ten_to n

-- `random_int` is `randomInt(0, max)` of node:crypto.
unfoldable pub generate_code :
    {W : Type 0} (random_int : (max : ℕ) → W → ℕ × W) (code_length : ℕ) → W → Text × W
generate_code random_int code_length w =
    let (n, w') = random_int (ten_to code_length) w in (pad_start code_length (decimal n), w')

-- The number that a text of digits is read as.
abbrev pub value_from : ℕ → Text → ℕ
value_from a [] = a
value_from a (c ∷ cs) = value_from (a * 10 + (c - 48)) cs

abbrev pub IsDigit : ℕ → Type 0
IsDigit c = (48 ≤ c) × (c < 58)

small_digit : (n : ℕ) (rest : Text) → value_from 0 ((48 + n) ∷ rest) ≡ value_from n rest
small_digit n rest = ap (λ a. value_from a rest) (omega arith)

joined_digits :
    (n : ℕ) (rest : Text) → value_from (n / 10) ((48 + n % 10) ∷ rest) ≡ value_from n rest
joined_digits n rest = ap (λ a. value_from a rest) (omega arith)

pub value_from-digits :
    (fuel n : ℕ) (rest : Text) → n ≤ fuel → value_from 0 (digits fuel n rest) ≡ value_from n rest
value_from-digits zero n rest enough = small_digit n rest
value_from-digits (suc fuel) n rest enough = ground (
  arith,
  small_digit n rest,
  joined_digits n rest,
  value_from-digits fuel (n / 10) ((48 + n % 10) ∷ rest) (omega (arith, enough)),
)

length-digits :
    (k fuel n : ℕ) (rest : Text)
    → n ≤ fuel
    → n < 10 * ten_to k
    → length (digits fuel n rest) ≤ suc k + length rest
length-digits k zero n rest enough small = omega arith
length-digits zero (suc fuel) n rest enough small = ground arith
length-digits (suc k) (suc fuel) n rest enough small = ground (
  arith,
  length-digits k fuel (n / 10) ((48 + n % 10) ∷ rest) (omega (arith, enough))
      (omega (arith, small)),
)

All-if :
    (b : Bool) (xs ys : Text)
    → (b ≡ true → All IsDigit xs)
    → All IsDigit ys
    → All IsDigit (if b then xs else ys)
All-if true xs ys f ok = f refl
All-if false xs ys f ok = ok

pub digits-IsDigit :
    (fuel n : ℕ) (rest : Text) → n ≤ fuel → All IsDigit rest → All IsDigit (digits fuel n rest)
digits-IsDigit zero n rest enough ok = ((omega arith, omega arith), ok)
digits-IsDigit (suc fuel) n rest enough ok =
    All-if (ltb n 10) ((48 + n) ∷ rest) (digits fuel (n / 10) ((48 + n % 10) ∷ rest))
      (λ small. ((omega arith, ground (arith, small)), ok))
      (digits-IsDigit fuel (n / 10) ((48 + n % 10) ∷ rest) (omega (arith, enough))
        ((omega arith, omega arith), ok))

value_from-zeros : (n : ℕ) (text : Text) → value_from 0 (zeros n ++ text) ≡ value_from 0 text
value_from-zeros zero text = refl
value_from-zeros (suc n) text = value_from-zeros n text

length-zeros : (n : ℕ) → length (zeros n) ≡ n
length-zeros zero = refl
length-zeros (suc n) = ap suc (length-zeros n)

zeros-IsDigit : (n : ℕ) (text : Text) → All IsDigit text → All IsDigit (zeros n ++ text)
zeros-IsDigit zero text ok = ok
zeros-IsDigit (suc n) text ok = ((omega arith, omega arith), zeros-IsDigit n text ok)

-- When the number that is drawn is below its bound, a code of at least one digit has exactly the
-- configured number of characters, each of them a digit, and they read as the number
-- drawn.
pub length-generate_code :
    {W : Type 0} (random_int : (max : ℕ) → W → ℕ × W) (k : ℕ) (w : W)
    → (random_int (ten_to (suc k)) w).0 < ten_to (suc k)
    → let code = (generate_code random_int (suc k) w).0 in
      (length code ≡ suc k)
      × All IsDigit code
      × (value_from 0 code ≡ (random_int (ten_to (suc k)) w).0)
unfolding generate_code
length-generate_code random_int k w below =
    let n = (random_int (ten_to (suc k)) w).0 in
    let text = decimal n in
    let pad = suc k - length text in
    (
      length-append (zeros pad) text
          ∙ omega (arith, length-zeros pad, length-digits k n n [] (omega arith) below),
      zeros-IsDigit pad text (digits-IsDigit n n [] (omega arith) tt),
      value_from-zeros pad text ∙ value_from-digits n n [] (omega arith),
    )
