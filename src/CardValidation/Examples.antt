-- ===== src/CardValidation/Examples.antt =====
-- Tests of the card checks, and their theorems at a number.
use microservices_running.Prelude.{ℕ, true, false, List, [], ◌∷◌, ◌++◌, ◌≡◌, refl, arith}
use microservices_running.CardValidation.{
  Date, detect_card_brand, passes_luhn, is_valid_card_number, all_digits, luhn_from, luhn_digit,
  lengths_by_brand,
}
use microservices_running.CardValidation.Luhn.{passes_luhn_one_digit}

-- 424242424242424 and a last digit.
abbrev visa_number : List ℕ
visa_number = 52 ∷ 50 ∷ 52 ∷ 50 ∷ 52 ∷ 50 ∷ 52 ∷ 50 ∷ 52 ∷ 50 ∷ 52 ∷ 50 ∷ 52 ∷ 50 ∷ 52 ∷ []

visa_is_valid :
    (is_valid_card_number (visa_number ++ 50 ∷ []) ≡ true)
    × (is_valid_card_number (visa_number ++ 49 ∷ []) ≡ false)
unfolding is_valid_card_number passes_luhn all_digits detect_card_brand lengths_by_brand luhn_from
    luhn_digit
visa_is_valid = (refl, refl)

passes_luhn_one_digit_example : passes_luhn (visa_number ++ 49 ∷ []) ≡ false
unfolding passes_luhn luhn_from luhn_digit
passes_luhn_one_digit_example =
    passes_luhn_one_digit visa_number [] 50 49 (omega arith) (omega arith) (omega arith)
      (omega arith) (omega arith) refl

abbrev today : Date
today = record { year = 2028; month = 4 }
