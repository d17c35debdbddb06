-- ===== src/CardValidation.antt =====
-- apps/web/src/app/shared/ui/card-validation.ts. A text is the list of its UTF-16 units, and a
-- regular expression that is anchored at the start is the list of its alternatives, each a list of
-- unit ranges. A `Date` is its local year and month: the comparison with the last millisecond of a
-- month depends on no more. Months and years are natural numbers.
pub mod Luhn
pub mod Expiry
mod Examples
use microservices_running.Prelude.{
  ℕ, ◌+◌, ◌-◌, ◌*◌, ◌%◌, Bool, true, false, Option, none, some, List, [], ◌∷◌, ◌&&◌, not, ltb, leb,
  ◌==◌, if◌then◌else◌, length, any,
}
use mathlib.Core.List.{reverse}

pub data CardBrand : Type 0 where
  visa mastercard amex discover diners jcb unknown : CardBrand

abbrev UnitRange : Type 0
UnitRange = ℕ × ℕ

-- `^` followed by one alternative.
starts_with : List UnitRange → List ℕ → Bool
starts_with [] units = true
starts_with ((lo, hi) ∷ ranges) [] = false
starts_with ((lo, hi) ∷ ranges) (c ∷ units) = leb lo c && leb c hi && starts_with ranges units

abbrev starts_with_any : List (List UnitRange) → List ℕ → Bool
starts_with_any alternatives units = any (λ ranges. starts_with ranges units) alternatives

-- The decimal digit `n`, the range `[a-b]` of digits, and `\d`.
abbrev at : ℕ → UnitRange
at n = (48 + n, 48 + n)

abbrev from_to : ℕ → ℕ → UnitRange
from_to a b = (48 + a, 48 + b)

abbrev d : UnitRange
d = (48, 57)

unfoldable pub detect_card_brand : List ℕ → CardBrand
unfolding starts_with
detect_card_brand digits =
    if starts_with_any ((at 4 ∷ []) ∷ []) digits
    then visa
    else if starts_with_any
        ((at 5 ∷ from_to 1 5 ∷ [])
          ∷ (at 2 ∷ at 2 ∷ from_to 2 9 ∷ [])
          ∷ (at 2 ∷ from_to 3 6 ∷ d ∷ [])
          ∷ (at 2 ∷ at 7 ∷ from_to 0 1 ∷ [])
          ∷ (at 2 ∷ at 7 ∷ at 2 ∷ at 0 ∷ [])
          ∷ [])
        digits
    then mastercard
    else if starts_with_any ((at 3 ∷ at 4 ∷ []) ∷ (at 3 ∷ at 7 ∷ []) ∷ []) digits
    then amex
    else if starts_with_any
        ((at 6 ∷ at 0 ∷ at 1 ∷ at 1 ∷ [])
          ∷ (at 6 ∷ at 5 ∷ [])
          ∷ (at 6 ∷ at 4 ∷ from_to 4 9 ∷ [])
          ∷ [])
        digits
    then discover
    else if starts_with_any
        ((at 3 ∷ at 0 ∷ from_to 0 5 ∷ [])
          ∷ (at 3 ∷ at 0 ∷ at 9 ∷ at 5 ∷ [])
          ∷ (at 3 ∷ at 6 ∷ [])
          ∷ (at 3 ∷ at 8 ∷ [])
          ∷ (at 3 ∷ at 9 ∷ [])
          ∷ [])
        digits
    then diners
    else if starts_with_any
        ((at 3 ∷ at 5 ∷ at 2 ∷ from_to 8 9 ∷ []) ∷ (at 3 ∷ at 5 ∷ from_to 3 8 ∷ d ∷ []) ∷ []) digits
    then jcb
    else unknown

unfoldable pub lengths_by_brand : CardBrand → List ℕ
lengths_by_brand visa = 13 ∷ 16 ∷ 19 ∷ []
lengths_by_brand mastercard = 16 ∷ []
lengths_by_brand amex = 15 ∷ []
lengths_by_brand discover = 16 ∷ 19 ∷ []
lengths_by_brand diners = 14 ∷ 16 ∷ 19 ∷ []
lengths_by_brand jcb = 16 ∷ 17 ∷ 18 ∷ 19 ∷ []
lengths_by_brand unknown = 12 ∷ 13 ∷ 14 ∷ 15 ∷ 16 ∷ 17 ∷ 18 ∷ 19 ∷ []

-- What one digit adds to the sum: `digit *= 2; if (digit > 9) digit -= 9` where it is doubled.
unfoldable pub luhn_digit : Bool → ℕ → ℕ
luhn_digit should_double c =
    let digit = c - 48 in
    if should_double then (if ltb 9 (digit * 2) then digit * 2 - 9 else digit * 2) else digit

-- The loop, over the digits from the last to the first.
unfoldable pub luhn_from : Bool → ℕ → List ℕ → ℕ
luhn_from should_double sum [] = sum
luhn_from should_double sum (c ∷ digits) =
    luhn_from (not should_double) (sum + luhn_digit should_double c) digits

unfoldable pub passes_luhn : List ℕ → Bool
passes_luhn digits = luhn_from false 0 (reverse digits) % 10 == 0

-- `/^\d+$/`
unfoldable pub all_digits : List ℕ → Bool
all_digits [] = true
all_digits (c ∷ units) = leb 48 c && leb c 57 && all_digits units

abbrev pub is_number : List ℕ → Bool
is_number units = not (length units == 0) && all_digits units

unfoldable pub is_valid_card_number : List ℕ → Bool
is_valid_card_number digits =
    if not (is_number digits)
    then false
    else any (λ n. n == length digits) (lengths_by_brand (detect_card_brand digits))
      && passes_luhn digits

unfoldable pub required_cvc_length : CardBrand → ℕ
required_cvc_length amex = 4
required_cvc_length _ = 3

unfoldable pub is_valid_cvc : List ℕ → CardBrand → Bool
is_valid_cvc digits brand = (length digits == required_cvc_length brand) && is_number digits

pub record Date : Type 0 where
  pub year : ℕ
  pub month : ℕ

abbrev pub month_number : ℕ → ℕ → ℕ
month_number year month = year * 12 + month

-- The year that `new Date(year, …)` takes: 0 to 99 stand for 1900 to 1999.
abbrev pub date_year : ℕ → ℕ
date_year year = if ltb year 100 then 1900 + year else year

-- `new Date(expYear, expMonth, 0, 23, 59, 59, 999)` is the end of month `expMonth`, counted from 1.
unfoldable pub is_card_expired : Option ℕ → Option ℕ → Date → Bool
is_card_expired (some exp_month) (some exp_year) today =
    ltb (month_number (date_year exp_year) exp_month) (month_number today.year today.month)
is_card_expired _ _ _ = false

unfoldable pub is_valid_expiry : ℕ → ℕ → Date → Bool
unfolding is_card_expired
is_valid_expiry month year today =
    if ltb month 1
    then false
    else if ltb 12 month
    then false
    else not
        (is_card_expired (some month) (some (if ltb year 100 then 2000 + year else year)) today)
