-- ===== src/CardValidation/Expiry.antt =====
-- Until when a card is accepted (card-validation.ts).
use microservices_running.Prelude.{ℕ, ◌+◌, ◌≤◌, ◌<◌, true, Option, none, some, ◌≡◌, ◌↔◌, arith}
use microservices_running.CardValidation.{Date, month_number, is_card_expired, is_valid_expiry}

-- A typed expiry with a two-digit year is accepted exactly for the months 1 to 12 of the years
-- 2000 to 2099 that are not before the month of today, which is counted as valid to its end.
pub is_valid_expiry_iff :
    (month year : ℕ) (today : Date)
    → year < 100
    → (is_valid_expiry month year today ≡ true) ↔ (
        (1 ≤ month)
        × (month ≤ 12)
        × (month_number today.year today.month ≤ month_number (2000 + year) month))
unfolding is_valid_expiry
is_valid_expiry_iff month year today h = ground arith

-- A card that has expired is expired at every later month.
pub is_card_expired_stays :
    (month year : Option ℕ) (today later : Date)
    → month_number today.year today.month ≤ month_number later.year later.month
    → is_card_expired month year today ≡ true
    → is_card_expired month year later ≡ true
unfolding is_card_expired
is_card_expired_stays none year today later h e = cc
is_card_expired_stays (some m) none today later h e = cc
is_card_expired_stays (some m) (some y) today later h e = ground arith
