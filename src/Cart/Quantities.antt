-- ===== src/Cart/Quantities.antt =====
-- The quantities that are written and shown (cart-store.ts).
use microservices_running.Prelude.{
  ℕ, String, none, some, List, [], ◌∷◌, ◌++◌, map, str_eq, str_eq_iff, str_eq_refl, not, ltb, keep,
  is_some, if◌then◌else◌, ◌≡◌, arith,
}
use microservices_running.Cart.{
  CartLine, CartStore, Quantities, entry, with_entry, without_entry, items_of, with_quantity,
  line_quantity, lines, quantity_of, adjust_quantity, overlay,
}

line_quantity-append :
    (id : String) (xs : List CartLine) (y : CartLine)
    → line_quantity id (xs ++ y ∷ []) ≡ elim (line_quantity id xs) [
      | none ↦ if str_eq y.product_id id then some y.quantity else none
      | some n ↦ some n
    ]
unfolding line_quantity
line_quantity-append id [] y = ground arith
line_quantity-append id (x ∷ xs) y = ground (arith, line_quantity-append id xs y)

line_quantity-keep :
    (id gone : String) (xs : List CartLine)
    → line_quantity id (keep (λ item. not (str_eq item.product_id gone)) xs)
      ≡ (if str_eq gone id then none else line_quantity id xs)
unfolding line_quantity
line_quantity-keep id gone [] = ground arith
line_quantity-keep id gone (x ∷ xs) = ground (
  arith,
  line_quantity-keep id gone xs,
  str_eq_iff x.product_id gone,
  str_eq_iff x.product_id id,
  str_eq_iff gone id,
)

-- The items of a write hold the product at the quantity that is set, or not at all where that is
-- zero, and every other product at the quantity of its line.
pub line_quantity-with_quantity :
    (ls : List CartLine) (product id : String) (quantity : ℕ)
    → line_quantity id (with_quantity ls product quantity) ≡ (
        if str_eq product id
        then (if ltb 0 quantity then some quantity else none)
        else line_quantity id ls)
unfolding with_quantity
line_quantity-with_quantity ls product id quantity = ground (
  arith,
  line_quantity-append id (keep (λ item. not (str_eq item.product_id product)) ls)
      (record { product_id = product; quantity = quantity }),
  line_quantity-keep id product ls,
)

pub entry-without_entry :
    (id gone : String) (es : Quantities)
    → entry id (without_entry gone es) ≡ (if str_eq gone id then none else entry id es)
entry-without_entry id gone [] = ground arith
entry-without_entry id gone ((key, n) ∷ es) = ground (
  arith,
  entry-without_entry id gone es,
  str_eq_iff key gone,
  str_eq_iff key id,
  str_eq_iff gone id,
)

pub entry-with_entry :
    (id key : String) (n : ℕ) (es : Quantities)
    → entry id (with_entry key n es) ≡ (if str_eq key id then some n else entry id es)
entry-with_entry id key n es = ground (arith, entry-without_entry id key es)

-- The lines as they are shown, below the overlay `es`.
abbrev shown_lines : Quantities → List CartLine → List CartLine
shown_lines es ls = keep (λ line. ltb 0 line.quantity) (map (overlay es) ls)

line_quantity-shown_lines :
    (id : String) (n : ℕ) (es : Quantities) (ls : List CartLine)
    → entry id es ≡ some n
    → line_quantity id (shown_lines es ls)
      ≡ (if is_some (line_quantity id ls) then (if ltb 0 n then some n else none) else none)
unfolding line_quantity
line_quantity-shown_lines id n es [] waiting = ground arith
line_quantity-shown_lines id n es (x ∷ xs) waiting =
    ground (arith, line_quantity-shown_lines id n es xs waiting, str_eq_iff x.product_id id)

-- A click is shown at once: the product has the quantity that was asked for as long as the cart has
-- a line for it, also the quantity zero, which hides the line.
pub click_is_shown :
    (id : String) (now quantity : ℕ) (s : CartStore)
    → quantity_of (adjust_quantity now id quantity s) id
      ≡ (if is_some (line_quantity id (items_of s.cart)) then quantity else 0)
unfolding quantity_of adjust_quantity lines
click_is_shown id now quantity s = ground (
  arith,
  str_eq_refl id,
  line_quantity-shown_lines id quantity (with_entry id quantity s.pending) (items_of s.cart),
  entry-with_entry id id quantity s.pending,
)
