-- ===== src/Cart/Examples.antt =====
-- The theorems on the cart store at a cart of two products, and a server that refuses its first PUT.
use microservices_running.Prelude.{
  ℕ, String, Bool, true, false, none, some, List, [], ◌∷◌, ◌≡◌, ◌≢◌, refl, arith, str_eq_iff, ◌+◌,
  map, ltb, get_or, str_eq, if◌then◌else◌,
}
use microservices_running.Effects.{Outcome, returned, threw}
use microservices_running.Cart.{
  Cart, CartLine, load, clear, add, adjusted, CartError, api_error, CartStore, line_quantity,
  adjust_quantity, timer_fires, forget_after_checkout, entry,
}
use microservices_running.Cart.Queue.{CartApi, start, write, complete, advance}
use microservices_running.Cart.Debounce.{click_during_write_lost}
use microservices_running.Cart.Writes.{
  Answered, add_retry, task_ends, queued_write_survives_checkout,
}

abbrev line : String → ℕ → CartLine
line id n = record { product_id = id; quantity = n }

abbrev cart_of : List CartLine → Cart
cart_of ls = record {
  id = some "c";
  items = ls;
  subtotal = 0;
  tax = 0;
  shipping = 0;
  total = 0;
  can_checkout = true;
}

abbrev two_lines : List CartLine
two_lines = line "mug" 2 ∷ line "pen" 1 ∷ []

abbrev shop : CartStore
shop = record {
  cart = some (cart_of two_lines);
  loading = false;
  saving = false;
  pending = [];
  error = none;
  timers = [];
  queue = [];
  running = none;
}

-- Whether the next PUT is refused, and the items that the server holds.
abbrev World : Type 0
World = Bool × List CartLine

abbrev put : List CartLine → World → Outcome CartError Cart × World
put ls (true, held) = (threw (api_error 422 "no stock"), (false, held))
put ls (false, held) = (returned (cart_of ls), (false, ls))

abbrev server : CartApi World
server = record {
  get_cart = λ w. (returned (cart_of w.1), w);
  replace_cart = put;
  delete_cart = λ w. (returned tt, (w.0, []));
}

abbrev mug_waits : CartStore
mug_waits = record shop { pending = ("mug", 3) ∷ []; timers = ("mug", 360) ∷ [] }

pen-differs : ◌≢◌ {A = String} "pen" "mug"
pen-differs = ground (arith, str_eq_iff "pen" "mug")

abbrev mug_written : CartStore
mug_written = record mug_waits { timers = []; running = some (adjusted "mug" 3, line "mug" 3 ∷ []) }

click_during_write_lost_example :
    let ended = (complete server (adjust_quantity 400 "mug" 9 mug_written) (false, two_lines)).0 in
    (entry "mug" ended.pending ≡ none) × ((timer_fires "mug" ended).queue ≡ [])
click_during_write_lost_example =
    click_during_write_lost server "mug" 3 9 400 (line "mug" 3 ∷ []) mug_written (false, two_lines)
      refl

-- A server that refuses its first PUT and holds at most four of a product.
abbrev clamped : List CartLine → List CartLine
clamped = map (λ item. line item.product_id (if ltb 4 item.quantity then 4 else item.quantity))

abbrev put_clamped : List CartLine → World → Outcome CartError Cart × World
put_clamped ls (true, held) = (threw (api_error 422 "no stock"), (false, held))
put_clamped ls (false, held) = (returned (cart_of (clamped ls)), (false, clamped ls))

abbrev small_stock : CartApi World
small_stock = record server { replace_cart = put_clamped }

-- The other tab bought three mugs; the retry adds two to them, of which the server leaves four.
add_retry_example :
    (sent : List CartLine) × ((id : String)
      → line_quantity id sent ≡ (
          let sum = get_or (line_quantity "mug" (line "mug" 3 ∷ [])) 0 + 2 in
          if str_eq "mug" id
          then (if ltb 0 sum then some sum else none)
          else line_quantity id (line "mug" 3 ∷ [])))
    × ((write small_stock (add "mug" 2) (line "mug" 4 ∷ []) shop (true, line "mug" 3 ∷ [])).1
        ≡ (put_clamped sent (false, line "mug" 3 ∷ [])).1)
    × ((write small_stock (add "mug" 2) (line "mug" 4 ∷ []) shop (true, line "mug" 3 ∷ [])).0.saving
        ≡ false)
    × Answered small_stock
        (put_clamped sent (false, line "mug" 3 ∷ [])).0
        shop
        (write small_stock (add "mug" 2) (line "mug" 4 ∷ []) shop (true, line "mug" 3 ∷ [])).0
add_retry_example =
    add_retry small_stock "mug" 2 (line "mug" 4 ∷ []) shop (true, line "mug" 3 ∷ [])
      (false, line "mug" 3 ∷ []) (false, line "mug" 3 ∷ []) (api_error 422 "no stock")
      (cart_of (line "mug" 3 ∷ [])) refl refl

task_ends_example :
    let s' = (complete server (start (record shop { queue = clear ∷ load ∷ [] })) (false, [])).0 in
    (s'.loading ≡ false) × (s'.saving ≡ false) × (s'.running ≡ none) × (s'.queue ≡ load ∷ [])
task_ends_example =
    task_ends server clear (load ∷ []) (record shop { queue = clear ∷ load ∷ [] }) (false, []) refl
      refl refl refl

-- The order is placed while the cart is loading.
abbrev mug_queued : CartStore
mug_queued = record shop { queue = adjusted "mug" 3 ∷ []; running = some (load, two_lines) }

queued_write_survives_checkout_example :
    let s' = (advance server (forget_after_checkout mug_queued) (false, [])).0 in
    (sent : List CartLine) × (s'.running ≡ some (adjusted "mug" 3, sent))
    × (line_quantity "mug" sent ≡ some 3)
    × (s'.queue ≡ [])
queued_write_survives_checkout_example =
    queued_write_survives_checkout server "mug" 2 [] (load, two_lines) mug_queued (false, []) refl
      refl
