-- ===== src/Cart.antt =====
-- apps/web/src/app/core/cart/cart-store.ts. A quantity is the natural number that `toInt` reads,
-- money is in cents, and of a cart line only what the store reads is kept. A method that pushes a
-- task ends there; `start` and `complete` are the two ends of a task in the `concatMap` queue, and
-- other calls may come between them.
pub mod Quantities
pub mod Queue
pub mod Debounce
pub mod Writes
mod Examples
use microservices_running.Prelude.{
  ℕ, zero, suc, ◌+◌, String, Bool, true, false, Option, none, some, List, [], ◌∷◌, ◌++◌, map,
  str_eq, not, ◌==◌, leb, ltb, find_first, keep, is_some, get_or, if◌then◌else◌,
}
use mathlib.Core.Option

pub record CartLine : Type 0 where
  pub product_id : String
  pub quantity : ℕ

pub record Cart : Type 0 where
  pub id : Option String
  pub items : List CartLine
  pub subtotal : ℕ
  pub tax : ℕ
  pub shipping : ℕ
  pub total : ℕ
  pub can_checkout : Bool

-- What the queue runs. `set` is also what `remove` pushes, with quantity zero; `adjusted` is what
-- a debounce timer pushes, whose overlay is cleared once the write has settled.
pub data CartTask : Type 0 where
  load clear : CartTask
  add set adjusted : (product_id : String) (quantity : ℕ) → CartTask

-- `ApiError` carries a status and a detail; any other thrown value is `thrown`.
pub data CartError : Type 0 where
  api_error : (status : ℕ) (detail : String) → CartError
  thrown : CartError

abbrev pub Quantities : Type 0
Quantities = List (String × ℕ)

-- `running` is the task in flight with the items of its first PUT. A timer is the instant at which
-- it is due.
pub record CartStore : Type 0 where
  pub cart : Option Cart
  pub loading : Bool
  pub saving : Bool
  pub pending : Quantities
  pub error : Option String
  pub timers : Quantities
  pub queue : List CartTask
  pub running : Option (CartTask × List CartLine)

abbrev pub unreachable : String
unreachable = "We could not reach your cart. Check your connection and try again."

abbrev pub failed : String
failed = "We could not update your cart. Please try again."

unfoldable pub message_for : CartError → String → String
message_for thrown fallback = fallback
message_for (api_error status detail) fallback =
    if status == 0 then unreachable else if leb 500 status then fallback else detail

-- A `Record<string, number>` or a `Map`: reading, writing and deleting a key.
abbrev pub entry : String → Quantities → Option ℕ
entry id [] = none
entry id ((key, n) ∷ rest) = if str_eq key id then some n else entry id rest

abbrev pub without_entry : String → Quantities → Quantities
without_entry id [] = []
without_entry id ((key, n) ∷ rest) =
    if str_eq key id then without_entry id rest else (key, n) ∷ without_entry id rest

abbrev pub with_entry : String → ℕ → Quantities → Quantities
with_entry id n entries = (id, n) ∷ without_entry id entries

unfoldable pub with_quantity : List CartLine → String → ℕ → List CartLine
with_quantity lines product_id quantity =
    let items = keep (λ item. not (str_eq item.product_id product_id)) lines in
    if ltb 0 quantity
    then items ++ record { product_id = product_id; quantity = quantity } ∷ []
    else items

abbrev pub items_of : Option Cart → List CartLine
items_of none = []
items_of (some cart) = cart.items

abbrev pub overlay : Quantities → CartLine → CartLine
overlay pending line = record line {
  quantity = get_or (entry line.product_id pending) line.quantity;
}

unfoldable pub lines : CartStore → List CartLine
lines s = elim s.pending [
  | [] ↦ items_of s.cart
  | _ ∷ _ ↦ keep (λ line. ltb 0 line.quantity) (map (overlay s.pending) (items_of s.cart))
]

unfoldable pub line_quantity : String → List CartLine → Option ℕ
line_quantity id ls =
    Option.map (λ (line : CartLine). line.quantity)
      (find_first (λ line. str_eq line.product_id id) ls)

-- The index maps each product to its line; no two lines of a cart are of one product.
unfoldable pub quantity_of : CartStore → String → ℕ
unfolding lines line_quantity
quantity_of s id = get_or (line_quantity id (lines s)) 0

total_quantity : List CartLine → ℕ
total_quantity [] = 0
total_quantity (line ∷ ls) = line.quantity + total_quantity ls

unfoldable pub item_count : CartStore → ℕ
unfolding lines total_quantity
item_count s = total_quantity (lines s)

unfoldable pub adjusting : CartStore → Bool
adjusting s = elim s.pending [ [] ↦ false | _ ∷ _ ↦ true ]

unfoldable pub enqueue : CartTask → CartStore → CartStore
enqueue task s = record s { queue = s.queue ++ task ∷ [] }

unfoldable pub clear_pending : String → CartStore → CartStore
clear_pending id s = record s { pending = without_entry id s.pending }

abbrev pub quantity_debounce_ms : ℕ
quantity_debounce_ms = 350

-- `adjustQuantity`
unfoldable pub adjust_quantity : (now : ℕ) → String → ℕ → CartStore → CartStore
adjust_quantity now id quantity s = record s {
  pending = with_entry id quantity s.pending;
  timers = with_entry id (now + quantity_debounce_ms) s.timers;
}

-- The callback of a product's timer, if it is armed.
unfoldable pub timer_fires : String → CartStore → CartStore
unfolding enqueue
timer_fires id s = elim (entry id s.timers) [
  | none ↦ s
  | some _ ↦ elim (entry id s.pending) [
    | none ↦ record s { timers = without_entry id s.timers }
    | some target ↦ enqueue (adjusted id target) (record s { timers = without_entry id s.timers })
  ]
]

unfoldable pub remove : String → CartStore → CartStore
unfolding enqueue clear_pending
remove id s =
    enqueue (set id 0) (clear_pending id (record s { timers = without_entry id s.timers }))

-- The store's state is reset and the timers are gone; what the queue holds stays there.
unfoldable pub forget_after_checkout : CartStore → CartStore
forget_after_checkout s = record s {
  cart = none;
  loading = false;
  saving = false;
  pending = [];
  error = none;
  timers = [];
}
