-- ===== src/Cart/Queue.antt =====
-- The task queue of apps/web/src/app/core/cart/cart-store.ts: what `concatMap` runs, one task at a
-- time. `start` begins a task and sends its first request, `complete` is the task from its first
-- answer to its end, and `advance` goes on to the next task, before anything else can happen.
use microservices_running.Prelude.{◌+◌, true, false, none, some, List, [], ◌∷◌, get_or}
use microservices_running.Effects.{Outcome, returned, threw, Io}
use microservices_running.Cart.{
  Cart, CartLine, CartTask, load, clear, add, set, adjusted, CartError, CartStore, unreachable,
  failed, message_for, with_quantity, line_quantity, items_of, clear_pending,
}

-- `CartApi`, over the server's world.
pub record CartApi (W : Type 0) : Type 0 where
  pub get_cart : Io W CartError Cart
  pub replace_cart : List CartLine → Io W CartError Cart
  pub delete_cart : Io W CartError (Unit {0})

-- `itemsFrom`
unfoldable pub items_from : CartTask → List CartLine → List CartLine
unfolding with_quantity line_quantity
items_from (add id quantity) ls = with_quantity ls id (get_or (line_quantity id ls) 0 + quantity)
items_from (set id quantity) ls = with_quantity ls id quantity
items_from (adjusted id quantity) ls = with_quantity ls id quantity
items_from _ ls = ls

abbrev pub begin : CartTask → CartStore → CartStore
begin load s = record s { loading = true; error = none }
begin _ s = record s { saving = true; error = none }

-- The queue begins its first task once no other runs.
unfoldable pub start : CartStore → CartStore
unfolding items_from
start s = elim s.running [
  | some _ ↦ s
  | none ↦ elim s.queue [
    | [] ↦ s
    | task ∷ rest ↦
        begin task
          (record s { queue = rest; running = some (task, items_from task (items_of s.cart)) })
  ]
]

module _ {W : Type 0} (api : CartApi W) where
  abbrev pub stored : Outcome CartError Cart × W → CartStore → CartStore × W
  stored (returned cart, w) s = (record s { cart = some cart }, w)
  stored (threw err, w) s = (record s { error = some (message_for err failed) }, w)

  abbrev retried : CartTask → Outcome CartError Cart × W → CartStore → CartStore × W
  retried task (returned fresh, w) s = stored (api.replace_cart (items_from task fresh.items) w) s
  retried task (threw err, w) s = (record s { error = some (message_for err failed) }, w)

  abbrev first_reply : CartTask → Outcome CartError Cart × W → CartStore → CartStore × W
  first_reply task (returned cart, w) s = (record s { cart = some cart }, w)
  first_reply task (threw _, w) s = retried task (api.get_cart w) s

  -- `write`, from its first request to its `finally`.
  unfoldable pub write : CartTask → List CartLine → CartStore → W → CartStore × W
  unfolding message_for items_from
  write task items s w =
      let (s', w') = first_reply task (api.replace_cart items w) s in
      (record s' { saving = false }, w')

  abbrev loaded : Outcome CartError Cart × W → CartStore → CartStore × W
  loaded (returned cart, w) s = (record s { cart = some cart; error = none; loading = false }, w)
  loaded (threw err, w) s =
      (record s { error = some (message_for err unreachable); loading = false }, w)

  abbrev cleared : Outcome CartError (Unit {0}) × W → CartStore → CartStore × W
  cleared (returned _, w) s = (record s { cart = none; saving = false }, w)
  cleared (threw err, w) s = (record s { error = some (message_for err failed); saving = false }, w)

  unfoldable pub settle : CartTask → List CartLine → CartStore → W → CartStore × W
  unfolding write clear_pending
  settle load items s w = loaded (api.get_cart w) s
  settle clear items s w = cleared (api.delete_cart w) s
  settle (add id quantity) items s w = write (add id quantity) items s w
  settle (set id quantity) items s w = write (set id quantity) items s w
  settle (adjusted id quantity) items s w =
      let (s', w') = write (adjusted id quantity) items s w in (clear_pending id s', w')

  -- The running task gets its answers and ends.
  unfoldable pub complete : CartStore → W → CartStore × W
  unfolding settle
  complete s w = elim s.running [
    | none ↦ (s, w)
    | some running ↦ settle running.0 running.1 (record s { running = none }) w
  ]

  -- As one task ends, `concatMap` starts the next.
  unfoldable pub advance : CartStore → W → CartStore × W
  unfolding complete start
  advance s w = let (s', w') = complete s w in (start s', w')
