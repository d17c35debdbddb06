-- ===== src/Cart/Writes.antt =====
-- The tasks of the cart's queue against the server (the `write`, `load`, `clear` and `itemsFrom` of
-- apps/web/src/app/core/cart/cart-store.ts).
use microservices_running.Prelude.{
  ℕ, suc, ◌+◌, String, true, false, none, some, List, ◌∷◌, str_eq, ltb, get_or, is_some,
  if◌then◌else◌, ◌≡◌, refl, sym, subst, arith, ◌∙◌, ap, ◌⊎◌, str_eq_refl,
}
use microservices_running.Effects.{Outcome, returned, threw}
use microservices_running.Cart.{
  Cart, CartLine, CartTask, load, clear, add, set, adjusted, CartError, CartStore, line_quantity,
  items_of, with_quantity, forget_after_checkout,
}
use microservices_running.Cart.Queue.{
  CartApi, items_from, begin, start, write, settle, complete, stored, advance,
}
use microservices_running.Cart.Quantities.{line_quantity-with_quantity}

module _ {W : Type 0} (api : CartApi W) where
  -- Whatever the server answers, a write ends with `saving` false, and it either stores a cart and
  -- sets no error, or sets an error and leaves the cart on the screen as it was.
  pub write_outcome :
      (task : CartTask) (items : List CartLine) (s : CartStore) (w : W)
      → let s' = (write api task items s w).0 in
        (s'.saving ≡ false)
        × (((is_some s'.cart ≡ true) × (s'.error ≡ s.error))
            ⊎ ((s'.cart ≡ s.cart) × (is_some s'.error ≡ true)))
  unfolding write
  write_outcome task items s w = ground arith

  -- What the last PUT of a write does to the store.
  abbrev pub Answered : Outcome CartError Cart → (old new : CartStore) → Type 0
  Answered (returned cart) old new = (new.cart ≡ some cart) × (new.error ≡ old.error)
  Answered (threw err) old new = (new.cart ≡ old.cart) × (is_some new.error ≡ true)

  stored-Answered :
      (o : Outcome CartError Cart × W) (s : CartStore)
      → ((stored api o s).1 ≡ o.1) × Answered o.0 s (record (stored api o s).0 { saving = false })
  stored-Answered (returned cart, w) s = (refl, (refl, refl))
  stored-Answered (threw err, w) s = (refl, (refl, refl))

  write-retried :
      (task : CartTask) (items : List CartLine) (s : CartStore) (w w₁ w₂ : W) (e : CartError)
      (fresh : Cart)
      → api.replace_cart items w ≡ (threw e, w₁)
      → api.get_cart w₁ ≡ (returned fresh, w₂)
      → write api task items s w ≡ (
          let (s', w') = stored api (api.replace_cart (items_from task fresh.items) w₂) s in
          (record s' { saving = false }, w'))
  unfolding write
  write-retried task items s w w₁ w₂ e fresh refused read = rw (refused, read)

  -- When the first PUT of an "add" is refused and the cart can be read again, one more PUT is sent: its
  -- items hold the product at the quantity that the fresh read gives it plus the added one, and every
  -- other product at the quantity of the fresh read, whatever the store held before. The store then
  -- shows the cart with which the server answers that PUT, whatever it holds, or, if the server
  -- refuses it too, the cart of before and an error; it is no longer saving.
  pub add_retry :
      (product : String) (quantity : ℕ) (items : List CartLine) (s : CartStore) (w w₁ w₂ : W)
      (e : CartError) (fresh : Cart)
      → api.replace_cart items w ≡ (threw e, w₁)
      → api.get_cart w₁ ≡ (returned fresh, w₂)
      → (sent : List CartLine) × ((id : String)
          → line_quantity id sent ≡ (
              let sum = get_or (line_quantity product fresh.items) 0 + quantity in
              if str_eq product id
              then (if ltb 0 sum then some sum else none)
              else line_quantity id fresh.items))
        × ((write api (add product quantity) items s w).1 ≡ (api.replace_cart sent w₂).1)
        × ((write api (add product quantity) items s w).0.saving ≡ false)
        × Answered (api.replace_cart sent w₂).0 s (write api (add product quantity) items s w).0
  unfolding items_from
  add_retry product quantity items s w w₁ w₂ e fresh refused read =
      let sent = items_from (add product quantity) fresh.items in
      let retried = write-retried (add product quantity) items s w w₁ w₂ e fresh refused read in
      let (world, answered) = stored-Answered (api.replace_cart sent w₂) s in
      (
        sent,
        (λ id. line_quantity-with_quantity fresh.items product id _),
        ap (λ r. r.1) retried ∙ world,
        ap (λ r. r.0.saving) retried,
        subst (λ r. Answered (api.replace_cart sent w₂).0 s r.0) (sym retried) answered,
      )

  settle-ends :
      (task : CartTask) (items : List CartLine) (s : CartStore) (w : W)
      → s.loading ≡ false
      → s.saving ≡ false
      → let s' = (settle api task items (begin task s) w).0 in
        (s'.loading ≡ false) × (s'.saving ≡ false) × (s'.running ≡ s.running) × (s'.queue ≡ s.queue)
  unfolding settle write
  settle-ends load items s w loaded saved = ground arith
  settle-ends clear items s w loaded saved = ground arith
  settle-ends (add id quantity) items s w loaded saved = ground arith
  settle-ends (set id quantity) items s w loaded saved = ground arith
  settle-ends (adjusted id quantity) items s w loaded saved = ground arith

  complete-start :
      (task : CartTask) (rest : List CartTask) (s : CartStore) (w : W)
      → s.running ≡ none
      → s.queue ≡ task ∷ rest
      → complete api (start s) w
        ≡ settle api task
            (items_from task (items_of s.cart))
            (begin task (record s { queue = rest; running = none }))
            w
  unfolding start complete
  complete-start load rest s w idle queue = rw (idle, queue)
  complete-start clear rest s w idle queue = rw (idle, queue)
  complete-start (add id quantity) rest s w idle queue = rw (idle, queue)
  complete-start (set id quantity) rest s w idle queue = rw (idle, queue)
  complete-start (adjusted id quantity) rest s w idle queue = rw (idle, queue)

  -- Every task that the queue runs, once started and completed on an idle queue by a store that is
  -- neither loading nor saving, leaves it neither loading nor saving and the queue idle with the
  -- rest of the tasks.
  pub task_ends :
      (task : CartTask) (rest : List CartTask) (s : CartStore) (w : W)
      → s.running ≡ none
      → s.queue ≡ task ∷ rest
      → s.loading ≡ false
      → s.saving ≡ false
      → let s' = (complete api (start s) w).0 in
        (s'.loading ≡ false) × (s'.saving ≡ false) × (s'.running ≡ none) × (s'.queue ≡ rest)
  task_ends task rest s w idle queue loaded saved =
      let s' = record s { queue = rest; running = none } in
      let items = items_from task (items_of s.cart) in
      let (loading, saving, running, left) = settle-ends task items s' w loaded saved in
      let done = complete-start task rest s w idle queue in
      (
        ap (λ r. r.0.loading) done ∙ loading,
        ap (λ r. r.0.saving) done ∙ saving,
        ap (λ r. r.0.running) done ∙ running,
        ap (λ r. r.0.queue) done ∙ left,
      )

module _ {W : Type 0} (api : CartApi W) where
  settle-keeps :
      (task : CartTask) (items : List CartLine) (s : CartStore) (w : W)
      → let s' = (settle api task items s w).0 in (s'.running ≡ s.running) × (s'.queue ≡ s.queue)
  unfolding settle write
  settle-keeps load items s w = ground arith
  settle-keeps clear items s w = ground arith
  settle-keeps (add id quantity) items s w = ground arith
  settle-keeps (set id quantity) items s w = ground arith
  settle-keeps (adjusted id quantity) items s w = ground arith

  -- What an idle queue starts.
  start-adjusted :
      (id : String) (quantity : ℕ) (rest : List CartTask) (s : CartStore)
      → s.running ≡ none
      → s.queue ≡ adjusted id quantity ∷ rest
      → ((start s).running
          ≡ some (adjusted id quantity, with_quantity (items_of s.cart) id quantity))
        × ((start s).queue ≡ rest)
  unfolding start items_from
  start-adjusted id quantity rest s idle queue = (rw (idle, queue), rw (idle, queue))

  -- A debounced write that waits behind a running task when the order is placed is sent after the
  -- checkout: whatever the running task is and the server answers it, its end starts that write, and the
  -- items that it puts hold its product at its quantity.
  pub queued_write_survives_checkout :
      (id : String) (n : ℕ) (rest : List CartTask) (running : CartTask × List CartLine)
      (s : CartStore) (w : W)
      → s.running ≡ some running
      → s.queue ≡ adjusted id (suc n) ∷ rest
      → let s' = (advance api (forget_after_checkout s) w).0 in
        (sent : List CartLine) × (s'.running ≡ some (adjusted id (suc n), sent))
        × (line_quantity id sent ≡ some (suc n))
        × (s'.queue ≡ rest)
  unfolding advance complete forget_after_checkout
  queued_write_survives_checkout id n rest running s w runs queue =
      let forgotten = record (forget_after_checkout s) { running = none } in
      let settled = settle api running.0 running.1 forgotten w in
      let ended : complete api (forget_after_checkout s) w ≡ settled = rw runs in
      let (idle, left) = settle-keeps running.0 running.1 forgotten w in
      let (next, after) = start-adjusted id (suc n) rest settled.0 idle (left ∙ queue) in
      (
        with_quantity (items_of settled.0.cart) id (suc n),
        ap (λ r. (start r.0).running) ended ∙ next,
        line_quantity-with_quantity (items_of settled.0.cart) id id (suc n)
            ∙ ground (arith, str_eq_refl id),
        ap (λ r. (start r.0).queue) ended ∙ after,
      )
