-- ===== src/Cart/Debounce.antt =====
-- The steppers' debounce (cart-store.ts).
use microservices_running.Prelude.{
  ℕ, ◌+◌, String, none, some, List, [], ◌∷◌, ◌++◌, str_eq_iff, str_eq_refl, ◌≡◌, ◌≢◌, arith, ◌∙◌,
  ap,
}
use microservices_running.Cart.{
  Quantities, CartStore, CartTask, adjusted, set, CartLine, entry, adjust_quantity, timer_fires,
  remove, clear_pending, forget_after_checkout, without_entry,
}
use microservices_running.Cart.Queue.{CartApi, complete, settle, write}
use microservices_running.Cart.Quantities.{entry-with_entry, entry-without_entry}

-- Clicks on one product, each with its instant and the quantity that it asks for.
abbrev pub click_all : String → List (ℕ × ℕ) → CartStore → CartStore
click_all id [] s = s
click_all id ((now, quantity) ∷ clicks) s = click_all id clicks (adjust_quantity now id quantity s)

abbrev pub last_quantity : ℕ → List (ℕ × ℕ) → ℕ
last_quantity quantity [] = quantity
last_quantity quantity ((_, later) ∷ clicks) = last_quantity later clicks

-- However many clicks come on one product before its timer fires, one write is queued, of the
-- quantity of the last click.
pub clicks_coalesce :
    (id : String) (now quantity : ℕ) (clicks : List (ℕ × ℕ)) (s : CartStore)
    → (timer_fires id (click_all id ((now, quantity) ∷ clicks) s)).queue
      ≡ s.queue ++ adjusted id (last_quantity quantity clicks) ∷ []
unfolding timer_fires adjust_quantity
clicks_coalesce id now quantity [] s = ground (arith, str_eq_refl id)
clicks_coalesce id now quantity ((later, next) ∷ clicks) s =
    clicks_coalesce id later next clicks (adjust_quantity now id quantity s)

-- A click on one product leaves the write that is armed for another as it was.
pub click_keeps_others :
    (id other : String) (now quantity target due : ℕ) (s : CartStore)
    → id ≢ other
    → entry other s.timers ≡ some due
    → entry other s.pending ≡ some target
    → (timer_fires other (adjust_quantity now id quantity s)).queue
      ≡ s.queue ++ adjusted other target ∷ []
unfolding timer_fires adjust_quantity
click_keeps_others id other now quantity target due s ne armed waiting = ground (
  arith,
  str_eq_iff id other,
  entry-with_entry other id quantity s.pending,
  entry-with_entry other id (now + 350) s.timers,
)

-- A timer of a product that was removed, or of any product after a checkout, queues nothing.
pub cancelled_timers :
    (id other : String) (s : CartStore)
    → ((timer_fires id (remove id s)).queue ≡ s.queue ++ set id 0 ∷ [])
      × ((timer_fires other (forget_after_checkout s)).queue ≡ s.queue)
unfolding timer_fires remove forget_after_checkout
cancelled_timers id other s = ground (arith, str_eq_refl id, entry-without_entry id id s.timers)

timer_fires-idle :
    (id : String) (s : CartStore) → entry id s.pending ≡ none → (timer_fires id s).queue ≡ s.queue
unfolding timer_fires
timer_fires-idle id s idle = ground arith

entry-cleared : (id : String) (es : Quantities) → entry id (without_entry id es) ≡ none
entry-cleared id es = ground (arith, entry-without_entry id id es, str_eq_refl id)

module _ {W : Type 0} (api : CartApi W) where
  -- A write leaves the overlay, the timers and the queue as they are.
  write-keeps :
      (task : CartTask) (items : List CartLine) (s : CartStore) (w : W)
      → let s' = (write api task items s w).0 in
        (s'.pending ≡ s.pending) × (s'.timers ≡ s.timers) × (s'.queue ≡ s.queue)
  unfolding write
  write-keeps task items s w = ground arith

  settle-adjusted :
      (id : String) (sent : ℕ) (items : List CartLine) (s : CartStore) (w : W)
      → let s' = (settle api (adjusted id sent) items s w).0 in
        (s'.pending ≡ without_entry id s.pending) × (s'.timers ≡ s.timers) × (s'.queue ≡ s.queue)
  unfolding settle clear_pending
  settle-adjusted id sent items s w =
      let (kept, timers, queue) = write-keeps (adjusted id sent) items s w in
      (ap (without_entry id) kept, timers, queue)

  complete-running :
      (running : CartTask × List CartLine) (s : CartStore) (w : W)
      → s.running ≡ some running
      → complete api s w ≡ settle api running.0 running.1 (record s { running = none }) w
  unfolding complete
  complete-running running s w busy = rw busy

  -- A click on a product whose debounced write is in flight is lost: the write's end clears the
  -- newer overlay, and the newer timer then finds nothing to write.
  pub click_during_write_lost :
      (id : String) (sent quantity now : ℕ) (items : List CartLine) (s : CartStore) (w : W)
      → s.running ≡ some (adjusted id sent, items)
      → let ended = (complete api (adjust_quantity now id quantity s) w).0 in
        (entry id ended.pending ≡ none) × ((timer_fires id ended).queue ≡ s.queue)
  unfolding adjust_quantity
  click_during_write_lost id sent quantity now items s w busy =
      let clicked = adjust_quantity now id quantity s in
      let after = settle-adjusted id sent items (record clicked { running = none }) w in
      let done = complete-running (adjusted id sent, items) clicked w busy in
      let gone =
        ap (λ r. entry id r.0.pending) done
        ∙ ap (entry id) after.0
        ∙ entry-cleared id clicked.pending in
      (
        gone,
        timer_fires-idle id (complete api clicked w).0 gone ∙ ap (λ r. r.0.queue) done ∙ after.2,
      )
