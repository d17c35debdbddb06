-- ===== src/Notifications/Toasts/Invariant.antt =====
-- What holds of the toast queue whatever is called on it (toast-queue.ts).
use microservices_running.Prelude.{
  ℕ, ◌+◌, ◌-◌, ◌≤◌, ◌<◌, String, false, Option, none, some, List, [], ◌∷◌, ◌++◌, ◌≡◌, ◌≢◌, inl, inr,
  refl, arith, str_eq, any, length, length-append, Option-cases,
}
use microservices_running.Notifications.Types.{AppNotification}
use microservices_running.Notifications.Toasts.{
  ToastQueue, initial, toast_dismiss_ms, max_queued, next, shows, push_bounded, enqueue, dismiss,
  pause, resume, fire,
}

-- The toast on screen, if any, before those that wait.
abbrev pub held : ToastQueue → List AppNotification
held q = elim q.showing [ none ↦ q.pending | some toast ↦ toast ∷ q.pending ]

abbrev pub IsFresh : String → List AppNotification → Type 0
IsFresh id [] = Unit
IsFresh id (n ∷ ns) = (n.id ≢ id) × IsFresh id ns

-- No two of them have one id.
abbrev pub HasDistinctIds : List AppNotification → Type 0
HasDistinctIds [] = Unit
HasDistinctIds (n ∷ ns) = IsFresh n.id ns × HasDistinctIds ns

abbrev pub IsDue : Option ℕ → ℕ → Type 0
IsDue none at = Unit
IsDue (some due) at = due ≡ at

abbrev pub IsIdle : ToastQueue → Type 0
IsIdle q = elim q.showing [ none ↦ (q.pending ≡ []) × (q.timer ≡ none) | some _ ↦ Unit ]

pub record IsConsistent (q : ToastQueue) : Type 0 where
  pub idle : IsIdle q
  pub bounded : length q.pending ≤ max_queued
  pub window : q.remaining ≤ toast_dismiss_ms
  pub due : IsDue q.timer (q.started_at + q.remaining)
  pub distinct : HasDistinctIds (held q)

push_bounded_few :
    (n : AppNotification) (ns : List AppNotification)
    → length ns < max_queued
    → push_bounded n ns ≡ ns ++ n ∷ []
unfolding push_bounded
push_bounded_few n [] h = refl
push_bounded_few n (m ∷ ns) h = ground (arith, length-append ns (n ∷ []))

push_bounded_full :
    (n oldest : AppNotification) (ns : List AppNotification)
    → length (oldest ∷ ns) ≡ max_queued
    → push_bounded n (oldest ∷ ns) ≡ ns ++ n ∷ []
unfolding push_bounded
push_bounded_full n oldest ns h = ground (arith, length-append ns (n ∷ []))

next-IsConsistent : (now : ℕ) (q : ToastQueue) → IsConsistent q → IsConsistent (next now q)
unfolding next
next-IsConsistent now q h = ground arith

-- What may happen to the queue: calls from the app at any instant, and the timer once it is due.
pub data Step : ToastQueue → ToastQueue → Type 0 where
  enqueued : (now : ℕ) (n : AppNotification) (q : ToastQueue) → Step q (enqueue now n q)
  dismissed : (now : ℕ) (id : String) (q : ToastQueue) → Step q (dismiss now id q)
  paused : (now : ℕ) (q : ToastQueue) → Step q (pause now q)
  resumed : (now : ℕ) (q : ToastQueue) → Step q (resume now q)
  fired : (now : ℕ) (q : ToastQueue) → Step q (fire now q)

pub data Reach : ToastQueue → Type 0 where
  here : Reach initial
  then : {q r : ToastQueue} → Reach q → Step q r → Reach r

-- Pausing at `t` and resuming at `u` moves the due time by exactly the pause.
pub pause-resume_due :
    (q : ToastQueue) (toast : AppNotification) (due t u : ℕ)
    → IsConsistent q
    → q.showing ≡ some toast
    → q.timer ≡ some due
    → q.started_at ≤ t
    → t ≤ due
    → (rest : ℕ) × ((resume u (pause t q)).timer ≡ some (u + rest)) × (due ≡ t + rest)
unfolding pause resume
pause-resume_due q toast due t u h on armed started before = (due - t, ground arith, omega arith)

-- A notification that is neither shown nor waiting goes behind all that is held where fewer than
-- three wait; where three wait, the oldest of these is dropped, never the toast on screen or a
-- newer one.
pub enqueue_order :
    (now : ℕ) (n : AppNotification) (q : ToastQueue)
    → IsConsistent q
    → shows n.id q ≡ false
    → any (λ m. str_eq m.id n.id) q.pending ≡ false
    → (length q.pending < max_queued → held (enqueue now n q) ≡ held q ++ n ∷ [])
      × ((toast oldest : AppNotification) (rest : List AppNotification)
          → q.showing ≡ some toast
          → q.pending ≡ oldest ∷ rest
          → length q.pending ≡ max_queued
          → held (enqueue now n q) ≡ toast ∷ rest ++ n ∷ [])
unfolding enqueue
enqueue_order now n q c h k = (
  λ few. elim (Option-cases q.showing) [
    | inl empty ↦ ground arith
    | inr (toast, on) ↦ ground (arith, push_bounded_few n q.pending few)
  ],
  λ toast oldest rest on waiting full. ground (arith, push_bounded_full n oldest rest),
)
