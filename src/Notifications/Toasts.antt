-- ===== src/Notifications/Toasts.antt =====
-- apps/web/src/app/core/notifications/toast-queue.ts. `Date.now()` is an argument, in milliseconds;
-- an armed timer is the instant at which it fires, which is when the code runs `fire`.
pub mod Invariant
mod Examples
use microservices_running.Prelude.{
  ℕ, ◌+◌, ◌-◌, String, Bool, true, false, Option, none, some, List, [], ◌∷◌, ◌++◌, str_eq, any, ltb,
  length, if◌then◌else◌,
}
use microservices_running.Notifications.Types.{AppNotification}

abbrev pub toast_dismiss_ms : ℕ
toast_dismiss_ms = 7000

abbrev pub max_queued : ℕ
max_queued = 3

pub record ToastQueue : Type 0 where
  pub showing : Option AppNotification
  pub pending : List AppNotification
  pub timer : Option ℕ
  pub remaining : ℕ
  pub started_at : ℕ

abbrev pub initial : ToastQueue
initial = record {
  showing = none;
  pending = [];
  timer = none;
  remaining = toast_dismiss_ms;
  started_at = 0;
}

unfoldable pub arm : ℕ → ToastQueue → ToastQueue
arm now q = record q { started_at = now; timer = some (now + q.remaining) }

unfoldable pub show : ℕ → AppNotification → ToastQueue → ToastQueue
unfolding arm
show now notification q =
    arm now (record q { showing = some notification; remaining = toast_dismiss_ms })

-- `this.pending.shift()` and what follows it.
unfoldable pub promote : ℕ → List AppNotification → ToastQueue → ToastQueue
unfolding show
promote now [] q = record q { showing = none; remaining = toast_dismiss_ms }
promote now (waiting ∷ rest) q = show now waiting (record q { pending = rest })

unfoldable pub next : ℕ → ToastQueue → ToastQueue
unfolding promote
next now q = promote now q.pending (record q { timer = none })

-- `this.showing()?.id === id`
abbrev pub shows : String → ToastQueue → Bool
shows id q = elim q.showing [ none ↦ false | some toast ↦ str_eq toast.id id ]

-- `push`, then `shift` where the queue is longer than its bound.
unfoldable pub push_bounded : AppNotification → List AppNotification → List AppNotification
push_bounded notification [] = notification ∷ []
push_bounded notification (oldest ∷ rest) =
    if ltb max_queued (length (oldest ∷ rest ++ notification ∷ []))
    then rest ++ notification ∷ []
    else oldest ∷ rest ++ notification ∷ []

unfoldable pub enqueue : ℕ → AppNotification → ToastQueue → ToastQueue
unfolding show push_bounded
enqueue now notification q =
    if shows notification.id q
    then q
    else if any (λ queued. str_eq queued.id notification.id) q.pending
    then q
    else elim q.showing [
      | none ↦ show now notification q
      | some _ ↦ record q { pending = push_bounded notification q.pending }
    ]

unfoldable pub dismiss : ℕ → String → ToastQueue → ToastQueue
unfolding next
dismiss now id q = if shows id q then next now q else q

-- The clock does not run backwards, so that `Math.max(0, remaining - (now - startedAt))` is this.
unfoldable pub pause : ℕ → ToastQueue → ToastQueue
pause now q = elim q.timer [
  | none ↦ q
  | some _ ↦ record q { timer = none; remaining = q.remaining - (now - q.started_at) }
]

unfoldable pub resume : ℕ → ToastQueue → ToastQueue
unfolding arm
resume now q = elim q.timer [ some _ ↦ q | none ↦ elim q.showing [ none ↦ q | some _ ↦ arm now q ] ]

-- The callback of the timer, once it is due.
unfoldable pub fire : ℕ → ToastQueue → ToastQueue
unfolding next
fire now q = elim q.timer [ none ↦ q | some _ ↦ next now q ]
