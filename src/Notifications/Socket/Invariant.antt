-- ===== src/Notifications/Socket/Invariant.antt =====
-- What holds of the notifications socket after any events (notifications-socket.ts).
use microservices_running.Prelude.{
  ℕ, zero, suc, Bool, true, none, List, [], ◌∷◌, ◌≡◌, ◌≢◌, ◌⊎◌, ◌↔◌, arith,
}
use microservices_running.Notifications.Socket.{
  closed, reconnecting, offline, NotificationsSocket, initial, live_state, tokens_read, connect,
  disconnect, retry_now, on_open, on_message, on_close, lost, silence_fires, retry_fires,
  offline_event, online_event,
}

-- One event: a call from the app, an answer of the token store, an event of a WebSocket, a timer
-- that is due, or a change of the network.
pub data Event : Type 0 where
  connects disconnects retries_now : Event
  reads_tokens : (has_tokens : Bool) → Event
  opens messages closes errors : (now socket : ℕ) → Event
  falls_silent : (now : ℕ) → Event
  retry_due : Event
  goes_offline : (now : ℕ) → Event
  goes_online : Event

-- A token read is answered only where one waits.
unfoldable pub handle : (has_url : Bool) → Event → NotificationsSocket → NotificationsSocket
unfolding tokens_read connect disconnect retry_now on_open on_message on_close lost silence_fires
    retry_fires offline_event online_event
handle has_url connects s = connect has_url s
handle has_url disconnects s = disconnect s
handle has_url retries_now s = retry_now has_url s
handle has_url (reads_tokens has_tokens) s = elim s.reading [
  | zero ↦ s
  | suc _ ↦ tokens_read has_tokens s
]
handle has_url (opens now k) s = on_open now k s
handle has_url (messages now k) s = on_message now k s
handle has_url (closes now k) s = on_close now k s
handle has_url (errors now k) s = lost now k s
handle has_url (falls_silent now) s = silence_fires now s
handle has_url retry_due s = retry_fires has_url s
handle has_url (goes_offline now) s = offline_event now s
handle has_url goes_online s = online_event has_url s

unfoldable pub run : (has_url : Bool) → List Event → NotificationsSocket → NotificationsSocket
run has_url [] s = s
run has_url (e ∷ es) s = run has_url es (handle has_url e s)

-- The delays of a doubling from one second, cut at thirty.
abbrev pub IsDelay : ℕ → Type 0
IsDelay d = (d ≡ 1000) ⊎ (d ≡ 2000) ⊎ (d ≡ 4000) ⊎ (d ≡ 8000) ⊎ (d ≡ 16000) ⊎ (d ≡ 30000)

pub record IsConsistent (s : NotificationsSocket) : Type 0 where
  pub delay : IsDelay s.retry_delay
  pub shown : s.retry ≡ s.retry_at
  pub wanted : s.retry ≢ none → s.wanted ≡ true
  pub bound : s.wanted ≡ true → s.network_bound ≡ true

handle-IsConsistent :
    (has_url : Bool) (e : Event) (s : NotificationsSocket)
    → IsConsistent s
    → IsConsistent (handle has_url e s)
unfolding handle
handle-IsConsistent u connects s h = ground arith
handle-IsConsistent u disconnects s h = ground arith
handle-IsConsistent u retries_now s h = ground arith
handle-IsConsistent u (reads_tokens t) s h = ground arith
handle-IsConsistent u (opens now k) s h = ground arith
handle-IsConsistent u (messages now k) s h = ground arith
handle-IsConsistent u (closes now k) s h = ground arith
handle-IsConsistent u (errors now k) s h = ground arith
handle-IsConsistent u (falls_silent now) s h = ground arith
handle-IsConsistent u retry_due s h = ground arith
handle-IsConsistent u (goes_offline now) s h = ground arith
handle-IsConsistent u goes_online s h = ground arith

run-IsConsistent_from :
    (u : Bool) (es : List Event) (s : NotificationsSocket)
    → IsConsistent s
    → IsConsistent (run u es s)
unfolding run
run-IsConsistent_from u [] s h = h
run-IsConsistent_from u (e ∷ es) s h =
    run-IsConsistent_from u es (handle u e s) (handle-IsConsistent u e s h)

-- After any events the delay is one of the doublings of a second that the cap of thirty seconds
-- allows, the time that is shown is that of the armed retry, a retry is armed only while the
-- session is wanted, and a wanted session listens to the network.
pub run-IsConsistent : (u : Bool) (es : List Event) → IsConsistent (run u es initial)
run-IsConsistent u es = run-IsConsistent_from u es initial (ground arith)

-- A closed socket is told as reconnecting exactly if a retry is armed, and as offline if none is.
pub live_state_closed :
    (u : Bool) (es : List Event)
    → (run u es initial).status ≡ closed
    → ((live_state (run u es initial) ≡ reconnecting) ↔ ((run u es initial).retry ≢ none))
      × ((live_state (run u es initial) ≡ offline) ↔ ((run u es initial).retry ≡ none))
unfolding live_state
live_state_closed u es h = let c = run-IsConsistent u es in ground (arith, c.shown)
