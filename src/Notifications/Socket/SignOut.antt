-- ===== src/Notifications/Socket/SignOut.antt =====
-- What a sign-out ends, and what it does not (notifications-socket.ts).
use microservices_running.Prelude.{
  ℕ, ◌+◌, Bool, true, false, none, List, [], ◌∷◌, ◌≡◌, ◌≢◌, refl, arith, ◌∙◌, any, ◌==◌,
}
use microservices_running.Notifications.Socket.{NotificationsSocket, live, live_state, disconnect}
use microservices_running.Notifications.Socket.Invariant.{
  Event, connects, disconnects, retries_now, reads_tokens, opens, messages, closes, errors,
  falls_silent, retry_due, goes_offline, goes_online, handle, run,
}

-- No call of `connect` is among the events.
abbrev pub HasNoConnect : List Event → Type 0
HasNoConnect [] = Unit
HasNoConnect (e ∷ es) = (e ≢ connects) × HasNoConnect es

abbrev pub IsSignedOut : NotificationsSocket → Type 0
IsSignedOut s = (s.wanted ≡ false) × (s.socket ≡ none) × (s.retry ≡ none)

handle-IsSignedOut :
    (u : Bool) (e : Event) (s : NotificationsSocket)
    → e ≢ connects
    → IsSignedOut s
    → IsSignedOut (handle u e s) × ((handle u e s).created ≡ s.created)
unfolding handle
handle-IsSignedOut u connects s ne h = absurd (ne refl)
handle-IsSignedOut u disconnects s ne h = ground arith
handle-IsSignedOut u retries_now s ne h = ground arith
handle-IsSignedOut u (reads_tokens t) s ne h = ground arith
handle-IsSignedOut u (opens now k) s ne h = ground arith
handle-IsSignedOut u (messages now k) s ne h = ground arith
handle-IsSignedOut u (closes now k) s ne h = ground arith
handle-IsSignedOut u (errors now k) s ne h = ground arith
handle-IsSignedOut u (falls_silent now) s ne h = ground arith
handle-IsSignedOut u retry_due s ne h = ground arith
handle-IsSignedOut u (goes_offline now) s ne h = ground arith
handle-IsSignedOut u goes_online s ne h = ground arith

run-IsSignedOut :
    (u : Bool) (es : List Event) (s : NotificationsSocket)
    → HasNoConnect es
    → IsSignedOut s
    → IsSignedOut (run u es s) × ((run u es s).created ≡ s.created)
unfolding run
run-IsSignedOut u [] s h k = (k, refl)
run-IsSignedOut u (e ∷ es) s h k =
    let (k', same) = handle-IsSignedOut u e s h.0 k in
    let (k'', same') = run-IsSignedOut u es (handle u e s) h.1 k' in (k'', same' ∙ same)

-- After `disconnect`, and until `connect` is called, no event makes a WebSocket or arms a retry.
pub disconnect_lasts :
    (u : Bool) (es : List Event) (s : NotificationsSocket)
    → HasNoConnect es
    → IsSignedOut (run u es (disconnect s)) × ((run u es (disconnect s)).created ≡ s.created)
unfolding disconnect
disconnect_lasts u es s h =
    let (k, same) = run-IsSignedOut u es (disconnect s) h (ground arith) in (k, same ∙ ground arith)

-- A redial while one call of `open` still waits for the token store makes two WebSockets, of which
-- the sign-out forgets both and closes only the later one: the earlier one stays live, and when it
-- opens, the signed-out session is shown as live.
pub retry_now_orphans :
    (s : NotificationsSocket) (now : ℕ)
    → s.wanted ≡ true
    → s.socket ≡ none
    → s.reading ≡ 1
    → let after =
        run true (retries_now ∷ reads_tokens true ∷ reads_tokens true ∷ disconnects ∷ []) s in
      (after.created ≡ s.created + 2)
      × (after.wanted ≡ false)
      × (after.socket ≡ none)
      × (any (λ k. k == s.created) after.live ≡ true)
      × (live_state (handle true (opens now s.created) after) ≡ live)
unfolding run handle live_state
retry_now_orphans s now w n r = ground arith
