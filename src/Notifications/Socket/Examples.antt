-- ===== src/Notifications/Socket/Examples.antt =====
-- The theorems on the notifications socket at a session.
use microservices_running.Prelude.{true, false, none, List, [], ◌∷◌, ◌≡◌, refl, any, ◌==◌}
use microservices_running.Notifications.Socket.{
  NotificationsSocket, initial, live, live_state, disconnect,
}
use microservices_running.Notifications.Socket.Invariant.{
  Event, connects, disconnects, retries_now, reads_tokens, opens, errors, retry_due, goes_online,
  handle, run,
}
use microservices_running.Notifications.Socket.SignOut.{
  IsSignedOut, disconnect_lasts, retry_now_orphans,
}

-- A handshake that fails.
abbrev failing : List Event
failing = connects ∷ reads_tokens true ∷ errors 500 0 ∷ []

abbrev signed_in : NotificationsSocket
signed_in = run true (connects ∷ reads_tokens true ∷ opens 10 0 ∷ []) initial

disconnect_lasts_example :
    let s = run true (retry_due ∷ goes_online ∷ retries_now ∷ []) (disconnect signed_in) in
    IsSignedOut s × (s.created ≡ signed_in.created)
disconnect_lasts_example =
    disconnect_lasts true (retry_due ∷ goes_online ∷ retries_now ∷ []) signed_in
      ((λ e. cc), ((λ e. cc), ((λ e. cc), tt)))

abbrev dialling : NotificationsSocket
dialling = run true (connects ∷ []) initial

retry_now_orphans_example :
    let after =
      run true (retries_now ∷ reads_tokens true ∷ reads_tokens true ∷ disconnects ∷ []) dialling in
    (after.created ≡ 2)
    × (after.wanted ≡ false)
    × (after.socket ≡ none)
    × (any (λ k. k == 0) after.live ≡ true)
    × (live_state (handle true (opens 20 0) after) ≡ live)
unfolding run handle
retry_now_orphans_example = retry_now_orphans dialling 20 refl refl refl
