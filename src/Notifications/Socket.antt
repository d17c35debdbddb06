-- ===== src/Notifications/Socket.antt =====
-- apps/web/src/app/core/notifications/notifications-socket.ts. Time is in milliseconds, and a timer
-- is the instant at which it is due. `has_url` says whether APP_CONFIG.wsUrl is set. A WebSocket is
-- a number; `created` and `live` are the browser's: how many were made, and which of them neither
-- this code nor the peer has closed. `reading` counts the calls of `open` that wait for the token
-- store: any number of them may wait at once.
pub mod Invariant
pub mod SignOut
mod Examples
use microservices_running.Prelude.{
  ℕ, suc, ◌+◌, ◌-◌, ◌*◌, Bool, true, false, Option, none, some, List, [], ◌∷◌, ◌==◌, ltb, leb, not,
  ◌||◌, is_some, if◌then◌else◌, keep,
}

pub data SocketStatus : Type 0 where
  idle connecting opened closed : SocketStatus

pub data LiveSessionState : Type 0 where
  connecting live reconnecting offline : LiveSessionState

abbrev pub base_retry_ms : ℕ
base_retry_ms = 1000

abbrev pub max_retry_ms : ℕ
max_retry_ms = 30000

abbrev pub silence_ms : ℕ
silence_ms = 70000

-- The silence timer holds the socket that it closes.
pub record NotificationsSocket : Type 0 where
  pub status : SocketStatus
  pub socket : Option ℕ
  pub retry : Option ℕ
  pub retry_delay : ℕ
  pub wanted : Bool
  pub attempts : ℕ
  pub retry_at : Option ℕ
  pub silence : Option (ℕ × ℕ)
  pub network_bound : Bool
  pub reading : ℕ
  pub created : ℕ
  pub live : List ℕ

abbrev pub initial : NotificationsSocket
initial = record {
  status = idle;
  socket = none;
  retry = none;
  retry_delay = base_retry_ms;
  wanted = false;
  attempts = 0;
  retry_at = none;
  silence = none;
  network_bound = false;
  reading = 0;
  created = 0;
  live = [];
}

abbrev is_connecting : SocketStatus → Bool
is_connecting SocketStatus.connecting = true
is_connecting _ = false

unfoldable pub live_state : NotificationsSocket → LiveSessionState
live_state s = elim s.status [
  | opened ↦ live
  | SocketStatus.connecting ↦ if leb s.attempts 1 then LiveSessionState.connecting else reconnecting
  | closed ↦ elim s.retry_at [ none ↦ offline | some _ ↦ reconnecting ]
  | idle ↦ if s.attempts == 0 then LiveSessionState.connecting else offline
]

-- `socket.close()`
unfoldable pub close : ℕ → NotificationsSocket → NotificationsSocket
close k s = record s { live = keep (λ j. not (j == k)) s.live }

-- The part of `open` before it waits for the token store.
unfoldable pub open_socket : (has_url : Bool) → NotificationsSocket → NotificationsSocket
open_socket has_url s =
    if has_url then record s { status = SocketStatus.connecting; reading = suc s.reading } else s

-- The part after: one waiting call goes on, with or without tokens.
unfoldable pub tokens_read : (has_tokens : Bool) → NotificationsSocket → NotificationsSocket
tokens_read has_tokens s =
    let s' = record s { reading = s.reading - 1 } in
    if not s.wanted
    then s'
    else if not has_tokens
    then record s' { status = closed }
    else record s' {
      attempts = suc s.attempts;
      socket = some s.created;
      created = suc s.created;
      live = s.created ∷ s.live;
    }

unfoldable pub connect : (has_url : Bool) → NotificationsSocket → NotificationsSocket
unfolding open_socket
connect has_url s =
    if is_some s.socket || is_connecting s.status
    then s
    else open_socket has_url (record s { wanted = true; network_bound = true })

unfoldable pub clear_retry : NotificationsSocket → NotificationsSocket
clear_retry s = record s { retry = none; retry_at = none }

unfoldable pub clear_silence : NotificationsSocket → NotificationsSocket
clear_silence s = record s { silence = none }

abbrev close_current : Option ℕ → NotificationsSocket → NotificationsSocket
close_current none s = s
close_current (some k) s = close k s

unfoldable pub disconnect : NotificationsSocket → NotificationsSocket
unfolding clear_retry clear_silence close
disconnect s =
    let s' = clear_silence (clear_retry (record s { wanted = false })) in
    record (close_current s.socket
      (record s' { retry_delay = base_retry_ms; attempts = 0; socket = none })) { status = closed }

unfoldable pub retry_now : (has_url : Bool) → NotificationsSocket → NotificationsSocket
unfolding open_socket clear_retry
retry_now has_url s =
    if not s.wanted || is_some s.socket
    then s
    else open_socket has_url (record (clear_retry s) { retry_delay = base_retry_ms })

unfoldable pub watch_silence : (now : ℕ) → ℕ → NotificationsSocket → NotificationsSocket
unfolding clear_silence
watch_silence now k s = record (clear_silence s) { silence = some (now + silence_ms, k) }

-- `Math.min(delay * 2, MAX_RETRY_MS)`
unfoldable pub schedule_retry : (now : ℕ) → NotificationsSocket → NotificationsSocket
schedule_retry now s = if not s.wanted || is_some s.retry then s else record s {
  retry_delay = if ltb max_retry_ms (s.retry_delay * 2) then max_retry_ms else s.retry_delay * 2;
  retry_at = some (now + s.retry_delay);
  retry = some (now + s.retry_delay);
}

abbrev is_current : ℕ → NotificationsSocket → Bool
is_current k s = elim s.socket [ none ↦ false | some j ↦ j == k ]

unfoldable pub lost : (now : ℕ) → ℕ → NotificationsSocket → NotificationsSocket
unfolding clear_silence schedule_retry
lost now k s =
    if is_current k s
    then schedule_retry now (record (clear_silence s) { socket = none; status = closed })
    else s

-- The handlers of one WebSocket. `on_close` and `on_error` are the events of a socket that is dead.
unfoldable pub on_open : (now : ℕ) → ℕ → NotificationsSocket → NotificationsSocket
unfolding watch_silence
on_open now k s = watch_silence now k (record s { retry_delay = base_retry_ms; status = opened })

unfoldable pub on_message : (now : ℕ) → ℕ → NotificationsSocket → NotificationsSocket
unfolding watch_silence
on_message now k s = watch_silence now k s

unfoldable pub on_close : (now : ℕ) → ℕ → NotificationsSocket → NotificationsSocket
unfolding close lost
on_close now k s = lost now k (close k s)

-- The timers, and the two network events, whose listeners exist once they are bound.
unfoldable pub silence_fires : (now : ℕ) → NotificationsSocket → NotificationsSocket
unfolding close lost
silence_fires now s = elim s.silence [
  | none ↦ s
  | some due ↦ lost now due.1 (close due.1 (record s { silence = none }))
]

unfoldable pub retry_fires : (has_url : Bool) → NotificationsSocket → NotificationsSocket
unfolding open_socket
retry_fires has_url s = elim s.retry [
  | none ↦ s
  | some _ ↦ open_socket has_url (record s { retry = none; retry_at = none })
]

unfoldable pub offline_event : (now : ℕ) → NotificationsSocket → NotificationsSocket
unfolding close lost
offline_event now s =
    if s.network_bound then elim s.socket [ none ↦ s | some k ↦ lost now k (close k s) ] else s

unfoldable pub online_event : (has_url : Bool) → NotificationsSocket → NotificationsSocket
unfolding retry_now
online_event has_url s = if s.network_bound then retry_now has_url s else s
