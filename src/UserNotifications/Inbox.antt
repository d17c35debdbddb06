-- ===== src/UserNotifications/Inbox.antt =====
-- Listing notifications and marking them read (services/users/src/notifications/queries/
-- list-notifications.query.ts, commands/mark-notifications-read.command.ts).
use microservices_running.Prelude.{
  ℕ, ◌-◌, ◌*◌, Bool, true, Option, none, some, List, [], ◌∷◌, ◌&&◌, not, any, is_some, leb,
}
use microservices_running.Prelude.Texts.{same_text}
use microservices_running.Effects.{returned, Io, return, ◌>>=◌}
use microservices_running.UserNotifications.{Text}

-- A row of `notifications`; `deleted` says that `deleted_at` is set, times are in milliseconds and
-- `content` stands for the type, the texts and the metadata.
pub record InboxRow : Type 0 where
  pub id : Text
  pub user_id : Text
  pub content : Text
  pub created_at : ℕ
  pub read_at : Option ℕ
  pub deleted : Bool

abbrev pub Test : Type 0
Test = InboxRow → Bool

-- The table behind Prisma, the caller and the clock. Writes go to the primary, whose rows are `rows`;
-- the reads go to a replica, whose rows are `replica`.
pub record InboxServices (W E : Type 0) : Type 0 where
  pub rows : W → List InboxRow
  pub replica : W → List InboxRow
  pub now : W → ℕ
  pub resolve : Io W E (Option Text)
  pub update_many : Test → (InboxRow → InboxRow) → Io W E ℕ
  pub count : Test → Io W E ℕ
  -- Newest first, at most `take`.
  pub find_many : Test → (take : ℕ) → Io W E (List InboxRow)

abbrev pub live : Test → Test
live p row = not row.deleted && p row

abbrev pub is_own : (user_id : Text) → Test
is_own user_id row = same_text row.user_id user_id

abbrev pub is_unread : (user_id : Text) → Test
is_unread user_id row = is_own user_id row && not (is_some row.read_at)

-- The rows that a request of these ids marks.
abbrev pub is_marked : (ids : List Text) → (user_id : Text) → Test
is_marked ids user_id row = any (same_text row.id) ids && is_unread user_id row

abbrev pub read_since : (now : ℕ) → InboxRow → InboxRow
read_since now row = record row { read_at = some now }

pub record MarkReadResult : Type 0 where
  pub updated : ℕ
  pub unread_count : ℕ

pub data NotificationFilter : Type 0 where
  all unread read : NotificationFilter

pub record InboxPage : Type 0 where
  pub items : List InboxRow
  pub unread_count : ℕ
  pub window_total : ℕ

abbrev pub notifications_limit : ℕ
notifications_limit = 50

abbrev pub window_days : ℕ
window_days = 90

abbrev pub passes : NotificationFilter → Test
passes all row = true
passes unread row = not (is_some row.read_at)
passes read row = is_some row.read_at

abbrev pub is_since : (start : ℕ) → (user_id : Text) → Test
is_since start user_id row = is_own user_id row && leb start row.created_at

module _ {W E : Type 0} (services : InboxServices W E) where
  -- The three reads that the extension keeps from soft-deleted rows.
  abbrev pub count : Test → Io W E ℕ
  count p = services.count (live p)

  abbrev pub unread_count : (user_id : Text) → Io W E ℕ
  unread_count user_id = count (is_unread user_id)

  abbrev pub counted : (user_id : Text) → (updated : ℕ) → Io W E MarkReadResult
  counted user_id updated = do
    still_unread ← unread_count user_id
    return (record { updated = updated; unread_count = still_unread })

  abbrev pub mark_for : (ids : List Text) → (user_id : Text) → Io W E MarkReadResult
  mark_for [] user_id w = counted user_id 0 w
  mark_for (id ∷ ids) user_id w =
      (services.update_many (live (is_marked (id ∷ ids) user_id)) (read_since (services.now w))
          >>= counted user_id)
        w

  -- No user is a routine failure with the same body.
  abbrev pub mark_resolved : (ids : List Text) → Option Text → Io W E MarkReadResult
  mark_resolved ids none = return (record { updated = 0; unread_count = 0 })
  mark_resolved ids (some user_id) = mark_for ids user_id

  -- `MarkNotificationsReadHandler.execute`.
  unfoldable pub mark_read : (ids : List Text) → Io W E MarkReadResult
  mark_read ids = services.resolve >>= mark_resolved ids

  abbrev pub page_for : NotificationFilter → (user_id : Text) → (start : ℕ) → Io W E InboxPage
  page_for filter user_id start = do
    items ←
        services.find_many (live (λ row. is_own user_id row && passes filter row))
          notifications_limit
    still_unread ← unread_count user_id
    total ← count (is_since start user_id)
    return (record { items = items; unread_count = still_unread; window_total = total })

  abbrev pub page_resolved : NotificationFilter → Option Text → Io W E InboxPage
  page_resolved filter none w =
      (returned (record { items = []; unread_count = 0; window_total = 0 }), w)
  page_resolved filter (some user_id) w =
      page_for filter user_id (services.now w - window_days * 86400000) w

  -- `ListNotificationsHandler.execute`.
  unfoldable pub list_notifications : NotificationFilter → Io W E InboxPage
  list_notifications filter = services.resolve >>= page_resolved filter
