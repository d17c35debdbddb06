-- ===== src/Notifications/Store.antt =====
-- apps/web/src/app/core/notifications/notifications-store.ts. A method that waits for the server is
-- two functions: what it does up to the request, with the request it sends, and what it does with
-- the reply. Other calls may come between the two. `ApiError` carries a status and a detail; any
-- other thrown value is `thrown`.
pub mod Marking
use microservices_running.Prelude.{
  ℕ, ◌+◌, String, Bool, true, false, Option, none, some, List, [], ◌∷◌, ◌++◌, map, str_eq, not,
  ◌&&◌, ◌==◌, leb, ltb, any, keep, is_some, if◌then◌else◌,
}
use microservices_running.Notifications.Types.{AppNotification}

pub data ServerError : Type 0 where
  api_error : (status : ℕ) (detail : String) → ServerError
  thrown : ServerError

pub data Reply (A : Type 0) : Type 0 where
  answered : A → Reply A
  refused : ServerError → Reply A

pub data NotificationFilter : Type 0 where
  all unread read : NotificationFilter

pub record NotificationsPage : Type 0 where
  pub items : List AppNotification
  pub unread_count : ℕ
  pub window_total : ℕ

-- The signal state, and the two guards beside it.
pub record NotificationsStore : Type 0 where
  pub items : List AppNotification
  pub unread_count : ℕ
  pub window_total : ℕ
  pub filter : NotificationFilter
  pub loading : Bool
  pub error : Option String
  pub highlighted : List String
  pub marking : List String
  pub listing : Bool

abbrev pub initial : NotificationsStore
initial = record {
  items = [];
  unread_count = 0;
  window_total = 0;
  filter = all;
  loading = false;
  error = none;
  highlighted = [];
  marking = [];
  listing = false;
}

abbrev pub unreachable : String
unreachable = "We could not reach your notifications. Check your connection and try again."

abbrev pub failed : String
failed = "We could not update your notifications. Please try again."

unfoldable pub message_for : ServerError → String → String
message_for thrown fallback = fallback
message_for (api_error status detail) fallback =
    if status == 0 then unreachable else if leb 500 status then fallback else detail

-- `set.has(id)`
abbrev pub has : List String → String → Bool
has ids id = any (λ i. str_eq i id) ids

unfoldable pub with_read_at : List AppNotification → List String → String → List AppNotification
with_read_at items ids read_at =
    map (λ item. if has ids item.id then record item { read_at = some read_at } else item) items

unfoldable pub matches_filter : AppNotification → NotificationFilter → Bool
matches_filter item unread = not (is_some item.read_at)
matches_filter item read = is_some item.read_at
matches_filter item all = true

unfoldable pub visible : NotificationsStore → List AppNotification
unfolding matches_filter
visible s = keep (λ item. matches_filter item s.filter) s.items

unfoldable pub unread_ids : List AppNotification → List String
unread_ids items = map (λ item. item.id) (keep (λ item. not (is_some item.read_at)) items)

unfoldable pub fetch :
    NotificationFilter → NotificationsStore → NotificationsStore × Option NotificationFilter
fetch filter s =
    if s.listing
    then (s, none)
    else (record s { listing = true; filter = filter; loading = true; error = none }, some filter)

unfoldable pub fetch_reply : Reply NotificationsPage → NotificationsStore → NotificationsStore
unfolding message_for
fetch_reply (answered page) s = record s {
  items = page.items;
  unread_count = page.unread_count;
  window_total = page.window_total;
  listing = false;
  loading = false;
}
fetch_reply (refused err) s = record s {
  error = some (message_for err unreachable);
  listing = false;
  loading = false;
}

abbrev filter_eq : NotificationFilter → NotificationFilter → Bool
filter_eq all all = true
filter_eq unread unread = true
filter_eq read read = true
filter_eq _ _ = false

unfoldable pub set_filter :
    NotificationFilter → NotificationsStore → NotificationsStore × Option NotificationFilter
unfolding fetch
set_filter filter s = if filter_eq filter s.filter then (s, none) else fetch filter s

-- `markRead` once the server has replied, with the `unreadCount` of the answer.
unfoldable pub mark_read_reply :
    List String → (now : String) → Reply ℕ → NotificationsStore → NotificationsStore × Bool
unfolding with_read_at message_for
mark_read_reply ids now (answered unread_count) s = (
  record s { items = with_read_at s.items ids now; unread_count = unread_count; error = none },
  true,
)
mark_read_reply ids now (refused err) s =
    (record s { error = some (message_for err failed) }, false)

-- `marking.delete(id)` for each of them.
unfoldable pub release : List String → NotificationsStore → NotificationsStore
release ids s = record s { marking = keep (λ id. not (has ids id)) s.marking }

-- The ids to send are put into `marking`; an empty list is not sent.
unfoldable pub mark_all_read : NotificationsStore → NotificationsStore × List String
unfolding unread_ids
mark_all_read s =
    let fresh = keep (λ id. not (has s.marking id)) (unread_ids s.items) in
    (record s { marking = fresh ++ s.marking }, fresh)

unfoldable pub mark_all_read_reply :
    List String → (now : String) → Reply ℕ → NotificationsStore → NotificationsStore
unfolding mark_read_reply release
mark_all_read_reply fresh now reply s = release fresh (mark_read_reply fresh now reply s).0

unfoldable pub enter_all_screen : NotificationsStore → NotificationsStore × List String
unfolding unread_ids
enter_all_screen s =
    let fresh =
      keep (λ id. not (has s.highlighted id) && not (has s.marking id)) (unread_ids s.items) in
    (record s { marking = fresh ++ s.marking }, fresh)

-- The highlight is committed only where the request has landed.
unfoldable pub enter_all_screen_reply :
    List String → (now : String) → Reply ℕ → NotificationsStore → NotificationsStore
unfolding mark_read_reply release
enter_all_screen_reply fresh now reply s =
    let (s', landed) = mark_read_reply fresh now reply s in
    release fresh (if landed then record s' { highlighted = s'.highlighted ++ fresh } else s')

unfoldable pub leave_all_screen : NotificationsStore → NotificationsStore
leave_all_screen s = record s { highlighted = [] }

unfoldable pub receive : AppNotification → ℕ → NotificationsStore → NotificationsStore
receive notification unread_count s =
    let present = any (λ item. str_eq item.id notification.id) s.items in
    record s {
      items = if present then s.items else notification ∷ s.items;
      unread_count = unread_count;
    }
