-- ===== src/Notifications/Store/Marking.antt =====
-- What marking sends, and what its replies leave (notifications-store.ts).
use microservices_running.Prelude.{
  ℕ, String, true, none, List, [], ◌∷◌, ◌++◌, str_eq, str_eq_iff, str_eq_refl, not, ◌&&◌, ◌||◌,
  keep, ◌≡◌, ◌≢◌, ◌∙◌, refl, arith, inl, inr, Bool-cases, ap, sym,
}
use microservices_running.Notifications.Types.{AppNotification}
use microservices_running.Notifications.Store.{
  NotificationsStore, ServerError, answered, refused, has, unread_ids, with_read_at, mark_all_read,
  enter_all_screen, enter_all_screen_reply, receive,
}

-- The ids of `ids` that are not in `marked`.
abbrev beyond : List String → List String → List String
beyond marked ids = keep (λ id. not (has marked id)) ids

has-append : (xs ys : List String) (id : String) → has (xs ++ ys) id ≡ (has xs id || has ys id)
has-append [] ys id = refl
has-append (x ∷ xs) ys id = ground (arith, has-append xs ys id)

has-beyond :
    (marked ids : List String) (id : String)
    → has (beyond marked ids) id ≡ (has ids id && not (has marked id))
has-beyond marked [] id = refl
has-beyond marked (x ∷ ids) id = elim (Bool-cases (str_eq x id)) [
  | inl same ↦ rw ((str_eq_iff x id).0 same) (ground (arith, has-beyond marked ids id))
  | inr other ↦ ground (arith, has-beyond marked ids id)
]

-- Nothing is beyond a list that has every one of them.
beyond-nil :
    (marked ids : List String)
    → ((id : String) → has ids id ≡ true → has marked id ≡ true)
    → beyond marked ids ≡ []
beyond-nil marked [] h = refl
beyond-nil marked (x ∷ ids) h =
    ground (arith, str_eq_refl x, h x, beyond-nil marked ids (λ id k. h id (ground arith)))

-- A second "Mark all as read" before the reply to the first sends nothing.
pub mark_all_read_twice : (s : NotificationsStore) → (mark_all_read (mark_all_read s).0).1 ≡ []
unfolding mark_all_read
mark_all_read_twice s =
    beyond-nil (beyond s.marking (unread_ids s.items) ++ s.marking) (unread_ids s.items) (λ id h.
      ground (
        arith,
        has-append (beyond s.marking (unread_ids s.items)) s.marking id,
        has-beyond s.marking (unread_ids s.items) id,
      ))

unread_ids-with_read_at :
    (items : List AppNotification) (ids : List String) (now : String)
    → unread_ids (with_read_at items ids now) ≡ beyond ids (unread_ids items)
unfolding unread_ids with_read_at
unread_ids-with_read_at [] ids now = refl
unread_ids-with_read_at (item ∷ items) ids now =
    ground (arith, unread_ids-with_read_at items ids now)

-- Once the server has answered, the ids that were sent are unread no more and are highlighted, no
-- other row changes its state, and the unread count is the server's. Where it refused, the rows,
-- the count and the highlight are as they were, and an error is shown.
pub enter_all_screen_reply_lem :
    (fresh : List String) (now : String) (count : ℕ) (err : ServerError) (s : NotificationsStore)
    → let done = enter_all_screen_reply fresh now (answered count) s in
      let undone = enter_all_screen_reply fresh now (refused err) s in
      (unread_ids done.items ≡ keep (λ id. not (has fresh id)) (unread_ids s.items))
      × (done.unread_count ≡ count)
      × (done.highlighted ≡ s.highlighted ++ fresh)
      × (undone.items ≡ s.items)
      × (undone.unread_count ≡ s.unread_count)
      × (undone.highlighted ≡ s.highlighted)
      × (undone.error ≢ none)
unfolding enter_all_screen_reply
enter_all_screen_reply_lem fresh now count err s =
    (unread_ids-with_read_at s.items fresh now, refl, refl, refl, refl, refl, λ e. cc)

released : (fresh marking : List String) → marking ≡ [] → beyond fresh (fresh ++ marking) ≡ marking
released fresh marking idle =
    beyond-nil fresh (fresh ++ marking) (λ id h. ground (arith, has-append fresh marking id))
    ∙ sym idle

-- Where nothing else is in flight, entering again after a refusal sends the same ids again.
pub enter_all_screen_retry :
    (s : NotificationsStore) (now : String) (err : ServerError)
    → s.marking ≡ []
    → let (entered, fresh) = enter_all_screen s in
      (enter_all_screen (enter_all_screen_reply fresh now (refused err) entered)).1 ≡ fresh
unfolding enter_all_screen enter_all_screen_reply
enter_all_screen_retry s now err idle =
    ap (λ m. keep (λ id. not (has s.highlighted id) && not (has m id)) (unread_ids s.items))
      (released (enter_all_screen s).1 s.marking idle)

-- A frame that is replayed at once, with the same count, changes nothing.
pub receive_idempotent :
    (n : AppNotification) (count : ℕ) (s : NotificationsStore)
    → receive n count (receive n count s) ≡ receive n count s
unfolding receive
receive_idempotent n count s = ground (arith, str_eq_refl n.id)
