-- ===== src/UserNotifications/Marking.antt =====
-- What marking notifications read does (services/users/src/notifications/commands/
-- mark-notifications-read.command.ts).
mod Examples
use microservices_running.Prelude.{
  ℕ, ◌+◌, Bool, true, false, Option, none, some, List, [], ◌∷◌, ◌&&◌, not, any, is_some, keep,
  length, map, if◌then◌else◌, ◌≡◌, refl, sym, ap, ◌∙◌, subst, ◌⊎◌, inl, inr, arith,
}
use microservices_running.Prelude.Texts.{same_text}
use microservices_running.Effects.{Outcome, returned, threw, Io, continue, return, ◌>>=◌}
use microservices_running.UserNotifications.{Text}
use microservices_running.UserNotifications.Inbox.{
  InboxRow, Test, InboxServices, live, is_own, is_unread, is_marked, read_since, MarkReadResult,
  unread_count, counted, mark_for, mark_resolved, mark_read,
}

-- The rows that a request of these ids is to mark: not deleted, listed, the user's own and unread.
abbrev pub to_mark : (ids : List Text) → (user_id : Text) → InboxRow → Bool
to_mark ids user_id row =
    not row.deleted
    && (any (same_text row.id) ids && (same_text row.user_id user_id && not (is_some row.read_at)))

-- The rows after a request, how many rows it marks, and how many are unread.
abbrev pub marked : (now : ℕ) → (ids : List Text) → (user_id : Text) → List InboxRow → List InboxRow
marked now ids user_id =
    map (λ row. if to_mark ids user_id row then record row { read_at = some now } else row)

abbrev pub marks : (ids : List Text) → (user_id : Text) → List InboxRow → ℕ
marks ids user_id rows = length (keep (to_mark ids user_id) rows)

abbrev pub unread_of : (user_id : Text) → List InboxRow → ℕ
unread_of user_id rows = length (
    keep (λ row. not row.deleted && (same_text row.user_id user_id && not (is_some row.read_at)))
      rows)

marks-again :
    (now : ℕ) (ids : List Text) (user_id : Text) (rows : List InboxRow)
    → marks ids user_id (marked now ids user_id rows) ≡ 0
marks-again now ids user_id [] = omega arith
marks-again now ids user_id (x ∷ xs) = ground (arith, marks-again now ids user_id xs)

marked-none :
    (now : ℕ) (ids : List Text) (user_id : Text) (rows : List InboxRow)
    → marks ids user_id rows ≡ 0
    → marked now ids user_id rows ≡ rows
marked-none now ids user_id [] none_marked = refl
marked-none now ids user_id (x ∷ xs) none_marked =
    ground (arith, marked-none now ids user_id xs, none_marked)

marks-no_ids : (user_id : Text) (rows : List InboxRow) → marks [] user_id rows ≡ 0
marks-no_ids user_id [] = omega arith
marks-no_ids user_id (x ∷ xs) = ground (arith, marks-no_ids user_id xs)

-- What the code relies on: only the statement writes, on the rows of the primary that pass its test,
-- and not if it throws, and it answers how many passed; a count answers how many rows of the replica
-- pass, which may lag behind.
pub record IsInbox {W E : Type 0} (services : InboxServices W E) : Type 0 where
  pub resolve_reads : (w : W) → services.rows (services.resolve w).1 ≡ services.rows w
  pub count_reads : (p : Test) (w : W) → services.rows (services.count p w).1 ≡ services.rows w
  pub count_counts :
      (p : Test) (n : ℕ) (w : W)
      → (services.count p w).0 ≡ returned n
      → n ≡ length (keep p (services.replica (services.count p w).1))
  pub update_writes :
      (p : Test) (f : InboxRow → InboxRow) (n : ℕ) (w : W)
      → (services.update_many p f w).0 ≡ returned n
      → (n ≡ length (keep p (services.rows w)))
        × (services.rows (services.update_many p f w).1
            ≡ map (λ row. if p row then f row else row) (services.rows w))
  pub update_threw :
      (p : Test) (f : InboxRow → InboxRow) (err : E) (w : W)
      → (services.update_many p f w).0 ≡ threw err
      → services.rows (services.update_many p f w).1 ≡ services.rows w

module _ {W E : Type 0} (services : InboxServices W E) (laws : IsInbox services)
    (user_id : Text) where
  -- After a request of `ids` in which the rows `old` were found, at the time `now`.
  abbrev pub IsMarked :
      (ids : List Text) → (now : ℕ) → (old : List InboxRow) → Outcome E MarkReadResult × W → Type 0
  IsMarked ids now old (returned result, w) =
      (services.rows w ≡ marked now ids user_id old)
      × (result.updated ≡ marks ids user_id old)
      × (result.unread_count ≡ unread_of user_id (services.replica w))
  IsMarked ids now old (threw err, w) =
      (services.rows w ≡ old) ⊎ (services.rows w ≡ marked now ids user_id old)

  counted-IsMarked :
      (ids : List Text) (now updated : ℕ) (old : List InboxRow) (w : W) (o : Outcome E ℕ × W)
      → services.count (live (is_unread user_id)) w ≡ o
      → services.rows w ≡ marked now ids user_id old
      → updated ≡ marks ids user_id old
      → IsMarked ids now old
          (continue o (λ n. return (record { updated = updated; unread_count = n })))
  counted-IsMarked ids now updated old w (returned n, v) eq done many =
      let p = live (is_unread user_id) in
      (
        ap (λ r. services.rows r.1) (sym eq) ∙ laws.count_reads p w ∙ done,
        many,
        laws.count_counts p n w (ap (λ r. r.0) eq)
            ∙ ap (λ r. length (keep p (services.replica r.1))) eq,
      )
  counted-IsMarked ids now updated old w (threw err, v) eq done many =
      inr (
        ap (λ r. services.rows r.1) (sym eq) ∙ laws.count_reads (live (is_unread user_id)) w ∙ done)

  updated-IsMarked :
      (ids : List Text) (now : ℕ) (w : W) (o : Outcome E ℕ × W)
      → services.update_many (live (is_marked ids user_id)) (read_since now) w ≡ o
      → IsMarked ids now (services.rows w) (continue o (counted services user_id))
  updated-IsMarked ids now w (returned n, v) eq =
      let (many, done) =
        laws.update_writes (live (is_marked ids user_id)) (read_since now) n w (ap (λ r. r.0) eq) in
      counted-IsMarked ids now n (services.rows w) v (services.count (live (is_unread user_id)) v)
        refl (ap (λ r. services.rows r.1) (sym eq) ∙ done) many
  updated-IsMarked ids now w (threw err, v) eq = inl (
      ap (λ r. services.rows r.1) (sym eq)
      ∙ laws.update_threw (live (is_marked ids user_id)) (read_since now) err w (ap (λ r. r.0) eq))

  mark_for-IsMarked :
      (ids : List Text) (w : W)
      → IsMarked ids (services.now w) (services.rows w) (mark_for services ids user_id w)
  mark_for-IsMarked [] w =
      counted-IsMarked [] (services.now w) 0 (services.rows w) w
        (services.count (live (is_unread user_id)) w) refl
        (sym (
          marked-none (services.now w) [] user_id (services.rows w)
            (marks-no_ids user_id (services.rows w))))
        (sym (marks-no_ids user_id (services.rows w)))
  mark_for-IsMarked (id ∷ ids) w = updated-IsMarked (id ∷ ids) (services.now w) w _ refl

  abbrev user_of : Outcome E (Option Text) → Text
  user_of (returned none) = user_id
  user_of (returned (some u)) = u
  user_of (threw err) = user_id

  resolved-IsMarked :
      (ids : List Text) (w : W) (o : Outcome E (Option Text) × W)
      → services.resolve w ≡ o
      → o.0 ≡ returned (some user_id)
      → IsMarked ids (services.now o.1) (services.rows w) (continue o (mark_resolved services ids))
  resolved-IsMarked ids w (returned none, v) eq found = ground (arith, found)
  resolved-IsMarked ids w (returned (some user), v) eq found =
      subst (λ old. IsMarked ids (services.now v) old (mark_for services ids user v))
        (ap (λ r. services.rows r.1) (sym eq) ∙ laws.resolve_reads w)
        (subst (λ u. IsMarked ids (services.now v) (services.rows v) (mark_for services ids u v))
          (sym (ap user_of found)) (mark_for-IsMarked ids v))
  resolved-IsMarked ids w (threw err, v) eq found = ground (arith, found)

  -- For a caller who is a user: a request that is answered has set the time on exactly the rows of the
  -- primary that are not deleted, listed, the caller's own and unread, of which it answers the number,
  -- and changed nothing else; the unread count that it answers is that of the replica as it then is,
  -- whether or not the replica shows the update. If it throws, the rows are as they were or those
  -- rows are marked.
  pub mark_read-IsMarked :
      (ids : List Text) (w : W)
      → (services.resolve w).0 ≡ returned (some user_id)
      → IsMarked ids
          (services.now (services.resolve w).1)
          (services.rows w)
          (mark_read services ids w)
  unfolding mark_read
  mark_read-IsMarked ids w found = resolved-IsMarked ids w (services.resolve w) refl found

  -- The same request a second time, after one that was answered: it answers that it updated none, and
  -- the rows keep the time of the first.
  pub mark_read-twice :
      (ids : List Text) (first second : MarkReadResult) (w w₁ w₂ : W)
      → (services.resolve w).0 ≡ returned (some user_id)
      → (services.resolve w₁).0 ≡ returned (some user_id)
      → mark_read services ids w ≡ (returned first, w₁)
      → mark_read services ids w₁ ≡ (returned second, w₂)
      → (second.updated ≡ 0) × (services.rows w₂ ≡ services.rows w₁)
  mark_read-twice ids first second w w₁ w₂ found found₁ one two =
      let (done, _, _) =
        subst (IsMarked ids (services.now (services.resolve w).1) (services.rows w)) one
          (mark_read-IsMarked ids w found) in
      let (done₁, many₁, _) =
        subst (IsMarked ids (services.now (services.resolve w₁).1) (services.rows w₁)) two
          (mark_read-IsMarked ids w₁ found₁) in
      let none_left =
        ap (marks ids user_id) done
        ∙ marks-again (services.now (services.resolve w).1) ids user_id (services.rows w) in
      (
        many₁ ∙ none_left,
        done₁
            ∙ marked-none (services.now (services.resolve w₁).1) ids user_id (services.rows w₁)
                none_left,
      )
