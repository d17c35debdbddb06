-- ===== src/UserNotifications/Marking/Examples.antt =====
-- The theorems on marking, with a table that is the world.
use microservices_running.Prelude.{
  String, ℕ, false, none, some, List, [], ◌∷◌, keep, length, map, if◌then◌else◌, refl, sym, ap,
  arith,
}
use microservices_running.Effects.{Outcome, returned, threw}
use microservices_running.Session.{codes}
use microservices_running.UserNotifications.Inbox.{InboxRow, InboxServices, mark_read}
use microservices_running.UserNotifications.Marking.{IsInbox, IsMarked, mark_read-IsMarked}

abbrev number_or : ℕ → Outcome ℕ ℕ → ℕ
number_or d (returned n) = n
number_or d (threw err) = d

-- The primary, and a replica that never catches up.
abbrev Rows : Type 0
Rows = List InboxRow × List InboxRow

abbrev table : InboxServices Rows ℕ
table = record {
  rows = λ w. w.0;
  replica = λ w. w.1;
  now = λ w. 1000;
  resolve = λ w. (returned (some (codes "ana")), w);
  update_many = λ p f w.
      (returned (length (keep p w.0)), (map (λ row. if p row then f row else row) w.0, w.1));
  count = λ p w. (returned (length (keep p w.1)), w);
  find_many = λ p take w. (returned (keep p w.1), w);
}

table-IsInbox : IsInbox table
table-IsInbox = record {
  resolve_reads = λ w. refl;
  count_reads = λ p w. refl;
  count_counts = λ p n w same. sym (ap (number_or 0) same);
  update_writes = λ p f n w same. (sym (ap (number_or 0) same), refl);
  update_threw = λ p f err w same. ground (arith, same);
}

abbrev row : (id owner : String) → InboxRow
row id owner = record {
  id = codes id;
  user_id = codes owner;
  content = [];
  created_at = 0;
  read_at = none;
  deleted = false;
}

abbrev inbox : List InboxRow
inbox = row "n1" "ana" ∷ row "n2" "ana" ∷ row "n3" "bea" ∷ []

-- The ids of one row of the caller and of one of somebody else.
mark_read-IsMarked_example :
    IsMarked table table-IsInbox
      (codes "ana")
      (codes "n1" ∷ codes "n3" ∷ [])
      1000
      inbox
      (mark_read table (codes "n1" ∷ codes "n3" ∷ []) (inbox, inbox))
mark_read-IsMarked_example =
    mark_read-IsMarked table table-IsInbox (codes "ana") (codes "n1" ∷ codes "n3" ∷ [])
      (inbox, inbox) refl
