-- ===== src/Realtime/FanOut.antt =====
-- Which connections a push leaves in the table
-- (services/users/src/shared/realtime/websocket-publisher.ts).
use microservices_running.Prelude.{
  String, Bool, true, false, List, [], ◌∷◌, str_eq, str_eq_iff, keep, if◌then◌else◌, ◌≡◌, refl, sym,
  ap, ◌∙◌, subst, arith, inl, inr, Bool-cases,
}
use microservices_running.Effects.{Outcome, returned, threw, Io}
use microservices_running.Realtime.{Connection, CallError, Dynamo, has_id, without}
use microservices_running.Realtime.Publishing.{is_gone, posted, post_all, served, fan_out}

abbrev pub Deleted : Outcome CallError (Unit {0}) → String → (old new : List Connection) → Type 0
Deleted (returned _) id old new = new ≡ without id old
Deleted (threw _) id old new = new ≡ old

-- What the code relies on: a query and a post leave the table as it is, a deletion that returned
-- removed the row of its key, one that threw removed nothing.
pub record IsDynamo {W M : Type 0} (db : Dynamo W) (post : String → M → Io W CallError (Unit {0}))
    : Type 0 where
  pub query_reads : (sub : String) (w : W) → db.rows (db.query_by_cognito_sub sub w).1 ≡ db.rows w
  pub post_reads : (id : String) (m : M) (w : W) → db.rows (post id m w).1 ≡ db.rows w
  pub delete_writes :
      (id : String) (w : W) → Deleted (db.delete id w).0 id (db.rows w) (db.rows (db.delete id w).1)

-- Whether a post was refused because the connection is gone.
abbrev pub says_gone : Outcome CallError (Unit {0}) → Bool
says_gone (returned _) = false
says_gone (threw e) = is_gone e

keep-without :
    (id x : String) (cs : List Connection)
    → str_eq id x ≡ false
    → keep (has_id x) (without id cs) ≡ keep (has_id x) cs
keep-without id x [] other = refl
keep-without id x (c ∷ cs) other =
    ground (arith, keep-without id x cs other, str_eq_iff c.connection_id id)

Deleted-keep :
    (o : Outcome CallError (Unit {0})) (id x : String) (old new : List Connection)
    → Deleted o id old new
    → str_eq id x ≡ false
    → keep (has_id x) new ≡ keep (has_id x) old
Deleted-keep (returned _) id x old new wrote other =
    ap (keep (has_id x)) wrote ∙ keep-without id x old other
Deleted-keep (threw _) id x old new wrote other = ap (keep (has_id x)) wrote

module _ {W M : Type 0} (db : Dynamo W) (post : String → M → Io W CallError (Unit {0}))
    (laws : IsDynamo db post) where
  posted-same :
      (id : String) (o : Outcome CallError (Unit {0}) × W)
      → says_gone o.0 ≡ false
      → posted db post id o ≡ o.1
  posted-same id (returned _, w) here = refl
  posted-same id (threw e, w) here = ap (λ b. if b then (db.delete id w).1 else w) here

  deleted_or_not-keep :
      (b : Bool) (id x : String) (w : W)
      → str_eq id x ≡ false
      → keep (has_id x) (db.rows (if b then (db.delete id w).1 else w))
        ≡ keep (has_id x) (db.rows w)
  deleted_or_not-keep true id x w other =
      Deleted-keep (db.delete id w).0 id x (db.rows w) _ (laws.delete_writes id w) other
  deleted_or_not-keep false id x w other = refl

  posted-keep :
      (id x : String) (o : Outcome CallError (Unit {0}) × W)
      → str_eq id x ≡ false
      → keep (has_id x) (db.rows (posted db post id o)) ≡ keep (has_id x) (db.rows o.1)
  posted-keep id x (returned _, w) other = refl
  posted-keep id x (threw e, w) other = deleted_or_not-keep (is_gone e) id x w other

  post_all-keep :
      (x : String) (message : M) (ids : List String) (w : W)
      → ((v : W) → says_gone (post x message v).0 ≡ false)
      → keep (has_id x) (db.rows (post_all db post message ids w)) ≡ keep (has_id x) (db.rows w)
  post_all-keep x message [] w alive = refl
  post_all-keep x message (id ∷ ids) w alive =
      let o = post id message w in
      post_all-keep x message ids (posted db post id o) alive
      ∙ (elim (Bool-cases (str_eq id x)) [
        | inl same ↦
            ap (λ v. keep (has_id x) (db.rows v))
              (posted-same id o (
                subst (λ i. says_gone (post i message w).0 ≡ false) (sym ((str_eq_iff id x).0 same))
                  (alive w)))
        | inr other ↦ posted-keep id x o other
      ])
      ∙ ap (keep (has_id x)) (laws.post_reads id message w)

  served-keep :
      (x : String) (message : M) (o : Outcome CallError (List String) × W)
      → ((v : W) → says_gone (post x message v).0 ≡ false)
      → keep (has_id x) (db.rows (served db post message o)) ≡ keep (has_id x) (db.rows o.1)
  served-keep x message (returned ids, w) alive = post_all-keep x message ids w alive
  served-keep x message (threw _, w) alive = refl

  -- A push never takes a connection out of the table whose own posts are not refused as gone,
  -- whatever becomes of the query, of the posts to other connections and of the deletions of those.
  pub fan_out-keep :
      (x cognito_sub : String) (message : M) (w : W)
      → ((v : W) → says_gone (post x message v).0 ≡ false)
      → keep (has_id x) (db.rows (fan_out db post cognito_sub message w))
        ≡ keep (has_id x) (db.rows w)
  unfolding fan_out
  fan_out-keep x cognito_sub message w alive =
      served-keep x message (db.query_by_cognito_sub cognito_sub w) alive
      ∙ ap (keep (has_id x)) (laws.query_reads cognito_sub w)
