-- ===== src/Credentials/Passwords.antt =====
-- What a password change leaves (services/users/src/users/commands/change-password.command.ts).
use microservices_running.Prelude.{false, Option, none, some, ◌≡◌, ◌≢◌, refl, sym, ap, ◌∙◌}
use microservices_running.Prelude.Texts.{Text}
use microservices_running.Effects.{Outcome, returned, threw, continue}
use microservices_running.CognitoAuth.{
  AuthError, Attributes, CognitoClient, missing_user, translated, set_password,
  set_must_change_password,
}
use microservices_running.Credentials.{
  UserRow, UserResult, unknown_user, answered, Users, cleared_flag, swallowed,
  mirror_flag_to_cognito, change_resolved, change_password,
}

abbrev pub map_row : (UserRow → UserRow) → Option UserRow → Option UserRow
map_row f none = none
map_row f (some row) = some (f row)

-- What the code relies on: only `update` writes a row, that of its id, and not if it throws.
pub record IsUsers {W : Type 0} (users : Users W) (client : CognitoClient W) : Type 0 where
  pub resolve_reads : (id : Text) (w : W) → users.row (users.resolve w).1 id ≡ users.row w id
  pub password_reads :
      (email secret id : Text) (w : W)
      → users.row (client.admin_set_user_password email secret w).1 id ≡ users.row w id
  pub attributes_read :
      (email id : Text) (attributes : Attributes) (w : W)
      → users.row (client.admin_update_user_attributes email attributes w).1 id ≡ users.row w id
  pub update_writes :
      (id : Text) (f : UserRow → UserRow) (row : UserRow) (w : W)
      → (users.update id f w).0 ≡ returned row
      → users.row (users.update id f w).1 id ≡ map_row f (users.row w id)
  pub update_other :
      (id other : Text) (f : UserRow → UserRow) (w : W)
      → other ≢ id
      → users.row (users.update id f w).1 other ≡ users.row w other
  pub update_threw :
      (id other : Text) (f : UserRow → UserRow) (err : AuthError) (w : W)
      → (users.update id f w).0 ≡ threw err
      → users.row (users.update id f w).1 other ≡ users.row w other

module _ {W : Type 0} (users : Users W) (client : CognitoClient W)
    (laws : IsUsers users client) where
  -- The rows of `w'` are those of `w`.
  abbrev pub Same : W → W → Type 0
  Same w w' = (id : Text) → users.row w' id ≡ users.row w id

  abbrev pub Changed : (new_password : Text) (w : W) → Outcome AuthError UserResult × W → Type 0
  Changed new_password w (returned unknown_user, w') = Same w w'
  Changed new_password w (returned (answered row), w') =
      (target : UserRow) × ((users.resolve w).0 ≡ returned (some target))
      × ((client.admin_set_user_password target.email new_password (users.resolve w).1).0
          ≡ returned tt)
      × (users.row w' target.id
          ≡ map_row (λ row. record row { must_change_password = false }) (users.row w target.id))
      × ((other : Text) → other ≢ target.id → users.row w' other ≡ users.row w other)
  Changed new_password w (threw err, w') = Same w w'

  module _ (new_password : Text) (w : W) (target : UserRow) (v : W)
      (found : users.resolve w ≡ (returned (some target), v)) where
    abbrev IsDone : Outcome AuthError UserResult × W → Type 0
    IsDone = Changed new_password w

    resolved-row : (id : Text) → users.row v id ≡ users.row w id
    resolved-row id = ap (λ r. users.row r.1 id) (sym found) ∙ laws.resolve_reads id w

    mirrored-Changed :
        (row : UserRow) (u : W) (o : Outcome Text (Unit {0}) × W)
        → (client.admin_set_user_password target.email new_password v).0 ≡ returned tt
        → ((id : Text) → users.row o.1 id ≡ users.row u id)
        → (users.row u target.id ≡ map_row cleared_flag (users.row w target.id))
        → ((other : Text) → other ≢ target.id → users.row u other ≡ users.row w other)
        → IsDone (
            continue
              (swallowed users client (translated missing_user o))
              (λ _ x. (returned (answered row), x)))
    mirrored-Changed row u (returned tt, x) set same own others = (
      target,
      ap (λ r. r.0) found,
      ap (λ y. (client.admin_set_user_password target.email new_password y).0) (ap (λ r. r.1) found)
          ∙ set,
      same target.id ∙ own,
      λ other differ. same other ∙ others other differ,
    )
    mirrored-Changed row u (threw name, x) set same own others = (
      target,
      ap (λ r. r.0) found,
      ap (λ y. (client.admin_set_user_password target.email new_password y).0) (ap (λ r. r.1) found)
          ∙ set,
      same target.id ∙ own,
      λ other differ. same other ∙ others other differ,
    )

    updated-Changed :
        (u : W) (o : Outcome AuthError UserRow × W)
        → users.update target.id cleared_flag u ≡ o
        → (client.admin_set_user_password target.email new_password v).0 ≡ returned tt
        → ((id : Text) → users.row u id ≡ users.row w id)
        → IsDone (
            continue o (λ row y.
              continue
                (mirror_flag_to_cognito users client target.email y)
                (λ _ x. (returned (answered row), x))))
    unfolding set_must_change_password
    updated-Changed u (returned row, y) eq set same =
        mirrored-Changed row y _ set (λ id. laws.attributes_read target.email id _ y)
          (ap (λ r. users.row r.1 target.id) (sym eq)
            ∙ laws.update_writes target.id cleared_flag row u (ap (λ r. r.0) eq)
            ∙ ap (map_row cleared_flag) (same target.id))
          (λ other differ.
            ap (λ r. users.row r.1 other) (sym eq)
            ∙ laws.update_other target.id other cleared_flag u differ
            ∙ same other)
    updated-Changed u (threw err, y) eq set same = λ other.
        ap (λ r. users.row r.1 other) (sym eq)
        ∙ laws.update_threw target.id other cleared_flag err u (ap (λ r. r.0) eq)
        ∙ same other

    set-Changed :
        (o : Outcome Text (Unit {0}) × W)
        → client.admin_set_user_password target.email new_password v ≡ o
        → IsDone (
            continue (translated missing_user o) (λ _ u.
              continue (users.update target.id cleared_flag u) (λ row y.
                continue
                  (mirror_flag_to_cognito users client target.email y)
                  (λ _ x. (returned (answered row), x)))))
    set-Changed (returned tt, u) eq =
        updated-Changed u (users.update target.id cleared_flag u) refl (ap (λ r. r.0) eq) (λ id.
          ap (λ r. users.row r.1 id) (sym eq)
          ∙ laws.password_reads target.email new_password id v
          ∙ resolved-row id)
    set-Changed (threw name, u) eq = λ id.
        ap (λ r. users.row r.1 id) (sym eq)
        ∙ laws.password_reads target.email new_password id v
        ∙ resolved-row id

  resolved-Changed :
      (new_password : Text) (w : W) (o : Outcome AuthError (Option UserRow) × W)
      → users.resolve w ≡ o
      → Changed new_password w (continue o (change_resolved users client new_password))
  unfolding set_password
  resolved-Changed new_password w (returned none, v) eq =
      λ id. ap (λ r. users.row r.1 id) (sym eq) ∙ laws.resolve_reads id w
  resolved-Changed new_password w (returned (some target), v) eq =
      set-Changed new_password w target v eq
        (client.admin_set_user_password target.email new_password v) refl
  resolved-Changed new_password w (threw err, v) eq =
      λ id. ap (λ r. users.row r.1 id) (sym eq) ∙ laws.resolve_reads id w

  -- A password change that answers a row was asked for by a user whose new password Cognito accepted,
  -- and has cleared the flag in that user's row and written no other, whether or not the flag could
  -- be mirrored; when it answers `unknown_user` or throws, whichever call failed, every row is as it
  -- was.
  pub change_password-Changed :
      (new_password : Text) (w : W)
      → Changed new_password w (change_password users client new_password w)
  unfolding change_password
  change_password-Changed new_password w = resolved-Changed new_password w (users.resolve w) refl
