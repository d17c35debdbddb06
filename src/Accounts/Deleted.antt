-- ===== src/Accounts/Deleted.antt =====
-- When an account is deleted (services/users/src/users/commands/delete-account.command.ts).
use microservices_running.Prelude.{
  String, Bool, true, false, Option, none, some, List, if◌then◌else◌, ◌≡◌, refl, ap, ◌∙◌, arith,
}
use microservices_running.Effects.{
  Outcome, returned, threw, continue, return, ◌>>◌, continue-returned,
}
use microservices_running.Accounts.{User, AccountError, cascade_failed, truthy}
use microservices_running.Accounts.Deletion.{
  CascadeService, orders, tracking, service_name, path_of, body_of, empty_key, FetchResponse,
  deleted, DeletionServices, confirmed, send_unless, send, delete_for_user, clean_up, delete_target,
  delete_resolved, delete_account,
}

abbrev leg : {W : Type 0} → Bool → AccountError → W → Outcome AccountError (Unit {0}) × W
leg b e w = if b then (returned tt, w) else (threw e, w)

leg-returned :
    {W : Type 0} (b : Bool) (e : AccountError) (w w' : W)
    → leg b e w ≡ (returned tt, w')
    → (b ≡ true) × (w ≡ w')
leg-returned true e w w' same = (refl, ap (λ o. o.1) same)
leg-returned false e w w' same = ground (arith, same)

continue-deleted :
    {W : Type 0} (o : Outcome AccountError (Unit {0}) × W)
    → o.0 ≡ returned tt
    → (continue o (λ _. return deleted)).0 ≡ returned deleted
continue-deleted (returned _, w) same = refl
continue-deleted (threw e, w) same = ground (arith, same)

module _ {W : Type 0} (services : DeletionServices W) where
  -- A service was asked with both identities, neither of them empty, and answered well.
  abbrev pub Confirms : CascadeService → (cognito_sub user_id : String) → W → W → Type 0
  Confirms service cognito_sub user_id w w' =
      let body = body_of service cognito_sub user_id in
      (empty_key body ≡ none)
      × (answer : FetchResponse) × (services.fetch service (path_of service) body w
          ≡ (returned answer, w'))
      × (answer.ok ≡ true)

  confirmed-returned :
      (service : CascadeService) (o : Outcome String FetchResponse × W) (w' : W)
      → confirmed services service o ≡ (returned tt, w')
      → (answer : FetchResponse) × (o ≡ (returned answer, w')) × (answer.ok ≡ true)
  confirmed-returned service (threw message, w) w' same = ground (arith, same)
  confirmed-returned service (returned answer, w) w' same =
      let (well, moved) =
        leg-returned answer.ok (cascade_failed (service_name service) answer.status_text) w w'
          same in
      (answer, ap (λ v. (returned answer, v)) moved, well)

  send_unless-returned :
      (key : Option String) (service : CascadeService) (body : List (String × String)) (w w' : W)
      → send_unless services key service body w ≡ (returned tt, w')
      → (key ≡ none)
        × (answer : FetchResponse) × (services.fetch service (path_of service) body w
            ≡ (returned answer, w'))
        × (answer.ok ≡ true)
  send_unless-returned (some key) service body w w' same = ground (arith, same)
  send_unless-returned none service body w w' same =
      let (answer, asked, well) =
        confirmed-returned service (services.fetch service (path_of service) body w) w' same in
      (refl, answer, asked, well)

  Confirms-delete_for_user :
      (service : CascadeService) (cognito_sub user_id : String) (w w' : W)
      → delete_for_user services service cognito_sub user_id w ≡ (returned tt, w')
      → Confirms service cognito_sub user_id w w'
  unfolding send
  Confirms-delete_for_user service cognito_sub user_id w w' same =
      let body = body_of service cognito_sub user_id in
      send_unless-returned (empty_key body) service body w w' same

  delete_for_user-Confirms :
      (service : CascadeService) (cognito_sub user_id : String) (w w' : W)
      → Confirms service cognito_sub user_id w w'
      → delete_for_user services service cognito_sub user_id w ≡ (returned tt, w')
  unfolding send
  delete_for_user-Confirms service cognito_sub user_id w w' (full, answer, asked, well) =
      let body = body_of service cognito_sub user_id in
      ap (λ k. send_unless services k service body w) full
      ∙ ap (confirmed services service) asked
      ∙ ap (λ b. leg b (cascade_failed (service_name service) answer.status_text) w') well

  -- Both services confirmed, and then the row of the user was deleted.
  abbrev pub Cascaded : User → (cognito_sub : String) → W → Type 0
  Cascaded user cognito_sub w =
      (w₁ : W) × (w₂ : W) × (w₃ : W) × (Confirms orders cognito_sub user.id w w₁
        × Confirms tracking cognito_sub user.id w₁ w₂
        × (services.delete_user_row user.id w₂ ≡ (returned tt, w₃)))

  delete_target-Cascaded :
      (user : User) (linked : Option String) (w w' : W)
      → delete_target services user linked w ≡ (returned deleted, w')
      → (cognito_sub : String) × (linked ≡ some cognito_sub) × Cascaded user cognito_sub w
  delete_target-Cascaded user none w w' same = ground (arith, same)
  delete_target-Cascaded user (some sub) w w' same =
      let (_, w₁, first, rest) =
        continue-returned (delete_for_user services orders sub user.id w) _ deleted w' same in
      let (_, w₂, second, rest') =
        continue-returned (delete_for_user services tracking sub user.id w₁) _ deleted w' rest in
      let (_, w₃, gone, _) =
        continue-returned (services.delete_user_row user.id w₂) _ deleted w' rest' in
      (
        sub,
        refl,
        (
          w₁,
          w₂,
          w₃,
          (
            Confirms-delete_for_user orders sub user.id w w₁ first,
            Confirms-delete_for_user tracking sub user.id w₁ w₂ second,
            gone,
          ),
        ),
      )

  delete_resolved-Cascaded :
      (found : Option User) (w w' : W)
      → delete_resolved services found w ≡ (returned deleted, w')
      → (user : User) × (found ≡ some user)
        × (cognito_sub : String) × (truthy user.cognito_sub ≡ some cognito_sub)
        × Cascaded user cognito_sub w
  delete_resolved-Cascaded none w w' same = ground (arith, same)
  delete_resolved-Cascaded (some user) w w' same =
      let (sub, linked, done) = delete_target-Cascaded user (truthy user.cognito_sub) w w' same in
      (user, refl, sub, linked, done)

  -- A deletion answers `deleted` only if the caller is a user with a Cognito sub, Orders and then
  -- Tracking were asked to delete what is theirs, both with two identities that are not empty, and
  -- both answered well, and after that the row of the user was deleted.
  pub delete_account-Cascaded :
      (w w' : W)
      → delete_account services w ≡ (returned deleted, w')
      → (user : User) × (w₀ : W) × (services.resolve w ≡ (returned (some user), w₀))
        × (cognito_sub : String) × (truthy user.cognito_sub ≡ some cognito_sub)
        × Cascaded user cognito_sub w₀
  unfolding delete_account
  delete_account-Cascaded w w' same =
      let (found, w₀, asked, rest) = continue-returned (services.resolve w) _ deleted w' same in
      let (user, is_user, sub, linked, done) = delete_resolved-Cascaded found w₀ w' rest in
      (user, w₀, asked ∙ ap (λ o. (returned o, w₀)) is_user, sub, linked, done)

  clean_up-deleted :
      (user : User) (cognito_sub : String) (w : W)
      → ((v : W) → (services.publish_metric "users_deleted_total" v).0 ≡ returned tt)
      → (clean_up services user cognito_sub w).0 ≡ returned deleted
  clean_up-deleted user cognito_sub w counted =
      let w₁ = (services.invalidate_me cognito_sub user.id w).1 in
      let w₂ = (services.delete_cognito_user user.email w₁).1 in
      continue-deleted (services.publish_metric "users_deleted_total" w₂) (counted w₂)

  -- Once both services have confirmed and the row of the user is gone, the deletion answers
  -- `deleted` whatever the cache and the identity provider throw, if the metric can be published.
  pub delete_account-deleted :
      (user : User) (cognito_sub : String) (w w₀ w₁ w₂ w₃ : W)
      → services.resolve w ≡ (returned (some user), w₀)
      → truthy user.cognito_sub ≡ some cognito_sub
      → Confirms orders cognito_sub user.id w₀ w₁
      → Confirms tracking cognito_sub user.id w₁ w₂
      → services.delete_user_row user.id w₂ ≡ (returned tt, w₃)
      → ((v : W) → (services.publish_metric "users_deleted_total" v).0 ≡ returned tt)
      → (delete_account services w).0 ≡ returned deleted
  unfolding delete_account
  delete_account-deleted user sub w w₀ w₁ w₂ w₃ asked linked first second gone counted =
      let clean = clean_up services user sub in
      let rows = services.delete_user_row user.id >> clean in
      let trackings = delete_for_user services tracking sub user.id >> rows in
      ap (λ o. (continue o (delete_resolved services)).0) asked
      ∙ ap (λ l. (delete_target services user l w₀).0) linked
      ∙ ap (λ o. (continue o (λ _. trackings)).0)
          (delete_for_user-Confirms orders sub user.id w₀ w₁ first)
      ∙ ap (λ o. (continue o (λ _. rows)).0)
          (delete_for_user-Confirms tracking sub user.id w₁ w₂ second)
      ∙ ap (λ o. (continue o (λ _. clean)).0) gone
      ∙ clean_up-deleted user sub w₃ counted
