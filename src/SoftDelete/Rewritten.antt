-- ===== src/SoftDelete/Rewritten.antt =====
-- What the filter of reads leaves behind
-- (`excludeSoftDeletedDeep` of services/users/src/shared/db/prisma-extensions.ts).
use microservices_running.Prelude.{
  String, Option, none, some, List, [], ◌∷◌, str_eq, if◌then◌else◌, ◌≡◌, refl, subst,
}
use microservices_running.SoftDelete.{
  DeletedAt, is_null, Where, Args, args, Fields, left_out, end, field, Value, yes_flag, scalar,
  relation, Model, user, users_cognito_data, users_cognito_event, stripe_payment_method,
  other_model, related_model, with_null, exclude_soft_deleted, apply_include, apply_select, inject,
  inject_known, exclude_soft_deleted_deep,
}

-- The relations of the schema (services/users/prisma/schema.prisma) among the audited models.
abbrev schema : Model → List (String × Model)
schema user =
    ("cognitoData", users_cognito_data) ∷ ("stripePaymentMethods", stripe_payment_method) ∷ []
schema users_cognito_data = ("user", user) ∷ ("events", users_cognito_event) ∷ []
schema users_cognito_event = ("data", users_cognito_data) ∷ []
schema stripe_payment_method = ("user", user) ∷ []
schema other_model = []

abbrev found : (name : String) → List (String × Model) → Option Model
found name [] = none
found name ((key, model) ∷ rest) = if str_eq name key then some model else found name rest

abbrev pub relation_of : Model → (name : String) → Option Model
relation_of model name = found name (schema model)

-- What a rewritten `where` says of `deletedAt`: what it said, or that it is null.
abbrev pub IsExcluded : (old new : Option DeletedAt) → Type 0
IsExcluded none new = new ≡ some is_null
IsExcluded (some filter) new = new ≡ some filter

-- A rewritten `where`: the filter on `deletedAt`, and the rest of the `where` as it was.
abbrev pub IsNarrowed : (old new : Option Where) → Type 0
IsNarrowed old none = ⊥
IsNarrowed none (some new) = (new.deleted_at ≡ some is_null) × (new.rest ≡ "")
IsNarrowed (some old) (some new) = IsExcluded old.deleted_at new.deleted_at × (new.rest ≡ old.rest)

-- The arguments of a read after the rewriting. In an `include` every field is a relation; in a `select`
-- only those of the schema are, and the others stay. A `true` becomes the filter alone. What a relation
-- that the schema does not name includes and selects in turn stays.
unfoldable mutual
  pub IsRewritten : Model → (old new : Args) → Type 0
  IsRewritten model (args clause include select) (args clause' include' select') =
      IsNarrowed clause clause'
      × IsIncluded model include include'
      × IsSelected model select select'

  pub IsIncluded : Model → (old new : Fields) → Type 0
  IsIncluded model (field name value rest) (field name' value' rest') =
      (name' ≡ name) × IsRelated (relation_of model name) value value' × IsIncluded model rest rest'
  IsIncluded model (field name value rest) left_out = ⊥
  IsIncluded model (field name value rest) end = ⊥
  IsIncluded model left_out new = new ≡ left_out
  IsIncluded model end new = new ≡ end

  pub IsSelected : Model → (old new : Fields) → Type 0
  IsSelected model (field name value rest) (field name' value' rest') =
      (name' ≡ name) × IsChosen (relation_of model name) value value' × IsSelected model rest rest'
  IsSelected model (field name value rest) left_out = ⊥
  IsSelected model (field name value rest) end = ⊥
  IsSelected model left_out new = new ≡ left_out
  IsSelected model end new = new ≡ end

  pub IsRelated : Option Model → (old new : Value) → Type 0
  IsRelated related old yes_flag = ⊥
  IsRelated related (scalar text) (scalar text') = text' ≡ text
  IsRelated related yes_flag (scalar text') = ⊥
  IsRelated related (relation arguments) (scalar text') = ⊥
  IsRelated related (scalar text) (relation new) = ⊥
  IsRelated related yes_flag (relation (args clause include select)) =
      IsNarrowed none clause × (include ≡ left_out) × (select ≡ left_out)
  IsRelated none (relation (args clause include select))
        (relation (args clause' include' select')) =
      IsNarrowed clause clause' × (include' ≡ include) × (select' ≡ select)
  IsRelated (some model) (relation (args clause include select))
        (relation (args clause' include' select')) =
      IsNarrowed clause clause'
      × IsIncluded model include include'
      × IsSelected model select select'

  pub IsChosen : Option Model → (old new : Value) → Type 0
  IsChosen none old new = new ≡ old
  IsChosen (some model) old yes_flag = ⊥
  IsChosen (some model) (scalar text) (scalar text') = text' ≡ text
  IsChosen (some model) yes_flag (scalar text') = ⊥
  IsChosen (some model) (relation arguments) (scalar text') = ⊥
  IsChosen (some model) (scalar text) (relation new) = ⊥
  IsChosen (some model) yes_flag (relation (args clause include select)) =
      IsNarrowed none clause × (include ≡ left_out) × (select ≡ left_out)
  IsChosen (some model) (relation (args clause include select))
        (relation (args clause' include' select')) =
      IsNarrowed clause clause'
      × IsIncluded model include include'
      × IsSelected model select select'

related_model-relation_of :
    (model : Model) (name : String) → related_model model name ≡ relation_of model name
unfolding related_model
related_model-relation_of user name = refl
related_model-relation_of users_cognito_data name = refl
related_model-relation_of users_cognito_event name = refl
related_model-relation_of stripe_payment_method name = refl
related_model-relation_of other_model name = refl

exclude_soft_deleted-IsNarrowed :
    (clause : Option Where) → IsNarrowed clause (exclude_soft_deleted clause)
unfolding exclude_soft_deleted
exclude_soft_deleted-IsNarrowed none = (refl, refl)
exclude_soft_deleted-IsNarrowed (some clause) = (excluded clause.deleted_at, refl)
  where
    excluded : (filter : Option DeletedAt) → IsExcluded filter (with_null filter)
    excluded none = refl
    excluded (some filter) = refl

mutual
  unfolding apply_include IsRewritten

  include-IsIncluded :
      (model : Model) (fields : Fields) → IsIncluded model fields (apply_include model fields)
  include-IsIncluded model left_out = refl
  include-IsIncluded model end = refl
  include-IsIncluded model (field name value rest) = (
    refl,
    subst (λ related. IsRelated related value (inject (related_model model name) value))
        (related_model-relation_of model name) (inject-IsRelated (related_model model name) value),
    include-IsIncluded model rest,
  )

  select-IsSelected :
      (model : Model) (fields : Fields) → IsSelected model fields (apply_select model fields)
  select-IsSelected model left_out = refl
  select-IsSelected model end = refl
  select-IsSelected model (field name value rest) = (
    refl,
    subst (λ related. IsChosen related value (inject_known (related_model model name) value))
        (related_model-relation_of model name)
        (inject_known-IsChosen (related_model model name) value),
    select-IsSelected model rest,
  )

  inject-IsRelated :
      (related : Option Model) (value : Value) → IsRelated related value (inject related value)
  inject-IsRelated none yes_flag = ((refl, refl), refl, refl)
  inject-IsRelated (some model) yes_flag = ((refl, refl), refl, refl)
  inject-IsRelated none (scalar text) = refl
  inject-IsRelated (some model) (scalar text) = refl
  inject-IsRelated none (relation (args clause include select)) =
      (exclude_soft_deleted-IsNarrowed clause, refl, refl)
  inject-IsRelated (some model) (relation (args clause include select)) = (
    exclude_soft_deleted-IsNarrowed clause,
    include-IsIncluded model include,
    select-IsSelected model select,
  )

  inject_known-IsChosen :
      (related : Option Model) (value : Value) → IsChosen related value (inject_known related value)
  inject_known-IsChosen none yes_flag = refl
  inject_known-IsChosen none (scalar text) = refl
  inject_known-IsChosen none (relation arguments) = refl
  inject_known-IsChosen (some model) yes_flag = ((refl, refl), refl, refl)
  inject_known-IsChosen (some model) (scalar text) = refl
  inject_known-IsChosen (some model) (relation (args clause include select)) = (
    exclude_soft_deleted-IsNarrowed clause,
    include-IsIncluded model include,
    select-IsSelected model select,
  )

-- After the extension has rewritten the arguments of a read, the read and every relation of the schema
-- that it includes or selects, at any depth, ask for a null `deletedAt`, or for what the caller had
-- asked of `deletedAt`; the rest of each `where`, the names of the fields, the scalars that are
-- selected, and what stands below a relation that the schema does not name are as the caller wrote them.
pub exclude_soft_deleted_deep-IsRewritten :
    (model : Model) (arguments : Args)
    → IsRewritten model arguments (exclude_soft_deleted_deep model arguments)
unfolding exclude_soft_deleted_deep IsRewritten
exclude_soft_deleted_deep-IsRewritten model (args clause include select) = (
  exclude_soft_deleted-IsNarrowed clause,
  include-IsIncluded model include,
  select-IsSelected model select,
)
