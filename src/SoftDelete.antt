-- ===== src/SoftDelete.antt =====
-- The filter that reads get, down to the relations that they include or select
-- (`excludeSoftDeletedDeep` of services/users/src/shared/db/prisma-extensions.ts).
pub mod Rewritten
mod Examples
use microservices_running.Prelude.{String, Option, none, some, str_eq, if◌then◌else◌}

-- What a `where` says of `deletedAt`.
pub data DeletedAt : Type 0 where
  is_null : DeletedAt
  other_filter : String → DeletedAt

-- A `where`: what it says of `deletedAt`, if anything, and the rest of it.
pub record Where : Type 0 where
  pub deleted_at : Option DeletedAt
  pub rest : String

-- The arguments of a read. `left_out` is an `include` or a `select` that is not an object. The value of
-- a field is `true`, another value that is not an object, or the arguments of a relation.
mutual
  pub data Args : Type 0 where
    args : Option Where → (include select : Fields) → Args

  pub data Fields : Type 0 where
    left_out : Fields
    end : Fields
    field : (name : String) → Value → Fields → Fields

  pub data Value : Type 0 where
    yes_flag : Value
    scalar : String → Value
    relation : Args → Value

pub data Model : Type 0 where
  user users_cognito_data users_cognito_event stripe_payment_method other_model : Model

-- `MODEL_RELATIONS`
unfoldable pub related_model : Model → (field : String) → Option Model
related_model user name =
    if str_eq name "cognitoData"
    then some users_cognito_data
    else if str_eq name "stripePaymentMethods"
    then some stripe_payment_method
    else none
related_model users_cognito_data name =
    if str_eq name "user"
    then some user
    else if str_eq name "events"
    then some users_cognito_event
    else none
related_model users_cognito_event name =
    if str_eq name "data" then some users_cognito_data else none
related_model stripe_payment_method name = if str_eq name "user" then some user else none
related_model other_model name = none

abbrev pub with_null : Option DeletedAt → Option DeletedAt
with_null none = some is_null
with_null (some filter) = some filter

-- `excludeSoftDeleted`
unfoldable pub exclude_soft_deleted : Option Where → Option Where
exclude_soft_deleted none = some (record { deleted_at = some is_null; rest = "" })
exclude_soft_deleted (some clause) =
    some (record clause { deleted_at = with_null clause.deleted_at })

-- `applyNested`, in the two modes, and `injectRelationFilter`.
unfoldable mutual
  unfolding related_model exclude_soft_deleted

  pub apply_include : Model → Fields → Fields
  apply_include model left_out = left_out
  apply_include model end = end
  apply_include model (field name value rest) =
      field name (inject (related_model model name) value) (apply_include model rest)

  pub apply_select : Model → Fields → Fields
  apply_select model left_out = left_out
  apply_select model end = end
  apply_select model (field name value rest) =
      field name (inject_known (related_model model name) value) (apply_select model rest)

  pub inject : Option Model → Value → Value
  inject related yes_flag =
      relation (args (some (record { deleted_at = some is_null; rest = "" })) left_out left_out)
  inject related (scalar text) = scalar text
  inject none (relation (args clause include select)) =
      relation (args (exclude_soft_deleted clause) include select)
  inject (some model) (relation (args clause include select)) =
      relation (
        args (exclude_soft_deleted clause) (apply_include model include)
          (apply_select model select))

  -- In a `select` a field that is no relation is left as it is.
  pub inject_known : Option Model → Value → Value
  inject_known none yes_flag = yes_flag
  inject_known none (scalar text) = scalar text
  inject_known none (relation arguments) = relation arguments
  inject_known (some model) yes_flag =
      relation (args (some (record { deleted_at = some is_null; rest = "" })) left_out left_out)
  inject_known (some model) (scalar text) = scalar text
  inject_known (some model) (relation (args clause include select)) =
      relation (
        args (exclude_soft_deleted clause) (apply_include model include)
          (apply_select model select))

-- `excludeSoftDeletedDeep`
unfoldable pub exclude_soft_deleted_deep : Model → Args → Args
unfolding apply_include exclude_soft_deleted
exclude_soft_deleted_deep model (args clause include select) =
    args (exclude_soft_deleted clause) (apply_include model include) (apply_select model select)
