-- ===== src/SoftDelete/Examples.antt =====
-- A read of a user with two levels of relations.
use microservices_running.Prelude.{none}
use microservices_running.SoftDelete.{
  Args, args, left_out, end, field, yes_flag, relation, user, exclude_soft_deleted_deep,
}
use microservices_running.SoftDelete.Rewritten.{IsRewritten, exclude_soft_deleted_deep-IsRewritten}

-- `{ include: { cognitoData: { select: { sub: true, events: true } }, stripePaymentMethods: true } }`
abbrev with_relations : Args
with_relations =
    args none
      (field "cognitoData"
        (relation (args none left_out (field "sub" yes_flag (field "events" yes_flag end))))
        (field "stripePaymentMethods" yes_flag end))
      left_out

exclude_soft_deleted_deep-IsRewritten_example :
    IsRewritten user with_relations (exclude_soft_deleted_deep user with_relations)
exclude_soft_deleted_deep-IsRewritten_example =
    exclude_soft_deleted_deep-IsRewritten user with_relations
