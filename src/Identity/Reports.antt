-- ===== src/Identity/Reports.antt =====
-- What Prisma reports of a violated unique constraint.
use microservices_running.Prelude.{Option, none, some, List, [], ◌∷◌, ◌≡◌, ◌⊎◌}
use microservices_running.Prelude.Texts.{Text, Contains}
use microservices_running.Session.{codes}
use microservices_running.Identity.{
  Target, no_target, one_target, targets, CaptureError, no_matching_user, prisma_error, other_error,
}

abbrev pub Listed : Text → List Text → Type 0
Listed name [] = ⊥
Listed name (first ∷ rest) = (first ≡ name) ⊎ Listed name rest

-- The target, the fields of the constraint and the driver's message that speak of a column.
abbrev pub Targets : (column : Text) → Target → Type 0
Targets column no_target = ⊥
Targets column (one_target text) = Contains column text
Targets column (targets columns) = Listed column columns

abbrev pub Constrains : (column : Text) → Option (List Text) → Type 0
Constrains column none = ⊥
Constrains column (some columns) = Listed column columns

abbrev pub Mentions : (column : Text) → Option Text → Type 0
Mentions column none = ⊥
Mentions column (some message) = Contains column message

-- The error is the violation of a unique constraint, and it speaks of the column.
abbrev pub Reports : (column : Text) → CaptureError → Type 0
Reports column (no_matching_user email_hash) = ⊥
Reports column (other_error message) = ⊥
Reports column (prisma_error code target fields message) =
    (code ≡ codes "P2002")
    × (Targets column target ⊎ (Constrains column fields ⊎ Mentions column message))
