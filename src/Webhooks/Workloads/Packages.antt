-- ===== src/Webhooks/Workloads/Packages.antt =====
-- controllers/webhooks/workloads/packages/validator.go.
use korifi.Base.{String, [], ◌∷◌, Bool, not, Option, none, some, ◌==◌, concat, if◌then◌else◌}
use korifi.Validation.{ValidationError}

pub record Package : Type 0 where
  pub namespace : String
  pub name : String
  pub is_deleting : Bool
  pub package_type : String

unfoldable pub validate_update : Package → Package → Option ValidationError
validate_update old new =
    if new.is_deleting
    then none
    else if not (new.package_type == old.package_type)
    then some (record {
      error_type = "ImmutableFieldModificationError";
      message =
          concat ("package " ∷ new.namespace ∷ ":" ∷ new.name ∷ " Spec.Type is immutable" ∷ []);
    })
    else none
