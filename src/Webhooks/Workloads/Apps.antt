-- ===== src/Webhooks/Workloads/Apps.antt =====
-- controllers/webhooks/workloads/apps/validator.go, and the unique name of an app
-- (controllers/api/v1alpha1/cfapp_types.go).
use korifi.Base.{String, [], ◌∷◌, Bool, not, Option, none, some, ◌==◌, concat, if◌then◌else◌}
use korifi.Validation.{UniqueObject, ValidationError}
use korifi.Names.Interface.{Context, NameRegistry}
use korifi.Names.Duplicate

pub record App : Type 0 where
  pub namespace : String
  pub name : String
  pub is_deleting : Bool
  pub display_name : String
  pub lifecycle_type : String

module _ (to_lower : String → String) where
  abbrev pub unique_app : App → UniqueObject
  unique_app app = record {
    namespace = app.namespace;
    name = app.name;
    unique_name = to_lower app.display_name;
    unique_validation_error_message =
        concat ("App with the name '" ∷ app.display_name ∷ "' already exists." ∷ []);
  }

abbrev pub lifecycle_error : App → App → ValidationError
lifecycle_error old app = record {
  error_type = "ImmutableFieldError";
  message = concat (
      "Lifecycle type cannot be changed from " ∷ old.lifecycle_type ∷ " to " ∷ app.lifecycle_type
      ∷ []);
}

module _ (to_lower : String → String) (registry : NameRegistry) where
  open registry use {State}

  unfoldable pub validate_create : Context → App → State → State × Option ValidationError
  validate_create ctx app s =
      Duplicate.validate_create registry ctx app.namespace (unique_app to_lower app) s

  unfoldable pub validate_update : Context → App → App → State → State × Option ValidationError
  validate_update ctx old app s =
      if app.is_deleting
      then (s, none)
      else if not (app.lifecycle_type == old.lifecycle_type)
      then (s, some (lifecycle_error old app))
      else Duplicate.validate_update registry ctx app.namespace (unique_app to_lower old)
          (unique_app to_lower app) s

  unfoldable pub validate_delete : Context → App → State → State × Option ValidationError
  validate_delete ctx app s =
      Duplicate.validate_delete registry ctx app.namespace (unique_app to_lower app) s
