-- ===== src/Webhooks/Bindings.antt =====
-- controllers/webhooks/services/bindings/validator.go, and the unique name of a service binding
-- (controllers/api/v1alpha1/cfservicebinding_types.go).
pub mod Renames
use korifi.Base.{String, List, [], ◌∷◌, Bool, not, Option, none, some, ◌==◌, concat, if◌then◌else◌}
use korifi.Validation.{UniqueObject, ValidationError}
use korifi.Names.Interface.{Context, NameRegistry}
use korifi.Names.Duplicate

pub record ServiceBinding : Type 0 where
  pub namespace : String
  pub name : String
  pub is_deleting : Bool
  pub app_ref_name : String
  pub service_name : String
  pub service_namespace : String
  pub display_name : Option String

abbrev shown_name : Option String → String → String
shown_name none service = service
shown_name (some name) service = name

unfoldable pub unique_binding : ServiceBinding → UniqueObject
unique_binding b =
    let shown = shown_name b.display_name b.service_name in
    record {
      namespace = b.namespace;
      name = b.name;
      unique_name = concat (
          "sb::" ∷ b.app_ref_name ∷ "::" ∷ b.namespace ∷ "::" ∷ b.service_name ∷ "::" ∷ shown ∷ []);
      unique_validation_error_message = concat (
          "Service binding already exists: App: " ∷ b.app_ref_name ∷ " Service Instance: "
          ∷ b.service_name ∷ " Service Binding: " ∷ shown ∷ []);
    }

abbrev binding_error : String → Option ValidationError
binding_error message =
    some (record { error_type = "ServiceBindingValidationError"; message = message })

unfoldable pub validate_update : ServiceBinding → ServiceBinding → Option ValidationError
validate_update old b =
    if b.is_deleting
    then none
    else if not (old.app_ref_name == b.app_ref_name)
    then binding_error "AppRef.Name is immutable"
    else if not (old.service_name == b.service_name)
    then binding_error "Service.Name is immutable"
    else if not (old.service_namespace == b.service_namespace)
    then binding_error "Service.Namespace is immutable"
    else none

module _ (registry : NameRegistry) where
  open registry use {State}

  unfoldable pub validate_create : Context → ServiceBinding → State → State × Option ValidationError
  validate_create ctx b s = Duplicate.validate_create registry ctx b.namespace (unique_binding b) s

  unfoldable pub validate_delete : Context → ServiceBinding → State → State × Option ValidationError
  validate_delete ctx b s = Duplicate.validate_delete registry ctx b.namespace (unique_binding b) s
