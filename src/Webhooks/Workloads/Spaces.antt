-- ===== src/Webhooks/Workloads/Spaces.antt =====
-- controllers/webhooks/workloads/spaces/validator.go, with `ValidateSpaceCreate` of
-- controllers/webhooks/validation/placement_validator.go and the unique name of a space
-- (controllers/api/v1alpha1/cfspace_types.go). `get_org` is the API server's answer to a request
-- for the org of a namespace and name.
use korifi.Base.{String, [], ◌∷◌, Bool, Option, none, some, ltb, len, concat, if◌then◌else◌}
use korifi.Kube.Errors.{ApiError}
use korifi.Validation.{UniqueObject, ValidationError}
use korifi.Names.Interface.{Context, NameRegistry}
use korifi.Names.Duplicate
use korifi.Webhooks.Workloads.Orgs.{AdmissionError, invalid, plain}

pub record Space : Type 0 where
  pub namespace : String
  pub name : String
  pub is_deleting : Bool
  pub display_name : String

module _ (to_lower : String → String) where
  abbrev pub unique_space : Space → UniqueObject
  unique_space space = record {
    namespace = space.namespace;
    name = space.name;
    unique_name = to_lower space.display_name;
    unique_validation_error_message = concat (
        "Space '" ∷ space.display_name ∷ "' already exists. Name must be unique per organization."
        ∷ []);
  }

abbrev pub placement_error : Space → ValidationError
placement_error space = record {
  error_type = "SpacePlacementError";
  message = concat (
      "Organization '" ∷ space.namespace ∷ "' does not exist for Space '" ∷ space.display_name ∷ "'"
      ∷ []);
}

-- By the outcome of the request for the org.
abbrev pub placement : Space → Option ApiError → Option AdmissionError
placement space none = none
placement space (some e) = some (invalid (placement_error space))

unfoldable pub validate_space_create :
    (String → String → Option ApiError) → String → Space → Option AdmissionError
validate_space_create get_org root_namespace space =
    placement space (get_org root_namespace space.namespace)

module _ (to_lower : String → String) (get_org : String → String → Option ApiError)
    (root_namespace : String) (registry : NameRegistry) where
  open registry use {State}

  abbrev registered : Space → State × Option ValidationError → State × Option AdmissionError
  registered space (s, some e) = (s, some (invalid e))
  registered space (s, none) = (s, validate_space_create get_org root_namespace space)

  unfoldable pub validate_create : Context → Space → State → State × Option AdmissionError
  validate_create ctx space s =
      if ltb 63 (len space.name)
      then (s, some (plain "space name cannot be longer than 63 chars"))
      else registered space
          (Duplicate.validate_create registry ctx space.namespace (unique_space to_lower space) s)

  unfoldable pub validate_update : Context → Space → Space → State → State × Option ValidationError
  validate_update ctx old space s =
      if space.is_deleting
      then (s, none)
      else Duplicate.validate_update registry ctx old.namespace (unique_space to_lower old)
          (unique_space to_lower space) s

  unfoldable pub validate_delete : Context → Space → State → State × Option ValidationError
  validate_delete ctx space s =
      Duplicate.validate_delete registry ctx space.namespace (unique_space to_lower space) s
