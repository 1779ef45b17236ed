-- ===== src/Webhooks/Workloads/Orgs.antt =====
-- controllers/webhooks/workloads/orgs/validator.go, with `ValidateOrgCreate` of
-- controllers/webhooks/validation/placement_validator.go and the unique name of an org
-- (controllers/api/v1alpha1/cforg_types.go).
use korifi.Base.{
  String, [], ◌∷◌, Bool, not, Option, none, some, ◌==◌, ltb, len, concat, if◌then◌else◌,
}
use korifi.Validation.{UniqueObject, ValidationError}
use korifi.Names.Interface.{Context, NameRegistry}
use korifi.Names.Duplicate

pub record Org : Type 0 where
  pub namespace : String
  pub name : String
  pub is_deleting : Bool
  pub display_name : String

module _ (to_lower : String → String) where
  abbrev pub unique_org : Org → UniqueObject
  unique_org org = record {
    namespace = org.namespace;
    name = org.name;
    unique_name = to_lower org.display_name;
    unique_validation_error_message =
        concat ("Organization '" ∷ org.display_name ∷ "' already exists." ∷ []);
  }

-- An admission error is a validation error, or a plain one with a text.
pub data AdmissionError : Type 0 where
  invalid : ValidationError → AdmissionError
  plain : String → AdmissionError

abbrev pub as_invalid : Option ValidationError → Option AdmissionError
as_invalid none = none
as_invalid (some e) = some (invalid e)

unfoldable pub validate_org_create : String → Org → Option ValidationError
validate_org_create root_namespace org =
    if not (org.namespace == root_namespace)
    then some (record {
      error_type = "OrgPlacementError";
      message = concat (
          "Organization '" ∷ org.display_name ∷ "' must be placed in the root 'cf' namespace" ∷ []);
    })
    else none

module _ (to_lower : String → String) (root_namespace : String) (registry : NameRegistry) where
  open registry use {State}

  abbrev placed : Context → Org → Option ValidationError → State → State × Option AdmissionError
  placed ctx org (some e) s = (s, some (invalid e))
  placed ctx org none s =
      let (s', e) =
        Duplicate.validate_create registry ctx org.namespace (unique_org to_lower org) s in
      (s', as_invalid e)

  unfoldable pub validate_create : Context → Org → State → State × Option AdmissionError
  validate_create ctx org s =
      if ltb 63 (len org.name)
      then (s, some (plain "org name cannot be longer than 63 chars"))
      else placed ctx org (validate_org_create root_namespace org) s

  unfoldable pub validate_update : Context → Org → Org → State → State × Option ValidationError
  validate_update ctx old org s =
      if org.is_deleting
      then (s, none)
      else Duplicate.validate_update registry ctx org.namespace (unique_org to_lower old)
          (unique_org to_lower org) s

  unfoldable pub validate_delete : Context → Org → State → State × Option ValidationError
  validate_delete ctx org s =
      Duplicate.validate_delete registry ctx org.namespace (unique_org to_lower org) s
