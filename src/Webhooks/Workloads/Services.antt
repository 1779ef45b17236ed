-- ===== src/Webhooks/Workloads/Services.antt =====
-- controllers/webhooks/services/instances/validator.go and
-- controllers/webhooks/services/brokers/validator.go.
use korifi.Base.{String, [], ◌∷◌, Bool, not, Option, none, some, ◌==◌, concat, if◌then◌else◌}
use korifi.Validation.{UniqueObject, ValidationError, immutable_field_error}
use korifi.Names.Interface.{Context, NameRegistry}
use korifi.Names.Duplicate

pub record ServiceInstance : Type 0 where
  pub namespace : String
  pub name : String
  pub is_deleting : Bool
  pub display_name : String
  pub instance_type : String

abbrev pub unique_instance : ServiceInstance → UniqueObject
unique_instance si = record {
  namespace = si.namespace;
  name = si.name;
  unique_name = si.display_name;
  unique_validation_error_message =
      concat ("The service instance name is taken: " ∷ si.display_name ∷ []);
}

pub record ServiceBroker : Type 0 where
  pub namespace : String
  pub name : String
  pub is_deleting : Bool
  pub broker_name : String

abbrev pub unique_broker : (String → String) → ServiceBroker → UniqueObject
unique_broker to_lower broker = record {
  namespace = broker.namespace;
  name = broker.name;
  unique_name = to_lower broker.broker_name;
  unique_validation_error_message = "Name must be unique";
}

module _ (registry : NameRegistry) where
  open registry use {State}

  unfoldable pub validate_instance_create :
      Context → ServiceInstance → State → State × Option ValidationError
  validate_instance_create ctx si s =
      Duplicate.validate_create registry ctx si.namespace (unique_instance si) s

  unfoldable pub validate_instance_update :
      Context → ServiceInstance → ServiceInstance → State → State × Option ValidationError
  validate_instance_update ctx old si s =
      if si.is_deleting
      then (s, none)
      else if not (si.instance_type == old.instance_type)
      then (s, some (immutable_field_error "CFServiceInstance.Spec.Type"))
      else Duplicate.validate_update registry ctx si.namespace (unique_instance old)
          (unique_instance si) s

  unfoldable pub validate_instance_delete :
      Context → ServiceInstance → State → State × Option ValidationError
  validate_instance_delete ctx si s =
      Duplicate.validate_delete registry ctx si.namespace (unique_instance si) s

module _ (to_lower : String → String) (registry : NameRegistry) where
  open registry use {State}

  unfoldable pub validate_broker_create :
      Context → ServiceBroker → State → State × Option ValidationError
  validate_broker_create ctx broker s =
      Duplicate.validate_create registry ctx broker.namespace (unique_broker to_lower broker) s

  unfoldable pub validate_broker_update :
      Context → ServiceBroker → ServiceBroker → State → State × Option ValidationError
  validate_broker_update ctx old broker s =
      if broker.is_deleting
      then (s, none)
      else Duplicate.validate_update registry ctx broker.namespace (unique_broker to_lower old)
          (unique_broker to_lower broker) s

  unfoldable pub validate_broker_delete :
      Context → ServiceBroker → State → State × Option ValidationError
  validate_broker_delete ctx broker s =
      Duplicate.validate_delete registry ctx broker.namespace (unique_broker to_lower broker) s
