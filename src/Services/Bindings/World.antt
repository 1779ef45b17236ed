-- ===== src/Services/Bindings/World.antt =====
-- The state of controllers/controllers/services/bindings/managed/controller.go: a service binding,
-- the answers of the API server, and a trace of the calls of the broker and the secrets stored.
use korifi.Base.{Bool, ℕ, String, List, Option, none, some, refl}
use korifi.Kube.Errors.{ApiError, Result, ok, err}
use korifi.Kube.Conditions.{Condition, ConditionsApi, condition_true}
use korifi.Kube.Reconcile.{Resource, CtrlResult, no_result}
use korifi.Kube.NotReady.{GoError}
use korifi.Services.Broker.{
  BrokerClient, BrokerError, BindResponse, UnbindResponse, LastOperationResponse,
}
use korifi.Services.Assets.{
  Catalog, CfServiceBroker, ServiceInstanceAssets, from_api_error, get_service_instance_assets,
}
use korifi.Services.Instances.World.{CfServiceInstance, NamespacedName}

pub record CfServiceBinding : Type 0 where
  pub name : String
  pub namespace : String
  pub generation : ℕ
  pub deletion_timestamp : ℕ  -- 0 for the zero time
  pub finalizers : List String
  pub annotations : List (String × String)
  pub labels : List (String × String)
  pub service_name : String
  pub app_name : String
  pub parameters_name : String
  pub binding_type : String
  pub observed_generation : ℕ
  pub conditions : List Condition
  pub env_secret_name : String
  pub mount_secret_name : String

abbrev pub binding_resource : Resource
binding_resource = record {
  Object = CfServiceBinding;
  generation = λ b. b.generation;
  conditions = λ b. b.conditions;
  with_conditions = λ cs b. record b { conditions = cs };
  conditions-with_conditions = λ cs b. refl;
}

pub record Secret : Type 0 where
  pub namespace : String
  pub name : String
  pub secret_type : String
  pub content : List (String × String)
  pub owners : List String

-- The answers of the API server, the factory of clients, and the functions of the libraries:
-- `CreateOrPatch`, which hands the stored or an empty secret to a function and stores what that
-- returns, `SetControllerReference`, and JSON, where `entries` are those of a map in some order and
-- `as_string` tells whether a value is a text.
pub record BindingWorld (Json : Type 0) : Type 0 where
  pub catalog : Catalog
  pub get_instance : NamespacedName → Result ApiError CfServiceInstance
  pub create_client : CfServiceBroker → Result GoError (BrokerClient Json)
  pub get_secret : NamespacedName → Result ApiError (List (String × String))
  pub create_or_patch : NamespacedName → (Secret → Result GoError Secret) → Result GoError Secret
  pub set_controller_reference : CfServiceBinding → Secret → Result GoError Secret
  pub delete_secret : NamespacedName → Option ApiError
  pub is_invalid : GoError → Bool  -- `IsInvalid`
  pub unmarshal_credentials : String → Result GoError (Option Json)
  pub unmarshal_parameters : String → Result GoError (Option Json)
  pub marshal : Option Json → Result GoError String
  pub entries : Option Json → List (String × Json)
  pub as_string : Json → Option String
  pub print : ℕ → String  -- the verb `%d`
  pub quote : String → String  -- the verb `%q`

pub data BindingEvent (Json : Type 0) : Type 0 where
  bound : Result BrokerError (BindResponse Json) → BindingEvent Json
  unbound : Result BrokerError UnbindResponse → BindingEvent Json
  polled : Result BrokerError LastOperationResponse → BindingEvent Json
  stored : Secret → BindingEvent Json
  deleted : NamespacedName → BindingEvent Json

pub record BindingAttempt (Json : Type 0) : Type 0 where
  pub object : CfServiceBinding
  pub events : List (BindingEvent Json)
  pub result : CtrlResult
  pub failure : Option GoError

module _ {Json : Type 0} where
  abbrev pub fails : CfServiceBinding → List (BindingEvent Json) → GoError → BindingAttempt Json
  fails b events e = record { object = b; events = events; result = no_result; failure = some e }

  abbrev pub succeeds : CfServiceBinding → List (BindingEvent Json) → BindingAttempt Json
  succeeds b events = record { object = b; events = events; result = no_result; failure = none }

abbrev pub binding_failed : String
binding_failed = "BindingFailed"

abbrev pub unbinding_failed : String
unbinding_failed = "UnbindingFailed"

-- A condition of the failure of an operation, set; the reason is its type.
abbrev pub set_failed : ConditionsApi → ℕ → String → String → CfServiceBinding → CfServiceBinding
set_failed meta now condition_type message b =
    let c : Condition = record {
      condition_type = condition_type;
      status = condition_true;
      reason = condition_type;
      message = message;
      observed_generation = b.generation;
      last_transition_time = now;
    } in
    record b { conditions = meta.set_status_condition now c b.conditions }

pub record ServiceBindingAssets : Type 0 where
  pub service_instance : CfServiceInstance
  pub instance_assets : ServiceInstanceAssets

module _ {Json : Type 0} (world : BindingWorld Json) where
  abbrev with_instance_assets :
      CfServiceInstance → Result GoError ServiceInstanceAssets → Result GoError ServiceBindingAssets
  with_instance_assets i (err e) = err e
  with_instance_assets i (ok assets) =
      ok (record { service_instance = i; instance_assets = assets })

  abbrev with_instance : Result ApiError CfServiceInstance → Result GoError ServiceBindingAssets
  with_instance (err e) = err (from_api_error e)
  with_instance (ok i) =
      with_instance_assets i (get_service_instance_assets world.catalog i.plan_guid)

  -- `GetServiceBindingAssets` of osbapi/assets.go
  unfoldable pub get_service_binding_assets : CfServiceBinding → Result GoError ServiceBindingAssets
  get_service_binding_assets b =
      with_instance (world.get_instance (record { namespace = b.namespace; name = b.service_name }))
