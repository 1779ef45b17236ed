-- ===== src/Services/Instances/World.antt =====
-- The state of controllers/controllers/services/instances/managed/controller.go: a managed service
-- instance, the API server's answers, and the trace of the calls of the broker.
use korifi.Base.{ℕ, String, List, Bool, Option, none, some, refl, ◌≡◌, false}
use korifi.Kube.Errors.{ApiError, Result}
use korifi.Kube.Conditions.{Condition, ConditionsApi, condition_true}
use korifi.Kube.Reconcile.{Resource, CtrlResult, no_result, Delegated}
use korifi.Kube.NotReady.{GoError}
use korifi.Services.Broker.{BrokerClient, BrokerError, ProvisionResponse, LastOperationResponse}
use korifi.Services.Assets.{Catalog, CfServiceBroker}

pub record LastOperation : Type 0 where
  pub operation_type : String
  pub state : String
  pub description : String

pub record CfServiceInstance : Type 0 where
  pub name : String
  pub namespace : String
  pub generation : ℕ
  pub deletion_timestamp : ℕ  -- 0 for the zero time
  pub finalizers : List String
  pub annotations : List (String × String)
  pub instance_type : String
  pub plan_guid : String
  pub parameters_name : String
  pub service_label : Option String
  pub observed_generation : ℕ
  pub conditions : List Condition
  pub last_operation : LastOperation
  pub maintenance_version : String
  pub credentials_name : String
  pub upgrade_available : Bool

abbrev pub instance_resource : Resource
instance_resource = record {
  Object = CfServiceInstance;
  generation = λ i. i.generation;
  conditions = λ i. i.conditions;
  with_conditions = λ cs i. record i { conditions = cs };
  conditions-with_conditions = λ cs i. refl;
}

pub record NamespacedName : Type 0 where
  pub namespace : String
  pub name : String

-- controllerutil's `ContainsFinalizer` and `RemoveFinalizer`, on the list of finalizers.
pub record FinalizersApi : Type 0 where
  pub contains_finalizer : List String → String → Bool
  pub remove_finalizer : List String → String → List String
  pub contains-remove :
      (fs : List String) (f : String) → contains_finalizer (remove_finalizer fs f) f ≡ false

-- The answers of the API server, the factory of clients (an interface of the program), and the
-- functions of the libraries. A namespace is its labels, a secret its data.
pub record InstanceWorld (Json : Type 0) : Type 0 where
  pub catalog : Catalog
  pub create_client : CfServiceBroker → Result GoError (BrokerClient Json)
  pub get_secret : NamespacedName → Result ApiError (List (String × String))
  pub unmarshal_parameters : String → Result GoError (Option Json)
  pub get_namespace : String → Result ApiError (List (String × String))
  pub list_bindings : NamespacedName → Result ApiError (List NamespacedName)
  pub delete_binding : NamespacedName → Option ApiError
  pub print : ℕ → String  -- the verb `%d`

pub data BrokerCall : Type 0 where
  provisioned : Result BrokerError ProvisionResponse → BrokerCall
  deprovisioned : Result BrokerError ProvisionResponse → BrokerCall
  polled : Result BrokerError LastOperationResponse → BrokerCall

-- A part of a reconciliation: the instance as changed so far, the calls of the broker, and the
-- value or error that the part returns.
pub record Progress (A : Type 0) : Type 0 where
  pub object : CfServiceInstance
  pub calls : List BrokerCall
  pub answer : Result GoError A

-- A whole one.
pub record Attempt : Type 0 where
  pub object : CfServiceInstance
  pub calls : List BrokerCall
  pub result : CtrlResult
  pub failure : Option GoError

abbrev pub fails : CfServiceInstance → List BrokerCall → GoError → Attempt
fails i calls e = record { object = i; calls = calls; result = no_result; failure = some e }

abbrev pub succeeds : CfServiceInstance → List BrokerCall → Attempt
succeeds i calls = record { object = i; calls = calls; result = no_result; failure = none }

-- What the patching reconciler sees of it.
abbrev pub delegated : Attempt → Delegated instance_resource
delegated a = record { object = a.object; result = a.result; delegate_error = a.failure }

abbrev pub provisioning_failed : String
provisioning_failed = "ProvisioningFailed"

abbrev pub deprovisioning_failed : String
deprovisioning_failed = "DeprovisioningFailed"

-- A condition of the failure of an operation, set.
abbrev pub set_failed :
    ConditionsApi → ℕ → String → String → String → CfServiceInstance → CfServiceInstance
set_failed meta now condition_type reason message i =
    let c : Condition = record {
      condition_type = condition_type;
      status = condition_true;
      reason = reason;
      message = message;
      observed_generation = i.generation;
      last_transition_time = now;
    } in
    record i { conditions = meta.set_status_condition now c i.conditions }

abbrev pub with_state : String → CfServiceInstance → CfServiceInstance
with_state state i = record i { last_operation = record i.last_operation { state = state } }

abbrev pub started_operation : String → CfServiceInstance → CfServiceInstance
started_operation operation_type i = record i {
  last_operation = record { operation_type = operation_type; state = "initial"; description = "" };
}
