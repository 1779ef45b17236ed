-- ===== src/Services/Instances/Provision.antt =====
-- The provisioning of a managed service instance
-- (controllers/controllers/services/instances/managed/controller.go): the visibility of its plan,
-- its parameters, the request to the broker and the polling of an operation.
use korifi.Base.{
  ℕ, String, List, [], ◌∷◌, Bool, true, false, Option, none, ◌==◌, any, concat, value_at,
  if◌then◌else◌,
}
use korifi.Kube.Errors.{ApiError, Result, ok, err}
use korifi.Kube.Conditions.{ConditionsApi}
use korifi.Kube.NotReady.{
  GoError, not_ready, not_ready_because, wrapping, new_not_ready_error, with_reason, with_requeue,
}
use korifi.Services.Broker.{
  BrokerClient, BrokerError, ProvisionResponse, LastOperationResponse, value, to_go_error,
  is_unrecoverable_error, broker_error_text,
}
use korifi.Services.Assets.{ServiceInstanceAssets, CfServicePlan, from_api_error}
use korifi.Services.Instances.World.{
  CfServiceInstance, InstanceWorld, BrokerCall, provisioned, polled, Progress, Attempt, fails,
  succeeds, set_failed, with_state, started_operation, provisioning_failed,
}

abbrev pub because : String → GoError
because reason = not_ready (with_reason reason new_not_ready_error)

abbrev space_guid_label : String
space_guid_label = "korifi.cloudfoundry.org/space-guid"

abbrev org_guid_label : String
org_guid_label = "korifi.cloudfoundry.org/org-guid"

module _ {Json : Type 0} (meta : ConditionsApi) (world : InstanceWorld Json) (now : ℕ) where
  open world use {get_secret, unmarshal_parameters, get_namespace, print}

  -- `FromParametersSecretData`
  abbrev from_parameters_secret_data :
      Result ApiError (List (String × String)) → Result GoError (Option Json)
  from_parameters_secret_data (err e) = err (from_api_error e)
  from_parameters_secret_data (ok content) =
      elim (unmarshal_parameters (value_at "parameters" content)) [
        | ok parameters ↦ ok parameters
        | err e ↦ err (wrapping "failed to get parameters" e)
      ]

  unfoldable pub get_service_instance_parameters : CfServiceInstance → Result GoError (Option Json)
  get_service_instance_parameters i =
      if i.parameters_name == ""
      then ok none
      else from_parameters_secret_data
          (get_secret (record { namespace = i.namespace; name = i.parameters_name }))

  abbrev visible_in : CfServicePlan → Result ApiError (List (String × String)) → Result GoError Bool
  visible_in plan (err e) = err (from_api_error e)
  visible_in plan (ok labels) =
      ok (any (λ org. org == value_at org_guid_label labels) plan.visibility_organizations)

  unfoldable pub is_service_plan_visible : CfServiceInstance → CfServicePlan → Result GoError Bool
  is_service_plan_visible i plan =
      if plan.visibility_type == "admin"
      then ok false
      else if plan.visibility_type == "public"
      then ok true
      else visible_in plan (get_namespace i.namespace)

  -- What becomes of the broker's answer to the request for an instance.
  abbrev pub provision_refused : CfServiceInstance → BrokerError → Bool → Progress ProvisionResponse
  provision_refused i e true = record {
    object =
        set_failed meta now provisioning_failed "ProvisionFailed" (broker_error_text print e)
          (with_state "failed" i);
    calls = provisioned (err e) ∷ [];
    answer = err (because "ProvisionFailed");
  }
  provision_refused i e false = record {
    object = i;
    calls = provisioned (err e) ∷ [];
    answer = err (to_go_error print e);
  }

  abbrev pub provision_answered :
      CfServiceInstance → Result BrokerError ProvisionResponse → Progress ProvisionResponse
  provision_answered i (ok r) = record {
    object = i;
    calls = provisioned (ok r) ∷ [];
    answer = ok r;
  }
  provision_answered i (err e) = provision_refused i e (is_unrecoverable_error e)

  abbrev pub in_namespace :
      CfServiceInstance
      → ServiceInstanceAssets
      → BrokerClient Json
      → Option Json
      → Result ApiError (List (String × String))
      → Progress ProvisionResponse
  in_namespace i assets client parameters (err e) = record {
    object = i;
    calls = [];
    answer = err (
        wrapping (concat ("failed to get namespace " ∷ world.catalog.quote i.namespace ∷ []))
          (from_api_error e));
  }
  in_namespace i assets client parameters (ok labels) =
      provision_answered (started_operation "create" i) (
        client.provision (record {
          instance_id = i.name;
          request = record {
            service_id = assets.service_offering.broker_catalog_id;
            plan_id = assets.service_plan.broker_catalog_id;
            space_guid = value_at space_guid_label labels;
            org_guid = value_at org_guid_label labels;
            parameters = parameters;
          };
        }))

  abbrev pub with_parameters :
      CfServiceInstance
      → ServiceInstanceAssets
      → BrokerClient Json
      → Result GoError (Option Json)
      → Progress ProvisionResponse
  with_parameters i assets client (err e) = record {
    object = i;
    calls = [];
    answer = err (because "InvalidParameters");
  }
  with_parameters i assets client (ok parameters) =
      in_namespace i assets client parameters (get_namespace i.namespace)

  unfoldable pub provision_service_instance :
      CfServiceInstance → ServiceInstanceAssets → BrokerClient Json → Progress ProvisionResponse
  unfolding get_service_instance_parameters
  provision_service_instance i assets client =
      with_parameters i assets client (get_service_instance_parameters i)

  abbrev pub poll_answered :
      CfServiceInstance → Result BrokerError LastOperationResponse → Progress LastOperationResponse
  poll_answered i (err e) = record {
    object = i;
    calls = polled (err e) ∷ [];
    answer = err (
        not_ready_because (with_reason "GetLastOperationFailed" new_not_ready_error)
          (to_go_error print e));
  }
  poll_answered i (ok r) = record {
    object = record i {
      last_operation = record i.last_operation {
        state = value r.state;
        description = r.description;
      };
    };
    calls = polled (ok r) ∷ [];
    answer = ok r;
  }

  unfoldable pub poll_last_operation :
      CfServiceInstance
      → ServiceInstanceAssets
      → BrokerClient Json
      → String
      → Progress LastOperationResponse
  poll_last_operation i assets client operation = poll_answered i (
      client.get_service_instance_last_operation (record {
        instance_id = i.name;
        service_id = assets.service_offering.broker_catalog_id;
        plan_id = assets.service_plan.broker_catalog_id;
        operation = operation;
      }))

  -- After the calls that were made, an operation that is over or goes on.
  unfoldable pub process_provision_operation :
      CfServiceInstance → List BrokerCall → LastOperationResponse → Attempt
  process_provision_operation i calls r =
      if r.state == "succeeded"
      then succeeds i calls
      else if r.state == "failed"
      then fails (set_failed meta now provisioning_failed "ProvisionFailed" r.description i) calls
          (because "ProvisionFailed")
      else fails i calls
          (not_ready (with_requeue (with_reason "ProvisionInProgress" new_not_ready_error)))
