-- ===== src/Services/Instances/Release.antt =====
-- The deletion of a managed service instance
-- (controllers/controllers/services/instances/managed/controller.go and instances/finalize.go): its
-- bindings are deleted first, then the broker is asked, and then its finalizer is removed.
use korifi.Base.{
  ℕ, String, List, [], ◌∷◌, ◌++◌, Bool, true, false, Option, none, some, ◌==◌, concat, length,
  value_at, if◌then◌else◌,
}
use korifi.Base.Int.{pos}
use korifi.Kube.Errors.{ApiError, Result, ok, err, ignore_not_found}
use korifi.Kube.Conditions.{ConditionsApi}
use korifi.Kube.NotReady.{
  GoError, not_ready, wrapping, new_not_ready_error, with_reason, with_message, with_requeue,
  with_requeue_after,
}
use korifi.Services.Broker.{
  BrokerClient, BrokerError, ProvisionResponse, LastOperationResponse, to_go_error,
  is_unrecoverable_error, ignore_gone, broker_error_text,
}
use korifi.Services.Assets.{ServiceInstanceAssets, from_api_error, get_service_instance_assets}
use korifi.Services.Instances.World.{
  CfServiceInstance, InstanceWorld, FinalizersApi, NamespacedName, BrokerCall, deprovisioned,
  Progress, Attempt, fails, succeeds, set_failed, with_state, started_operation,
  deprovisioning_failed,
}
use korifi.Services.Instances.Provision.{because, poll_last_operation}

abbrev pub instance_finalizer : String
instance_finalizer = "cfServiceInstance.korifi.cloudfoundry.org"

abbrev pub without_broker_annotation : String
without_broker_annotation = "korifi.cloudfoundry.org/deprovision-without-broker"

abbrev first_error : Option ApiError → Option ApiError → Option ApiError
first_error none later = later
first_error (some e) later = some e

module _ {Json : Type 0} (meta : ConditionsApi) (world : InstanceWorld Json) (now : ℕ) where
  open world use {catalog, create_client, list_bindings, delete_binding, print}

  -- The first error of the deletions; a binding that is gone is none.
  abbrev pub delete_bindings : List NamespacedName → Option ApiError
  delete_bindings [] = none
  delete_bindings (b ∷ bs) =
      let later = delete_bindings bs in first_error (ignore_not_found (delete_binding b)) later

  abbrev pub bindings_deleted : List NamespacedName → Option ApiError → Option GoError
  bindings_deleted bs (some e) = some (from_api_error e)
  bindings_deleted [] none = none
  bindings_deleted (b ∷ bs) none = some (
      not_ready (
        with_requeue_after (pos 1000000000) (
          with_message
            (concat (
              "There are still "
              ∷ print (length (b ∷ bs))
              ∷ " bindings for the service instance"
              ∷ []))
            (with_reason "BindingsAvailable" new_not_ready_error))))

  abbrev pub bindings_listed : Result ApiError (List NamespacedName) → Option GoError
  bindings_listed (err e) = some (wrapping "failed to list bindings" (from_api_error e))
  bindings_listed (ok bs) = bindings_deleted bs (delete_bindings bs)

  unfoldable pub ensure_no_service_bindings : CfServiceInstance → Option GoError
  ensure_no_service_bindings i =
      bindings_listed (list_bindings (record { namespace = i.namespace; name = i.name }))

  -- What becomes of the broker's answer to the deletion; a `GoneError` counts as done, with an
  -- empty response.
  abbrev pub deprovision_refused :
      CfServiceInstance → BrokerError → Option BrokerError → Bool → Progress ProvisionResponse
  deprovision_refused i e none unrecoverable = record {
    object = i;
    calls = deprovisioned (err e) ∷ [];
    answer = ok (record { is_async = false; operation = "" });
  }
  deprovision_refused i e (some kept) true = record {
    object =
        set_failed meta now deprovisioning_failed "DeprovisionFailed" (broker_error_text print e)
          (with_state "failed" i);
    calls = deprovisioned (err e) ∷ [];
    answer = err (because "DeprovisionFailed");
  }
  deprovision_refused i e (some kept) false = record {
    object = i;
    calls = deprovisioned (err e) ∷ [];
    answer = err (wrapping "failed to deprovision service instance" (to_go_error print e));
  }

  abbrev pub deprovision_answered :
      CfServiceInstance → Result BrokerError ProvisionResponse → Progress ProvisionResponse
  deprovision_answered i (ok r) = record {
    object = i;
    calls = deprovisioned (ok r) ∷ [];
    answer = ok r;
  }
  deprovision_answered i (err e) =
      deprovision_refused i e (ignore_gone e) (is_unrecoverable_error e)

  unfoldable pub deprovision_service_instance :
      CfServiceInstance → ServiceInstanceAssets → BrokerClient Json → Progress ProvisionResponse
  deprovision_service_instance i assets client =
      deprovision_answered (started_operation "delete" i) (
        client.deprovision (record {
          instance_id = i.name;
          service_id = assets.service_offering.broker_catalog_id;
          plan_id = assets.service_plan.broker_catalog_id;
        }))

  unfoldable pub process_deprovision_operation :
      CfServiceInstance → List BrokerCall → LastOperationResponse → Attempt
  process_deprovision_operation i calls r =
      if r.state == "succeeded"
      then succeeds i calls
      else if r.state == "failed"
      then fails (set_failed meta now deprovisioning_failed "DeprovisionFailed" r.description i)
          calls (because "DeprovisionFailed")
      else fails i calls
          (not_ready (with_requeue (with_reason "DeprovisionInProgress" new_not_ready_error)))

  abbrev pub deprovision_polled :
      List BrokerCall
      → CfServiceInstance
      → List BrokerCall
      → Result GoError LastOperationResponse
      → Attempt
  deprovision_polled calls i more (err e) = fails i (calls ++ more) e
  deprovision_polled calls i more (ok r) = process_deprovision_operation i (calls ++ more) r

  abbrev pub deprovision_awaited :
      ServiceInstanceAssets
      → BrokerClient Json
      → CfServiceInstance
      → List BrokerCall
      → Result GoError ProvisionResponse
      → Attempt
  deprovision_awaited assets client i calls (err e) = fails i calls e
  deprovision_awaited assets client i calls (ok r) =
      if r.is_async
      then (let p = poll_last_operation meta world now i assets client r.operation in
          deprovision_polled calls p.object p.calls p.answer)
      else succeeds i calls

  abbrev pub with_client :
      CfServiceInstance → ServiceInstanceAssets → Result GoError (BrokerClient Json) → Attempt
  with_client i assets (err e) = fails i [] (
      wrapping
        (concat
          ("failed to create client for broker " ∷ catalog.quote assets.service_broker.name ∷ []))
        e)
  with_client i assets (ok client) =
      let p = deprovision_service_instance i assets client in
      deprovision_awaited assets client p.object p.calls p.answer

  abbrev pub with_assets : CfServiceInstance → Result GoError ServiceInstanceAssets → Attempt
  with_assets i (err e) = fails i [] (wrapping "failed to get service instance assets" e)
  with_assets i (ok assets) = with_client i assets (create_client assets.service_broker)

  abbrev pub without_bindings : CfServiceInstance → Option GoError → Attempt
  without_bindings i (some e) = fails i [] e
  without_bindings i none =
      if value_at without_broker_annotation i.annotations == "true"
      then succeeds i []
      else with_assets i (get_service_instance_assets catalog i.plan_guid)

  unfoldable pub finalize_cf_service_instance : CfServiceInstance → Attempt
  finalize_cf_service_instance i = without_bindings i (ensure_no_service_bindings i)

  module _ (finalizers : FinalizersApi) where
    open finalizers use {contains_finalizer, remove_finalizer}

    abbrev pub finalized : Attempt → Option GoError → Attempt
    finalized a (some e) = a
    finalized a none = record a {
      object = record a.object {
        finalizers = remove_finalizer a.object.finalizers instance_finalizer;
      };
    }

    unfoldable pub finalize : CfServiceInstance → Attempt
    unfolding finalize_cf_service_instance
    finalize i =
        if contains_finalizer i.finalizers instance_finalizer
        then (let a = finalize_cf_service_instance i in finalized a a.failure)
        else succeeds i []
