-- ===== src/Services/Instances/Reconciler.antt =====
-- The reconciliation of a managed service instance (`ReconcileResource` of
-- controllers/controllers/services/instances/managed/controller.go).
use korifi.Base.{
  ℕ, String, List, [], ◌∷◌, ◌++◌, Bool, true, false, Option, none, some, ◌==◌, eqb, not, concat,
  if◌then◌else◌,
}
use korifi.Kube.Errors.{Result, ok, err}
use korifi.Kube.Conditions.{ConditionsApi}
use korifi.Kube.Reconcile.{ready_condition, Delegated}
use korifi.Kube.NotReady.{
  GoError, not_ready, wrapping, new_not_ready_error, with_reason, with_message, with_no_requeue,
}
use korifi.Services.Broker.{BrokerClient, ProvisionResponse, LastOperationResponse}
use korifi.Services.Assets.{ServiceInstanceAssets, get_service_instance_assets}
use korifi.Services.Instances.World.{
  CfServiceInstance, InstanceWorld, FinalizersApi, BrokerCall, Attempt, fails, succeeds, with_state,
  provisioning_failed, delegated, instance_resource,
}
use korifi.Services.Instances.Provision.{
  is_service_plan_visible, provision_service_instance, poll_last_operation,
  process_provision_operation,
}
use korifi.Services.Instances.Release.{finalize}

abbrev pub labelled : ServiceInstanceAssets → CfServiceInstance → Option String → CfServiceInstance
labelled assets i none = record i { service_label = some assets.service_offering.display_name }
labelled assets i (some label) = i

module _ (meta : ConditionsApi) where
  open meta use {is_status_condition_true}

  unfoldable pub is_ready : CfServiceInstance → Bool
  is_ready i = is_status_condition_true i.conditions ready_condition

  unfoldable pub is_failed : CfServiceInstance → Bool
  is_failed i = is_status_condition_true i.conditions provisioning_failed

  module _ {Json : Type 0} (world : InstanceWorld Json) (now : ℕ) where
    abbrev pub provision_polled :
        List BrokerCall
        → CfServiceInstance
        → List BrokerCall
        → Result GoError LastOperationResponse
        → Attempt
    provision_polled calls i more (err e) = fails i (calls ++ more) e
    provision_polled calls i more (ok r) =
        process_provision_operation meta world now i (calls ++ more) r

    abbrev pub provision_awaited :
        ServiceInstanceAssets
        → BrokerClient Json
        → CfServiceInstance
        → List BrokerCall
        → Result GoError ProvisionResponse
        → Attempt
    provision_awaited assets client i calls (err e) =
        fails i calls (wrapping "failed to provision service instance" e)
    provision_awaited assets client i calls (ok r) =
        if r.is_async
        then (let p = poll_last_operation meta world now i assets client r.operation in
            provision_polled calls p.object p.calls p.answer)
        else succeeds
            (with_state "succeeded"
              (record i { maintenance_version = assets.service_plan.maintenance_version }))
            calls

    abbrev pub with_visibility :
        CfServiceInstance
        → ServiceInstanceAssets
        → BrokerClient Json
        → Result GoError Bool
        → Attempt
    with_visibility i assets client (err e) = fails i [] e
    with_visibility i assets client (ok false) = fails i [] (
        not_ready (
          with_no_requeue (
            with_reason "InvalidServicePlan"
              (with_message "The service plan is disabled" new_not_ready_error))))
    with_visibility i assets client (ok true) =
        let p =
          provision_service_instance meta world now (labelled assets i i.service_label) assets
            client in
        provision_awaited assets client p.object p.calls p.answer

    abbrev pub unless_settled :
        CfServiceInstance → ServiceInstanceAssets → BrokerClient Json → Bool → Bool → Attempt
    unless_settled i assets client true has_failed = succeeds i []
    unless_settled i assets client false true =
        fails i []
          (not_ready (with_no_requeue (with_reason "ProvisioningFailed" new_not_ready_error)))
    unless_settled i assets client false false =
        with_visibility i assets client
          (is_service_plan_visible meta world now i assets.service_plan)

    abbrev pub with_client :
        CfServiceInstance → ServiceInstanceAssets → Result GoError (BrokerClient Json) → Attempt
    with_client i assets (err e) = fails i [] (
        wrapping
          (concat (
            "failed to create client for broker "
            ∷ world.catalog.quote assets.service_broker.name
            ∷ []))
          e)
    with_client i assets (ok client) =
        let noted = record i {
          upgrade_available =
              not (i.maintenance_version == assets.service_plan.maintenance_version);
        } in
        unless_settled noted assets client (is_ready noted) (is_failed noted)

    abbrev pub with_assets : CfServiceInstance → Result GoError ServiceInstanceAssets → Attempt
    with_assets i (err e) = fails i [] e
    with_assets i (ok assets) = with_client i assets (world.create_client assets.service_broker)

    module _ (finalizers : FinalizersApi) where
      unfoldable pub reconcile_resource : CfServiceInstance → Attempt
      reconcile_resource i =
          let observed = record i { observed_generation = i.generation } in
          if eqb i.deletion_timestamp 0
          then with_assets observed (get_service_instance_assets world.catalog i.plan_guid)
          else finalize meta world now finalizers observed

      -- The reconciler, as the patching reconciler calls it.
      abbrev pub delegate : CfServiceInstance → Delegated instance_resource
      delegate i = delegated (reconcile_resource i)
