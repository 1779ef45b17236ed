-- ===== src/Services/Bindings/Unbind.antt =====
-- The deletion of a binding to a managed service instance
-- (controllers/controllers/services/bindings/managed/controller.go).
use korifi.Base.{
  ℕ, String, List, [], ◌∷◌, ◌++◌, Bool, true, false, Option, none, some, ◌==◌, concat, value_at,
  if◌then◌else◌,
}
use korifi.Kube.Errors.{ApiError, Result, ok, err}
use korifi.Kube.Conditions.{ConditionsApi}
use korifi.Kube.NotReady.{
  GoError, not_ready, not_ready_because, wrapping, new_not_ready_error, with_reason, with_requeue,
}
use korifi.Services.Broker.{
  BrokerClient, BrokerError, UnbindResponse, LastOperationResponse, to_go_error,
  is_unrecoverable_error, ignore_gone, broker_error_text,
}
use korifi.Services.Assets.{from_api_error}
use korifi.Services.Instances.World.{CfServiceInstance, FinalizersApi}
use korifi.Services.Instances.Provision.{because}
use korifi.Services.Instances.Release.{without_broker_annotation}
use korifi.Services.Bindings.World.{
  CfServiceBinding, BindingWorld, BindingEvent, unbound, polled, BindingAttempt, fails, succeeds,
  set_failed, unbinding_failed, ServiceBindingAssets, get_service_binding_assets,
}

abbrev pub binding_finalizer : String
binding_finalizer = "cfServiceBinding.korifi.cloudfoundry.org"

module _ {Json : Type 0} (meta : ConditionsApi) (world : BindingWorld Json) (now : ℕ) where
  open world use {catalog, create_client, get_instance, print}

  -- A response of the broker, or the binding with what has failed.
  pub record Unbinding : Type 0 where
    pub object : CfServiceBinding
    pub events : List (BindingEvent Json)
    pub answer : Result GoError UnbindResponse

  abbrev pub unbind_refused : CfServiceBinding → BrokerError → Option BrokerError → Bool → Unbinding
  unbind_refused b e none unrecoverable = record {
    object = b;
    events = unbound (err e) ∷ [];
    answer = ok (record { is_async = false; operation = "" });
  }
  unbind_refused b e (some kept) true = record {
    object = set_failed meta now unbinding_failed (broker_error_text print e) b;
    events = unbound (err e) ∷ [];
    answer = err (because "UnbindingFailed");
  }
  unbind_refused b e (some kept) false = record {
    object = b;
    events = unbound (err e) ∷ [];
    answer = err (wrapping "failed to unbind" (to_go_error print e));
  }

  abbrev pub unbind_answered : CfServiceBinding → Result BrokerError UnbindResponse → Unbinding
  unbind_answered b (ok r) = record { object = b; events = unbound (ok r) ∷ []; answer = ok r }
  unbind_answered b (err e) = unbind_refused b e (ignore_gone e) (is_unrecoverable_error e)

  unfoldable pub delete_service_binding :
      CfServiceBinding → ServiceBindingAssets → BrokerClient Json → Unbinding
  delete_service_binding b assets client = unbind_answered b (
      client.unbind (record {
        binding_id = b.name;
        instance_id = b.service_name;
        service_id = assets.instance_assets.service_offering.broker_catalog_id;
        plan_id = assets.instance_assets.service_plan.broker_catalog_id;
      }))

  abbrev pub poll_error : BrokerError → GoError
  poll_error e =
      not_ready_because (with_reason "GetLastOperationFailed" new_not_ready_error)
        (to_go_error print e)

  -- `pollLastOperation`, up to the wrapping of its error.
  unfoldable pub poll_last_operation :
      CfServiceBinding
      → ServiceBindingAssets
      → BrokerClient Json
      → String
      → Result BrokerError LastOperationResponse
  poll_last_operation b assets client operation =
      client.get_service_binding_last_operation (record {
        instance_id = b.service_name;
        binding_id = b.name;
        service_id = assets.instance_assets.service_offering.broker_catalog_id;
        plan_id = assets.instance_assets.service_plan.broker_catalog_id;
        operation = operation;
      })

  unfoldable pub process_unbind_last_operation :
      CfServiceBinding → List (BindingEvent Json) → LastOperationResponse → BindingAttempt Json
  process_unbind_last_operation b events r =
      if r.state == "succeeded"
      then succeeds b events
      else if r.state == "failed"
      then fails (set_failed meta now unbinding_failed r.description b) events
          (because "UnbindFailed")
      else fails b events
          (not_ready (with_requeue (with_reason "UnbindingInProgress" new_not_ready_error)))

  abbrev pub unbind_polled :
      CfServiceBinding
      → List (BindingEvent Json)
      → Result BrokerError LastOperationResponse
      → BindingAttempt Json
  unbind_polled b events (err e) = fails b (events ++ polled (err e) ∷ []) (poll_error e)
  unbind_polled b events (ok r) = process_unbind_last_operation b (events ++ polled (ok r) ∷ []) r

  abbrev pub unbind_awaited :
      ServiceBindingAssets
      → BrokerClient Json
      → CfServiceBinding
      → List (BindingEvent Json)
      → Result GoError UnbindResponse
      → BindingAttempt Json
  unbind_awaited assets client b events (err e) = fails b events e
  unbind_awaited assets client b events (ok r) =
      if r.is_async
      then unbind_polled b events (poll_last_operation b assets client r.operation)
      else succeeds b events

  abbrev pub with_client :
      CfServiceBinding
      → ServiceBindingAssets
      → Result GoError (BrokerClient Json)
      → BindingAttempt Json
  with_client b assets (err e) = fails b [] (
      wrapping
        (concat (
          "failed to client for broker "
          ∷ world.quote assets.instance_assets.service_broker.name
          ∷ []))
        e)
  with_client b assets (ok client) =
      let u = delete_service_binding b assets client in
      unbind_awaited assets client u.object u.events u.answer

  abbrev pub with_assets :
      CfServiceBinding → Result GoError ServiceBindingAssets → BindingAttempt Json
  with_assets b (err e) = fails b [] (wrapping "failed to get service binding assets" e)
  with_assets b (ok assets) =
      with_client b assets (create_client assets.instance_assets.service_broker)

  abbrev pub with_instance :
      CfServiceBinding → Result ApiError CfServiceInstance → BindingAttempt Json
  with_instance b (err e) =
      fails b [] (wrapping "failed to get service instance" (from_api_error e))
  with_instance b (ok i) =
      if value_at without_broker_annotation i.annotations == "true"
      then succeeds b []
      else with_assets b (get_service_binding_assets world b)

  unfoldable pub finalize_cf_service_binding : CfServiceBinding → BindingAttempt Json
  finalize_cf_service_binding b =
      with_instance b (get_instance (record { namespace = b.namespace; name = b.service_name }))

  module _ (finalizers : FinalizersApi) where
    open finalizers use {contains_finalizer, remove_finalizer}

    abbrev pub finalized : BindingAttempt Json → Option GoError → BindingAttempt Json
    finalized a (some e) = a
    finalized a none = record a {
      object = record a.object {
        finalizers = remove_finalizer a.object.finalizers binding_finalizer;
      };
    }

    unfoldable pub finalize : CfServiceBinding → BindingAttempt Json
    unfolding finalize_cf_service_binding
    finalize b =
        if contains_finalizer b.finalizers binding_finalizer
        then (let a = finalize_cf_service_binding b in finalized a a.failure)
        else succeeds b []
