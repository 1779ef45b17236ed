-- ===== src/Services/Bindings/Reconciler.antt =====
-- The reconciliation of a service binding (`ReconcileResource` of
-- controllers/controllers/services/bindings/controller.go and of bindings/managed/controller.go).
use korifi.Base.{
  ℕ, String, List, [], ◌∷◌, ◌++◌, Bool, true, false, Option, none, ◌==◌, ◌&&◌, ◌||◌, eqb, not,
  value_at, insert, is_some, if◌then◌else◌,
}
use korifi.Base.Int.{pos, int_eqb}
use korifi.Kube.Errors.{ApiError, Result, ok, err}
use korifi.Kube.Conditions.{ConditionsApi}
use korifi.Kube.Reconcile.{CtrlResult, no_result}
use korifi.Kube.NotReady.{
  GoError, not_ready, wrapping, new_not_ready_error, with_reason, with_message, with_requeue,
  with_no_requeue,
}
use korifi.Services.Broker.{
  BrokerClient, BrokerError, BindResponse, LastOperationResponse, to_go_error,
  is_unrecoverable_error, broker_error_text,
}
use korifi.Services.Assets.{from_api_error}
use korifi.Services.Instances.World.{CfServiceInstance, FinalizersApi}
use korifi.Services.Instances.Provision.{because}
use korifi.Services.Bindings.World.{
  CfServiceBinding, Secret, BindingWorld, BindingEvent, bound, polled, stored, BindingAttempt,
  fails, succeeds, set_failed, binding_failed, ServiceBindingAssets, get_service_binding_assets,
}
use korifi.Services.Bindings.Secrets.{create_env_secret, create_mount_secret}
use korifi.Services.Bindings.Unbind.{poll_error, poll_last_operation, finalize}

abbrev pub is_reconciled : CfServiceBinding → Bool
is_reconciled b = not (b.env_secret_name == "") && not (b.mount_secret_name == "")

abbrev pub plan_guid_label : String
plan_guid_label = "korifi.cloudfoundry.org/plan-guid"

module _ {Json : Type 0} (meta : ConditionsApi) (world : BindingWorld Json) (now : ℕ) where
  open world use {get_secret, unmarshal_parameters, print}

  abbrev is_failed : CfServiceBinding → Bool
  is_failed b = meta.is_status_condition_true b.conditions binding_failed

  abbrev parameters_unmarshalled : Result GoError (Option Json) → Result GoError (Option Json)
  parameters_unmarshalled (ok parameters) = ok parameters
  parameters_unmarshalled (err e) = err (wrapping "failed to get parameters" e)

  abbrev parameters_of : Result ApiError (List (String × String)) → Result GoError (Option Json)
  parameters_of (err e) = err (from_api_error e)
  parameters_of (ok content) =
      parameters_unmarshalled (unmarshal_parameters (value_at "parameters" content))

  unfoldable pub get_parameters : CfServiceBinding → Result GoError (Option Json)
  get_parameters b =
      if b.parameters_name == ""
      then ok none
      else parameters_of (get_secret (record { namespace = b.namespace; name = b.parameters_name }))

  unfoldable pub process_bind_operation :
      CfServiceBinding → List (BindingEvent Json) → LastOperationResponse → BindingAttempt Json
  process_bind_operation b events r =
      if r.state == "succeeded"
      then record {
        object = b;
        events = events;
        result = record { requeue = true; requeue_after = pos 0 };
        failure = none;
      }
      else if r.state == "failed"
      then fails (set_failed meta now binding_failed r.description b) events
          (not_ready (with_message r.description (with_reason "BindingFailed" new_not_ready_error)))
      else fails b events
          (not_ready (with_requeue (with_reason "BindingInProgress" new_not_ready_error)))

  abbrev pub bind_polled :
      CfServiceBinding
      → List (BindingEvent Json)
      → Result BrokerError LastOperationResponse
      → BindingAttempt Json
  bind_polled b events (err e) =
      fails b (events ++ polled (err e) ∷ []) (poll_error meta world now e)
  bind_polled b events (ok r) = process_bind_operation b (events ++ polled (ok r) ∷ []) r

  abbrev pub with_mount_secret :
      CfServiceBinding → List (BindingEvent Json) → Result GoError Secret → BindingAttempt Json
  with_mount_secret b events (err e) = fails b events e
  with_mount_secret b events (ok s) =
      succeeds (record b { mount_secret_name = s.name }) (events ++ stored s ∷ [])

  abbrev pub with_env_secret :
      CfServiceBinding
      → List (BindingEvent Json)
      → Option Json
      → Result GoError Secret
      → BindingAttempt Json
  with_env_secret b events creds (err e) = fails b events e
  with_env_secret b events creds (ok s) =
      let b' = record b { env_secret_name = s.name } in
      if b'.binding_type == "key"
      then succeeds b' (events ++ stored s ∷ [])
      else with_mount_secret b' (events ++ stored s ∷ []) (create_mount_secret world b' creds)

  abbrev pub bind_refused : CfServiceBinding → BrokerError → Bool → BindingAttempt Json
  bind_refused b e true =
      fails (set_failed meta now binding_failed (broker_error_text print e) b) (bound (err e) ∷ [])
        (because "BindingFailed")
  bind_refused b e false = fails b (bound (err e) ∷ []) (to_go_error print e)

  abbrev pub bind_answered :
      CfServiceBinding
      → ServiceBindingAssets
      → BrokerClient Json
      → Result BrokerError (BindResponse Json)
      → BindingAttempt Json
  bind_answered b assets client (err e) = bind_refused b e (is_unrecoverable_error e)
  bind_answered b assets client (ok r) =
      if r.is_async
      then bind_polled b (bound (ok r) ∷ [])
          (poll_last_operation meta world now b assets client r.operation)
      else with_env_secret b (bound (ok r) ∷ []) r.credentials
          (create_env_secret world b r.credentials)

  abbrev pub with_parameters :
      CfServiceBinding
      → ServiceBindingAssets
      → BrokerClient Json
      → Result GoError (Option Json)
      → BindingAttempt Json
  with_parameters b assets client (err e) = fails b [] (because "InvalidParameters")
  with_parameters b assets client (ok parameters) = bind_answered b assets client (
      client.bind (record {
        binding_id = b.name;
        instance_id = assets.service_instance.name;
        request = record {
          service_id = assets.instance_assets.service_offering.broker_catalog_id;
          plan_id = assets.instance_assets.service_plan.broker_catalog_id;
          app_guid = b.app_name;
          bind_resource = b.app_name;
          parameters = parameters;
        };
      }))

  abbrev pub unless_settled :
      CfServiceBinding
      → ServiceBindingAssets
      → BrokerClient Json
      → Bool
      → Bool
      → BindingAttempt Json
  unless_settled b assets client true has_failed = succeeds b []
  unless_settled b assets client false true =
      fails b [] (not_ready (with_no_requeue (with_reason "BindingFailed" new_not_ready_error)))
  unless_settled b assets client false false =
      let b' = record b {
        labels = insert plan_guid_label assets.instance_assets.service_plan.name b.labels;
      } in
      with_parameters b' assets client (get_parameters b')

  abbrev pub with_client :
      CfServiceBinding
      → ServiceBindingAssets
      → Result GoError (BrokerClient Json)
      → BindingAttempt Json
  with_client b assets (err e) = fails b [] e
  with_client b assets (ok client) = unless_settled b assets client (is_reconciled b) (is_failed b)

  abbrev pub with_assets :
      CfServiceBinding → Result GoError ServiceBindingAssets → BindingAttempt Json
  with_assets b (err e) = fails b [] e
  with_assets b (ok assets) =
      with_client b assets (world.create_client assets.instance_assets.service_broker)

  module _ (finalizers : FinalizersApi) where
    -- The reconciliation of a binding to a managed instance.
    unfoldable pub reconcile_managed : CfServiceBinding → BindingAttempt Json
    reconcile_managed b =
        if eqb b.deletion_timestamp 0
        then with_assets b (get_service_binding_assets world b)
        else finalize meta world now finalizers b

    -- The reconciler of bindings to user-provided instances is a delegate.
    module _ (reconcile_upsi : CfServiceBinding → BindingAttempt Json) where
      abbrev pub reconcile_by_type : CfServiceInstance → CfServiceBinding → BindingAttempt Json
      reconcile_by_type i b =
          if i.instance_type == "user-provided" then reconcile_upsi b else reconcile_managed b

      abbrev pub is_zero : CtrlResult → Bool
      is_zero r = not r.requeue && int_eqb r.requeue_after (pos 0)

      abbrev pub needs_requeue : CtrlResult → Option GoError → Bool
      needs_requeue r failure = is_some failure || not (is_zero r)

      abbrev pub typed : CfServiceBinding → Result ApiError CfServiceInstance → BindingAttempt Json
      typed b (err e) = fails b [] (from_api_error e)
      typed b (ok i) =
          let a = reconcile_by_type i (record b {
            annotations =
                insert "korifi.cloudfoundry.org/service-instance-type" i.instance_type
                  b.annotations;
          }) in
          if needs_requeue a.result a.failure
          then a
          else record a { result = no_result; failure = none }

      unfoldable pub reconcile_resource : CfServiceBinding → BindingAttempt Json
      unfolding reconcile_managed
      reconcile_resource b =
          let observed = record b { observed_generation = b.generation } in
          typed observed
            (world.get_instance (record { namespace = b.namespace; name = b.service_name }))
