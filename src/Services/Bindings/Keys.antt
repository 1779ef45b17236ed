-- ===== src/Services/Bindings/Keys.antt =====
-- Service keys: bindings of type key, which have no secret to mount
-- (controllers/controllers/services/bindings/managed/controller.go).
use korifi.Base.{
  ℕ, List, [], ◌∷◌, ◌≡◌, refl, sym, ap, ◌∙◌, subst, false, ◌==◌, eq_iff, arith, if_either, if_true,
  eqb, insert,
}
use korifi.Kube.Errors.{Result, ok, err}
use korifi.Kube.Conditions.{ConditionsApi}
use korifi.Kube.NotReady.{GoError}
use korifi.Services.Broker.{BrokerClient, BrokerError, BindResponse, LastOperationResponse}
use korifi.Services.Instances.World.{FinalizersApi}
use korifi.Services.Bindings.World.{
  CfServiceBinding, Secret, BindingWorld, BindingEvent, bound, stored, BindingAttempt,
  ServiceBindingAssets, get_service_binding_assets, binding_failed,
}
use korifi.Services.Bindings.Reconciler.{
  is_reconciled, process_bind_operation, bind_polled, with_env_secret, bind_answered,
  with_parameters, unless_settled, with_client, with_assets, reconcile_managed, plan_guid_label,
  get_parameters,
}

module _ {Json : Type 0} (meta : ConditionsApi) (world : BindingWorld Json) (now : ℕ) where
  -- The broker is asked to bind first of all, and the binding stays a key without a mounted secret.
  unfoldable pub Asks : BindingAttempt Json → Type 0
  Asks a =
      (answer : Result BrokerError (BindResponse Json)) × (rest : List (BindingEvent Json))
      × (a.events ≡ bound answer ∷ rest)
      × (a.object.binding_type ≡ "key")
      × (a.object.mount_secret_name ≡ "")

  -- A key without a mounted secret.
  abbrev pub Key : CfServiceBinding → Type 0
  Key b = (b.binding_type ≡ "key") × (b.mount_secret_name ≡ "")

  processed-Asks :
      (b : CfServiceBinding) (answer : Result BrokerError (BindResponse Json))
      (rest : List (BindingEvent Json)) (l : LastOperationResponse)
      → Key b
      → Asks (process_bind_operation meta world now b (bound answer ∷ rest) l)
  unfolding Asks process_bind_operation
  processed-Asks b answer rest l (key, unmounted) =
      if_either Asks (l.state == "succeeded") _ _ (λ h. (answer, rest, refl, key, unmounted))
        (λ h.
          if_either Asks (l.state == "failed") _ _ (λ h'. (answer, rest, refl, key, unmounted))
            (λ h'. (answer, rest, refl, key, unmounted)))

  polled-Asks :
      (b : CfServiceBinding) (answer : Result BrokerError (BindResponse Json))
      (l : Result BrokerError LastOperationResponse)
      → Key b
      → Asks (bind_polled meta world now b (bound answer ∷ []) l)
  unfolding Asks
  polled-Asks b answer (ok l) key = processed-Asks b answer _ l key
  polled-Asks b answer (err e) (key, unmounted) = (answer, _, refl, key, unmounted)

  env-Asks :
      (b : CfServiceBinding) (r : BindResponse Json) (s : Result GoError Secret)
      → Key b
      → Asks (with_env_secret meta world now b (bound (ok r) ∷ []) r.credentials s)
  unfolding Asks
  env-Asks b r (err e) (key, unmounted) = (ok r, [], refl, key, unmounted)
  env-Asks b r (ok s) (key, unmounted) =
      subst Asks (sym (if_true (b.binding_type == "key") _ _ ((eq_iff b.binding_type "key").1 key)))
        (ok r, stored s ∷ [], refl, key, unmounted)

  answered-Asks :
      (b : CfServiceBinding) (assets : ServiceBindingAssets) (client : BrokerClient Json)
      (answer : Result BrokerError (BindResponse Json))
      → Key b
      → Asks (bind_answered meta world now b assets client answer)
  unfolding Asks
  answered-Asks b assets client (ok r) key =
      if_either Asks r.is_async _ _ (λ async. polled-Asks b (ok r) _ key)
        (λ sync. env-Asks b r _ key)
  answered-Asks b assets client (err BrokerError.gone_error) (key, unmounted) =
      (_, [], refl, key, unmounted)
  answered-Asks b assets client (err (BrokerError.unrecoverable_error status)) (key, unmounted) =
      (_, [], refl, key, unmounted)
  answered-Asks b assets client (err (BrokerError.request_error text)) (key, unmounted) =
      (_, [], refl, key, unmounted)

  unsettled-Asks :
      (b : CfServiceBinding) (assets : ServiceBindingAssets) (client : BrokerClient Json)
      → Key b
      → b.parameters_name ≡ ""
      → Asks (unless_settled meta world now b assets client false false)
  unfolding get_parameters
  unsettled-Asks b assets client key plain =
      let b' = record b {
        labels = insert plan_guid_label assets.instance_assets.service_plan.name b.labels;
      } in
      subst (λ p. Asks (with_parameters meta world now b' assets client p))
        (sym (if_true (b.parameters_name == "") _ _ ((eq_iff b.parameters_name "").1 plain)))
        (answered-Asks b' assets client _ key)

  Key-unreconciled : (b : CfServiceBinding) → Key b → is_reconciled b ≡ false
  Key-unreconciled b (key, unmounted) = ground (arith, unmounted, eq_iff b.mount_secret_name "")

  -- A binding of type key that has no secret to mount, no parameters, and has not failed, is not
  -- being deleted, and whose instance, plan and client are found: each reconciliation of it asks
  -- the broker to bind, also when it was bound before, and it stays a key without a secret to
  -- mount.
  pub key-Asks :
      (finalizers : FinalizersApi) (b : CfServiceBinding) (assets : ServiceBindingAssets)
      (client : BrokerClient Json)
      → b.binding_type ≡ "key"
      → b.mount_secret_name ≡ ""
      → b.parameters_name ≡ ""
      → b.deletion_timestamp ≡ 0
      → meta.is_status_condition_true b.conditions binding_failed ≡ false
      → get_service_binding_assets world b ≡ ok assets
      → world.create_client assets.instance_assets.service_broker ≡ ok client
      → Asks (reconcile_managed meta world now finalizers b)
  unfolding reconcile_managed
  key-Asks finalizers b assets client key unmounted plain kept unfailed found made =
      let is_settled =
        ap
          (λ r.
            unless_settled meta world now b assets client r
              (meta.is_status_condition_true b.conditions binding_failed))
          (Key-unreconciled b (key, unmounted))
        ∙ ap (unless_settled meta world now b assets client false) unfailed in
      subst Asks
        (sym (
          if_true (eqb b.deletion_timestamp 0) _ _ (ap (λ t. eqb t 0) kept)
          ∙ ap (with_assets meta world now b) found
          ∙ ap (with_client meta world now b assets) made
          ∙ is_settled))
        (unsettled-Asks b assets client (key, unmounted) plain)
