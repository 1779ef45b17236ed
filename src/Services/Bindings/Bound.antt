-- ===== src/Services/Bindings/Bound.antt =====
-- What a reconciliation of a binding to a managed instance stores
-- (controllers/controllers/services/bindings/managed/controller.go).
use korifi.Base.{
  ℕ, String, List, [], ◌∷◌, ◌≡◌, refl, sym, ap, ◌∙◌, subst, Bool, true, false, Option, ◌==◌, ◌⊎◌,
  inl, inr, if_either, if_true, eqb, insert,
}
use korifi.Kube.Errors.{Result, ok, err}
use korifi.Kube.Conditions.{ConditionsApi}
use korifi.Kube.NotReady.{GoError}
use korifi.Services.Broker.{BrokerClient, BrokerError, BindResponse, LastOperationResponse}
use korifi.Services.Instances.World.{NamespacedName, FinalizersApi}
use korifi.Services.Bindings.World.{
  CfServiceBinding, Secret, BindingWorld, BindingEvent, bound, stored, BindingAttempt,
  ServiceBindingAssets, get_service_binding_assets,
}
use korifi.Services.Bindings.Secrets.{
  filled, create_env_secret, create_mount_secret, to_credentials_secret_data,
  get_service_binding_io_secret_data, mount_name,
}
use korifi.Services.Bindings.Reconciler.{
  process_bind_operation, bind_polled, with_mount_secret, with_env_secret, bind_answered,
  with_parameters, unless_settled, with_client, with_assets, reconcile_managed, plan_guid_label,
}

-- What the libraries promise of secrets: one that `CreateOrPatch` has stored under a name is what
-- its function made of a secret of that name, and `SetControllerReference` keeps name and content.
pub record StoresSecrets {Json : Type 0} (world : BindingWorld Json) : Type 0 where
  pub stores :
      (key : NamespacedName) (fill : Secret → Result GoError Secret) (s : Secret)
      → world.create_or_patch key fill ≡ ok s
      → (old : Secret) × (old.name ≡ key.name) × (fill old ≡ ok s)
  pub owns :
      (b : CfServiceBinding) (s s' : Secret)
      → world.set_controller_reference b s ≡ ok s'
      → (s'.name ≡ s.name) × (s'.content ≡ s.content)

module _ {Json : Type 0} (world : BindingWorld Json) where
  -- The secret of a response: its name, and what it contains.
  abbrev pub EnvOf : CfServiceBinding → BindResponse Json → Secret → Type 0
  EnvOf b r s = (s.name ≡ b.name) × (to_credentials_secret_data world r.credentials ≡ ok s.content)

  abbrev pub MountOf : CfServiceBinding → BindResponse Json → Secret → Type 0
  MountOf b r s =
      (s.name ≡ mount_name b)
      × (get_service_binding_io_secret_data world r.credentials ≡ ok s.content)

  -- Either the references to the secrets are left alone, or the broker has bound at once, and
  -- each reference that is set is the name of a secret that was stored with what it answered.
  unfoldable pub Binds : CfServiceBinding → BindingAttempt Json → Type 0
  Binds b a =
      ((a.object.env_secret_name ≡ b.env_secret_name)
        × (a.object.mount_secret_name ≡ b.mount_secret_name))
      ⊎ ((r : BindResponse Json) × (s : Secret) × (r.is_async ≡ false)
          × EnvOf b r s
          × (a.object.env_secret_name ≡ s.name)
          × (((a.object.mount_secret_name ≡ b.mount_secret_name)
                × (a.events ≡ bound (ok r) ∷ stored s ∷ []))
              ⊎ ((m : Secret) × MountOf b r m
                  × (a.object.mount_secret_name ≡ m.name)
                  × (a.events ≡ bound (ok r) ∷ stored s ∷ stored m ∷ []))))

  module _ (promise : StoresSecrets world) where
    filled_lem :
        (b : CfServiceBinding) (content : Result GoError (List (String × String))) (old s : Secret)
        → filled world b content old ≡ ok s
        → (s.name ≡ old.name) × (content ≡ ok s.content)
    filled_lem b (err e) old s h = cc
    filled_lem b (ok content) old s h =
        let (name, same) = promise.owns b (record old { content = content }) s h in
        (name, ap ok (sym same))

    env-EnvOf :
        (b : CfServiceBinding) (r : BindResponse Json) (s : Secret)
        → create_env_secret world b r.credentials ≡ ok s
        → EnvOf b r s
    unfolding create_env_secret
    env-EnvOf b r s h =
        let (old, name, made) = promise.stores _ _ s h in
        let (name', same) = filled_lem b _ old s made in (name' ∙ name, same)

    mount-MountOf :
        (b : CfServiceBinding) (r : BindResponse Json) (s : Secret)
        → create_mount_secret world b r.credentials ≡ ok s
        → MountOf b r s
    unfolding create_mount_secret
    mount-MountOf b r s h =
        let (old, name, made) = promise.stores _ _ s h in
        let (name', same) = filled_lem b _ (record old { secret_type = _ }) s made in
        (name' ∙ name, same)

  module _ (meta : ConditionsApi) (now : ℕ) where
    processed-Binds :
        (b : CfServiceBinding) (events : List (BindingEvent Json)) (r : LastOperationResponse)
        → Binds b (process_bind_operation meta world now b events r)
    unfolding Binds process_bind_operation
    processed-Binds b events r =
        if_either (Binds b) (r.state == "succeeded") _ _ (λ h. inl (refl, refl))
          (λ h.
            if_either (Binds b) (r.state == "failed") _ _ (λ h'. inl (refl, refl))
              (λ h'. inl (refl, refl)))

    polled-Binds :
        (b : CfServiceBinding) (events : List (BindingEvent Json))
        (answer : Result BrokerError LastOperationResponse)
        → Binds b (bind_polled meta world now b events answer)
    unfolding Binds
    polled-Binds b events (ok r) = processed-Binds b _ r
    polled-Binds b events (err e) = inl (refl, refl)

    module _ (promise : StoresSecrets world) where
      mounted-Binds :
          (b : CfServiceBinding) (r : BindResponse Json) (s : Secret)
          (answer : Result GoError Secret)
          → r.is_async ≡ false
          → EnvOf b r s
          → create_mount_secret world (record b { env_secret_name = s.name }) r.credentials ≡ answer
          → Binds b (
              with_mount_secret meta world now
                (record b { env_secret_name = s.name })
                (bound (ok r) ∷ stored s ∷ [])
                answer)
      unfolding Binds
      mounted-Binds b r s (ok m) sync env is = inr (
        r,
        s,
        sync,
        env,
        refl,
        inr (m, mount-MountOf promise (record b { env_secret_name = s.name }) r m is, refl, refl),
      )
      mounted-Binds b r s (err e) sync env is = inr (r, s, sync, env, refl, inl (refl, refl))

      env-Binds :
          (b : CfServiceBinding) (r : BindResponse Json) (answer : Result GoError Secret)
          → r.is_async ≡ false
          → create_env_secret world b r.credentials ≡ answer
          → Binds b (with_env_secret meta world now b (bound (ok r) ∷ []) r.credentials answer)
      unfolding Binds
      env-Binds b r (err e) sync is = inl (refl, refl)
      env-Binds b r (ok s) sync is =
          if_either (Binds b) (b.binding_type == "key") _ _
            (λ key. inr (r, s, sync, env-EnvOf promise b r s is, refl, inl (refl, refl)))
            (λ other. mounted-Binds b r s _ sync (env-EnvOf promise b r s is) refl)

      answered-Binds :
          (b : CfServiceBinding) (assets : ServiceBindingAssets) (client : BrokerClient Json)
          (answer : Result BrokerError (BindResponse Json))
          → Binds b (bind_answered meta world now b assets client answer)
      unfolding Binds
      answered-Binds b assets client (ok r) =
          if_either (Binds b) r.is_async _ _ (λ async. polled-Binds b (bound (ok r) ∷ []) _)
            (λ sync. env-Binds b r _ sync refl)
      answered-Binds b assets client (err (BrokerError.gone_error)) = inl (refl, refl)
      answered-Binds b assets client (err (BrokerError.unrecoverable_error status)) =
          inl (refl, refl)
      answered-Binds b assets client (err (BrokerError.request_error text)) = inl (refl, refl)

      parameters-Binds :
          (b : CfServiceBinding) (assets : ServiceBindingAssets) (client : BrokerClient Json)
          (parameters : Result GoError (Option Json))
          → Binds b (with_parameters meta world now b assets client parameters)
      unfolding Binds
      parameters-Binds b assets client (ok parameters) = answered-Binds b assets client _
      parameters-Binds b assets client (err e) = inl (refl, refl)

      settled-Binds :
          (b : CfServiceBinding) (assets : ServiceBindingAssets) (client : BrokerClient Json)
          (reconciled has_failed : Bool)
          → Binds b (unless_settled meta world now b assets client reconciled has_failed)
      unfolding Binds
      settled-Binds b assets client true f = inl (refl, refl)
      settled-Binds b assets client false true = inl (refl, refl)
      settled-Binds b assets client false false =
          let b' = record b {
            labels = insert plan_guid_label assets.instance_assets.service_plan.name b.labels;
          } in
          parameters-Binds b' assets client _

      client-Binds :
          (b : CfServiceBinding) (assets : ServiceBindingAssets)
          (client : Result GoError (BrokerClient Json))
          → Binds b (with_client meta world now b assets client)
      unfolding Binds
      client-Binds b assets (ok client) = settled-Binds b assets client _ _
      client-Binds b assets (err e) = inl (refl, refl)

      assets-Binds :
          (b : CfServiceBinding) (assets : Result GoError ServiceBindingAssets)
          → Binds b (with_assets meta world now b assets)
      unfolding Binds
      assets-Binds b (ok assets) = client-Binds b assets _
      assets-Binds b (err e) = inl (refl, refl)

      -- If the libraries store secrets as they promise, a reconciliation of a binding that is not
      -- being deleted leaves the references to its two secrets alone; or the broker has bound at
      -- once, and the references are the names of secrets that were stored with the credentials in
      -- its answer: that of the environment, and that to mount, unless its reference is left alone.
      pub reconcile_managed-Binds :
          (finalizers : FinalizersApi) (b : CfServiceBinding)
          → b.deletion_timestamp ≡ 0
          → Binds b (reconcile_managed meta world now finalizers b)
      unfolding reconcile_managed
      reconcile_managed-Binds finalizers b kept =
          subst (Binds b) (sym (if_true (eqb b.deletion_timestamp 0) _ _ (ap (λ t. eqb t 0) kept)))
            (assets-Binds b (get_service_binding_assets world b))
