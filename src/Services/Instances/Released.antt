-- ===== src/Services/Instances/Released.antt =====
-- When a managed service instance is let go
-- (controllers/controllers/services/instances/managed/controller.go and instances/finalize.go).
use korifi.Base.{
  ℕ, String, List, [], ◌∷◌, ◌≡◌, refl, sym, ◌∙◌, subst, true, false, Option, none, some, ◌==◌, ◌⊎◌,
  inl, inr, if_either, if_true, if_false, value_at, eqb,
}
use korifi.Kube.Errors.{ApiError, Result, ok, err}
use korifi.Kube.Conditions.{ConditionsApi}
use korifi.Kube.NotReady.{GoError}
use korifi.Services.Broker.{
  BrokerClient, BrokerError, gone_error, unrecoverable_error, request_error, ProvisionResponse,
  LastOperationResponse,
}
use korifi.Services.Assets.{ServiceInstanceAssets}
use korifi.Services.Instances.World.{
  CfServiceInstance, InstanceWorld, FinalizersApi, NamespacedName, BrokerCall, deprovisioned,
  polled, Attempt, started_operation,
}
use korifi.Services.Instances.Provision.{poll_answered, poll_last_operation}
use korifi.Services.Instances.Release.{
  instance_finalizer, without_broker_annotation, bindings_deleted, bindings_listed,
  ensure_no_service_bindings, deprovision_answered, deprovision_service_instance,
  process_deprovision_operation, deprovision_polled, deprovision_awaited, with_client, with_assets,
  without_bindings, finalize_cf_service_instance, finalized, finalize,
}
use korifi.Services.Instances.Reconciler.{reconcile_resource}

-- The broker has let go of the instance: at once, earlier, or by an operation that succeeded.
pub data Deprovisioned : List BrokerCall → Type 0 where
  at_once : (r : ProvisionResponse) → r.is_async ≡ false → Deprovisioned (deprovisioned (ok r) ∷ [])
  before : Deprovisioned (deprovisioned (err gone_error) ∷ [])
  later :
      (r : ProvisionResponse) (l : LastOperationResponse)
      → r.is_async ≡ true
      → (l.state == "succeeded") ≡ true
      → Deprovisioned (deprovisioned (ok r) ∷ polled (ok l) ∷ [])

-- The broker is not to be asked, or has let go.
pub Agreed : CfServiceInstance → List BrokerCall → Type 0
Agreed i calls =
    ((value_at without_broker_annotation i.annotations == "true") ≡ true) ⊎ Deprovisioned calls

-- An attempt that keeps the finalizers, and ends without an error only by agreement.
Frees : CfServiceInstance → List String → Attempt → Type 0
Frees i fs a =
    (a.object.finalizers ≡ fs)
    × (((a.failure ≡ none) × Agreed i a.calls) ⊎ ((e : GoError) × (a.failure ≡ some e)))

module _ {Json : Type 0} (meta : ConditionsApi) (world : InstanceWorld Json) (now : ℕ) where
  processed-Frees :
      (o i : CfServiceInstance) (r : ProvisionResponse) (l : LastOperationResponse)
      → r.is_async ≡ true
      → Frees o i.finalizers (
          process_deprovision_operation meta world now i
            (deprovisioned (ok r) ∷ polled (ok l) ∷ [])
            l)
  unfolding Frees Agreed process_deprovision_operation
  processed-Frees o i r l async =
      if_either (Frees o i.finalizers) (l.state == "succeeded") _ _
        (λ done. (refl, inl (refl, inr (later r l async done))))
        (λ undone.
          if_either (Frees o i.finalizers) (l.state == "failed") _ _ (λ is. (refl, inr (_, refl)))
            (λ on. (refl, inr (_, refl))))

  polled-Frees :
      (o i : CfServiceInstance) (r : ProvisionResponse)
      (answer : Result BrokerError LastOperationResponse)
      → r.is_async ≡ true
      → let p = poll_answered meta world now i answer in
        Frees o i.finalizers
          (deprovision_polled meta world now (deprovisioned (ok r) ∷ []) p.object p.calls p.answer)
  unfolding Frees
  polled-Frees o i r (ok l) async =
      processed-Frees o (poll_answered meta world now i (ok l)).object r l async
  polled-Frees o i r (err e) async = (refl, inr (_, refl))

  answered-Frees :
      (o i : CfServiceInstance) (assets : ServiceInstanceAssets) (client : BrokerClient Json)
      (answer : Result BrokerError ProvisionResponse)
      → let p = deprovision_answered meta world now i answer in
        Frees o i.finalizers
          (deprovision_awaited meta world now assets client p.object p.calls p.answer)
  unfolding Frees Agreed poll_last_operation
  answered-Frees o i assets client (ok r) =
      if_either (Frees o i.finalizers) r.is_async _ _ (polled-Frees o i r _)
        (λ sync. (refl, inl (refl, inr (at_once r sync))))
  answered-Frees o i assets client (err gone_error) = (refl, inl (refl, inr before))
  answered-Frees o i assets client (err (unrecoverable_error status)) = (refl, inr (_, refl))
  answered-Frees o i assets client (err (request_error text)) = (refl, inr (_, refl))

  with_client-Frees :
      (i : CfServiceInstance) (assets : ServiceInstanceAssets)
      (client : Result GoError (BrokerClient Json))
      → Frees i i.finalizers (with_client meta world now i assets client)
  unfolding Frees deprovision_service_instance
  with_client-Frees i assets (ok client) =
      answered-Frees i (started_operation "delete" i) assets client _
  with_client-Frees i assets (err e) = (refl, inr (_, refl))

  with_assets-Frees :
      (i : CfServiceInstance) (assets : Result GoError ServiceInstanceAssets)
      → Frees i i.finalizers (with_assets meta world now i assets)
  unfolding Frees
  with_assets-Frees i (ok assets) = with_client-Frees i assets _
  with_assets-Frees i (err e) = (refl, inr (_, refl))

  left :
      (b : NamespacedName) (bs : List NamespacedName) (deleted : Option ApiError)
      → bindings_deleted meta world now (b ∷ bs) deleted ≡ none
      → ◌≡◌ {A = Result ApiError (List NamespacedName)} (ok (b ∷ bs)) (ok [])
  left b bs none h = cc
  left b bs (some e) h = cc

  no_bindings :
      (answer : Result ApiError (List NamespacedName))
      → bindings_listed meta world now answer ≡ none
      → answer ≡ ok []
  no_bindings (ok []) none_left = refl
  no_bindings (ok (b ∷ bs)) none_left = left b bs _ none_left
  no_bindings (err e) none_left = cc

  without_bindings-Frees :
      (i : CfServiceInstance) → Frees i i.finalizers (without_bindings meta world now i none)
  unfolding Frees Agreed
  without_bindings-Frees i =
      if_either (Frees i i.finalizers) (value_at without_broker_annotation i.annotations == "true")
        _ _ (λ is. (refl, inl (refl, inl is))) (λ other. with_assets-Frees i _)

  module _ (finalizers : FinalizersApi) where
    open finalizers use {contains_finalizer}

    -- What a deletion makes of an instance that has the finalizer.
    pub LetGo : CfServiceInstance → Attempt → Type 0
    LetGo i a =
        ((contains_finalizer a.object.finalizers instance_finalizer ≡ false)
          × (a.failure ≡ none)
          × (world.list_bindings (record { namespace = i.namespace; name = i.name }) ≡ ok [])
          × Agreed i a.calls)
        ⊎ ((a.object.finalizers ≡ i.finalizers) × (e : GoError) × (a.failure ≡ some e))

    finalized-LetGo :
        (i : CfServiceInstance) (a : Attempt) (failure : Option GoError)
        → a.failure ≡ failure
        → world.list_bindings (record { namespace = i.namespace; name = i.name }) ≡ ok []
        → Frees i i.finalizers a
        → LetGo i (finalized meta world now finalizers a failure)
    unfolding LetGo Frees
    finalized-LetGo i a none is unbound (same, inl (fine, agreed)) =
        inl (finalizers.contains-remove a.object.finalizers instance_finalizer, is, unbound, agreed)
    finalized-LetGo i a none is unbound (same, inr (e, fail)) = cc
    finalized-LetGo i a (some e) is unbound (same, how) = inr (same, e, is)

    ensured-LetGo :
        (i : CfServiceInstance) (bound : Option GoError)
        → ensure_no_service_bindings meta world now i ≡ bound
        → let a = without_bindings meta world now i bound in
          LetGo i (finalized meta world now finalizers a a.failure)
    unfolding LetGo ensure_no_service_bindings
    ensured-LetGo i (some e) is = inr (refl, e, refl)
    ensured-LetGo i none is =
        finalized-LetGo i _ _ refl (no_bindings _ is) (without_bindings-Frees i)

    -- A reconciliation of an instance that is being deleted and has the finalizer removes it,
    -- without an error, only when no binding of it is listed, and either its annotation says to
    -- leave the broker out, or the broker answers that it has deleted the instance, that it does
    -- not have it any more, or that the operation which deletes it has succeeded. Otherwise the
    -- finalizers stay, and there is an error.
    pub deletion-LetGo :
        (i : CfServiceInstance)
        → eqb i.deletion_timestamp 0 ≡ false
        → contains_finalizer i.finalizers instance_finalizer ≡ true
        → LetGo i (reconcile_resource meta world now finalizers i)
    unfolding LetGo Agreed reconcile_resource finalize finalize_cf_service_instance
    deletion-LetGo i deleting has =
        let observed = record i { observed_generation = i.generation } in
        let step =
          if_false (eqb i.deletion_timestamp 0) _ _ deleting
          ∙ if_true (contains_finalizer i.finalizers instance_finalizer) _ _ has in
        subst (LetGo observed) (sym step) (ensured-LetGo observed _ refl)
