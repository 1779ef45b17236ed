-- ===== src/Services/Bindings/Freed.antt =====
-- When a binding to a managed instance is let go
-- (controllers/controllers/services/bindings/managed/controller.go).
use korifi.Base.{
  ℕ, String, List, [], ◌∷◌, ◌≡◌, refl, sym, ◌∙◌, subst, true, false, Option, none, some, ◌==◌, ◌⊎◌,
  inl, inr, if_either, if_true, if_false, value_at, eqb,
}
use korifi.Kube.Errors.{ApiError, Result, ok, err}
use korifi.Kube.Conditions.{ConditionsApi}
use korifi.Kube.NotReady.{GoError}
use korifi.Services.Broker.{
  BrokerClient, BrokerError, gone_error, unrecoverable_error, request_error, UnbindResponse,
  LastOperationResponse,
}
use korifi.Services.Instances.World.{CfServiceInstance, FinalizersApi}
use korifi.Services.Instances.Release.{without_broker_annotation}
use korifi.Services.Bindings.World.{
  CfServiceBinding, BindingWorld, BindingEvent, unbound, polled, BindingAttempt,
  ServiceBindingAssets,
}
use korifi.Services.Bindings.Unbind.{
  binding_finalizer, process_unbind_last_operation, unbind_polled, unbind_answered, unbind_awaited,
  with_client, with_assets, with_instance, delete_service_binding, finalize_cf_service_binding,
  finalized, finalize,
}
use korifi.Services.Bindings.Reconciler.{reconcile_managed}

module _ {Json : Type 0} where
  -- The broker has let go of the binding: at once, earlier, or by an operation that succeeded.
  pub data Unbound : List (BindingEvent Json) → Type 0 where
    at_once : (r : UnbindResponse) → r.is_async ≡ false → Unbound (unbound (ok r) ∷ [])
    before : Unbound (unbound (err gone_error) ∷ [])
    later :
        (r : UnbindResponse) (l : LastOperationResponse)
        → r.is_async ≡ true
        → (l.state == "succeeded") ≡ true
        → Unbound (unbound (ok r) ∷ polled (ok l) ∷ [])

module _ {Json : Type 0} (meta : ConditionsApi) (world : BindingWorld Json) (now : ℕ) where
  -- The broker is not to be asked, by an annotation of the instance, or has let go.
  unfoldable pub Consents : CfServiceBinding → List (BindingEvent Json) → Type 0
  Consents b events =
      ((i : CfServiceInstance) × (world.get_instance
            (record { namespace = b.namespace; name = b.service_name })
          ≡ ok i)
        × ((value_at without_broker_annotation i.annotations == "true") ≡ true))
      ⊎ Unbound events

  Frees : CfServiceBinding → List String → BindingAttempt Json → Type 0
  Frees b fs a =
      (a.object.finalizers ≡ fs)
      × (((a.failure ≡ none) × Consents b a.events) ⊎ ((e : GoError) × (a.failure ≡ some e)))

  processed-Frees :
      (o b : CfServiceBinding) (r : UnbindResponse) (l : LastOperationResponse)
      → r.is_async ≡ true
      → Frees o b.finalizers
          (process_unbind_last_operation meta world now b (unbound (ok r) ∷ polled (ok l) ∷ []) l)
  unfolding Frees Consents process_unbind_last_operation
  processed-Frees o b r l async =
      if_either (Frees o b.finalizers) (l.state == "succeeded") _ _
        (λ done. (refl, inl (refl, inr (later r l async done))))
        (λ undone.
          if_either (Frees o b.finalizers) (l.state == "failed") _ _ (λ is. (refl, inr (_, refl)))
            (λ on. (refl, inr (_, refl))))

  polled-Frees :
      (o b : CfServiceBinding) (r : UnbindResponse)
      (answer : Result BrokerError LastOperationResponse)
      → r.is_async ≡ true
      → Frees o b.finalizers (unbind_polled meta world now b (unbound (ok r) ∷ []) answer)
  unfolding Frees
  polled-Frees o b r (ok l) async = processed-Frees o b r l async
  polled-Frees o b r (err e) async = (refl, inr (_, refl))

  answered-Frees :
      (o b : CfServiceBinding) (assets : ServiceBindingAssets) (client : BrokerClient Json)
      (answer : Result BrokerError UnbindResponse)
      → let u = unbind_answered meta world now b answer in
        Frees o b.finalizers
          (unbind_awaited meta world now assets client u.object u.events u.answer)
  unfolding Frees Consents
  answered-Frees o b assets client (ok r) =
      if_either (Frees o b.finalizers) r.is_async _ _ (λ async. polled-Frees o b r _ async)
        (λ sync. (refl, inl (refl, inr (at_once r sync))))
  answered-Frees o b assets client (err gone_error) = (refl, inl (refl, inr before))
  answered-Frees o b assets client (err (unrecoverable_error status)) = (refl, inr (_, refl))
  answered-Frees o b assets client (err (request_error text)) = (refl, inr (_, refl))

  client-Frees :
      (b : CfServiceBinding) (assets : ServiceBindingAssets)
      (client : Result GoError (BrokerClient Json))
      → Frees b b.finalizers (with_client meta world now b assets client)
  unfolding Frees delete_service_binding
  client-Frees b assets (ok client) = answered-Frees b b assets client _
  client-Frees b assets (err e) = (refl, inr (_, refl))

  assets-Frees :
      (b : CfServiceBinding) (assets : Result GoError ServiceBindingAssets)
      → Frees b b.finalizers (with_assets meta world now b assets)
  unfolding Frees
  assets-Frees b (ok assets) = client-Frees b assets _
  assets-Frees b (err e) = (refl, inr (_, refl))

  instance-Frees :
      (b : CfServiceBinding) (answer : Result ApiError CfServiceInstance)
      → world.get_instance (record { namespace = b.namespace; name = b.service_name }) ≡ answer
      → Frees b b.finalizers (with_instance meta world now b answer)
  unfolding Frees Consents
  instance-Frees b (ok i) is =
      if_either (Frees b b.finalizers) (value_at without_broker_annotation i.annotations == "true")
        _ _ (λ told. (refl, inl (refl, inl (i, is, told)))) (λ other. assets-Frees b _)
  instance-Frees b (err e) is = (refl, inr (_, refl))

  module _ (finalizers : FinalizersApi) where
    open finalizers use {contains_finalizer}

    -- What a deletion makes of a binding that has the finalizer.
    unfoldable pub Freed : CfServiceBinding → BindingAttempt Json → Type 0
    Freed b a =
        ((contains_finalizer a.object.finalizers binding_finalizer ≡ false)
          × (a.failure ≡ none)
          × Consents b a.events)
        ⊎ ((a.object.finalizers ≡ b.finalizers) × (e : GoError) × (a.failure ≡ some e))

    finalized-Freed :
        (b : CfServiceBinding) (a : BindingAttempt Json) (failure : Option GoError)
        → a.failure ≡ failure
        → Frees b b.finalizers a
        → Freed b (finalized meta world now finalizers a failure)
    unfolding Freed Frees
    finalized-Freed b a none is (same, inl (fine, agreed)) =
        inl (finalizers.contains-remove a.object.finalizers binding_finalizer, is, agreed)
    finalized-Freed b a none is (same, inr (e, fail)) = cc
    finalized-Freed b a (some e) is (same, how) = inr (same, e, is)

    -- A reconciliation of a binding to a managed instance that is being deleted and has the
    -- finalizer removes it, without an error, only when an annotation of the instance says to leave
    -- the broker out, or the broker answers that it has deleted the binding, that it does not have
    -- it any more, or that the operation which deletes it has succeeded. Otherwise the finalizers
    -- stay, and there is an error.
    pub unbinding-Freed :
        (b : CfServiceBinding)
        → eqb b.deletion_timestamp 0 ≡ false
        → contains_finalizer b.finalizers binding_finalizer ≡ true
        → Freed b (reconcile_managed meta world now finalizers b)
    unfolding reconcile_managed finalize finalize_cf_service_binding
    unbinding-Freed b deleting has =
        subst (Freed b)
          (sym (
            if_false (eqb b.deletion_timestamp 0) _ _ deleting
            ∙ if_true (contains_finalizer b.finalizers binding_finalizer) _ _ has))
          (finalized-Freed b _ _ refl (instance-Frees b _ refl))
