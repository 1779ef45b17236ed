-- ===== src/Services/Instances/Delegate.antt =====
-- How a reconciliation of a managed service instance ends that asks the broker for it.
use korifi.Base.{
  ℕ, String, List, [], ◌∷◌, ◌≡◌, refl, ap, ◌∙◌, subst, Bool, true, false, Option, none, some, ◌==◌,
  ◌⊎◌, inl, inr, Bool-cases, if_either,
}
use korifi.Kube.Errors.{ApiError, Result, ok, err}
use korifi.Kube.Conditions.{
  Condition, ConditionsApi, condition_true, is_true, find-set_self, transitioned_same,
}
use korifi.Kube.NotReady.{GoError}
use korifi.Services.Broker.{
  BrokerClient, BrokerError, ProvisionResponse, LastOperationResponse, is_unrecoverable_error,
}
use korifi.Services.Assets.{ServiceInstanceAssets}
use korifi.Services.Instances.World.{
  CfServiceInstance, InstanceWorld, provisioned, polled, Attempt, set_failed, started_operation,
  provisioning_failed,
}
use korifi.Services.Instances.Provision.{
  provision_answered, provision_refused, in_namespace, with_parameters, provision_service_instance,
  poll_answered, poll_last_operation, process_provision_operation,
}
use korifi.Services.Instances.Reconciler.{
  provision_polled, provision_awaited, with_visibility, labelled,
}
use korifi.Services.Instances.Lifecycle.{
  Succeeded, at_once, later, Refused, refused, broken, Waiting, not_asked, unanswered, unknown,
  in_progress,
}

module _ (meta : ConditionsApi) where
  open meta use {find_status_condition}

  -- Whether a condition is true in a list of conditions.
  abbrev pub is_set : List Condition → String → Bool
  is_set cs t = is_true (find_status_condition cs t)

  set_failed-sets :
      (now : ℕ) (t reason message : String) (i : CfServiceInstance)
      → is_set (set_failed meta now t reason message i).conditions t ≡ true
  set_failed-sets now t reason message i =
      let c : Condition = record {
        condition_type = t;
        status = condition_true;
        reason = reason;
        message = message;
        observed_generation = i.generation;
        last_transition_time = now;
      } in
      ap is_true (find-set_self meta now c i.conditions)
      ∙ ap (λ s. s == condition_true)
          (transitioned_same now (find_status_condition i.conditions t) c).0

  -- It succeeds, fails for good, or is to be tried again; only a failure changes the conditions.
  unfoldable pub Ends : List Condition → Attempt → Type 0
  Ends cs a =
      ((a.failure ≡ none) × (a.object.conditions ≡ cs) × Succeeded a.calls)
      ⊎ ((e : GoError) × (a.failure ≡ some e)
          × (is_set a.object.conditions provisioning_failed ≡ true)
          × Refused a.calls)
      ⊎ ((e : GoError) × (a.failure ≡ some e) × (a.object.conditions ≡ cs) × Waiting a.calls)

  module _ {Json : Type 0} (world : InstanceWorld Json) (now : ℕ) where
    processed-Ends :
        (i : CfServiceInstance) (r : ProvisionResponse) (l : LastOperationResponse)
        → r.is_async ≡ true
        → Ends i.conditions (
            process_provision_operation meta world now i
              (provisioned (ok r) ∷ polled (ok l) ∷ [])
              l)
    unfolding process_provision_operation Ends
    processed-Ends i r l async = elim (Bool-cases (l.state == "succeeded")) [
      | inl done ↦ rw done (inl (refl, refl, later r l async done))
      | inr undone ↦ elim (Bool-cases (l.state == "failed")) [
        | inl is ↦
            rw (undone, is)
              (inr (
                inl (
                  _,
                  refl,
                  set_failed-sets now provisioning_failed "ProvisionFailed" l.description i,
                  broken r l async is,
                )))
        | inr on ↦ rw (undone, on) (inr (inr (_, refl, refl, in_progress r l async undone on)))
      ]
    ]

    polled-Ends :
        (i : CfServiceInstance) (r : ProvisionResponse)
        (answer : Result BrokerError LastOperationResponse)
        → r.is_async ≡ true
        → let p = poll_answered meta world now i answer in
          Ends i.conditions
            (provision_polled meta world now (provisioned (ok r) ∷ []) p.object p.calls p.answer)
    unfolding Ends
    polled-Ends i r (ok l) async =
        processed-Ends (poll_answered meta world now i (ok l)).object r l async
    polled-Ends i r (err e) async = inr (inr (_, refl, refl, unknown r e async))

    awaited-Ends :
        (i : CfServiceInstance) (assets : ServiceInstanceAssets) (client : BrokerClient Json)
        (r : ProvisionResponse)
        → Ends i.conditions
            (provision_awaited meta world now assets client i (provisioned (ok r) ∷ []) (ok r))
    unfolding Ends poll_last_operation
    awaited-Ends i assets client r =
        if_either (Ends i.conditions) r.is_async _ _ (polled-Ends i r _)
          (λ sync. inl (refl, refl, at_once r sync))

    refused-Ends :
        (i : CfServiceInstance) (assets : ServiceInstanceAssets) (client : BrokerClient Json)
        (e : BrokerError) (unrecoverable : Bool)
        → is_unrecoverable_error e ≡ unrecoverable
        → let p = provision_refused meta world now i e unrecoverable in
          Ends i.conditions
            (provision_awaited meta world now assets client p.object p.calls p.answer)
    unfolding Ends
    refused-Ends i assets client e true is =
        inr (
          inl
            (_, refl, set_failed-sets now provisioning_failed "ProvisionFailed" _ i, refused e is))
    refused-Ends i assets client e false is = inr (inr (_, refl, refl, unanswered e is))

    answered-Ends :
        (i : CfServiceInstance) (assets : ServiceInstanceAssets) (client : BrokerClient Json)
        (answer : Result BrokerError ProvisionResponse)
        → let p = provision_answered meta world now i answer in
          Ends i.conditions
            (provision_awaited meta world now assets client p.object p.calls p.answer)
    answered-Ends i assets client (ok r) = awaited-Ends i assets client r
    answered-Ends i assets client (err e) = refused-Ends i assets client e _ refl

    in_namespace-Ends :
        (i : CfServiceInstance) (assets : ServiceInstanceAssets) (client : BrokerClient Json)
        (parameters : Option Json) (answer : Result ApiError (List (String × String)))
        → let p = in_namespace meta world now i assets client parameters answer in
          Ends i.conditions
            (provision_awaited meta world now assets client p.object p.calls p.answer)
    unfolding Ends
    in_namespace-Ends i assets client parameters (err e) = inr (inr (_, refl, refl, not_asked))
    in_namespace-Ends i assets client parameters (ok labels) =
        answered-Ends (started_operation "create" i) assets client _

    with_parameters-Ends :
        (i : CfServiceInstance) (assets : ServiceInstanceAssets) (client : BrokerClient Json)
        (parameters : Result GoError (Option Json))
        → let p = with_parameters meta world now i assets client parameters in
          Ends i.conditions
            (provision_awaited meta world now assets client p.object p.calls p.answer)
    unfolding Ends
    with_parameters-Ends i assets client (err e) = inr (inr (_, refl, refl, not_asked))
    with_parameters-Ends i assets client (ok parameters) =
        in_namespace-Ends i assets client parameters _

    labelled_conditions :
        (assets : ServiceInstanceAssets) (i : CfServiceInstance) (label : Option String)
        → (labelled assets i label).conditions ≡ i.conditions
    labelled_conditions assets i none = refl
    labelled_conditions assets i (some label) = refl

    pub with_visibility-Ends :
        (i : CfServiceInstance) (assets : ServiceInstanceAssets) (client : BrokerClient Json)
        (visible : Result GoError Bool)
        → Ends i.conditions (with_visibility meta world now i assets client visible)
    unfolding Ends provision_service_instance
    with_visibility-Ends i assets client (err e) = inr (inr (_, refl, refl, not_asked))
    with_visibility-Ends i assets client (ok false) = inr (inr (_, refl, refl, not_asked))
    with_visibility-Ends i assets client (ok true) =
        subst (λ cs. Ends cs (with_visibility meta world now i assets client (ok true)))
          (labelled_conditions assets i i.service_label)
          (with_parameters-Ends (labelled assets i i.service_label) assets client _)
