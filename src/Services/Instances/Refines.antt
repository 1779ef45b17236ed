-- ===== src/Services/Instances/Refines.antt =====
-- The reconciler of managed service instances, within the patching reconciler, keeps to the
-- abstract lifecycle (controllers/controllers/services/instances/managed/controller.go).
use korifi.Base.{
  ℕ, List, [], ◌≡◌, refl, sym, ap, ◌∙◌, subst, Bool, true, false, Option, none, some, inl, inr,
  if_true, eq_iff, eqb, ◌↔◌,
}
use korifi.Kube.Errors.{Result, ok, err}
use korifi.Kube.Conditions.{Condition, ConditionsApi, condition_true, is_true}
use korifi.Kube.Reconcile.{no_result, modify, ready_condition}
use korifi.Kube.Reconcile.Ready.{modify_ready, modify-keeps}
use korifi.Kube.NotReady.{GoError}
use korifi.Services.Broker.{BrokerClient}
use korifi.Services.Assets.{ServiceInstanceAssets, get_service_instance_assets}
use korifi.Services.Instances.World.{
  CfServiceInstance, InstanceWorld, FinalizersApi, BrokerCall, Attempt, provisioning_failed,
  instance_resource,
}
use korifi.Services.Instances.Reconciler.{
  is_ready, is_failed, unless_settled, with_client, with_assets, reconcile_resource, delegate,
}
use korifi.Services.Instances.Delegate.{is_set, Ends, with_visibility-Ends}
use korifi.Services.Instances.Lifecycle.{
  Phase, not_asked, Moves, succeed, refuse, wait, keep, lose, stay_failed,
}

-- The phase that the two conditions stand for.
abbrev pub phase_of : Bool → Bool → Phase
phase_of true has_failed = Phase.ready
phase_of false true = Phase.failed
phase_of false false = Phase.pending

not_ready_after :
    (r : Bool) (failure : Option GoError) (e : GoError)
    → failure ≡ some e
    → ((r ≡ true) ↔ (failure ≡ none))
    → r ≡ false
not_ready_after true failure e fail iff = cc (iff.0 refl, fail)
not_ready_after false failure e fail iff = refl

module _ (meta : ConditionsApi) where
  abbrev pub phase : CfServiceInstance → Phase
  phase i =
      phase_of (is_set meta i.conditions ready_condition)
        (is_set meta i.conditions provisioning_failed)

  -- An instance is not both ready and failed.
  unfoldable pub Consistent : CfServiceInstance → Type 0
  Consistent i =
      is_set meta i.conditions ready_condition ≡ true
      → is_set meta i.conditions provisioning_failed ≡ false

  -- What a delegate's attempt does to the failure, by the two conditions before it.
  Does : List Condition → Bool → Bool → Attempt → Type 0
  Does cs true has_failed a = (a.object.conditions ≡ cs) × (a.calls ≡ [])
  Does cs false true a =
      (a.object.conditions ≡ cs) × (a.calls ≡ []) × (e : GoError) × (a.failure ≡ some e)
  Does cs false false a = Ends meta cs a

  lands :
      (p : Phase) (calls : List BrokerCall) (r f r' f' : Bool)
      → r' ≡ r
      → f' ≡ f
      → (r ≡ true → f ≡ false)
      → Moves p calls (phase_of r f)
      → Moves p calls (phase_of r' f') × (r' ≡ true → f' ≡ false)
  lands p calls r f r' f' is_r is_f apart move = rw (is_r, is_f) (move, apart)

  moves :
      (cs : List Condition) (r f : Bool) (a : Attempt) (r' f' : Bool)
      → is_set meta cs provisioning_failed ≡ f
      → (r ≡ true → f ≡ false)
      → Does cs r f a
      → ((r' ≡ true) ↔ (a.failure ≡ none))
      → f' ≡ is_set meta a.object.conditions provisioning_failed
      → Moves (phase_of r f) a.calls (phase_of r' f') × (r' ≡ true → f' ≡ false)
  unfolding Does Ends
  moves cs true f a true f' is apart (same, quiet) iff now_f =
      lands _ a.calls true false true f' refl
        (now_f ∙ ap (λ l. is_set meta l provisioning_failed) same ∙ is ∙ apart refl) (λ h. refl)
        (subst (λ calls. Moves Phase.ready calls Phase.ready) (sym quiet) keep)
  moves cs true f a false f' is apart (same, quiet) iff now_f =
      lands _ a.calls false false false f' refl
        (now_f ∙ ap (λ l. is_set meta l provisioning_failed) same ∙ is ∙ apart refl) (λ h. refl)
        (subst (λ calls. Moves Phase.ready calls Phase.pending) (sym quiet) lose)
  moves cs false true a r' f' is apart (same, quiet, e, fail) iff now_f =
      lands _ a.calls false true r' f' (not_ready_after r' _ e fail iff)
        (now_f ∙ ap (λ l. is_set meta l provisioning_failed) same ∙ is) (λ h. cc)
        (subst (λ calls. Moves Phase.failed calls Phase.failed) (sym quiet) stay_failed)
  moves cs false false a r' f' is apart (inl (fine, same, done)) iff now_f =
      lands _ a.calls true false r' f' (iff.1 fine)
        (now_f ∙ ap (λ l. is_set meta l provisioning_failed) same ∙ is) (λ h. refl) (succeed done)
  moves cs false false a r' f' is apart (inr (inl (e, fail, set, denied))) iff now_f =
      lands _ a.calls false true r' f' (not_ready_after r' _ e fail iff) (now_f ∙ set) (λ h. cc)
        (refuse denied)
  moves cs false false a r' f' is apart (inr (inr (e, fail, same, on))) iff now_f =
      lands _ a.calls false false r' f' (not_ready_after r' _ e fail iff)
        (now_f ∙ ap (λ l. is_set meta l provisioning_failed) same ∙ is) (λ h. refl) (wait on)

  module _ {Json : Type 0} (world : InstanceWorld Json) (now : ℕ) (finalizers : FinalizersApi) where
    unless_settled-Does :
        (i : CfServiceInstance) (assets : ServiceInstanceAssets) (client : BrokerClient Json)
        (r f : Bool)
        → Does i.conditions r f (unless_settled meta world now i assets client r f)
    unfolding Does
    unless_settled-Does i assets client true f = (refl, refl)
    unless_settled-Does i assets client false true = (refl, refl, _, refl)
    unless_settled-Does i assets client false false =
        with_visibility-Ends meta world now i assets client _

    fails-Does :
        (i : CfServiceInstance) (e : GoError) (r f : Bool)
        → Does i.conditions r f
            (record { object = i; calls = []; result = no_result; failure = some e })
    unfolding Does Ends
    fails-Does i e true f = (refl, refl)
    fails-Does i e false true = (refl, refl, _, refl)
    fails-Does i e false false = inr (inr (e, refl, refl, not_asked))

    with_client-Does :
        (i : CfServiceInstance) (assets : ServiceInstanceAssets)
        (client : Result GoError (BrokerClient Json))
        → Does i.conditions
            (is_set meta i.conditions ready_condition)
            (is_set meta i.conditions provisioning_failed)
            (with_client meta world now i assets client)
    unfolding is_ready is_failed
    with_client-Does i assets (err e) = fails-Does i _ _ _
    with_client-Does i assets (ok client) =
        rw
          (
            sym (meta.is_status_condition_true_lem i.conditions ready_condition),
            sym (meta.is_status_condition_true_lem i.conditions provisioning_failed),
          )
          (unless_settled-Does _ assets client _ _)

    with_assets-Does :
        (i : CfServiceInstance) (assets : Result GoError ServiceInstanceAssets)
        → Does i.conditions
            (is_set meta i.conditions ready_condition)
            (is_set meta i.conditions provisioning_failed)
            (with_assets meta world now i assets)
    with_assets-Does i (err e) = fails-Does i _ _ _
    with_assets-Does i (ok assets) = with_client-Does i assets _

    reconcile_resource-Does :
        (i : CfServiceInstance)
        → i.deletion_timestamp ≡ 0
        → Does i.conditions
            (is_set meta i.conditions ready_condition)
            (is_set meta i.conditions provisioning_failed)
            (reconcile_resource meta world now finalizers i)
    unfolding reconcile_resource
    reconcile_resource-Does i kept =
        let observed = record i { observed_generation = i.generation } in
        let assets = get_service_instance_assets world.catalog i.plan_guid in
        subst
          (Does i.conditions (is_set meta i.conditions ready_condition)
            (is_set meta i.conditions provisioning_failed))
          (sym (if_true (eqb i.deletion_timestamp 0) _ _ (ap (λ t. eqb t 0) kept)))
          (with_assets-Does observed assets)

    abbrev pub after : CfServiceInstance → CfServiceInstance
    after i = (modify meta instance_resource now (delegate meta world now finalizers) i).object

    -- One reconciliation makes one move.
    pub reconciliation-Moves :
        (i : CfServiceInstance)
        → i.deletion_timestamp ≡ 0
        → Consistent i
        → Moves (phase i) (reconcile_resource meta world now finalizers i).calls (phase (after i))
          × Consistent (after i)
    unfolding Consistent
    reconciliation-Moves i kept consistent =
        let (c, found, iff, reason, observed) =
          modify_ready meta instance_resource now (delegate meta world now finalizers) i in
        let kept_f =
          modify-keeps meta instance_resource now (delegate meta world now finalizers) i
            provisioning_failed refl in
        moves i.conditions _ _ (reconcile_resource meta world now finalizers i) _ _ refl consistent
          (reconcile_resource-Does i kept)
          (
            λ h. iff.0 ((eq_iff c.status condition_true).0 (sym (ap is_true found) ∙ h)),
            λ h. ap is_true found ∙ (eq_iff c.status condition_true).1 (iff.1 h),
          )
          (ap is_true kept_f)
