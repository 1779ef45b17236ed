-- ===== src/Services/Instances/Story.antt =====
-- The whole story of a managed service instance against the abstract lifecycle
-- (controllers/controllers/services/instances/managed/controller.go).
use korifi.Base.{ℕ, List, [], ◌++◌, ◌≡◌, subst, true, false}
use korifi.Kube.Conditions.{Condition, ConditionsApi}
use korifi.Kube.Reconcile.{ready_condition}
use korifi.Services.Instances.World.{
  CfServiceInstance, InstanceWorld, FinalizersApi, BrokerCall, provisioning_failed,
}
use korifi.Services.Instances.Reconciler.{reconcile_resource}
use korifi.Services.Instances.Delegate.{is_set}
use korifi.Services.Instances.Refines.{phase, phase_of, Consistent, after, reconciliation-Moves}
use korifi.Services.Instances.Lifecycle.{
  Phase, Course, here, then_moves, failed_stays, Made, ready-Made,
}

At : ConditionsApi → List Condition → Phase → List BrokerCall → Type 0
At meta cs p calls =
    Course p calls (phase_of (is_set meta cs ready_condition) (is_set meta cs provisioning_failed))
    × (is_set meta cs ready_condition ≡ true → is_set meta cs provisioning_failed ≡ false)

module _ (Json : Type 0) (meta : ConditionsApi) (finalizers : FinalizersApi) where
  module _ (i : CfServiceInstance) where
    -- Reconciliations by any world at any time while the instance is not being deleted, with any
    -- edits between them that leave its conditions alone; and the calls of the broker.
    pub data Story : List BrokerCall → CfServiceInstance → Type 1 where
      begun : Story [] i
      edited :
          {calls : List BrokerCall} {j k : CfServiceInstance}
          → Story calls j
          → j.conditions ≡ k.conditions
          → Story calls k
      reconciled :
          {calls : List BrokerCall} {j : CfServiceInstance}
          → Story calls j
          → (world : InstanceWorld Json) (now : ℕ) → j.deletion_timestamp ≡ 0
          → Story
              (calls ++ (reconcile_resource meta world now finalizers j).calls)
              (after meta world now finalizers j)

  -- If an instance is not both ready and failed, then whatever the API server and the broker
  -- answer, each story of it follows the abstract lifecycle, by the same calls of the broker, to
  -- an instance that is again not both.
  pub Story-Course :
      (i j : CfServiceInstance) (calls : List BrokerCall)
      → Consistent meta i
      → Story i calls j
      → Course (phase meta i) calls (phase meta j) × Consistent meta j
  unfolding At Consistent
  Story-Course i j calls consistent begun = (here, consistent)
  Story-Course i j calls consistent (edited {j = k} story same) =
      subst (λ cs. At meta cs (phase meta i) calls) same (Story-Course i k calls consistent story)
  Story-Course i j calls consistent (reconciled {calls = before} {j = k} story world now kept) =
      let (path, consistent') = Story-Course i k before consistent story in
      let (move, consistent'') =
        reconciliation-Moves meta world now finalizers k kept consistent' in
      (then_moves path move, consistent'')

  -- An instance whose provisioning has failed for good, and that is not ready, stays so through
  -- every story of it, and the broker is not asked again.
  pub Story-silent :
      (i j : CfServiceInstance) (calls : List BrokerCall)
      → Consistent meta i
      → phase meta i ≡ Phase.failed
      → Story i calls j
      → (calls ≡ []) × (phase meta j ≡ Phase.failed)
  Story-silent i j calls consistent is story =
      failed_stays (Story-Course i j calls consistent story).0 is

  -- A story that makes a pending instance ready contains calls by which the broker made it: an
  -- answer to the request that it is there, or one to the polling that the operation succeeded.
  pub Story-Made :
      (i j : CfServiceInstance) (calls : List BrokerCall)
      → Consistent meta i
      → phase meta i ≡ Phase.pending
      → Story i calls j
      → phase meta j ≡ Phase.ready
      → Made calls
  Story-Made i j calls consistent is story is' =
      ready-Made (Story-Course i j calls consistent story).0 is is'
