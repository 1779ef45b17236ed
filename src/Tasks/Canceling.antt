-- ===== src/Tasks/Canceling.antt =====
-- What the CFTask controller makes of a task that was canceled, and what it copies from the task's
-- workload (controllers/controllers/workloads/tasks/controller.go).
use korifi.Base.{
  ℕ, String, ◌≡◌, refl, subst, ap, sym, ◌∙◌, Bool, true, false, not, Option, none, some, ◌==◌, inl,
  inr, ◌⊎◌, eqb, Bool-cases, if◌then◌else◌,
}
use korifi.Kube.Errors.{ApiError, is_not_found}
use korifi.Kube.Conditions.{
  ConditionsApi, condition_true, is_true, transitioned_same, find-set_self, find-set_ne,
}
use korifi.Tasks.Controller.{
  CfTask, World, task_succeeded, task_failed, task_canceled, task_canceled_reason, already_expired,
  reconcile_result, true_condition, set_condition, cancel, handle_cancelation,
}
use korifi.Tasks.Lifecycle.{Reconciled, canceled_result, reconcile_resource}

third_branch {ℓ} :
    {A : Type ℓ} (a b c : Bool) (w x y z : A)
    → a ≡ false
    → b ≡ false
    → c ≡ true
    → (if a then w else if b then x else if c then y else z) ≡ y
third_branch a b c w x y z h i j = rw (h, i, j) refl

module _ (meta : ConditionsApi) (now : ℕ) where
  open meta use {find_status_condition, is_status_condition_true}

  -- The status that a task has under a condition type.
  abbrev pub is_set : CfTask → String → Bool
  is_set task t = is_true (find_status_condition task.conditions t)

  set_condition-sets :
      (t reason : String) (task : CfTask) → is_set (set_condition meta now t reason task) t ≡ true
  set_condition-sets t reason task =
      let c = true_condition t reason task.generation in
      let old = find_status_condition task.conditions t in
      ap is_true (find-set_self meta now c task.conditions)
      ∙ ap (λ s. s == condition_true) (transitioned_same now old c).0

  set_condition-keeps :
      (t u reason : String) (task : CfTask)
      → (t == u) ≡ false
      → is_set (set_condition meta now t reason task) u ≡ is_set task u
  set_condition-keeps t u reason task h =
      ap is_true
        (find-set_ne meta now (true_condition t reason task.generation) task.conditions u h)

  -- A canceled task is over: it succeeded before, or it has failed.
  pub Terminal : CfTask → Type 0
  Terminal task =
      (is_set task task_canceled ≡ true)
      × ((is_set task task_succeeded ≡ true) ⊎ (is_set task task_failed ≡ true))

  cancel-Terminal : (task : CfTask) → Terminal (cancel meta now task)
  unfolding Terminal
  cancel-Terminal task =
      let noted = set_condition meta now task_canceled task_canceled_reason task in
      let is_noted = set_condition-sets task_canceled task_canceled_reason task in
      let succeeded = meta.is_status_condition_true_lem noted.conditions task_succeeded in
      elim (Bool-cases (is_status_condition_true noted.conditions task_succeeded)) [
        | inl done ↦ rw done (is_noted, inl (sym succeeded ∙ done))
        | inr undone ↦ rw undone (
          set_condition-keeps task_failed task_canceled task_canceled_reason noted refl ∙ is_noted,
          inr (set_condition-sets task_failed task_canceled_reason noted),
        )
      ]

  -- The API server deleted the workload, or had none.
  unfoldable pub Deleted : Option ApiError → Type 0
  Deleted answer = (answer ≡ none) ⊎ ((e : ApiError) × (answer ≡ some e) × (is_not_found e ≡ true))

  handle_cancelation-Terminal :
      {Env : Type 0} (world : World Env) (task : CfTask)
      → Deleted (world.delete_workload task.namespace task.name)
      → handle_cancelation meta world now task ≡ (cancel meta now task, none)
  unfolding handle_cancelation Deleted
  handle_cancelation-Terminal world task (inl gone) = rw gone refl
  handle_cancelation-Terminal world task (inr (e, missing, is)) = rw (missing, is) refl

  -- A canceled task that is neither being deleted nor expired, and whose workload the API server
  -- deletes or does not know, is reconciled without an error, and is over then.
  pub reconcile_resource-Terminal :
      {Env : Type 0} (world : World Env) (tested later ttl : ℕ) (task : CfTask)
      → task.deletion_timestamp ≡ 0
      → already_expired meta tested ttl task ≡ false
      → task.canceled ≡ true
      → Deleted (world.delete_workload task.namespace task.name)
      → Terminal (reconcile_resource meta world tested now later ttl task).task
        × ((reconcile_resource meta world tested now later ttl task).failure ≡ none)
  unfolding reconcile_resource already_expired reconcile_result
  reconcile_resource-Terminal world tested later ttl task kept fresh canceled deleted =
      let observed = record task { observed_generation = task.generation } in
      let step =
        third_branch (not (eqb task.deletion_timestamp 0)) _ task.canceled _ _
          (canceled_result meta later ttl (handle_cancelation meta world now observed)) _
          (ap (λ (x : ℕ). not (eqb x 0)) kept) fresh canceled in
      let is = handle_cancelation-Terminal world observed deleted in
      let final = step ∙ ap (canceled_result meta later ttl) is in
      (
        subst Terminal (sym (ap (λ (r : Reconciled). r.task) final)) (cancel-Terminal observed),
        ap (λ (r : Reconciled). r.failure) final,
      )
