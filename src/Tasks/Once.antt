-- ===== src/Tasks/Once.antt =====
-- The workload of a task is run once (job-task-runner/controllers): a workload that has been
-- reconciled is never given a second job.
use korifi.Base.{ℕ, String, ◌≡◌, sym, subst, List, true, none}
use korifi.Base.Int.{ℤ}
use korifi.Kube.Errors.{ApiError, Result}
use korifi.Kube.Conditions.{ConditionsApi, is_true}
use korifi.Tasks.Controller.{task_initialized}
use korifi.Tasks.Jobs.{Job, JobContainer}
use korifi.Tasks.Runner.{RunnerWorkload, JobWorld, reconcile_resource}
use korifi.Tasks.Initialized.{
  Initialized, ReadsJobs, CreatesNothing, reconcile_keeps, ReadsJobs-starts, reconciled-Initialized,
  Initialized-CreatesNothing,
}

module _ (meta : ConditionsApi) where
  open meta use {find_status_condition}

  -- What a stored workload becomes: users change anything of it but its conditions, and it is
  -- reconciled, with any answers of the API server, with or without an error.
  pub data Later (w : RunnerWorkload) : RunnerWorkload → Type 0 where
    stored : Later w w
    changed :
        {v : RunnerWorkload} (u : RunnerWorkload)
        → Later w v
        → u.conditions ≡ v.conditions
        → Later w u
    reconciled :
        {v : RunnerWorkload} (print : ℤ → String)
        (pods : Job → Result ApiError (List (List JobContainer))) (world : JobWorld) (now : ℕ)
        → Later w v
        → ReadsJobs meta print pods world
        → Later w (reconcile_resource meta world now v).workload

  Later-Initialized : {w v : RunnerWorkload} → Later w v → Initialized meta w → Initialized meta v
  unfolding Initialized
  Later-Initialized stored h = h
  Later-Initialized (changed u later same) h =
      subst (λ cs. is_true (find_status_condition cs task_initialized) ≡ true) (sym same)
        (Later-Initialized later h)
  Later-Initialized (reconciled {v} print pods world now later reads) h =
      reconcile_keeps meta world now v (ReadsJobs-starts meta print pods world reads)
        (Later-Initialized later h)

  -- With the status getter of status.go, once a workload that is not being deleted has been
  -- reconciled without an error and is stored, no reconciliation of it creates a job any more:
  -- however often it was reconciled in between, with whatever answers of the API server and
  -- whatever errors, and however it was changed, its conditions apart.
  pub workload_runs_once :
      (print : ℤ → String) (pods : Job → Result ApiError (List (List JobContainer)))
      (world : JobWorld) (now : ℕ) (w v : RunnerWorkload)
      → ReadsJobs meta print pods world
      → w.deletion_timestamp ≡ 0
      → (reconcile_resource meta world now w).failure ≡ none
      → Later (reconcile_resource meta world now w).workload v
      → (world' : JobWorld) (now' : ℕ) → CreatesNothing meta world' now' v
  workload_runs_once print pods world now w v reads kept fine later world' now' =
      let is =
        reconciled-Initialized meta world now w (ReadsJobs-starts meta print pods world reads) kept
          fine in
      Initialized-CreatesNothing meta world' now' v (Later-Initialized later is)
