-- ===== src/Tasks/Created.antt =====
-- The jobs that the runner creates (job-task-runner/controllers/taskworkload_controller.go).
use korifi.Base.{
  ℕ, ◌≡◌, refl, sym, subst, ◌≤◌, true, false, not, arith, inl, inr, ◌⊎◌, eqb, All, length,
  Bool-cases, Option-cases,
}
use korifi.Kube.Errors.{ApiError, Result, ok, err, is_not_found}
use korifi.Kube.Conditions.{ConditionsApi}
use korifi.Tasks.Controller.{task_initialized}
use korifi.Tasks.Jobs.{Job, JobContainerSpec, JobSpec}
use korifi.Tasks.Runner.{
  RunnerWorkload, JobWorld, workload_to_job, converted, fetched, create_job, get_or_create_job,
  reconcile_resource,
}
use korifi.Tasks.Initialized.{with_job-creates}

-- The container runs the workload's command in its image, and cannot gain privileges.
pub RunsCommand : RunnerWorkload → JobContainerSpec → Type 0
RunsCommand w c =
    (c.image ≡ w.image) × (c.command ≡ w.command) × (c.allow_privilege_escalation ≡ false)

-- The spec runs the workload's command at most once, in one container and not as root.
abbrev pub RunsOnce : RunnerWorkload → JobSpec → Type 0
RunsOnce w spec =
    (spec.backoff_limit ≡ 0)
    × (spec.parallelism ≡ 1)
    × (spec.completions ≡ 1)
    × (spec.restart_policy ≡ "Never")
    × (spec.run_as_non_root ≡ true)
    × (length spec.containers ≡ 1)
    × All (RunsCommand w) spec.containers

-- The job bears the workload's name, and runs its command.
pub Runs : RunnerWorkload → Job → Type 0
Runs w job = (job.name ≡ w.name) × (job.namespace ≡ w.namespace) × RunsOnce w job.spec

-- `SetControllerReference` writes an owner into the object's metadata, and changes nothing else.
unfoldable pub KeepsJobs : JobWorld → Type 0
KeepsJobs world =
    (w : RunnerWorkload) (job owned : Job)
    → world.set_owner w job ≡ ok owned
    → (owned.name ≡ job.name) × (owned.namespace ≡ job.namespace) × (owned.spec ≡ job.spec)

Job-cases :
    (r : Result ApiError Job) → ((job : Job) × (r ≡ ok job)) ⊎ ((e : ApiError) × (r ≡ err e))
Job-cases (ok job) = inl (job, refl)
Job-cases (err e) = inr (e, refl)

module _ (meta : ConditionsApi) (world : JobWorld) (now : ℕ) (keeps : KeepsJobs world) where
  workload_to_job-Runs :
      (w : RunnerWorkload) (job : Job) → workload_to_job world w ≡ ok job → Runs w job
  unfolding KeepsJobs workload_to_job Runs RunsCommand
  workload_to_job-Runs w job h =
      let (name, namespace, spec) = keeps w _ job h in
      (
        name,
        namespace,
        subst (RunsOnce w) (sym spec)
            (refl, refl, refl, refl, refl, refl, ((refl, refl, refl), tt)),
      )

  converted-Runs :
      (w : RunnerWorkload)
      → All (Runs w) (converted meta world now (workload_to_job world w)).1
        × (length (converted meta world now (workload_to_job world w)).1 ≤ 1)
  converted-Runs w = elim (Job-cases (workload_to_job world w)) [
    | inr (e, failed) ↦ rw failed (tt, omega arith)
    | inl (job, made) ↦ elim (Option-cases (world.create_job job)) [
      | inr (e, refused) ↦ rw (made, refused) (tt, omega arith)
      | inl created ↦ rw (made, created) ((workload_to_job-Runs w job made, tt), omega arith)
    ]
  ]

  fetched-Runs :
      (w : RunnerWorkload) (answer : Result ApiError Job)
      → All (Runs w) (fetched meta world now w answer).1
        × (length (fetched meta world now w answer).1 ≤ 1)
  unfolding create_job
  fetched-Runs w (ok job) = (tt, omega arith)
  fetched-Runs w (err e) = elim (Bool-cases (is_not_found e)) [
    | inr other ↦ rw other (tt, omega arith)
    | inl missing ↦
        elim (Bool-cases (meta.is_status_condition_true w.conditions task_initialized)) [
          | inl is ↦ rw (missing, is) (tt, omega arith)
          | inr fresh ↦ rw (missing, fresh) (converted-Runs w)
        ]
  ]

  -- If `SetControllerReference` keeps a job's name, namespace and spec, a reconciliation of a
  -- workload creates at most one job, and a job that it creates bears the workload's name and
  -- namespace and runs its command and image at most once, in one container, not as root and
  -- without a way to gain privileges.
  pub created_job-Runs :
      (w : RunnerWorkload)
      → All (Runs w) (reconcile_resource meta world now w).created
        × (length (reconcile_resource meta world now w).created ≤ 1)
  unfolding reconcile_resource get_or_create_job Runs RunsCommand
  created_job-Runs w =
      let w' = record w { observed_generation = w.generation } in
      elim (Bool-cases (not (eqb w.deletion_timestamp 0))) [
        | inl gone ↦ rw gone (tt, omega arith)
        | inr kept ↦
            rw
              (
                kept,
                with_job-creates meta world now w' (fetched meta world now w' (world.get_job w')),
              )
              (fetched-Runs w' (world.get_job w'))
      ]
