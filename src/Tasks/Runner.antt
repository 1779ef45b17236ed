-- ===== src/Tasks/Runner.antt =====
-- job-task-runner/controllers/taskworkload_controller.go: the reconciler that runs the workload of
-- a task as a job.
use korifi.Base.{
  ℕ, String, List, [], ◌∷◌, not, Option, none, some, eqb, concat, if◌then◌else◌, true, false,
}
use korifi.Base.Int.{ℤ}
use korifi.Kube.Errors.{ApiError, Result, ok, err, wrap, is_not_found}
use korifi.Kube.Conditions.{Condition, ConditionsApi}
use korifi.Tasks.Controller.{task_initialized}
use korifi.Tasks.Jobs.{Job, JobSpec, JobContainerSpec, workload_container_name}

pub record RunnerWorkload : Type 0 where
  pub name : String
  pub namespace : String
  pub generation : ℕ
  pub deletion_timestamp : ℕ  -- 0 for the zero time
  pub command : List String
  pub image : String
  pub image_pull_secrets : List String
  pub requests : List (String × String)
  pub limits : List (String × String)
  pub env : List (String × String)
  pub observed_generation : ℕ
  pub conditions : List Condition

-- What the API server answers to the request for the job of a workload and to a job's creation, the
-- conditions that the status getter reads off a job, `SetControllerReference`, and the job's time
-- to live, `int32(r.jobTTL.Seconds())`.
pub record JobWorld : Type 0 where
  pub get_job : RunnerWorkload → Result ApiError Job
  pub set_owner : RunnerWorkload → Job → Result ApiError Job
  pub job_ttl_seconds : ℤ
  pub create_job : Job → Option ApiError
  pub status_conditions : Job → Result ApiError (List Condition)

abbrev workload_container : RunnerWorkload → JobContainerSpec
workload_container workload = record {
  name = workload_container_name;
  image = workload.image;
  command = workload.command;
  requests = workload.requests;
  limits = workload.limits;
  env = workload.env;
  dropped_capabilities = "ALL" ∷ [];
  allow_privilege_escalation = false;
  seccomp_profile = "RuntimeDefault";
}

abbrev pub workload_spec : ℤ → RunnerWorkload → JobSpec
workload_spec ttl workload = record {
  backoff_limit = 0;
  parallelism = 1;
  completions = 1;
  ttl_seconds_after_finished = ttl;
  restart_policy = "Never";
  run_as_non_root = true;
  seccomp_profile = "RuntimeDefault";
  automount_service_account_token = false;
  image_pull_secrets = workload.image_pull_secrets;
  containers = workload_container workload ∷ [];
  service_account_name = "korifi-task";
}

unfoldable pub workload_to_job : JobWorld → RunnerWorkload → Result ApiError Job
workload_to_job world workload = world.set_owner workload (record {
  name = workload.name;
  namespace = workload.namespace;
  spec = workload_spec world.job_ttl_seconds workload;
  status = record {
    start_time = none;
    completion_time = none;
    succeeded = 0;
    failed = 0;
    conditions = [];
  };
})

pub record Ran : Type 0 where
  pub workload : RunnerWorkload
  pub created : List Job
  pub failure : Option ApiError

module _ (meta : ConditionsApi) (now : ℕ) where
  unfoldable pub set_all : ℕ → List Condition → List Condition → List Condition
  set_all generation [] conditions = conditions
  set_all generation (c ∷ cs) conditions =
      set_all generation cs
        (meta.set_status_condition now (record c { observed_generation = generation }) conditions)

module _ (meta : ConditionsApi) (world : JobWorld) (now : ℕ) where
  abbrev answered : Job → Option ApiError → Result ApiError (Option Job) × List Job
  answered job (some e) = (err e, [])
  answered job none = (ok (some job), job ∷ [])

  abbrev pub converted : Result ApiError Job → Result ApiError (Option Job) × List Job
  converted (err e) = (err e, [])
  converted (ok job) = answered job (world.create_job job)

  unfoldable pub create_job : RunnerWorkload → Result ApiError (Option Job) × List Job
  create_job workload = converted (workload_to_job world workload)

  abbrev pub fetched :
      RunnerWorkload → Result ApiError Job → Result ApiError (Option Job) × List Job
  fetched workload (ok job) = (ok (some job), [])
  fetched workload (err e) =
      if is_not_found e
      then (if meta.is_status_condition_true workload.conditions task_initialized
          then (ok none, [])
          else create_job workload)
      else (err e, [])

  -- The job, if there is or was to be one, and the jobs that were created.
  unfoldable pub get_or_create_job : RunnerWorkload → Result ApiError (Option Job) × List Job
  unfolding create_job
  get_or_create_job workload = fetched workload (world.get_job workload)

  abbrev pub with_status :
      RunnerWorkload → Job → Result ApiError (List Condition) → RunnerWorkload × Option ApiError
  with_status workload job (err e) = (
    workload,
    some (
        wrap
          (concat
            ("failed to get status conditions for job " ∷ job.namespace ∷ ":" ∷ job.name ∷ []))
          e),
  )
  with_status workload job (ok cs) = (
    record workload { conditions = set_all meta now workload.generation cs workload.conditions },
    none,
  )

  unfoldable pub update_task_workload_status :
      RunnerWorkload → Job → RunnerWorkload × Option ApiError
  unfolding set_all
  update_task_workload_status workload job = with_status workload job (world.status_conditions job)

  abbrev ran : List Job → RunnerWorkload × Option ApiError → Ran
  ran created (workload, failure) = record {
    workload = workload;
    created = created;
    failure = failure;
  }

  abbrev pub with_job : RunnerWorkload → Result ApiError (Option Job) × List Job → Ran
  with_job workload (err e, created) = ran created (workload, some e)
  with_job workload (ok none, created) = ran created (workload, none)
  with_job workload (ok (some job), created) =
      ran created (update_task_workload_status workload job)

  unfoldable pub reconcile_resource : RunnerWorkload → Ran
  unfolding get_or_create_job update_task_workload_status
  reconcile_resource workload =
      if not (eqb workload.deletion_timestamp 0)
      then ran [] (workload, none)
      else let observed = record workload { observed_generation = workload.generation } in
        with_job observed (get_or_create_job observed)
