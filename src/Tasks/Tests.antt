-- ===== src/Tasks/Tests.antt =====
-- The task controller and the runner at concrete tasks.
use korifi.Base.{
  All, length, ℕ, suc, ◌+◌, ◌≡◌, refl, ◌≤◌, ◌<◌, ◌⊎◌, List, [], ◌∷◌, ◌↔◌, inr, true, none, some,
}
use korifi.Base.Int.{pos, negsuc}
use korifi.Kube.Errors.{ApiError, Reason, Result, ok, err}
use korifi.Kube.Conditions.{Condition}
use korifi.Kube.Listed.{listed_conditions}
use korifi.Tasks.Controller.{
  CfTask, World, get_completion_time, compute_requeue_after, already_expired, max_duration,
}
use korifi.Tasks.Requests.{plain_error}
use korifi.Tasks.Lifecycle
use korifi.Tasks.Expiry.{expiry-requeue}
use korifi.Tasks.Canceling.{Terminal, Deleted, reconcile_resource-Terminal}
use korifi.Tasks.Jobs.{
  Job, JobStatus, JobContainer, get_last_failure_timestamp, get_failed_container_status,
  get_status_conditions,
}
use korifi.Tasks.Runner.{
  RunnerWorkload, JobWorld, workload_spec, create_job, get_or_create_job, set_all,
  update_task_workload_status,
}
use korifi.Tasks.Runner
use korifi.Tasks.Created.{KeepsJobs, Runs, created_job-Runs}
use korifi.Tasks.Initialized.{ReadsJobs, CreatesNothing}
use korifi.Tasks.Once.{stored, reconciled, workload_runs_once}

abbrev succeeded : Condition
succeeded = record {
  condition_type = "Succeeded";
  status = "True";
  reason = "JobSucceeded";
  message = "";
  observed_generation = 1;
  last_transition_time = 10;
}

abbrev task : List Condition → CfTask
task conditions = record {
  name = "task";
  namespace = "space";
  generation = 2;
  deletion_timestamp = 0;
  app_ref_name = "app";
  command = "sleep 1";
  canceled = true;
  observed_generation = 1;
  conditions = conditions;
  droplet_ref_name = "";
  memory_mb = pos 256;
  disk_quota_mb = pos 512;
}

expiry-requeue_example :
    let done = task (succeeded ∷ []) in
    ((already_expired listed_conditions 12 5 done ≡ true) ↔ (10 + 5 ≤ 12))
    × (((13 < 10 + 5)
          × ((d : ℕ) × (compute_requeue_after listed_conditions 13 5 done ≡ pos (suc d))
              × (13 + suc d ≤ 10 + 5)
              × ((13 + suc d ≡ 10 + 5) ⊎ (suc d ≡ max_duration))))
        ⊎ ((10 + 5 ≤ 13)
            × ((compute_requeue_after listed_conditions 13 5 done ≡ pos 0)
                ⊎ ((n : ℕ) × (compute_requeue_after listed_conditions 13 5 done ≡ negsuc n)))))
unfolding get_completion_time
expiry-requeue_example = expiry-requeue listed_conditions 12 13 5 (task (succeeded ∷ [])) 10 refl

abbrev unknown : ApiError
unknown = plain_error "unknown"

abbrev world : World ℕ
world = record {
  delete_task = λ t. none;
  delete_workload = λ ns n. some (record { reason = Reason.not_found; message = "" });
  get_app = λ ns n. err unknown;
  set_task_owner = λ a t. ok t;
  get_droplet = λ ns n. err unknown;
  list_web_processes = λ ns n. err unknown;
  build_env = λ a. err unknown;
  create_or_patch = λ ns n f. err unknown;
  set_workload_owner = λ t w. ok w;
  print = λ n. "";
}

no_workload :
    Deleted listed_conditions 12 (some (record { reason = Reason.not_found; message = "" }))
unfolding Deleted
no_workload = inr (_, refl, refl)

reconcile_resource-Terminal_example :
    Terminal listed_conditions 12
      (Lifecycle.reconcile_resource listed_conditions world 11 12 13 5 (task [])).task
    × ((Lifecycle.reconcile_resource listed_conditions world 11 12 13 5 (task [])).failure ≡ none)
unfolding already_expired get_completion_time
reconcile_resource-Terminal_example =
    reconcile_resource-Terminal listed_conditions 12 world 11 13 5 (task []) refl refl refl
      no_workload

abbrev status : JobStatus
status = record {
  start_time = some 1;
  completion_time = none;
  succeeded = 0;
  failed = 1;
  conditions =
      record { condition_type = "Failed"; last_transition_time = 4 }
      ∷ record { condition_type = "Failed"; last_transition_time = 7 }
      ∷ [];
}

abbrev workload : RunnerWorkload
workload = record {
  name = "task";
  namespace = "space";
  generation = 1;
  deletion_timestamp = 0;
  command = "launcher" ∷ "sleep 1" ∷ [];
  image = "registry/droplet";
  image_pull_secrets = [];
  requests = [];
  limits = [];
  env = [];
  observed_generation = 0;
  conditions = [];
}

abbrev job : Job
job = record {
  name = "task";
  namespace = "space";
  spec = workload_spec (pos 60) workload;
  status = record status { start_time = none };
}

abbrev no_pods : Job → Result ApiError (List (List JobContainer))
no_pods _ = ok []

abbrev jobs : JobWorld
unfolding get_status_conditions get_last_failure_timestamp get_failed_container_status
jobs = record {
  get_job = λ w. err (record { reason = Reason.not_found; message = "" });
  set_owner = λ w j. ok j;
  job_ttl_seconds = pos 60;
  create_job = λ j. none;
  status_conditions = λ j. get_status_conditions (λ n. "") j (no_pods j);
}

jobs-ReadsJobs : ReadsJobs listed_conditions (λ n. "") no_pods jobs
unfolding ReadsJobs jobs
jobs-ReadsJobs j = refl

-- The workload after a second reconciliation, in which the reading of the job's pods fails.
abbrev failing_pods : Job → Result ApiError (List (List JobContainer))
failing_pods j = err (record { reason = Reason.not_found; message = "" })

abbrev failing_jobs : JobWorld
failing_jobs = record jobs {
  status_conditions = λ j. get_status_conditions (λ n. "") j (failing_pods j);
}

failing_jobs-ReadsJobs : ReadsJobs listed_conditions (λ n. "") failing_pods failing_jobs
unfolding ReadsJobs
failing_jobs-ReadsJobs j = refl

abbrev reconciled_twice : RunnerWorkload
reconciled_twice =
    (Runner.reconcile_resource listed_conditions failing_jobs 4
      (Runner.reconcile_resource listed_conditions jobs 3 workload).workload).workload

workload_runs_once_example : CreatesNothing listed_conditions jobs 5 reconciled_twice
unfolding jobs Runner.reconcile_resource Runner.workload_to_job create_job get_or_create_job
    update_task_workload_status set_all get_status_conditions
workload_runs_once_example =
    workload_runs_once listed_conditions (λ n. "") no_pods jobs 3 workload reconciled_twice
      jobs-ReadsJobs refl refl
      (reconciled (λ n. "") failing_pods failing_jobs 4 stored failing_jobs-ReadsJobs) jobs 5

jobs-KeepsJobs : KeepsJobs jobs
unfolding KeepsJobs jobs
jobs-KeepsJobs w j owned same = (cc, cc, cc)

created_job-Runs_example :
    All (Runs workload) (Runner.reconcile_resource listed_conditions jobs 3 workload).created
    × (length (Runner.reconcile_resource listed_conditions jobs 3 workload).created ≤ 1)
created_job-Runs_example = created_job-Runs listed_conditions jobs 3 jobs-KeepsJobs workload
