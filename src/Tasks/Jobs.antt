-- ===== src/Tasks/Jobs.antt =====
-- job-task-runner/controllers/status.go: the conditions of a task, read off its job. `none` stands
-- for a nil time; counts are not negative.
use korifi.Base.{
  Bool, ℕ, String, List, [], ◌∷◌, ◌++◌, Option, none, some, ◌==◌, ltb, concat, if◌then◌else◌,
}
use korifi.Base.Int.{ℤ}
use korifi.Kube.Errors.{ApiError, Result, ok, err, wrap}
use korifi.Kube.Conditions.{Condition, condition_true}
use korifi.Tasks.Controller.{task_initialized, task_started, task_succeeded, task_failed}
use korifi.Tasks.Requests.{plain_error}

pub record JobCondition : Type 0 where
  pub condition_type : String
  pub last_transition_time : ℕ

pub record JobStatus : Type 0 where
  pub start_time : Option ℕ
  pub completion_time : Option ℕ
  pub succeeded : ℕ
  pub failed : ℕ
  pub conditions : List JobCondition

-- The requests and limits of a container, and its variables, each by name; a variable's value is
-- a text or where it comes from.
pub record JobContainerSpec : Type 0 where
  pub name : String
  pub image : String
  pub command : List String
  pub requests : List (String × String)
  pub limits : List (String × String)
  pub env : List (String × String)
  pub dropped_capabilities : List String
  pub allow_privilege_escalation : Bool
  pub seccomp_profile : String

pub record JobSpec : Type 0 where
  pub backoff_limit : ℕ
  pub parallelism : ℕ
  pub completions : ℕ
  pub ttl_seconds_after_finished : ℤ
  pub restart_policy : String
  pub run_as_non_root : Bool
  pub seccomp_profile : String
  pub automount_service_account_token : Bool
  pub image_pull_secrets : List String
  pub containers : List JobContainerSpec
  pub service_account_name : String

pub record Job : Type 0 where
  pub name : String
  pub namespace : String
  pub spec : JobSpec
  pub status : JobStatus

pub record Terminated : Type 0 where
  pub reason : String
  pub exit_code : ℤ

pub record JobContainer : Type 0 where
  pub name : String
  pub terminated : Option Terminated

abbrev pub workload_container_name : String
workload_container_name = "workload"

abbrev pub job_failed : String
job_failed = "Failed"

abbrev pub later : Option ℕ → ℕ → Option ℕ
later none t = some t
later (some last) t = if ltb last t then some t else some last

unfoldable pub last_failure_from : Option ℕ → List JobCondition → Option ℕ
last_failure_from last [] = last
last_failure_from last (c ∷ cs) =
    last_failure_from
      (if c.condition_type == job_failed then later last c.last_transition_time else last) cs

unfoldable pub get_last_failure_timestamp : JobStatus → Option ℕ
unfolding last_failure_from
get_last_failure_timestamp status = last_failure_from none status.conditions

abbrev job_error : String → Job → ApiError
job_error text job = plain_error (concat (text ∷ job.namespace ∷ ":" ∷ job.name ∷ []))

abbrev state_of : Job → Option Terminated → Result ApiError Terminated
state_of job none = err (job_error "no terminated state found for job " job)
state_of job (some state) = ok state

unfoldable pub container_state : Job → List JobContainer → Result ApiError Terminated
container_state job [] = err (job_error "no workload container found for job " job)
container_state job (c ∷ cs) =
    let rest = container_state job cs in
    if c.name == workload_container_name then state_of job c.terminated else rest

-- The pods of the job, each with the states of its containers, as the API server lists them.
unfoldable pub get_failed_container_status :
    Job → Result ApiError (List (List JobContainer)) → Result ApiError Terminated
unfolding container_state
get_failed_container_status job (err e) = err e
get_failed_container_status job (ok []) = err (job_error "no pods found for job " job)
get_failed_container_status job (ok (pod ∷ [])) = container_state job pod
get_failed_container_status job (ok (pod ∷ other ∷ pods)) =
    err (job_error "found more than one pod for job " job)

abbrev pub job_condition : String → String → String → ℕ → Condition
job_condition condition_type reason message time = record {
  condition_type = condition_type;
  status = condition_true;
  reason = reason;
  message = message;
  observed_generation = 0;
  last_transition_time = time;
}

abbrev pub succeeded_conditions : ℕ → Option ℕ → List Condition
succeeded_conditions succeeded none = []
succeeded_conditions succeeded (some time) =
    if ltb 0 succeeded then job_condition task_succeeded "JobSucceeded" "" time ∷ [] else []

abbrev pub failed_with :
    (ℤ → String)
    → List Condition
    → ℕ
    → Result ApiError Terminated
    → Result ApiError (List Condition)
failed_with print conditions time (err e) = err (wrap "failed to get container status" e)
failed_with print conditions time (ok state) = ok (
    conditions
    ++ (job_condition task_failed state.reason
          (concat ("Failed with exit code: " ∷ print state.exit_code ∷ [])) time
        ∷ []))

abbrev pub failed_conditions :
    (ℤ → String)
    → ℕ
    → Option ℕ
    → List Condition
    → Result ApiError Terminated
    → Result ApiError (List Condition)
failed_conditions print failed none conditions state = ok conditions
failed_conditions print failed (some time) conditions state =
    if ltb 0 failed then failed_with print conditions time state else ok conditions

abbrev pub started_conditions :
    (ℤ → String)
    → Job
    → Result ApiError (List (List JobContainer))
    → List Condition
    → Option ℕ
    → Result ApiError (List Condition)
started_conditions print job pods conditions none = ok conditions
started_conditions print job pods conditions (some start) =
    failed_conditions print job.status.failed (get_last_failure_timestamp job.status)
      (conditions
        ++ (job_condition task_started "JobStarted" "" start
            ∷ succeeded_conditions job.status.succeeded job.status.completion_time))
      (get_failed_container_status job pods)

-- `print` is the verb `%d`.
unfoldable pub get_status_conditions :
    (ℤ → String)
    → Job
    → Result ApiError (List (List JobContainer))
    → Result ApiError (List Condition)
unfolding get_last_failure_timestamp get_failed_container_status
get_status_conditions print job pods =
    started_conditions print job pods (job_condition task_initialized "JobCreated" "" 0 ∷ [])
      job.status.start_time
