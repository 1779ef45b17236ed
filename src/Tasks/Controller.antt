-- ===== src/Tasks/Controller.antt =====
-- controllers/controllers/workloads/tasks/controller.go: the reconciler of CFTask. The API server's
-- answers, `SetControllerReference` and the builder of the environment are parameters (`World`),
-- and so is the clock, which has a value for each part of the code that reads it. Times are in
-- nanoseconds, and so is the time to live, which is not negative; a 64-bit integer is a ℤ.
use korifi.Base.{
  ℕ, ◌+◌, ◌-◌, String, List, [], ◌∷◌, Bool, false, not, Option, none, some, ltb, leb, if◌then◌else◌,
}
use korifi.Base.Int.{ℤ, pos, negsuc}
use korifi.Kube.Errors.{ApiError, Reason, Result, is_not_found}
use korifi.Kube.Conditions.{Condition, ConditionsApi, condition_true}
use korifi.Kube.Reconcile.{CtrlResult, no_result}

pub record CfTask : Type 0 where
  pub name : String
  pub namespace : String
  pub generation : ℕ
  pub deletion_timestamp : ℕ  -- 0 for the zero time
  pub app_ref_name : String
  pub command : String
  pub canceled : Bool
  pub observed_generation : ℕ
  pub conditions : List Condition
  pub droplet_ref_name : String
  pub memory_mb : ℤ
  pub disk_quota_mb : ℤ

pub record CfApp : Type 0 where
  pub name : String
  pub namespace : String
  pub conditions : List Condition
  pub current_droplet_ref_name : String

pub record Droplet : Type 0 where
  pub image : String
  pub image_pull_secrets : List String

pub record CfBuild : Type 0 where
  pub name : String
  pub droplet : Option Droplet

pub record CfProcess : Type 0 where
  pub memory_mb : ℤ

pub data Scale : Type 0 where
  mega milli : Scale

-- `resource.NewScaledQuantity(value, scale)`
pub record ScaledQuantity : Type 0 where
  pub value : ℤ
  pub scale : Scale

pub record TaskWorkload (Env : Type 0) : Type 0 where
  pub name : String
  pub namespace : String
  pub labels : List (String × String)
  pub owner : Option String
  pub command : List String
  pub image : String
  pub image_pull_secrets : List String
  pub requests : List (String × ScaledQuantity)
  pub limits : List (String × ScaledQuantity)
  pub env : Option Env
  pub conditions : List Condition

pub data OperationResult : Type 0 where
  created updated unchanged : OperationResult

pub record TaskEvent : Type 0 where
  pub event_type : String
  pub reason : String
  pub note : String

abbrev pub task_initialized : String
task_initialized = "Initialized"

abbrev pub task_started : String
task_started = "Started"

abbrev pub task_succeeded : String
task_succeeded = "Succeeded"

abbrev pub task_failed : String
task_failed = "Failed"

abbrev pub task_canceled : String
task_canceled = "Canceled"

abbrev pub task_canceled_reason : String
task_canceled_reason = "TaskCanceled"

abbrev plain : String → ApiError
plain text = record { reason = Reason.other_reason ""; message = text }

pub record World (Env : Type 0) : Type 0 where
  pub delete_task : CfTask → Option ApiError
  pub delete_workload : String → String → Option ApiError
  pub get_app : String → String → Result ApiError CfApp
  pub set_task_owner : CfApp → CfTask → Result ApiError CfTask
  pub get_droplet : String → String → Result ApiError CfBuild
  pub list_web_processes : String → String → Result ApiError (List CfProcess)
  pub build_env : CfApp → Result ApiError Env
  pub create_or_patch :
      String
      → String
      → (TaskWorkload Env → Result ApiError (TaskWorkload Env))
      → Result ApiError (OperationResult × TaskWorkload Env)
  pub set_workload_owner : CfTask → TaskWorkload Env → Result ApiError (TaskWorkload Env)
  pub print : ℕ → String  -- the verb `%d`

abbrev succeeded_first : Option Condition → Option Condition → Option ℕ
succeeded_first (some succeeded) failed = some succeeded.last_transition_time
succeeded_first none (some failed) = some failed.last_transition_time
succeeded_first none none = none

-- `getCompletionTime`: `none` stands for its `false`.
unfoldable pub get_completion_time : ConditionsApi → CfTask → Option ℕ
get_completion_time meta task =
    succeeded_first (meta.find_status_condition task.conditions task_succeeded)
      (meta.find_status_condition task.conditions task_failed)

abbrev pub max_duration : ℕ
max_duration = 9223372036854775807

abbrev pub capped : ℕ → ℕ
capped n = if leb n max_duration then n else max_duration

-- `a.Sub(b)`, a 64-bit duration: it saturates.
abbrev pub minus : ℕ → ℕ → ℤ
minus a b = if leb b a then pos (capped (a - b)) else negsuc (capped (b - a - 1))

-- `time.Until`, which reads the clock.
abbrev until : ℕ → ℕ → Option ℕ → ℤ
until later ttl none = pos 0
until later ttl (some complete_time) = minus (complete_time + ttl) later

unfoldable pub compute_requeue_after : ConditionsApi → ℕ → ℕ → CfTask → ℤ
unfolding get_completion_time
compute_requeue_after meta later ttl task = until later ttl (get_completion_time meta task)

abbrev expired_at : ℕ → ℕ → Option ℕ → Bool
expired_at now ttl none = false
expired_at now ttl (some complete_time) = not (ltb now (complete_time + ttl))

unfoldable pub already_expired : ConditionsApi → ℕ → ℕ → CfTask → Bool
unfolding get_completion_time
already_expired meta now ttl task = expired_at now ttl (get_completion_time meta task)

unfoldable pub reconcile_result :
    ConditionsApi → ℕ → ℕ → CfTask → Option ApiError → CtrlResult × Option ApiError
unfolding compute_requeue_after
reconcile_result meta later ttl task (some e) = (no_result, some e)
reconcile_result meta later ttl task none =
    (record { requeue = false; requeue_after = compute_requeue_after meta later ttl task }, none)

abbrev observe : ℕ → Condition → Condition
observe generation c = record c { observed_generation = generation }

abbrev set_found : ConditionsApi → ℕ → ℕ → Option Condition → List Condition → List Condition
set_found meta now generation none cs = cs
set_found meta now generation (some c) cs = meta.set_status_condition now (observe generation c) cs

abbrev copy_conditions :
    ConditionsApi → ℕ → ℕ → List Condition → List String → List Condition → List Condition
copy_conditions meta now generation workload [] cs = cs
copy_conditions meta now generation workload (t ∷ ts) cs =
    copy_conditions meta now generation workload ts
      (set_found meta now generation (meta.find_status_condition workload t) cs)

unfoldable pub set_task_status : ConditionsApi → ℕ → CfTask → List Condition → CfTask
set_task_status meta now task workload = record task {
  conditions =
      copy_conditions meta now task.generation workload
        (task_started ∷ task_succeeded ∷ task_failed ∷ []) task.conditions;
}

abbrev pub true_condition : String → String → ℕ → Condition
true_condition condition_type reason generation = record {
  condition_type = condition_type;
  status = condition_true;
  reason = reason;
  message = "";
  observed_generation = generation;
  last_transition_time = 0;
}

abbrev pub set_condition : ConditionsApi → ℕ → String → String → CfTask → CfTask
set_condition meta now condition_type reason task = record task {
  conditions =
      meta.set_status_condition now (true_condition condition_type reason task.generation)
        task.conditions;
}

unfoldable pub initialize_status : ConditionsApi → ℕ → CfTask → CfBuild → CfTask
initialize_status meta now task droplet =
    set_condition meta now task_initialized "TaskInitialized"
      (record task { droplet_ref_name = droplet.name })

abbrev pub fail_unless_succeeded : ConditionsApi → ℕ → CfTask → CfTask
fail_unless_succeeded meta now task =
    if not (meta.is_status_condition_true task.conditions task_succeeded)
    then set_condition meta now task_failed task_canceled_reason task
    else task

abbrev pub cancel : ConditionsApi → ℕ → CfTask → CfTask
cancel meta now task =
    fail_unless_succeeded meta now (set_condition meta now task_canceled task_canceled_reason task)

abbrev canceled_after : ConditionsApi → ℕ → CfTask → Option ApiError → CfTask × Option ApiError
canceled_after meta now task none = (cancel meta now task, none)
canceled_after meta now task (some e) =
    if is_not_found e then (cancel meta now task, none) else (task, some e)

unfoldable pub handle_cancelation :
    {Env : Type 0} → ConditionsApi → World Env → ℕ → CfTask → CfTask × Option ApiError
handle_cancelation meta world now task =
    canceled_after meta now task (world.delete_workload task.namespace task.name)
