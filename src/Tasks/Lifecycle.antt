-- ===== src/Tasks/Lifecycle.antt =====
-- controllers/controllers/workloads/tasks/controller.go: one reconciliation of a CFTask.
use korifi.Base.{ℕ, List, [], ◌++◌, not, Option, none, some, eqb, if◌then◌else◌}
use korifi.Kube.Errors.{ApiError, Result, ok, err}
use korifi.Kube.Conditions.{ConditionsApi}
use korifi.Kube.Reconcile.{CtrlResult, no_result}
use korifi.Tasks.Controller.{
  CfTask, CfApp, CfBuild, Droplet, CfProcess, TaskWorkload, TaskEvent, World, already_expired,
  reconcile_result, handle_cancelation, initialize_status, set_task_status,
}
use korifi.Tasks.Requests.{get_app, get_droplet, get_web_process, create_or_patch_task_workload}

-- What a reconciliation leaves: the task with its new status, the result and the error, and the
-- events that it recorded.
pub record Reconciled : Type 0 where
  pub task : CfTask
  pub result : CtrlResult
  pub failure : Option ApiError
  pub events : List TaskEvent

module _ (meta : ConditionsApi) (later ttl : ℕ) where
  abbrev stop : CfTask → List TaskEvent → Option ApiError → Reconciled
  stop task events failure = record {
    task = task;
    result = no_result;
    failure = failure;
    events = events;
  }

  abbrev finish : CfTask → List TaskEvent → Option ApiError → Reconciled
  finish task events failure =
      let (result, failure') = reconcile_result meta later ttl task failure in
      record { task = task; result = result; failure = failure'; events = events }

  abbrev pub canceled_result : CfTask × Option ApiError → Reconciled
  canceled_result (task, failure) = finish task [] failure

-- The clock is read when the expiry is tested (`now`), when conditions are set (`noted`), and when
-- the time to come back is computed (`later`).
module _ {Env : Type 0} (meta : ConditionsApi) (world : World Env) (now noted later ttl : ℕ) where
  abbrev with_workload :
      CfTask → List TaskEvent → Result ApiError (TaskWorkload Env) × List TaskEvent → Reconciled
  with_workload task events (err e, more) = finish meta later ttl task (events ++ more) (some e)
  with_workload task events (ok workload, more) =
      finish meta later ttl (set_task_status meta noted task workload.conditions) (events ++ more)
        none

  abbrev with_env : CfTask → Droplet → CfProcess → List TaskEvent → Result ApiError Env → Reconciled
  with_env task droplet web events (err e) = finish meta later ttl task events (some e)
  with_env task droplet web events (ok env) =
      with_workload task events (create_or_patch_task_workload meta world task droplet web env)

  abbrev with_process :
      CfTask → CfApp → Droplet → List TaskEvent → Result ApiError CfProcess → Reconciled
  with_process task app droplet events (err e) = finish meta later ttl task events (some e)
  with_process task app droplet events (ok web) =
      with_env task droplet web events (world.build_env app)

  abbrev with_droplet :
      CfTask
      → CfApp
      → List TaskEvent
      → Result ApiError (CfBuild × Droplet) × List TaskEvent
      → Reconciled
  with_droplet task app events (err e, more) = stop meta later ttl task (events ++ more) (some e)
  with_droplet task app events (ok (build, droplet), more) =
      with_process (initialize_status meta noted task build) app droplet (events ++ more)
        (get_web_process meta world app)

  abbrev with_owner : CfTask → CfApp → List TaskEvent → Result ApiError CfTask → Reconciled
  with_owner task app events (err e) = stop meta later ttl task events (some e)
  with_owner task app events (ok owned) =
      with_droplet owned app events (get_droplet meta world owned app)

  abbrev with_app : CfTask → Result ApiError CfApp × List TaskEvent → Reconciled
  with_app task (err e, events) = stop meta later ttl task events (some e)
  with_app task (ok app, events) = with_owner task app events (world.set_task_owner app task)

  unfoldable pub reconcile_resource : CfTask → Reconciled
  reconcile_resource original =
      if not (eqb original.deletion_timestamp 0)
      then stop meta later ttl original [] none
      else let task = record original { observed_generation = original.generation } in
        if already_expired meta now ttl task
        then stop meta later ttl task [] (world.delete_task task)
        else if task.canceled
        then canceled_result meta later ttl (handle_cancelation meta world noted task)
        else with_app task (get_app meta world task)
