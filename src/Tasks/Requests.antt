-- ===== src/Tasks/Requests.antt =====
-- controllers/controllers/workloads/tasks/controller.go: what the reconciler of CFTask looks up,
-- and the workload that it creates or patches. An event that is recorded is part of the result.
use korifi.Base.{
  ℕ, ◌+◌, ◌-◌, ◌*◌, ◌/◌, ◌%◌, ◌^◌, String, List, [], ◌∷◌, Bool, true, not, none, some, ◌==◌, ltb,
  eqb, length, insert, concat, if◌then◌else◌,
}
use korifi.Base.Int.{ℤ, pos, negsuc}
use korifi.Kube.Errors.{ApiError, Reason, Result, ok, err, wrap, is_not_found}
use korifi.Kube.Conditions.{ConditionsApi}
use korifi.Kube.Reconcile.{ready_condition}
use korifi.Tasks.Controller.{
  CfTask, CfApp, CfBuild, Droplet, CfProcess, Scale, ScaledQuantity, TaskWorkload, OperationResult,
  TaskEvent, World,
}

abbrev pub plain_error : String → ApiError
plain_error text = record { reason = Reason.other_reason ""; message = text }

abbrev warning : String → List String → TaskEvent
warning reason note = record { event_type = "Warning"; reason = reason; note = concat note }

abbrev checked_app :
    ConditionsApi → CfTask → Result ApiError CfApp → Result ApiError CfApp × List TaskEvent
checked_app meta task (err e) =
    if is_not_found e
    then (
      err e,
      warning "AppNotFound" (
            "Did not find app with name " ∷ task.app_ref_name ∷ " in namespace " ∷ task.namespace
            ∷ [])
          ∷ [],
    )
    else (err e, [])
checked_app meta task (ok app) =
    if not (meta.is_status_condition_true app.conditions ready_condition)
    then (
      err (plain_error "app not ready"),
      warning "AppNotReady" ("App " ∷ app.namespace ∷ ":" ∷ app.name ∷ " is not ready" ∷ []) ∷ [],
    )
    else if app.current_droplet_ref_name == ""
    then (
      err (plain_error "app droplet ref not set"),
      warning "AppCurrentDropletRefNotSet"
            ("App " ∷ task.app_ref_name ∷ " does not have a current droplet" ∷ [])
          ∷ [],
    )
    else (ok app, [])

abbrev checked_droplet :
    CfTask → CfApp → Result ApiError CfBuild → Result ApiError (CfBuild × Droplet) × List TaskEvent
checked_droplet task app (err e) =
    if is_not_found e
    then (
      err e,
      warning "AppCurrentDropletNotFound" (
            "Current droplet " ∷ app.current_droplet_ref_name ∷ " for app " ∷ task.app_ref_name
            ∷ " does not exist" ∷ [])
          ∷ [],
    )
    else (err e, [])
checked_droplet task app (ok build) = elim build.droplet [
  | none ↦ (
    err (plain_error "droplet build status not set"),
    warning "DropletBuildStatusNotSet" (
          "Current droplet " ∷ app.current_droplet_ref_name ∷ " from app " ∷ task.app_ref_name
          ∷ " does not have a droplet image" ∷ [])
        ∷ [],
  )
  | some droplet ↦ (ok (build, droplet), [])
]

abbrev the_only : (ℕ → String) → List CfProcess → Result ApiError CfProcess
the_only print (p ∷ []) = ok p
the_only print ps =
    err (plain_error (concat ("expected exactly one web process, found " ∷ print (length ps) ∷ [])))

abbrev the_web_process : (ℕ → String) → Result ApiError (List CfProcess) → Result ApiError CfProcess
the_web_process print (err e) = err (wrap "failed to list app processes" e)
the_web_process print (ok ps) = the_only print ps

-- `int64` arithmetic: the 64 low bits in two's complement, and division that rounds to zero.
abbrev pub wrap_int64 : ℤ → ℤ
wrap_int64 (pos n) = let m = n % 2 ^ 64 in if ltb m (2 ^ 63) then pos m else negsuc (2 ^ 64 - m - 1)
wrap_int64 (negsuc n) =
    let m = n % 2 ^ 64 in if ltb m (2 ^ 63) then negsuc m else pos (2 ^ 64 - 1 - m)

abbrev pub times : ℕ → ℤ → ℤ
times k (pos n) = pos (k * n)
times k (negsuc n) = if eqb k 0 then pos 0 else negsuc (k * (n + 1) - 1)

abbrev pub divided : ℤ → ℕ → ℤ
divided (pos n) d = pos (n / d)
divided (negsuc n) d = let q = (n + 1) / d in if eqb q 0 then pos 0 else negsuc (q - 1)

abbrev pub less : ℤ → ℕ → Bool
less (pos n) m = ltb n m
less (negsuc n) m = true

unfoldable pub calculate_default_cpu_request_millicores : ℤ → ℤ
calculate_default_cpu_request_millicores memory =
    let cpu_millicores = divided (wrap_int64 (times 100 memory)) 1024 in
    if less cpu_millicores 5 then pos 5 else cpu_millicores

module _ {Env : Type 0} (meta : ConditionsApi) (world : World Env) where
  unfoldable pub get_app : CfTask → Result ApiError CfApp × List TaskEvent
  get_app task = checked_app meta task (world.get_app task.namespace task.app_ref_name)

  unfoldable pub get_droplet : CfTask → CfApp → Result ApiError (CfBuild × Droplet) × List TaskEvent
  get_droplet task app =
      checked_droplet task app (world.get_droplet app.namespace app.current_droplet_ref_name)

  unfoldable pub get_web_process : CfApp → Result ApiError CfProcess
  get_web_process app =
      the_web_process world.print (world.list_web_processes app.namespace app.name)

  abbrev scaled : ℤ → Scale → ScaledQuantity
  scaled value scale = record { value = value; scale = scale }

  -- The function that `CreateOrPatch` applies to the workload, or to an empty one.
  unfoldable pub fill_workload :
      CfTask → Droplet → CfProcess → Env → TaskWorkload Env → Result ApiError (TaskWorkload Env)
  unfolding calculate_default_cpu_request_millicores
  fill_workload task droplet web env w =
      let memory = scaled task.memory_mb Scale.mega in
      let disk = scaled task.disk_quota_mb Scale.mega in
      let cpu = scaled (calculate_default_cpu_request_millicores web.memory_mb) Scale.milli in
      world.set_workload_owner task (record w {
        labels = insert "korifi.cloudfoundry.org/task-guid" task.name w.labels;
        command = "/cnb/lifecycle/launcher" ∷ task.command ∷ [];
        image = droplet.image;
        image_pull_secrets = droplet.image_pull_secrets;
        requests =
            insert "cpu" cpu (insert "ephemeral-storage" disk (insert "memory" memory w.requests));
        limits = insert "ephemeral-storage" disk (insert "memory" memory w.limits);
        env = some env;
      })

  abbrev created_event : OperationResult → String → List TaskEvent
  created_event OperationResult.created name =
      record {
        event_type = "Normal";
        reason = "TaskWorkloadCreated";
        note = concat ("Created task workload " ∷ name ∷ []);
      }
      ∷ []
  created_event _ name = []

  abbrev patched_workload :
      Result ApiError (OperationResult × TaskWorkload Env)
      → Result ApiError (TaskWorkload Env) × List TaskEvent
  patched_workload (err e) = (err e, [])
  patched_workload (ok (result, w)) = (ok w, created_event result w.name)

  unfoldable pub create_or_patch_task_workload :
      CfTask → Droplet → CfProcess → Env → Result ApiError (TaskWorkload Env) × List TaskEvent
  unfolding fill_workload
  create_or_patch_task_workload task droplet web env =
      patched_workload
        (world.create_or_patch task.namespace task.name (fill_workload task droplet web env))
