-- ===== src/Stats/Pods.antt =====
-- The state of an instance, read off its pod. Two parts of the program do this by functions of
-- their own: statefulset-runner/controllers/appworkload/state/collector.go (below in `Runner`) and
-- api/actions/process_stats.go (`get_pod_state`). The helpers are the same text in both.
use korifi.Base.{
  ℕ, String, List, [], ◌∷◌, Bool, true, false, not, Option, none, some, ◌==◌, insert, value_at,
  concat, if◌then◌else◌,
}
use korifi.Kube.Errors.{ApiError, Result, ok, err, wrap}

pub record PodCondition : Type 0 where
  pub condition_type : String
  pub status : String
  pub last_transition_time : ℕ

-- The reason of the waiting state, where the container is waiting.
pub record ContainerStatus : Type 0 where
  pub name : String
  pub waiting_reason : Option String

pub record Pod : Type 0 where
  pub labels : List (String × String)
  pub conditions : List PodCondition
  pub container_statuses : List ContainerStatus

abbrev pub pod_ready : String
pod_ready = "Ready"

abbrev pub pod_scheduled : String
pod_scheduled = "PodScheduled"

abbrev is_crash_loop : Option String → Bool
is_crash_loop none = false
is_crash_loop (some reason) = reason == "CrashLoopBackOff"

unfoldable pub pod_has_crashed_container : List ContainerStatus → Bool
pod_has_crashed_container [] = false
pod_has_crashed_container (c ∷ cs) =
    let rest = pod_has_crashed_container cs in if is_crash_loop c.waiting_reason then true else rest

unfoldable pub pod_condition_status : List PodCondition → String → Bool
pod_condition_status [] condition_type = false
pod_condition_status (c ∷ cs) condition_type =
    let rest = pod_condition_status cs condition_type in
    if c.condition_type == condition_type then c.status == "True" else rest

unfoldable pub get_pod_start_time : List PodCondition → Option ℕ
get_pod_start_time [] = none
get_pod_start_time (c ∷ cs) =
    let rest = get_pod_start_time cs in
    if c.condition_type == pod_ready then some c.last_transition_time else rest

-- `getPodState` of api/actions/process_stats.go.
unfoldable pub get_pod_state : Pod → String
get_pod_state pod =
    if pod_condition_status pod.conditions pod_ready
    then "RUNNING"
    else if not (pod_condition_status pod.conditions pod_scheduled)
    then "DOWN"
    else if pod_has_crashed_container pod.container_statuses
    then "CRASHED"
    else "STARTING"

pub record InstanceStatus : Type 0 where
  pub state : String
  pub timestamp : Option ℕ

-- `getPodState` of the state collector.
unfoldable pub get_instance_status : Pod → InstanceStatus
get_instance_status pod =
    if pod_condition_status pod.conditions pod_ready
    then record { state = "RUNNING"; timestamp = get_pod_start_time pod.conditions }
    else if not (pod_condition_status pod.conditions pod_scheduled)
    then record { state = "DOWN"; timestamp = none }
    else if pod_has_crashed_container pod.container_statuses
    then record { state = "CRASHED"; timestamp = none }
    else record { state = "STARTING"; timestamp = none }

abbrev pub pod_index_label : String
pod_index_label = "apps.kubernetes.io/pod-index"

unfoldable pub instance_states :
    List (String × InstanceStatus) → List Pod → List (String × InstanceStatus)
instance_states result [] = result
instance_states result (pod ∷ pods) =
    instance_states (insert (value_at pod_index_label pod.labels) (get_instance_status pod) result)
      pods

-- `CollectState`; `list_pods` is the API server's answer and `quote` the verb `%q`.
unfoldable pub collect_state :
    (String → String)
    → Result ApiError (List Pod)
    → String
    → Result ApiError (List (String × InstanceStatus))
unfolding instance_states
collect_state quote (err e) guid =
    err (wrap (concat ("failed to list pods for workload " ∷ quote guid ∷ [])) e)
collect_state quote (ok pods) guid = ok (instance_states [] pods)
