-- ===== src/Stats/Tests.antt =====
-- The readings of an instance's state, and the statistics of a process, at concrete pods.
use mathlib.Core.List.{Memᴰ}
use korifi.Base.{
  ℕ, String, ◌≡◌, refl, ◌≢◌, List, [], ◌∷◌, ◌⊎◌, none, some, lookup, value_at, length, arith, ◌==◌,
  All, eq_iff, if◌then◌else◌,
}
use korifi.Base.Int.{ℤ, pos}
use korifi.Kube.Errors.{Result, ok, err}
use korifi.Stats.Pods.{Pod, collect_state, InstanceStatus, pod_index_label}
use korifi.Stats.Agree.{Reads, collect_state_lem}
use korifi.Stats.Fetch.{Repositories, fetch_stats}
use korifi.Stats.Records.{Units, PodStatsRecord, PodMetrics, ProcessRecord, extract_index}
use korifi.Stats.Shape.{Instances, Indexed, fetch_stats-Instances}

abbrev pod : String → String → Pod
pod index ready = record {
  labels = (pod_index_label, index) ∷ [];
  conditions =
      record { condition_type = "PodScheduled"; status = "True"; last_transition_time = 3 }
      ∷ record { condition_type = "Ready"; status = ready; last_transition_time = 5 }
      ∷ [];
  container_statuses = record { name = "app"; waiting_reason = some "CrashLoopBackOff" } ∷ [];
}

abbrev pods : List Pod
pods = pod "0" "True" ∷ pod "1" "False" ∷ []

collect_state_example :
    (result : List (String × InstanceStatus)) × (collect_state (λ s. s) (ok pods) "guid"
      ≡ ok result)
    × (((p : Pod) × (status : InstanceStatus) × Memᴰ p pods
          × (value_at pod_index_label p.labels ≡ "1")
          × (lookup "1" result ≡ some status)
          × Reads p status)
        ⊎ ((lookup "1" result ≡ none) × All (λ p. value_at pod_index_label p.labels ≢ "1") pods))
collect_state_example = collect_state_lem (λ s. s) pods "guid" "1"

abbrev units : Units
units = record {
  Quantity = ℕ;
  Float = ℕ;
  add = λ a b. a;
  int_value = λ n. pos n;
  cpu_share = λ n. n;
}

abbrev atoi : String → Result String ℤ
atoi s = if s == "1" then ok (pos 1) else err "invalid syntax"

abbrev metrics : List (PodMetrics units)
metrics = record { pod = pod "1" "True"; containers = (("cpu", 2) ∷ []) ∷ []; timestamp = 9 } ∷ []

abbrev process : ProcessRecord units
process = record {
  guid = "process";
  app_guid = "app";
  process_type = "web";
  desired_instances = pos 2;
  memory_mb = 64;
  disk_quota_mb = 128;
}

abbrev repos : Repositories units
repos = record {
  get_process = λ guid. ok process;
  get_app_state = λ guid. ok "STARTED";
  get_metrics = λ app guid. ok metrics;
  list_processes = λ guid. ok (process ∷ []);
}

metrics-Indexed : Indexed units atoi metrics
unfolding Indexed extract_index lookup
metrics-Indexed = ((1, refl), tt)

fetch_stats-Instances_example :
    (result : List (PodStatsRecord units)) × (fetch_stats units atoi repos "process" ≡ ok result)
    × (length result ≡ 2)
    × Instances units atoi metrics "process" "web" 0 result
fetch_stats-Instances_example =
    fetch_stats-Instances units atoi metrics repos process "process" "STARTED" 2 refl refl
      (ground (arith, eq_iff "STARTED" "STOPPED")) refl metrics-Indexed refl
