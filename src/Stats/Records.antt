-- ===== src/Stats/Records.antt =====
-- api/actions/process_stats.go: the statistics of a process's instances. Quantities are the
-- library's (k8s.io/apimachinery, `resource.Quantity`), CPU shares are floats: both are parameters.
-- A 64-bit integer is its bit pattern.
use korifi.Base.{
  ℕ, zero, suc, ◌*◌, ◌%◌, ◌^◌, String, List, [], ◌∷◌, Option, none, some, ◌==◌, leb, length, lookup,
  insert, concat, if◌then◌else◌,
}
use korifi.Base.Int.{ℤ, pos, negsuc}
use korifi.Kube.Errors.{ApiError, Reason, Result, ok, err}
use korifi.Stats.Pods.{Pod, get_pod_state, pod_index_label}

-- An error, or a panic.
pub data StatsError : Type 0 where
  failure : ApiError → StatsError
  panic : StatsError

pub record Units : Type 1 where
  pub Quantity : Type 0
  pub Float : Type 0
  pub add : Quantity → Quantity → Quantity
  pub int_value : Quantity → ℤ  -- `Value`
  pub cpu_share : Quantity → Float  -- `float64(q.ScaledValue(resource.Nano)) / 1e9`

module _ (units : Units) where
  open units use {Quantity, Float, add, int_value, cpu_share}

  pub record Usage : Type 0 where
    pub timestamp : Option ℕ
    pub cpu : Option Float
    pub mem : Option ℤ
    pub disk : Option ℤ

  pub record PodStatsRecord : Type 0 where
    pub process_guid : String
    pub process_type : String
    pub index : ℕ
    pub state : String
    pub usage : Usage
    pub mem_quota : Option ℕ
    pub disk_quota : Option ℕ

  -- The usage of each container, by resource name, and the time of the measurement.
  pub record PodMetrics : Type 0 where
    pub pod : Pod
    pub containers : List (List (String × Quantity))
    pub timestamp : ℕ

  pub record ProcessRecord : Type 0 where
    pub guid : String
    pub app_guid : String
    pub process_type : String
    pub desired_instances : ℤ  -- int32
    pub memory_mb : ℕ
    pub disk_quota_mb : ℕ

  abbrev pub no_usage : Usage
  no_usage = record { timestamp = none; cpu = none; mem = none; disk = none }

  abbrev pub sum_with : Option Quantity → Quantity → Quantity
  sum_with none v = v
  sum_with (some value) v = add value v

  -- The loop over one container's usage, in any order of its resources.
  unfoldable pub add_usage :
      List (String × Quantity) → List (String × Quantity) → List (String × Quantity)
  add_usage metrics [] = metrics
  add_usage metrics ((k, v) ∷ usage) =
      add_usage (insert k (sum_with (lookup k metrics) v) metrics) usage

  unfoldable pub aggregate_from :
      List (String × Quantity) → List (List (String × Quantity)) → List (String × Quantity)
  aggregate_from metrics [] = metrics
  aggregate_from metrics (usage ∷ containers) = aggregate_from (add_usage metrics usage) containers

  unfoldable pub aggregate_container_metrics :
      List (List (String × Quantity)) → List (String × Quantity)
  aggregate_container_metrics containers = aggregate_from [] containers

  unfoldable pub megabytes_to_bytes : ℕ → ℕ
  megabytes_to_bytes mb = mb * 1024 * 1024 % 2 ^ 64

  abbrev plain_error : String → ApiError
  plain_error text = record { reason = Reason.other_reason ""; message = text }

  abbrev index_error : String → ApiError
  index_error problem =
      plain_error (concat (pod_index_label ∷ " is not a valid index: " ∷ problem ∷ []))

  abbrev index_of : Result String ℤ → Result ApiError ℕ
  index_of (err problem) = err (index_error problem)
  index_of (ok (pos n)) = ok n
  index_of (ok (negsuc n)) = err (index_error "instance indexes can't be negative")

  abbrev index_label : (String → Result String ℤ) → Option String → Result ApiError ℕ
  index_label atoi none = err (plain_error (concat (pod_index_label ∷ " label not found" ∷ [])))
  index_label atoi (some label) = index_of (atoi label)

  -- `atoi` is `strconv.Atoi`.
  unfoldable pub extract_index : (String → Result String ℤ) → Pod → Result ApiError ℕ
  extract_index atoi pod = index_label atoi (lookup pod_index_label pod.labels)

  -- The records before any metrics are read, from instance `i` on.
  unfoldable pub blank_records : ProcessRecord → String → ℕ → ℕ → List PodStatsRecord
  blank_records process guid i zero = []
  blank_records process guid i (suc n) =
      record {
        process_guid = guid;
        process_type = process.process_type;
        index = i;
        state = "DOWN";
        usage = no_usage;
        mem_quota = none;
        disk_quota = none;
      }
      ∷ blank_records process guid (suc i) n

  abbrev cpu_of : Option Quantity → Option Float → Option Float
  cpu_of none old = old
  cpu_of (some q) old = some (cpu_share q)

  abbrev value_of : Option Quantity → Option ℤ → Option ℤ
  value_of none old = old
  value_of (some q) old = some (int_value q)

  -- What the metrics of one pod write into its record.
  unfoldable pub measured :
      ProcessRecord → String → List (String × Quantity) → ℕ → PodStatsRecord → PodStatsRecord
  unfolding megabytes_to_bytes
  measured process state [] time r = record r { state = state }
  measured process state (m ∷ ms) time r = record r {
    state = state;
    usage = record {
      timestamp = some time;
      cpu = cpu_of (lookup "cpu" (m ∷ ms)) r.usage.cpu;
      mem = value_of (lookup "memory" (m ∷ ms)) r.usage.mem;
      disk = value_of (lookup "storage" (m ∷ ms)) r.usage.disk;
    };
    mem_quota = some (megabytes_to_bytes process.memory_mb);
    disk_quota = some (megabytes_to_bytes process.disk_quota_mb);
  }

  -- `make([]PodStatsRecord, n)` and the loop that fills it in; a negative length panics.
  abbrev pub expected_records : ProcessRecord → String → ℤ → Result StatsError (List PodStatsRecord)
  expected_records process guid (pos n) = ok (blank_records process guid 0 n)
  expected_records process guid (negsuc n) = err panic

  abbrev pub onto : PodStatsRecord → Option (List PodStatsRecord) → Option (List PodStatsRecord)
  onto r none = none
  onto r (some rs) = some (r ∷ rs)

  -- `records[i] = f(records[i])`; `none` for an index past the end.
  unfoldable pub update_at :
      (PodStatsRecord → PodStatsRecord) → ℕ → List PodStatsRecord → Option (List PodStatsRecord)
  update_at f i [] = none
  update_at f zero (r ∷ rs) = some (f r ∷ rs)
  update_at f (suc i) (r ∷ rs) = onto r (update_at f i rs)

  abbrev pub written : Option (List PodStatsRecord) → Result StatsError (List PodStatsRecord)
  written none = err panic
  written (some records) = ok records

  abbrev pub apply_metrics :
      ProcessRecord → PodMetrics → ℕ → List PodStatsRecord → Result StatsError (List PodStatsRecord)
  apply_metrics process m i records =
      let state = get_pod_state m.pod in
      if state == "DOWN"
      then ok records
      else if leb (length records) i
      then ok records
      else written (
          update_at (measured process state (aggregate_container_metrics m.containers) m.timestamp)
            i records)

  -- One round of the loop over the metrics: the records so far, or the error that ends it.
  abbrev pub step_metrics :
      (String → Result String ℤ)
      → ProcessRecord
      → PodMetrics
      → Result ApiError ℕ
      → List PodStatsRecord
      → Result StatsError (List PodStatsRecord)
  step_metrics atoi process m (err e) records = err (failure e)
  step_metrics atoi process m (ok i) records = apply_metrics process m i records

  unfoldable pub fill_records :
      (String → Result String ℤ)
      → ProcessRecord
      → List PodMetrics
      → Result StatsError (List PodStatsRecord)
      → Result StatsError (List PodStatsRecord)
  fill_records atoi process metrics (err e) = err e
  fill_records atoi process [] (ok records) = ok records
  fill_records atoi process (m ∷ metrics) (ok records) =
      fill_records atoi process metrics
        (step_metrics atoi process m (extract_index atoi m.pod) records)
