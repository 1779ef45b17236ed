-- ===== src/Stats/Fetch.antt =====
-- api/actions/process_stats.go: `FetchStats` and `FetchAppProcessesStats`, which collect the records
-- of `Records`.
use korifi.Base.{String, List, [], ◌∷◌, ◌++◌, ◌==◌, concat, if◌then◌else◌}
use korifi.Base.Int.{ℤ}
use korifi.Kube.Errors.{ApiError, Result, ok, err, wrap}
use korifi.Stats.Records.{
  Units, PodStatsRecord, ProcessRecord, PodMetrics, StatsError, failure, panic, blank_records,
  expected_records, fill_records,
}

module _ (units : Units) where
  -- The repositories that the statistics are collected from.
  pub record Repositories : Type 0 where
    pub get_process : String → Result ApiError (ProcessRecord units)
    pub get_app_state : String → Result ApiError String
    pub get_metrics : String → String → Result ApiError (List (PodMetrics units))
    pub list_processes : String → Result ApiError (List (ProcessRecord units))

  abbrev pub filled :
      (String → Result String ℤ)
      → (ProcessRecord units)
      → String
      → Result ApiError (List (PodMetrics units))
      → Result StatsError (List (PodStatsRecord units))
  filled atoi process guid (err e) = err (failure e)
  filled atoi process guid (ok metrics) =
      fill_records units atoi process metrics
        (expected_records units process guid process.desired_instances)

  abbrev pub stats_of :
      (String → Result String ℤ)
      → (ProcessRecord units)
      → String
      → Result ApiError String
      → Result ApiError (List (PodMetrics units))
      → Result StatsError (List (PodStatsRecord units))
  stats_of atoi process guid (err e) metrics = err (failure e)
  stats_of atoi process guid (ok state) metrics =
      if state == "STOPPED"
      then ok (blank_records units process guid 0 1)
      else filled atoi process guid metrics

  abbrev pub process_stats :
      (String → Result String ℤ)
      → Repositories
      → String
      → Result ApiError (ProcessRecord units)
      → Result StatsError (List (PodStatsRecord units))
  process_stats atoi repos guid (err e) = err (failure e)
  process_stats atoi repos guid (ok process) =
      stats_of atoi process guid (repos.get_app_state process.app_guid)
        (repos.get_metrics process.app_guid guid)

  unfoldable pub fetch_stats :
      (String → Result String ℤ)
      → Repositories
      → String
      → Result StatsError (List (PodStatsRecord units))
  fetch_stats atoi repos guid = process_stats atoi repos guid (repos.get_process guid)

  abbrev append_stats :
      List (PodStatsRecord units)
      → Result StatsError (List (PodStatsRecord units))
      → String
      → Result StatsError (List (PodStatsRecord units))
  append_stats stats (err (failure e)) guid =
      err (failure (wrap (concat ("falied to fetch process stats for process " ∷ guid ∷ [])) e))
  append_stats stats (err panic) guid = err panic
  append_stats stats (ok more) guid = ok (stats ++ more)

  unfoldable pub fetch_all :
      (String → Result String ℤ)
      → Repositories
      → List (ProcessRecord units)
      → Result StatsError (List (PodStatsRecord units))
      → Result StatsError (List (PodStatsRecord units))
  fetch_all atoi repos processes (err e) = err e
  fetch_all atoi repos [] (ok stats) = ok stats
  fetch_all atoi repos (p ∷ processes) (ok stats) =
      fetch_all atoi repos processes (append_stats stats (fetch_stats atoi repos p.guid) p.guid)

  abbrev all_stats :
      (String → Result String ℤ)
      → Repositories
      → String
      → Result ApiError (List (ProcessRecord units))
      → Result StatsError (List (PodStatsRecord units))
  all_stats atoi repos app_guid (err e) =
      err
        (failure (wrap (concat ("failed to list processes for app with guid " ∷ app_guid ∷ [])) e))
  all_stats atoi repos app_guid (ok processes) = fetch_all atoi repos processes (ok [])

  unfoldable pub fetch_app_processes_stats :
      (String → Result String ℤ)
      → Repositories
      → String
      → Result StatsError (List (PodStatsRecord units))
  fetch_app_processes_stats atoi repos app_guid =
      all_stats atoi repos app_guid (repos.list_processes app_guid)
