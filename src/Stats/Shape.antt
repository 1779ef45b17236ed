-- ===== src/Stats/Shape.antt =====
-- The records that the statistics of a process consist of (api/actions/process_stats.go).
use korifi.Base.{
  ℕ, zero, suc, ◌+◌, ◌<◌, ◌≤◌, ap, String, ◌≡◌, refl, ◌≢◌, List, [], ◌∷◌, true, false, some, ◌==◌,
  eq_iff, arith, ◌∙◌, inl, inr, All, length, leb, eqb, Bool-cases, sym, subst,
}
use korifi.Base.Int.{ℤ, pos}
use korifi.Kube.Errors.{ApiError, Result, ok}
use korifi.Stats.Pods.{get_pod_state}
use korifi.Stats.Fetch.{Repositories, fetch_stats}
use korifi.Stats.Records.{
  Units, PodStatsRecord, PodMetrics, ProcessRecord, aggregate_container_metrics, extract_index,
  blank_records, measured, update_at, onto, written, expected_records, apply_metrics, step_metrics,
  fill_records,
}
use korifi.Stats.Reports.{indexed_at, reports, state_at, StateOf, state_at_lem}

module _ (units : Units) (atoi : String → Result String ℤ) where
  -- The records number the instances of the process from `i` on, one after the other.
  pub Instances :
      List (PodMetrics units) → String → String → ℕ → List (PodStatsRecord units) → Type 0
  Instances ms guid process_type i [] = Unit
  Instances ms guid process_type i (r ∷ rs) =
      (r.process_guid ≡ guid)
      × (r.process_type ≡ process_type)
      × (r.index ≡ i)
      × StateOf units atoi ms i r.state
      × Instances ms guid process_type (suc i) rs

  -- Records of the same instances, in the states that the metrics lead to.
  Filled :
      List (PodMetrics units)
      → ℕ
      → List (PodStatsRecord units)
      → List (PodStatsRecord units)
      → Type 0
  Filled ms i [] [] = Unit
  Filled ms i [] (q ∷ qs) = ⊥
  Filled ms i (r ∷ rs) [] = ⊥
  Filled ms i (r ∷ rs) (q ∷ qs) =
      (q.process_guid ≡ r.process_guid)
      × (q.process_type ≡ r.process_type)
      × (q.index ≡ r.index)
      × (q.state ≡ state_at units atoi i ms r.state)
      × Filled ms (suc i) rs qs

  Filled-nothing : (i : ℕ) (rs : List (PodStatsRecord units)) → Filled [] i rs rs
  unfolding Filled state_at
  Filled-nothing i [] = tt
  Filled-nothing i (r ∷ rs) = (refl, refl, refl, refl, Filled-nothing (suc i) rs)

  Filled-quiet :
      (m : PodMetrics units) (k : ℕ) (rs : List (PodStatsRecord units))
      → ((i : ℕ) → k ≤ i → i < k + length rs → reports units atoi i m ≡ false)
      → Filled (m ∷ []) k rs rs
  unfolding Filled state_at
  Filled-quiet m k [] quiet = tt
  Filled-quiet m k (r ∷ rs) quiet = (
    refl,
    refl,
    refl,
    rw (quiet k (omega arith) (omega arith)) refl,
    Filled-quiet m (suc k) rs (λ i low high. quiet i (omega arith) (omega arith)),
  )

  Filled-Filled :
      (m : PodMetrics units) (ms : List (PodMetrics units)) (k : ℕ)
      (rs ps qs : List (PodStatsRecord units))
      → Filled (m ∷ []) k rs ps
      → Filled ms k ps qs
      → Filled (m ∷ ms) k rs qs
  unfolding Filled state_at
  Filled-Filled m ms k [] [] [] h h' = tt
  Filled-Filled m ms k [] [] (q ∷ qs) h h' = elim h' [ ]
  Filled-Filled m ms k [] (p ∷ ps) qs h h' = elim h [ ]
  Filled-Filled m ms k (r ∷ rs) [] qs h h' = elim h [ ]
  Filled-Filled m ms k (r ∷ rs) (p ∷ ps) [] h h' = elim h' [ ]
  Filled-Filled m ms k (r ∷ rs) (p ∷ ps) (q ∷ qs) (g, t, n, s, h) (g', t', n', s', h') = (
    g' ∙ g,
    t' ∙ t,
    n' ∙ n,
    s' ∙ ap (state_at units atoi k ms) s,
    Filled-Filled m ms (suc k) rs ps qs h h',
  )

  blank_records-Filled :
      (p : ProcessRecord units) (guid : String) (ms : List (PodMetrics units)) (i n : ℕ)
      (qs : List (PodStatsRecord units))
      → Filled ms i (blank_records units p guid i n) qs
      → Instances ms guid p.process_type i qs × (length qs ≡ n)
  unfolding blank_records Instances Filled
  blank_records-Filled p guid ms i zero [] h = (tt, refl)
  blank_records-Filled p guid ms i zero (q ∷ qs) h = elim h [ ]
  blank_records-Filled p guid ms i (suc n) [] h = elim h [ ]
  blank_records-Filled p guid ms i (suc n) (q ∷ qs) (g, t, at, s, h) =
      let (rest, size) = blank_records-Filled p guid ms (suc i) n qs h in
      let state : StateOf units atoi ms i q.state =
        subst (StateOf units atoi ms i) (sym s) (state_at_lem units atoi i ms "DOWN") in
      ((g, t, at, state, rest), omega (arith, size))

  measured_same :
      (p : ProcessRecord units) (state : String) (usage : List (String × units.Quantity)) (time : ℕ)
      (r : PodStatsRecord units)
      → ((measured units p state usage time r).process_guid ≡ r.process_guid)
        × ((measured units p state usage time r).process_type ≡ r.process_type)
        × ((measured units p state usage time r).index ≡ r.index)
        × ((measured units p state usage time r).state ≡ state)
  unfolding measured
  measured_same p state [] time r = (refl, refl, refl, refl)
  measured_same p state (u ∷ us) time r = (refl, refl, refl, refl)

  update_at-Filled :
      (p : ProcessRecord units) (m : PodMetrics units) (usage : List (String × units.Quantity))
      (k i : ℕ) (rs : List (PodStatsRecord units))
      → ((n : ℕ) → indexed_at units atoi n (extract_index units atoi m.pod) ≡ eqb (k + i) n)
      → (get_pod_state m.pod == "DOWN") ≡ false
      → i < length rs
      → (qs : List (PodStatsRecord units)) × (update_at units
            (measured units p (get_pod_state m.pod) usage m.timestamp)
            i
            rs
          ≡ some qs)
        × Filled (m ∷ []) k rs qs
  unfolding update_at Filled state_at
  update_at-Filled p m usage k i [] at up inside = absurd (omega (arith, inside))
  update_at-Filled p m usage k zero (r ∷ rs) at up inside =
      let (g, t, n, s) = measured_same p (get_pod_state m.pod) usage m.timestamp r in
      let this : reports units atoi k m ≡ true = ground (arith, at k, up) in
      (
        _,
        refl,
        (
          g,
          t,
          n,
          s ∙ (rw this refl),
          Filled-quiet m (suc k) rs (λ i low high. ground (arith, at i, low)),
        ),
      )
  update_at-Filled p m usage k (suc i) (r ∷ rs) at up inside =
      let next : (n : ℕ)
          → indexed_at units atoi n (extract_index units atoi m.pod) ≡ eqb (suc k + i) n =
        λ n. ground (arith, at n) in
      let (qs, is, rest) = update_at-Filled p m usage (suc k) i rs next up (omega arith) in
      let other : reports units atoi k m ≡ false = ground (arith, at k) in
      (r ∷ qs, ap (onto units r) is, (refl, refl, refl, rw other refl, rest))

  apply_metrics-Filled :
      (p : ProcessRecord units) (m : PodMetrics units) (i : ℕ) (rs : List (PodStatsRecord units))
      → extract_index units atoi m.pod ≡ ok i
      → (qs : List (PodStatsRecord units)) × (apply_metrics units p m i rs ≡ ok qs)
        × Filled (m ∷ []) 0 rs qs
  apply_metrics-Filled p m i rs index =
      let usage = aggregate_container_metrics units m.containers in
      let at : (n : ℕ) → indexed_at units atoi n (extract_index units atoi m.pod) ≡ eqb i n =
        λ n. ap (indexed_at units atoi n) index in
      elim (Bool-cases (get_pod_state m.pod == "DOWN")) [
        | inl down ↦ (rs, (rw down refl), Filled-quiet m 0 rs (λ n low high. ground (arith, down)))
        | inr up ↦ elim (Bool-cases (leb (length rs) i)) [
          | inl past ↦ (
            rs,
            (rw (up, past) refl),
            Filled-quiet m 0 rs (λ n low high. ground (arith, at n, past, high)),
          )
          | inr inside ↦
              let (qs, is, h) =
                update_at-Filled p m usage 0 i rs (λ n. ground (arith, at n)) up (ground arith) in
              (qs, (rw (up, inside) (ap (written units) is)), h)
        ]
      ]

  -- Every metric's pod says which instance it is.
  unfoldable pub Indexed : List (PodMetrics units) → Type 0
  Indexed ms = All (λ m. (i : ℕ) × (extract_index units atoi m.pod ≡ ok i)) ms

  fill_records-Filled :
      (p : ProcessRecord units) (ms : List (PodMetrics units)) (rs : List (PodStatsRecord units))
      → Indexed ms
      → (qs : List (PodStatsRecord units)) × (fill_records units atoi p ms (ok rs) ≡ ok qs)
        × Filled ms 0 rs qs
  unfolding fill_records Indexed
  fill_records-Filled p [] rs good = (rs, refl, Filled-nothing 0 rs)
  fill_records-Filled p (m ∷ ms) rs ((i, index), good) =
      let (ps, done, first) = apply_metrics-Filled p m i rs index in
      let (qs, is, rest) = fill_records-Filled p ms ps good in
      let step = λ (index : Result ApiError ℕ).
        fill_records units atoi p ms (step_metrics units atoi p m index rs) in
      (
        qs,
        ap step index ∙ ap (fill_records units atoi p ms) done ∙ is,
        Filled-Filled m ms 0 rs ps qs first rest,
      )

  -- A process of a started app whose pods all carry an index, and whose number of desired instances
  -- is not negative, has statistics, without a panic: one record for each desired instance, in
  -- order, each in the state of the last pod in the list of metrics that has its index and is not
  -- DOWN, or DOWN where there is no such pod.
  pub fetch_stats-Instances :
      (metrics : List (PodMetrics units)) (repos : Repositories units) (p : ProcessRecord units)
      (guid state : String) (n : ℕ)
      → repos.get_process guid ≡ ok p
      → repos.get_app_state p.app_guid ≡ ok state
      → state ≢ "STOPPED"
      → repos.get_metrics p.app_guid guid ≡ ok metrics
      → Indexed metrics
      → p.desired_instances ≡ pos n
      → (result : List (PodStatsRecord units)) × (fetch_stats units atoi repos guid ≡ ok result)
        × (length result ≡ n)
        × Instances metrics guid p.process_type 0 result
  unfolding fetch_stats
  fetch_stats-Instances metrics repos p guid state n found started running measured' good desired =
      let (result, is, filled) =
        fill_records-Filled p metrics (blank_records units p guid 0 n) good in
      let (all, size) = blank_records-Filled p guid metrics 0 n result filled in
      let up : (state == "STOPPED") ≡ false = ground (arith, eq_iff state "STOPPED") in
      let made = λ (d : ℤ). fill_records units atoi p metrics (expected_records units p guid d) in
      (result, rw (found, started, up, measured') (ap made desired ∙ is), size, all)
