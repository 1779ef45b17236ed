-- ===== src/Stats/Reports.antt =====
-- Which pod gives the state of a record (api/actions/process_stats.go): the last one in the list of
-- metrics that has the record's index and is not DOWN.
use korifi.Base.{
  ℕ, ap, String, ◌≡◌, refl, List, [], ◌∷◌, ◌++◌, Bool, true, false, not, ◌&&◌, ◌==◌, ◌⊎◌, ◌∙◌, inl,
  inr, All, eqb, Bool-cases, if◌then◌else◌,
}
use korifi.Base.Int.{ℤ}
use korifi.Kube.Errors.{ApiError, Result, ok, err}
use korifi.Stats.Pods.{get_pod_state}
use korifi.Stats.Records.{Units, PodMetrics, extract_index}

module _ (units : Units) (atoi : String → Result String ℤ) where
  abbrev pub indexed_at : ℕ → Result ApiError ℕ → Bool
  indexed_at i (ok j) = eqb j i
  indexed_at i (err e) = false

  -- The metrics are of a pod that has the index `i` and is not DOWN.
  abbrev pub reports : ℕ → PodMetrics units → Bool
  reports i m = indexed_at i (extract_index units atoi m.pod) && not (get_pod_state m.pod == "DOWN")

  unfoldable pub state_at : ℕ → List (PodMetrics units) → String → String
  state_at i [] state = state
  state_at i (m ∷ ms) state = state_at i ms (if reports i m then get_pod_state m.pod else state)

  -- The state in record `i`: that of the last pod that reports it, or DOWN where none does.
  abbrev pub StateOf : List (PodMetrics units) → ℕ → String → Type 0
  StateOf ms i state =
      ((state ≡ "DOWN") × All (λ m. reports i m ≡ false) ms)
      ⊎ ((before : List (PodMetrics units)) × (m : PodMetrics units) × (after : List
            (PodMetrics units))
          × (ms ≡ before ++ m ∷ after)
          × (reports i m ≡ true)
          × All (λ m. reports i m ≡ false) after
          × (state ≡ get_pod_state m.pod))

  pub state_at_lem :
      (i : ℕ) (ms : List (PodMetrics units)) (s : String)
      → ((state_at i ms s ≡ s) × All (λ m. reports i m ≡ false) ms)
        ⊎ ((before : List (PodMetrics units)) × (m : PodMetrics units) × (after : List
              (PodMetrics units))
            × (ms ≡ before ++ m ∷ after)
            × (reports i m ≡ true)
            × All (λ m. reports i m ≡ false) after
            × (state_at i ms s ≡ get_pod_state m.pod))
  unfolding state_at
  state_at_lem i [] s = inl (refl, tt)
  state_at_lem i (m ∷ ms) s =
      let s' = if reports i m then get_pod_state m.pod else s in
      elim (state_at_lem i ms s') [
        | inr (before, n, after, is, it, quiet, same) ↦
            inr (m ∷ before, n, after, ap (λ l. m ∷ l) is, it, quiet, same)
        | inl (same, quiet) ↦ elim (Bool-cases (reports i m)) [
          | inl this ↦ inr ([], m, ms, refl, this, quiet, same ∙ (rw this refl))
          | inr other ↦ inl (same ∙ (rw other refl), (other, quiet))
        ]
      ]
