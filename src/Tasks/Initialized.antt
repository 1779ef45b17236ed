-- ===== src/Tasks/Initialized.antt =====
-- The Initialized condition of a workload: a reconciliation without an error sets it, none takes it
-- back, and with it none creates a job (job-task-runner/controllers).
use korifi.Base.{
  ◌≢◌, ℕ, String, ◌≡◌, refl, ap, sym, subst, ◌∙◌, List, [], ◌∷◌, true, false, not, Option, none,
  some, ◌==◌, inl, inr, eqb, Bool-cases, Option-cases, All,
}
use korifi.Base.Int.{ℤ}
use korifi.Kube.Errors.{ApiError, Result, ok, err, is_not_found}
use korifi.Kube.Conditions.{
  Condition, ConditionsApi, condition_true, is_true, transitioned_same, find-set_self,
}
use korifi.Tasks.Controller.{task_initialized}
use korifi.Tasks.Jobs.{Job, JobContainer, get_status_conditions}
use korifi.Tasks.Runner.{
  RunnerWorkload, JobWorld, workload_to_job, with_status, fetched, with_job, converted, create_job,
  Ran, get_or_create_job, set_all, update_task_workload_status, reconcile_resource,
}
use korifi.Tasks.Observed.{AllTrue, StartsInitialized, get_status_conditions-starts}

absurd_ok :
    {P : Type 0} (job : Job) → ◌≡◌ {A = Result ApiError (Option Job)} (ok (some job)) (ok none) → P
absurd_ok job h = cc

absurd_err :
    {P : Type 0} (e : ApiError) → ◌≡◌ {A = Result ApiError (Option Job)} (err e) (ok none) → P
absurd_err e h = cc

module _ (meta : ConditionsApi) where
  open meta use {find_status_condition, is_status_condition_true}

  set-stays :
      (now : ℕ) (c : Condition) (cs : List Condition) (t : String)
      → c.status ≡ condition_true
      → is_true (find_status_condition cs t) ≡ true
      → is_true (find_status_condition (meta.set_status_condition now c cs) t) ≡ true
  set-stays now c cs t good before = elim (Bool-cases (c.condition_type == t)) [
    | inr other ↦ rw (meta.find-set now c cs t, other) before
    | inl same ↦
        rw (meta.find-set now c cs t, same)
          (ap (λ s. s == condition_true)
            ((transitioned_same now (find_status_condition cs c.condition_type) c).0 ∙ good))
  ]

  set-sets :
      (now : ℕ) (c : Condition) (cs : List Condition)
      → c.status ≡ condition_true
      → is_true (find_status_condition (meta.set_status_condition now c cs) c.condition_type) ≡ true
  set-sets now c cs good =
      ap is_true (find-set_self meta now c cs)
      ∙ ap (λ s. s == condition_true)
          ((transitioned_same now (find_status_condition cs c.condition_type) c).0 ∙ good)

  set_all-stays :
      (now generation : ℕ) (new cs : List Condition) (t : String)
      → AllTrue new
      → is_true (find_status_condition cs t) ≡ true
      → is_true (find_status_condition (set_all meta now generation new cs) t) ≡ true
  unfolding set_all AllTrue
  set_all-stays now generation [] cs t good before = before
  set_all-stays now generation (c ∷ new) cs t (first, good) before =
      set_all-stays now generation new _ t good
        (set-stays now (record c { observed_generation = generation }) cs t first before)

  unfoldable pub Initialized : RunnerWorkload → Type 0
  Initialized w = is_true (find_status_condition w.conditions task_initialized) ≡ true

  set_all-Initialized :
      (now generation : ℕ) (new : List Condition) (cs : List Condition)
      → StartsInitialized new
      → is_true (find_status_condition (set_all meta now generation new cs) task_initialized) ≡ true
  unfolding set_all StartsInitialized
  set_all-Initialized now generation new cs (c, rest, is, type, good, rest-good) =
      let c' = record c { observed_generation = generation } in
      let first = set-sets now c' cs good in
      let at : is_true
            (find_status_condition (meta.set_status_condition now c' cs) task_initialized)
          ≡ true =
        subst (λ t. is_true (find_status_condition (meta.set_status_condition now c' cs) t) ≡ true)
          type first in
      subst
        (λ new.
          is_true (find_status_condition (set_all meta now generation new cs) task_initialized)
          ≡ true)
        (sym is) (set_all-stays now generation rest _ task_initialized rest-good at)

  -- The status getter of the runner is the one of status.go.
  unfoldable pub ReadsJobs :
      (ℤ → String) → (Job → Result ApiError (List (List JobContainer))) → JobWorld → Type 0
  ReadsJobs print pods world =
      (job : Job) → world.status_conditions job ≡ get_status_conditions print job (pods job)

  with_status-Initialized :
      (world : JobWorld) (now : ℕ) (w : RunnerWorkload) (job : Job)
      (answer : Result ApiError (List Condition))
      → ((cs : List Condition) → answer ≡ ok cs → StartsInitialized cs)
      → (with_status meta world now w job answer).1 ≡ none
      → Initialized (with_status meta world now w job answer).0
  unfolding Initialized
  with_status-Initialized world now w job (err e) starts h = cc
  with_status-Initialized world now w job (ok cs) starts h =
      set_all-Initialized now w.generation cs w.conditions (starts cs refl)

  fetched-creates :
      (world : JobWorld) (now : ℕ) (w : RunnerWorkload) (answer : Result ApiError Job)
      → Initialized w
      → (fetched meta world now w answer).1 ≡ []
  unfolding Initialized
  fetched-creates world now w (ok job) h = refl
  fetched-creates world now w (err e) h =
      let is = meta.is_status_condition_true_lem w.conditions task_initialized ∙ h in
      elim (Bool-cases (is_not_found e)) [
        | inl missing ↦ rw (missing, is) refl
        | inr other ↦ rw other refl
      ]

  pub with_job-creates :
      (world : JobWorld) (now : ℕ) (w : RunnerWorkload)
      (found : Result ApiError (Option Job) × List Job)
      → (with_job meta world now w found).created ≡ found.1
  with_job-creates world now w (err e, created) = refl
  with_job-creates world now w (ok none, created) = refl
  with_job-creates world now w (ok (some job), created) = refl

  -- The reconciliation of the workload creates no job.
  pub CreatesNothing : JobWorld → ℕ → RunnerWorkload → Type 0
  CreatesNothing world now w = (reconcile_resource meta world now w).created ≡ []

  -- A workload that is Initialized is given no job.
  pub Initialized-CreatesNothing :
      (world : JobWorld) (now : ℕ) (w : RunnerWorkload) → Initialized w → CreatesNothing world now w
  unfolding CreatesNothing reconcile_resource get_or_create_job Initialized
  Initialized-CreatesNothing world now w h =
      let w' = record w { observed_generation = w.generation } in
      elim (Bool-cases (not (eqb w.deletion_timestamp 0))) [
        | inl gone ↦ rw gone refl
        | inr kept ↦ rw kept (
            with_job-creates world now w' (fetched meta world now w' (world.get_job w'))
            ∙ fetched-creates world now w' (world.get_job w') h)
      ]

  converted-some :
      (world : JobWorld) (now : ℕ) (answer : Result ApiError Job)
      → (converted meta world now answer).0 ≢ ok none
  converted-some world now (err e) h = cc
  converted-some world now (ok job) h = elim (Option-cases (world.create_job job)) [
    | inl made ↦ absurd_ok job (rw made at h)
    | inr (e, failed) ↦ absurd_err e (rw failed at h)
  ]

  fetched-none :
      (world : JobWorld) (now : ℕ) (w : RunnerWorkload) (answer : Result ApiError Job)
      → (fetched meta world now w answer).0 ≡ ok none
      → Initialized w
  unfolding Initialized create_job
  fetched-none world now w (ok job) h = cc
  fetched-none world now w (err e) h =
      let same = meta.is_status_condition_true_lem w.conditions task_initialized in
      elim (Bool-cases (is_not_found e)) [
        | inr other ↦ absurd_err e (rw other at h)
        | inl missing ↦ elim (Bool-cases (is_status_condition_true w.conditions task_initialized)) [
          | inl is ↦ sym same ∙ is
          | inr not' ↦
              elim (converted-some world now (workload_to_job world w)
                (rw (missing, not') at h)) [ ]
        ]
      ]

  with_job-Initialized :
      (world : JobWorld) (now : ℕ) (w : RunnerWorkload)
      (found : Result ApiError (Option Job) × List Job)
      → (found.0 ≡ ok none → Initialized w)
      → ((job : Job) (cs : List Condition)
          → world.status_conditions job ≡ ok cs
          → StartsInitialized cs)
      → (with_job meta world now w found).failure ≡ none
      → Initialized (with_job meta world now w found).workload
  unfolding update_task_workload_status
  with_job-Initialized world now w (err e, created) before starts h = cc
  with_job-Initialized world now w (ok none, created) before starts h = before refl
  with_job-Initialized world now w (ok (some job), created) before starts h =
      with_status-Initialized world now w job (world.status_conditions job) (starts job) h

  pub reconciled-Initialized :
      (world : JobWorld) (now : ℕ) (w : RunnerWorkload)
      → ((job : Job) (cs : List Condition)
          → world.status_conditions job ≡ ok cs
          → StartsInitialized cs)
      → w.deletion_timestamp ≡ 0
      → (reconcile_resource meta world now w).failure ≡ none
      → Initialized (reconcile_resource meta world now w).workload
  unfolding reconcile_resource get_or_create_job Initialized
  reconciled-Initialized world now w starts kept =
      let w' = record w { observed_generation = w.generation } in
      let found = fetched meta world now w' (world.get_job w') in
      let here : not (eqb w.deletion_timestamp 0) ≡ false = ap (λ (x : ℕ). not (eqb x 0)) kept in
      let step : reconcile_resource meta world now w ≡ with_job meta world now w' found =
        rw here refl in
      subst (λ (r : Ran). r.failure ≡ none → Initialized r.workload) (sym step)
        (with_job-Initialized world now w' found (fetched-none world now w' (world.get_job w'))
          starts)

  StartsInitialized-AllTrue : (cs : List Condition) → StartsInitialized cs → AllTrue cs
  unfolding StartsInitialized AllTrue
  StartsInitialized-AllTrue cs (c, rest, is, type, good, rest-good) =
      subst (λ l. All (λ d. d.status ≡ condition_true) l) (sym is) (good, rest-good)

  with_status-keeps :
      (world : JobWorld) (now : ℕ) (w : RunnerWorkload) (job : Job)
      (answer : Result ApiError (List Condition))
      → ((cs : List Condition) → answer ≡ ok cs → StartsInitialized cs)
      → Initialized w
      → Initialized (with_status meta world now w job answer).0
  unfolding Initialized
  with_status-keeps world now w job (err e) starts h = h
  with_status-keeps world now w job (ok cs) starts h =
      set_all-stays now w.generation cs w.conditions task_initialized
        (StartsInitialized-AllTrue cs (starts cs refl)) h

  with_job-keeps :
      (world : JobWorld) (now : ℕ) (w : RunnerWorkload)
      (found : Result ApiError (Option Job) × List Job)
      → ((job : Job) (cs : List Condition)
          → world.status_conditions job ≡ ok cs
          → StartsInitialized cs)
      → Initialized w
      → Initialized (with_job meta world now w found).workload
  unfolding update_task_workload_status
  with_job-keeps world now w (err e, created) starts h = h
  with_job-keeps world now w (ok none, created) starts h = h
  with_job-keeps world now w (ok (some job), created) starts h =
      with_status-keeps world now w job (world.status_conditions job) (starts job) h

  -- No reconciliation, whatever its outcome, takes the condition back.
  pub reconcile_keeps :
      (world : JobWorld) (now : ℕ) (w : RunnerWorkload)
      → ((job : Job) (cs : List Condition)
          → world.status_conditions job ≡ ok cs
          → StartsInitialized cs)
      → Initialized w
      → Initialized (reconcile_resource meta world now w).workload
  unfolding reconcile_resource get_or_create_job Initialized
  reconcile_keeps world now w starts h =
      let w' = record w { observed_generation = w.generation } in
      let found = fetched meta world now w' (world.get_job w') in
      elim (Bool-cases (not (eqb w.deletion_timestamp 0))) [
        | inl gone ↦ rw gone h
        | inr kept ↦ rw kept (with_job-keeps world now w' found starts h)
      ]

  pub ReadsJobs-starts :
      (print : ℤ → String) (pods : Job → Result ApiError (List (List JobContainer)))
      (world : JobWorld)
      → ReadsJobs print pods world
      → (job : Job) (cs : List Condition) → world.status_conditions job ≡ ok cs
      → StartsInitialized cs
  unfolding ReadsJobs
  ReadsJobs-starts print pods world reads job cs h =
      get_status_conditions-starts print job (pods job) cs (sym (reads job) ∙ h)
