-- ===== src/Tasks/Observed.antt =====
-- The conditions that the runner reads off a job (job-task-runner/controllers/status.go): Initialized
-- comes first, and each is true.
use korifi.Base.{
  append-nil, ℕ, String, ◌≡◌, refl, sym, ◌∙◌, List, [], ◌∷◌, ◌++◌, Option, none, some, inl, inr,
  ltb, All, Bool-cases,
}
use korifi.Base.Int.{ℤ}
use korifi.Kube.Errors.{ApiError, Result, ok, err}
use korifi.Kube.Conditions.{Condition, condition_true}
use korifi.Tasks.Controller.{task_initialized, task_started}
use korifi.Tasks.Jobs.{
  Job, JobContainer, Terminated, job_condition, succeeded_conditions, failed_with,
  failed_conditions, started_conditions, get_status_conditions,
}

unfoldable pub AllTrue : List Condition → Type 0
AllTrue cs = All (λ c. c.status ≡ condition_true) cs

-- The conditions read off a job begin with Initialized, and each is true.
unfoldable pub StartsInitialized : List Condition → Type 0
StartsInitialized cs =
    (c : Condition) × (rest : List Condition) × (cs ≡ c ∷ rest)
    × (c.condition_type ≡ task_initialized)
    × (c.status ≡ condition_true)
    × AllTrue rest

abbrev initialized : Condition
initialized = job_condition task_initialized "JobCreated" "" 0

ok_injective :
    {x y : List Condition} → ◌≡◌ {A = Result ApiError (List Condition)} (ok x) (ok y) → x ≡ y
ok_injective h = cc

Extends : List Condition → List Condition → Type 0
Extends conditions cs = (more : List Condition) × (cs ≡ conditions ++ more) × AllTrue more

Extends-nothing :
    (conditions cs : List Condition)
    → ◌≡◌ {A = Result ApiError (List Condition)} (ok conditions) (ok cs)
    → Extends conditions cs
unfolding Extends AllTrue
Extends-nothing conditions cs h = ([], sym (ok_injective h) ∙ sym (append-nil conditions), tt)

failed_with-Extends :
    (print : ℤ → String) (conditions : List Condition) (time : ℕ)
    (state : Result ApiError Terminated) (cs : List Condition)
    → failed_with print conditions time state ≡ ok cs
    → Extends conditions cs
unfolding Extends AllTrue
failed_with-Extends print conditions time (err e) cs h = cc
failed_with-Extends print conditions time (ok state) cs h = (_, sym (ok_injective h), (refl, tt))

failed_conditions-Extends :
    (print : ℤ → String) (failed : ℕ) (last : Option ℕ) (conditions : List Condition)
    (state : Result ApiError Terminated) (cs : List Condition)
    → failed_conditions print failed last conditions state ≡ ok cs
    → Extends conditions cs
failed_conditions-Extends print failed none conditions state cs h = Extends-nothing conditions cs h
failed_conditions-Extends print failed (some time) conditions state cs h =
    elim (Bool-cases (ltb 0 failed)) [
      | inr none' ↦ Extends-nothing conditions cs (rw none' at h)
      | inl some' ↦ failed_with-Extends print conditions time state cs (rw some' at h)
    ]

succeeded_conditions-AllTrue :
    (succeeded : ℕ) (time : Option ℕ) → AllTrue (succeeded_conditions succeeded time)
unfolding AllTrue
succeeded_conditions-AllTrue succeeded none = tt
succeeded_conditions-AllTrue succeeded (some time) = elim (Bool-cases (ltb 0 succeeded)) [
  | inl some' ↦ rw some' (refl, tt)
  | inr none' ↦ rw none' tt
]

AllTrue-append : (xs ys : List Condition) → AllTrue xs → AllTrue ys → AllTrue (xs ++ ys)
unfolding AllTrue
AllTrue-append [] ys good good' = good'
AllTrue-append (x ∷ xs) ys (first, good) good' = (first, AllTrue-append xs ys good good')

started_conditions-starts :
    (print : ℤ → String) (job : Job) (pods : Result ApiError (List (List JobContainer)))
    (start : Option ℕ) (cs : List Condition)
    → started_conditions print job pods (initialized ∷ []) start ≡ ok cs
    → StartsInitialized cs
unfolding StartsInitialized AllTrue Extends
started_conditions-starts print job pods none cs h =
    (initialized, [], sym (ok_injective h), refl, refl, tt)
started_conditions-starts print job pods (some start) cs h =
    let succeeded = succeeded_conditions job.status.succeeded job.status.completion_time in
    let started = job_condition task_started "JobStarted" "" start in
    let (more, is, good) =
      failed_conditions-Extends print job.status.failed _ (initialized ∷ started ∷ succeeded) _ cs
        h in
    let succeeded-good =
      succeeded_conditions-AllTrue job.status.succeeded job.status.completion_time in
    (
      initialized,
      started ∷ (succeeded ++ more),
      is,
      refl,
      refl,
      (refl, AllTrue-append succeeded more succeeded-good good),
    )

pub get_status_conditions-starts :
    (print : ℤ → String) (job : Job) (pods : Result ApiError (List (List JobContainer)))
    (cs : List Condition)
    → get_status_conditions print job pods ≡ ok cs
    → StartsInitialized cs
unfolding get_status_conditions
get_status_conditions-starts print job pods cs h =
    started_conditions-starts print job pods job.status.start_time cs h
