-- ===== src/Tasks/Failures.antt =====
-- The time at which a job failed last (job-task-runner/controllers/status.go).
use korifi.Base.{
  ℕ, ◌≡◌, refl, subst, ◌≤◌, List, [], ◌∷◌, true, Option, none, some, ◌==◌, arith, inl, inr, ◌⊎◌,
  ltb, Bool-cases, if◌then◌else◌,
}
use mathlib.Core.List.{Memᴰ}
use korifi.Tasks.Jobs.{
  JobCondition, JobStatus, job_failed, later, last_failure_from, get_last_failure_timestamp,
}

later_lem : (last : Option ℕ) (u : ℕ) → (t : ℕ) × (later last u ≡ some t) × (u ≤ t)
later_lem none u = (u, refl, omega arith)
later_lem (some v) u = elim (Bool-cases (ltb v u)) [
  | inl less ↦ (u, rw less refl, omega arith)
  | inr more ↦ (v, rw more refl, ground arith)
]

later_keeps : (v u : ℕ) → (t : ℕ) × (later (some v) u ≡ some t) × (v ≤ t)
later_keeps v u = elim (Bool-cases (ltb v u)) [
  | inl less ↦ (u, rw less refl, ground arith)
  | inr more ↦ (v, rw more refl, omega arith)
]

last_failure_from-keeps :
    (cs : List JobCondition) (u : ℕ) → (t : ℕ) × (last_failure_from (some u) cs ≡ some t) × (u ≤ t)
unfolding last_failure_from
last_failure_from-keeps [] u = (u, refl, omega arith)
last_failure_from-keeps (c ∷ cs) u = elim (Bool-cases (c.condition_type == job_failed)) [
  | inr other ↦ rw other (last_failure_from-keeps cs u)
  | inl failed ↦
      let (v, is, low) = later_keeps u c.last_transition_time in
      let (t, found, high) = last_failure_from-keeps cs v in (t, rw (failed, is) found, omega arith)
]

last_failure_from-bound :
    (before : Option ℕ) (cs : List JobCondition) (c : JobCondition)
    → Memᴰ c cs
    → (c.condition_type == job_failed) ≡ true
    → (t : ℕ) × (last_failure_from before cs ≡ some t) × (c.last_transition_time ≤ t)
unfolding last_failure_from
last_failure_from-bound before [] c m failed = elim m [ ]
last_failure_from-bound before (d ∷ cs) c (Memᴰ.tail m) failed =
    let next =
      if d.condition_type == job_failed then later before d.last_transition_time else before in
    last_failure_from-bound next cs c m failed
last_failure_from-bound before (d ∷ cs) c (Memᴰ.head same) failed =
    let (v, is, low) = later_lem before c.last_transition_time in
    let (t, found, high) = last_failure_from-keeps cs v in
    let step : last_failure_from before (c ∷ cs) ≡ some t = rw (failed, is) found in
    (t, subst (λ d. last_failure_from before (d ∷ cs) ≡ some t) same step, omega arith)

pub FailedAt : ℕ → List JobCondition → Type 0
FailedAt t cs =
    (c : JobCondition) × Memᴰ c cs
    × ((c.condition_type == job_failed) ≡ true)
    × (c.last_transition_time ≡ t)

later-either : (last : Option ℕ) (u t : ℕ) → later last u ≡ some t → (last ≡ some t) ⊎ (u ≡ t)
later-either none u t h = inr (ground arith)
later-either (some v) u t h = ground arith

last_failure_from-found :
    (before : Option ℕ) (cs : List JobCondition) (t : ℕ)
    → last_failure_from before cs ≡ some t
    → (before ≡ some t) ⊎ FailedAt t cs
unfolding last_failure_from FailedAt
last_failure_from-found before [] t h = inl h
last_failure_from-found before (d ∷ cs) t h =
    let next =
      if d.condition_type == job_failed then later before d.last_transition_time else before in
    elim (last_failure_from-found next cs t h) [
      | inr (c, m, failed, time) ↦ inr (c, Memᴰ.tail m, failed, time)
      | inl first ↦ elim (Bool-cases (d.condition_type == job_failed)) [
        | inr other ↦ inl (rw other at first)
        | inl failed ↦ elim (later-either before d.last_transition_time t (rw failed at first)) [
          | inl old ↦ inl old
          | inr new ↦ inr (d, Memᴰ.head refl, failed, new)
        ]
      ]
    ]

-- The time of the last failure of a job is the time of one of its Failed conditions, and not
-- before the time of any of them; there is one as soon as there is a Failed condition.
pub last_failure_latest :
    (status : JobStatus)
    → ((t : ℕ) → get_last_failure_timestamp status ≡ some t → FailedAt t status.conditions)
      × ((c : JobCondition)
          → Memᴰ c status.conditions
          → (c.condition_type == job_failed) ≡ true
          → (t : ℕ) × (get_last_failure_timestamp status ≡ some t) × (c.last_transition_time ≤ t))
unfolding get_last_failure_timestamp
last_failure_latest status = (
  λ t h. elim (last_failure_from-found none status.conditions t h) [
    | inl never ↦ cc
    | inr found ↦ found
  ],
  λ c m failed. last_failure_from-bound none status.conditions c m failed,
)
