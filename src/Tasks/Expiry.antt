-- ===== src/Tasks/Expiry.antt =====
-- When the CFTask controller deletes a task, and when it comes back for it
-- (controllers/controllers/workloads/tasks/controller.go); the CPU that a task asks for.
use korifi.Base.{
  Bool-cases, ◌%◌, ℕ, suc, ◌+◌, ◌-◌, ◌*◌, ◌/◌, ◌^◌, ◌≤◌, ◌<◌, ◌≡◌, refl, ap, ◌∙◌, true, some, leb,
  arith, ◌↔◌, ltb, inl, inr, ◌⊎◌, if◌then◌else◌,
}
use korifi.Base.Int.{ℤ, pos, negsuc}
use korifi.Kube.Conditions.{ConditionsApi}
use korifi.Tasks.Controller.{
  CfTask, get_completion_time, compute_requeue_after, already_expired, minus, max_duration, capped,
}
use korifi.Tasks.Requests.{
  less, divided, wrap_int64, times, calculate_default_cpu_request_millicores,
}

-- A difference of times, as `time.Time.Sub` gives it.
minus_lem :
    (deadline later : ℕ)
    → ((later < deadline)
        × ((d : ℕ) × (minus deadline later ≡ pos (suc d))
            × (later + suc d ≤ deadline)
            × ((later + suc d ≡ deadline) ⊎ (suc d ≡ max_duration))))
      ⊎ ((deadline ≤ later)
          × ((minus deadline later ≡ pos 0) ⊎ ((n : ℕ) × (minus deadline later ≡ negsuc n))))
minus_lem deadline later = elim (Bool-cases (ltb later deadline)) [
  | inr past ↦ elim (Bool-cases (leb later deadline)) [
    | inl same ↦ inr (ground arith, inl (rw same (ap (λ (n : ℕ). pos n) (ground arith))))
    | inr over ↦ inr (ground arith, inr (capped (later - deadline - 1), rw over refl))
  ]
  | inl ahead ↦
      let test : leb later deadline ≡ true = ground arith in
      elim (Bool-cases (leb (deadline - later) max_duration)) [
        | inl exact ↦ inl (
          ground arith,
          (
            deadline - later - 1,
            rw (test, exact) (ap (λ (n : ℕ). pos n) (ground arith)),
            ground arith,
            inl (ground arith),
          ),
        )
        | inr far ↦ inl (
          ground arith,
          (max_duration - 1, rw (test, far) refl, ground arith, inr (ground arith)),
        )
      ]
]

module _ (meta : ConditionsApi) (now later ttl : ℕ) (task : CfTask) where
  -- A completed task is expired exactly from its completion and the time to live on, as the clock
  -- stands when this is tested. If that moment is still to come when the clock is read again, the
  -- controller comes back after a positive time, and not after that moment: at it, or after the
  -- longest duration there is. If it has come by then, the result asks for no other reconciliation,
  -- since the time in it is zero or negative, although the task may not have been expired before.
  pub expiry-requeue :
      (t : ℕ)
      → get_completion_time meta task ≡ some t
      → ((already_expired meta now ttl task ≡ true) ↔ (t + ttl ≤ now))
        × (((later < t + ttl)
              × ((d : ℕ) × (compute_requeue_after meta later ttl task ≡ pos (suc d))
                  × (later + suc d ≤ t + ttl)
                  × ((later + suc d ≡ t + ttl) ⊎ (suc d ≡ max_duration))))
            ⊎ ((t + ttl ≤ later)
                × ((compute_requeue_after meta later ttl task ≡ pos 0)
                    ⊎ ((n : ℕ) × (compute_requeue_after meta later ttl task ≡ negsuc n)))))
  unfolding already_expired compute_requeue_after
  expiry-requeue t at = rw at (ground arith, minus_lem (t + ttl) later)

at_least_five :
    (z : ℤ)
    → (c : ℕ) × ((if less z 5 then pos 5 else z) ≡ pos c)
      × (5 ≤ c)
      × ((m : ℕ) → z ≡ pos m → (c ≡ m) ⊎ ((c ≡ 5) × (m < 5)))
at_least_five (negsuc n) = (5, refl, omega arith, λ m h. cc)
at_least_five (pos n) = elim (Bool-cases (ltb n 5)) [
  | inl low ↦ rw low (5, refl, omega arith, λ m h. ground arith)
  | inr high ↦ rw high (n, refl, ground arith, λ m h. ground arith)
]

in_range :
    (m : ℕ)
    → 100 * m < 2 ^ 63
    → divided (wrap_int64 (times 100 (pos m))) 1024 ≡ pos (100 * m / 1024)
in_range m h =
    let small : 100 * m % 2 ^ 64 ≡ 100 * m = omega arith in
    let test : ltb (100 * m) (2 ^ 63) ≡ true = ground arith in rw (small, test) refl

-- The request for CPU is never below 5 millicores; for a memory of a process that is not negative
-- and does not overflow, it is 100/1024 millicores for each MiB, rounded down, or 5 if that is more.
pub cpu_request_bounds :
    (memory : ℤ)
    → (c : ℕ) × (calculate_default_cpu_request_millicores memory ≡ pos c)
      × (5 ≤ c)
      × ((m : ℕ)
          → memory ≡ pos m
          → 100 * m < 2 ^ 63
          → (c ≡ 100 * m / 1024) ⊎ ((c ≡ 5) × (100 * m / 1024 < 5)))
unfolding calculate_default_cpu_request_millicores
cpu_request_bounds memory =
    let (c, is, low, exact) = at_least_five (divided (wrap_int64 (times 100 memory)) 1024) in
    (
      c,
      is,
      low,
      λ m at small.
          exact (100 * m / 1024)
            (ap (λ (z : ℤ). divided (wrap_int64 (times 100 z)) 1024) at ∙ in_range m small),
    )
