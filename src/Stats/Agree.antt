-- ===== src/Stats/Agree.antt =====
-- The two readings of an instance's state agree, and are what the pod's conditions say.
use korifi.Base.{
  ℕ, String, ◌≡◌, refl, ◌≢◌, List, [], ◌∷◌, true, false, Option, none, some, ◌==◌, eq_iff, arith,
  ◌↔◌, ◌⊎◌, ◌∙◌, ap, inl, inr, All, lookup, insert, lookup-insert, value_at, if◌then◌else◌,
  Bool-cases, Option-cases,
}
use mathlib.Core.List.{Memᴰ}
use korifi.Kube.Errors.{ok}
use korifi.Stats.Pods.{
  Pod, PodCondition, pod_condition_status, pod_has_crashed_container, get_pod_start_time,
  get_pod_state, get_instance_status, instance_states, collect_state, pod_ready, pod_scheduled,
  pod_index_label, InstanceStatus,
}

ready_start :
    (cs : List PodCondition)
    → pod_condition_status cs pod_ready ≡ true
    → (t : ℕ) × (get_pod_start_time cs ≡ some t)
unfolding pod_condition_status get_pod_start_time
ready_start [] h = cc
ready_start (c ∷ cs) h = elim (Bool-cases (c.condition_type == pod_ready)) [
  | inl is ↦ (c.last_transition_time, rw is)
  | inr other ↦ rw other (ready_start cs (rw other at h))
]

not_running : {P : Type 0} (s : String) → (s == "RUNNING") ≡ false → s ≡ "RUNNING" → P
not_running s h e = ground (arith, eq_iff s "RUNNING")

-- The state collector and the process statistics read the same state off a pod, and the
-- collector gives a time exactly for an instance that is running.
pub states_agree :
    (pod : Pod)
    → ((get_instance_status pod).state ≡ get_pod_state pod)
      × ((get_pod_state pod ≡ "RUNNING")
          ↔ ((t : ℕ) × ((get_instance_status pod).timestamp ≡ some t)))
unfolding get_pod_state get_instance_status
states_agree pod = elim (Bool-cases (pod_condition_status pod.conditions pod_ready)) [
  | inl ready ↦ rw ready (refl, (λ h. ready_start pod.conditions ready, λ h. refl))
  | inr unready ↦ elim (Bool-cases (pod_condition_status pod.conditions pod_scheduled)) [
    | inr unscheduled ↦ rw (unready, unscheduled) (refl, (λ h. not_running _ refl h, λ h. cc))
    | inl scheduled ↦ elim (Bool-cases (pod_has_crashed_container pod.container_statuses)) [
      | inl crashed ↦ rw (unready, scheduled, crashed) (refl, (λ h. not_running _ refl h, λ h. cc))
      | inr starting ↦
          rw (unready, scheduled, starting) (refl, (λ h. not_running _ refl h, λ h. cc))
    ]
  ]
]

-- The status of an index in the result: the last pod with that index in the list gives it.
last_status : String → List Pod → Option InstanceStatus → Option InstanceStatus
last_status index [] found = found
last_status index (pod ∷ pods) found =
    last_status index pods (
      if value_at pod_index_label pod.labels == index
      then some (get_instance_status pod)
      else found)

instance_states_lem :
    (pods : List Pod) (result : List (String × InstanceStatus)) (index : String)
    → lookup index (instance_states result pods) ≡ last_status index pods (lookup index result)
unfolding instance_states last_status
instance_states_lem [] result index = refl
instance_states_lem (pod ∷ pods) result index =
    let label = value_at pod_index_label pod.labels in
    instance_states_lem pods (insert label (get_instance_status pod) result) index
    ∙ ap (last_status index pods) (lookup-insert result label index (get_instance_status pod))

last_status-from :
    (index : String) (pods : List Pod) (found : Option InstanceStatus) (status : InstanceStatus)
    → last_status index pods found ≡ some status
    → ((pod : Pod) × Memᴰ pod pods
        × (value_at pod_index_label pod.labels ≡ index)
        × (status ≡ get_instance_status pod))
      ⊎ (found ≡ some status)
unfolding last_status
last_status-from index [] found status h = inr h
last_status-from index (pod ∷ pods) found status h =
    let label = value_at pod_index_label pod.labels in
    let next = if label == index then some (get_instance_status pod) else found in
    elim (last_status-from index pods next status h) [
      | inl (p, m, same, is) ↦ inl (p, Memᴰ.tail m, same, is)
      | inr e ↦ elim (Bool-cases (label == index)) [
        | inl this ↦ inl (pod, Memᴰ.head refl, (eq_iff label index).0 this, ground arith)
        | inr other ↦ inr (ground arith)
      ]
    ]

last_status-kept :
    (index : String) (pods : List Pod) (status : InstanceStatus)
    → last_status index pods (some status) ≢ none
unfolding last_status
last_status-kept index [] status h = cc
last_status-kept index (pod ∷ pods) status h =
    elim (Bool-cases (value_at pod_index_label pod.labels == index)) [
      | inl this ↦ last_status-kept index pods (get_instance_status pod) (rw this at h)
      | inr other ↦ last_status-kept index pods status (rw other at h)
    ]

last_status-missing :
    (index : String) (pods : List Pod) (found : Option InstanceStatus)
    → last_status index pods found ≡ none
    → All (λ pod. value_at pod_index_label pod.labels ≢ index) pods
unfolding last_status
last_status-missing index [] found h = tt
last_status-missing index (pod ∷ pods) found h =
    let label = value_at pod_index_label pod.labels in
    let next = if label == index then some (get_instance_status pod) else found in
    (
      λ same.
          last_status-kept index pods (get_instance_status pod)
            (rw ((eq_iff label index).1 same) at h),
      last_status-missing index pods next h,
    )

-- What the collector holds for a pod: the state that the process statistics read off the pod, and a
-- time exactly where this is RUNNING.
unfoldable pub Reads : Pod → InstanceStatus → Type 0
Reads pod status =
    (status.state ≡ get_pod_state pod)
    × ((get_pod_state pod ≡ "RUNNING") ↔ ((t : ℕ) × (status.timestamp ≡ some t)))

-- When the pods could be listed, the collected states hold under each index what a pod with that
-- index shows: the state that api/actions/process_stats.go reads off that pod, with a time exactly
-- where this is RUNNING. Nothing is held for an index that no pod has.
pub collect_state_lem :
    (quote : String → String) (pods : List Pod) (guid index : String)
    → (result : List (String × InstanceStatus)) × (collect_state quote (ok pods) guid ≡ ok result)
      × (((pod : Pod) × (status : InstanceStatus) × Memᴰ pod pods
            × (value_at pod_index_label pod.labels ≡ index)
            × (lookup index result ≡ some status)
            × Reads pod status)
          ⊎ ((lookup index result ≡ none)
              × All (λ pod. value_at pod_index_label pod.labels ≢ index) pods))
unfolding collect_state lookup Reads
collect_state_lem quote pods guid index =
    let result = instance_states [] pods in
    let found = instance_states_lem pods [] index in
    (
      result,
      refl,
      elim (Option-cases (last_status index pods none)) [
        | inl none' ↦ inr (found ∙ none', last_status-missing index pods none none')
        | inr (status, some') ↦ elim (last_status-from index pods none status some') [
          | inl (pod, m, same, is) ↦
              inl (
                pod,
                get_instance_status pod,
                m,
                same,
                found ∙ some' ∙ ap some is,
                states_agree pod,
              )
          | inr never ↦ cc
        ]
      ],
    )
