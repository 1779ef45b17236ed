-- ===== src/Kube/Tests.antt =====
-- A reconciliation of a concrete object.
use korifi.Base.{ℕ, ◌≡◌, refl, ◌≢◌, ◌↔◌, ◌⊎◌, List, [], true, false, Option, none, some}
use korifi.Base.Int.{ℤ, pos}
use korifi.Kube.Conditions.{Condition, condition_true}
use korifi.Kube.Listed.{listed_conditions, find_in}
use korifi.Kube.NotReady.{
  GoError, NotReadyError, not_ready, wrapping, as_not_ready, new_not_ready_error,
  with_requeue_after, with_no_requeue,
}
use korifi.Kube.Reconcile.{no_result, Resource, Delegated, modify, ready_condition}
use korifi.Kube.Reconcile.Ready.{modify_ready, modify_result}

pub record Plain : Type 0 where
  pub generation : ℕ
  pub conditions : List Condition

abbrev plain : Resource
plain = record {
  Object = Plain;
  generation = λ o. o.generation;
  conditions = λ o. o.conditions;
  with_conditions = λ cs o. record o { conditions = cs };
  conditions-with_conditions = λ cs o. refl;
}

abbrev why : NotReadyError
why = with_no_requeue (with_requeue_after (pos 5) new_not_ready_error)

abbrev failing : Plain → Delegated plain
failing o = record {
  object = o;
  result = no_result;
  delegate_error = some (wrapping "failed" (not_ready why));
}

abbrev object : Plain
object = record { generation = 3; conditions = [] }

modify_ready_example :
    (c : Condition) × (find_in
        (modify listed_conditions plain 8 failing object).object.conditions
        ready_condition
      ≡ some c)
    × ((c.status ≡ condition_true)
        ↔ (◌≡◌ {A = Option GoError} (some (wrapping "failed" (not_ready why))) none))
    × (c.reason ≢ "")
    × (c.observed_generation ≡ 3)
modify_ready_example = modify_ready listed_conditions plain 8 failing object

modify_result_example :
    let m = modify listed_conditions plain 8 failing object in
    ((false ≡ true)
      × (m.delegate_error ≡ none)
      × (m.result ≡ record { requeue = true; requeue_after = pos 0 }))
    ⊎ ((after : ℤ) × (false ≡ false)
        × (some (pos 5) ≡ some after)
        × (m.delegate_error ≡ none)
        × (m.result ≡ record { requeue = false; requeue_after = after }))
    ⊎ ((false ≡ false)
        × (some (pos 5) ≡ none)
        × (true ≡ true)
        × (m.delegate_error ≡ none)
        × (m.result ≡ no_result))
    ⊎ ((false ≡ false)
        × (some (pos 5) ≡ none)
        × (true ≡ false)
        × (m.delegate_error ≡ some (wrapping "failed" (not_ready why)))
        × (m.result ≡ no_result))
unfolding as_not_ready
modify_result_example =
    modify_result listed_conditions plain 8 failing object (wrapping "failed" (not_ready why)) why
      refl refl
