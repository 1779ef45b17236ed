-- ===== src/Kube/Reconcile/Ready.antt =====
-- The Ready condition that a reconciliation leaves, and what it returns.
use korifi.Base.{
  ℕ, String, ◌≡◌, refl, ◌≢◌, true, false, Option, none, some, ◌==◌, eq_iff, arith, ◌↔◌, ◌⊎◌, ◌∙◌,
  ap, Option-cases, Bool-cases, inl, inr,
}
use korifi.Base.Int.{ℤ, pos}
use korifi.Kube.Conditions.{
  Condition, ConditionsApi, condition_true, condition_false, transitioned, transitioned_same,
  find-set_self, find-set_ne,
}
use korifi.Kube.NotReady.{GoError, NotReadyError, as_not_ready}
use korifi.Kube.Reconcile.{
  ReadyConditionBuilder, new_ready_condition_builder, with_error, build, CtrlResult, no_result,
  Outcome, outcome, explain_option, Resource, Delegated, modify, ready_condition,
}

abbrev ready_of : ℕ → Outcome → Condition
ready_of now o = build now (with_error o.delegate_error o.builder)

with_error_same :
    (e : Option GoError) (b : ReadyConditionBuilder)
    → ((with_error e b).status ≡ b.status)
      × ((with_error e b).reason ≡ b.reason)
      × ((with_error e b).observed_generation ≡ b.observed_generation)
with_error_same none b = (refl, refl, refl)
with_error_same (some e) b = (refl, refl, refl)

explain_same :
    (e : Option NotReadyError) (o : Outcome)
    → ((explain_option e o).builder.status ≡ o.builder.status)
      × ((explain_option e o).builder.observed_generation ≡ o.builder.observed_generation)
explain_same none o = (refl, refl)
explain_same (some e) o = (ground arith, ground arith)

explain_reason :
    (e : Option NotReadyError) (o : Outcome)
    → o.builder.reason ≢ ""
    → (explain_option e o).builder.reason ≢ ""
explain_reason none o h = h
explain_reason (some e) o h = ground (arith, eq_iff e.reason "", eq_iff "Unknown" "")

unready : ◌≢◌ {A = String} condition_false condition_true
unready = ground (arith, eq_iff condition_false condition_true)

ready_of-status :
    (now generation : ℕ) (result : CtrlResult) (e : Option GoError)
    → let c = ready_of now (outcome (new_ready_condition_builder generation) result e) in
      ((c.status ≡ condition_true) ↔ (e ≡ none))
      × (c.reason ≢ "")
      × (c.observed_generation ≡ generation)
unfolding outcome
ready_of-status now generation result none =
    ((λ h. refl, λ h. refl), ground (arith, eq_iff "Ready" ""), refl)
ready_of-status now generation result (some e) =
    let b = new_ready_condition_builder generation in
    let o : Outcome = record { builder = b; result = result; delegate_error = some e } in
    let o' = explain_option (as_not_ready e) o in
    let (status, observed) = explain_same (as_not_ready e) o in
    let (status', reason', observed') = with_error_same o'.delegate_error o'.builder in
    let given : o'.builder.reason ≢ "" =
      explain_reason (as_not_ready e) o (ground (arith, eq_iff "Unknown" "")) in
    (
      (λ h. absurd (unready (cc (h, status, status'))), λ h. cc),
      ground (arith, eq_iff "Ready" "", given, reason'),
      observed' ∙ observed,
    )

module _ (meta : ConditionsApi) (resource : Resource) (now : ℕ) where
  open meta use {find_status_condition}
  open resource use {Object, generation, conditions}

  -- After a reconciliation the object has a Ready condition; it is true exactly when the delegate
  -- returned no error, has a reason that is not empty, and names the generation that was read.
  pub modify_ready :
      (delegate : Object → Delegated resource) (object : Object)
      → (c : Condition) × (find_status_condition
            (conditions (modify meta resource now delegate object).object)
            ready_condition
          ≡ some c)
        × ((c.status ≡ condition_true) ↔ ((delegate object).delegate_error ≡ none))
        × (c.reason ≢ "")
        × (c.observed_generation ≡ generation object)
  unfolding modify
  modify_ready delegate object =
      let d = delegate object in
      let o = outcome (new_ready_condition_builder (generation object)) d.result d.delegate_error in
      let ready = ready_of now o in
      let old = find_status_condition (conditions d.object) ready_condition in
      let (iff, reason, observed) =
        ready_of-status now (generation object) d.result d.delegate_error in
      let (status, reason', observed') = transitioned_same now old ready in
      let cs = meta.set_status_condition now ready (conditions d.object) in
      (
        transitioned now old ready,
        ap (λ l. find_status_condition l ready_condition)
              (resource.conditions-with_conditions cs d.object)
            ∙ find-set_self meta now ready (conditions d.object),
        rw status iff,
        rw reason' reason,
        observed' ∙ observed,
      )

  -- Conditions of other types are those that the delegate left.
  pub modify-keeps :
      (delegate : Object → Delegated resource) (object : Object) (t : String)
      → (ready_condition == t) ≡ false
      → find_status_condition (conditions (modify meta resource now delegate object).object) t
        ≡ find_status_condition (conditions (delegate object).object) t
  unfolding modify
  modify-keeps delegate object t other =
      let d = delegate object in
      let o = outcome (new_ready_condition_builder (generation object)) d.result d.delegate_error in
      let cs = meta.set_status_condition now (ready_of now o) (conditions d.object) in
      ap (λ l. find_status_condition l t) (resource.conditions-with_conditions cs d.object)
      ∙ find-set_ne meta now (ready_of now o) (conditions d.object) t other

  -- When the delegate's error is or wraps a `NotReadyError`, a reconciliation returns that error
  -- and the delegate's result, unless the `NotReadyError` asks for no retry, for one after a
  -- while or for one at once: then it returns no error, and the result says so. Of several such
  -- wishes that for a retry at once wins, and then that for one after a while.
  pub modify_result :
      (delegate : Object → Delegated resource) (object : Object) (e : GoError) (why : NotReadyError)
      → (delegate object).delegate_error ≡ some e
      → as_not_ready e ≡ some why
      → let m = modify meta resource now delegate object in
        ((why.requeue ≡ true)
          × (m.delegate_error ≡ none)
          × (m.result ≡ record { requeue = true; requeue_after = pos 0 }))
        ⊎ ((after : ℤ) × (why.requeue ≡ false)
            × (why.requeue_after ≡ some after)
            × (m.delegate_error ≡ none)
            × (m.result ≡ record { requeue = false; requeue_after = after }))
        ⊎ ((why.requeue ≡ false)
            × (why.requeue_after ≡ none)
            × (why.no_requeue ≡ true)
            × (m.delegate_error ≡ none)
            × (m.result ≡ no_result))
        ⊎ ((why.requeue ≡ false)
            × (why.requeue_after ≡ none)
            × (why.no_requeue ≡ false)
            × (m.delegate_error ≡ some e)
            × (m.result ≡ (delegate object).result))
  unfolding modify
  modify_result delegate object e why failed is_why =
      rw (failed, is_why, outcome)
        (elim (Bool-cases why.requeue) [
          | inl now' ↦ inl (now', rw now', rw now')
          | inr no_now ↦ elim (Option-cases why.requeue_after) [
            | inr (after, later) ↦
                inr (inl (after, no_now, later, rw (no_now, later), rw (no_now, later)))
            | inl no_later ↦ elim (Bool-cases why.no_requeue) [
              | inl skip ↦ inr (
                  inr (
                    inl (
                      no_now,
                      no_later,
                      skip,
                      rw (no_now, no_later, skip),
                      rw (no_now, no_later, skip),
                    )))
              | inr retry ↦ inr (
                  inr (
                    inr (
                      no_now,
                      no_later,
                      retry,
                      rw (no_now, no_later, retry),
                      rw (no_now, no_later, retry),
                    )))
            ]
          ]
        ])
