-- ===== src/Kube/Reconcile.antt =====
-- tools/k8s/reconcile.go (`PatchingReconciler`) and tools/k8s/conditions/builder.go: a reconciler
-- around the reconciler of one kind of object, which keeps the object's Ready condition.
pub mod Ready
use korifi.Base.{ℕ, String, ◌≡◌, List, Bool, true, false, Option, none, some, ◌==◌, if◌then◌else◌}
use korifi.Base.Int.{ℤ, pos}
use korifi.Kube.Errors.{ApiError, Result, ok, err, is_not_found}
use korifi.Kube.Conditions.{Condition, ConditionsApi, condition_true, condition_false}
use korifi.Kube.NotReady.{GoError, NotReadyError, as_not_ready, error_text, other_error}

abbrev pub ready_condition : String
ready_condition = "Ready"

pub record ReadyConditionBuilder : Type 0 where
  pub status : String
  pub observed_generation : ℕ
  pub reason : String
  pub message : String

abbrev pub new_ready_condition_builder : ℕ → ReadyConditionBuilder
new_ready_condition_builder generation = record {
  status = condition_false;
  observed_generation = generation;
  reason = "Unknown";
  message = "";
}

abbrev pub with_message : String → ReadyConditionBuilder → ReadyConditionBuilder
with_message message b = if message == "" then b else record b { message = message }

abbrev pub with_error : Option GoError → ReadyConditionBuilder → ReadyConditionBuilder
with_error none b = b
with_error (some e) b = record b { message = error_text e }

abbrev pub build : ℕ → ReadyConditionBuilder → Condition
build now b =
    let is_ready = b.status == condition_true in
    record {
      condition_type = ready_condition;
      status = b.status;
      reason = if is_ready then "Ready" else b.reason;
      message = if is_ready then "Ready" else b.message;
      observed_generation = b.observed_generation;
      last_transition_time = now;
    }

-- `ctrl.Result`
pub record CtrlResult : Type 0 where
  pub requeue : Bool
  pub requeue_after : ℤ

abbrev pub no_result : CtrlResult
no_result = record { requeue = false; requeue_after = pos 0 }

pub record Outcome : Type 0 where
  pub builder : ReadyConditionBuilder
  pub result : CtrlResult
  pub delegate_error : Option GoError

-- `tools.IfZero`
abbrev pub if_zero : String → String → String
if_zero v ret = if v == "" then ret else v

-- The three tests that follow `errors.As`, in their order; a later one wins.
abbrev skip_requeue : Bool → Outcome → Outcome
skip_requeue true o = record o { result = no_result; delegate_error = none }
skip_requeue false o = o

abbrev requeue_later : Option ℤ → Outcome → Outcome
requeue_later (some after) o = record o {
  result = record { requeue = false; requeue_after = after };
  delegate_error = none;
}
requeue_later none o = o

abbrev requeue_now : Bool → Outcome → Outcome
requeue_now true o = record o {
  result = record { requeue = true; requeue_after = pos 0 };
  delegate_error = none;
}
requeue_now false o = o

abbrev explain : NotReadyError → Outcome → Outcome
explain e o =
    let b = record o.builder { reason = if_zero e.reason "Unknown" } in
    let o' = record o { builder = with_message e.message b } in
    requeue_now e.requeue (requeue_later e.requeue_after (skip_requeue e.no_requeue o'))

abbrev explain_option : Option NotReadyError → Outcome → Outcome
explain_option none o = o
explain_option (some e) o = explain e o

-- What becomes of the delegate's result and error.
unfoldable pub outcome : ReadyConditionBuilder → CtrlResult → Option GoError → Outcome
unfolding as_not_ready
outcome b result none = record {
  builder = record b { status = condition_true };
  result = result;
  delegate_error = none;
}
outcome b result (some e) =
    explain_option (as_not_ready e)
      (record { builder = b; result = result; delegate_error = some e })

-- An object with a generation and status conditions.
pub record Resource : Type 1 where
  pub Object : Type 0
  pub generation : Object → ℕ
  pub conditions : Object → List Condition
  pub with_conditions : List Condition → Object → Object
  pub conditions-with_conditions :
      (cs : List Condition) (o : Object) → conditions (with_conditions cs o) ≡ cs

-- What a delegate hands back: the object that it has changed, its result and its error.
pub record Delegated (r : Resource) : Type 0 where
  pub object : r.Object
  pub result : CtrlResult
  pub delegate_error : Option GoError

module _ (meta : ConditionsApi) (resource : Resource) (now : ℕ) where
  open meta use {set_status_condition}
  open resource use {Object, generation, conditions, with_conditions}

  -- The function that `Patch` applies to the object.
  unfoldable pub modify : (Object → Delegated resource) → Object → Delegated resource
  unfolding outcome
  modify delegate object =
      let builder = new_ready_condition_builder (generation object) in
      let d = delegate object in
      let o = outcome builder d.result d.delegate_error in
      let ready = build now (with_error o.delegate_error o.builder) in
      record {
        object = with_conditions (set_status_condition now ready (conditions d.object)) d.object;
        result = o.result;
        delegate_error = o.delegate_error;
      }

  abbrev api_error : ApiError → Option GoError
  api_error e = some (other_error e.message)

  abbrev patched :
      Delegated resource → Option ApiError → Option Object × CtrlResult × Option GoError
  patched d (some e) = (some d.object, no_result, api_error e)
  patched d none = (some d.object, d.result, d.delegate_error)

  -- One reconciliation: the object that is sent to the API server, if any, the result and the
  -- error. `get` is what the API server answers to the request for the object, and `patch` what it
  -- answers to the patch.
  unfoldable pub reconcile :
      Result ApiError Object
      → (Object → Object → Option ApiError)
      → (Object → Delegated resource)
      → Option Object × CtrlResult × Option GoError
  unfolding modify
  reconcile (err e) patch delegate = (none, no_result, if is_not_found e then none else api_error e)
  reconcile (ok object) patch delegate =
      let d = modify delegate object in patched d (patch object d.object)
