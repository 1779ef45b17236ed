-- ===== src/Kube/NotReady.antt =====
-- tools/k8s/reconcile.go (`NotReadyError`): the error by which a reconciler says why its object is
-- not ready, and whether to try again. Durations are integers, in nanoseconds.
use korifi.Base.{
  String, [], ◌∷◌, Bool, true, false, Option, none, some, ◌==◌, concat, if◌then◌else◌,
}
use korifi.Base.Int.{ℤ}

pub record NotReadyError : Type 0 where
  pub reason : String
  pub message : String
  pub requeue_after : Option ℤ
  pub requeue : Bool
  pub no_requeue : Bool

-- A Go error, as far as `errors.As` for a `NotReadyError` looks into it: one without and one with
-- a cause, one that wraps another, and any other error, by its text.
pub data GoError : Type 0 where
  not_ready : NotReadyError → GoError
  not_ready_because : NotReadyError → GoError → GoError
  wrapping : String → GoError → GoError
  other_error : String → GoError

unfoldable pub as_not_ready : GoError → Option NotReadyError
as_not_ready (not_ready e) = some e
as_not_ready (not_ready_because e cause) = some e
as_not_ready (wrapping context e) = as_not_ready e
as_not_ready (other_error text) = none

abbrev pub with_part : String → String → String
with_part composed part = if part == "" then composed else concat (composed ∷ ": " ∷ part ∷ [])

abbrev pub composed_message : NotReadyError → String
composed_message e = with_part (with_part "resource not ready" e.reason) e.message

unfoldable pub error_text : GoError → String
error_text (not_ready e) = composed_message e
error_text (not_ready_because e cause) = concat (composed_message e ∷ ": " ∷ error_text cause ∷ [])
error_text (wrapping context e) = concat (context ∷ ": " ∷ error_text e ∷ [])
error_text (other_error text) = text

abbrev pub new_not_ready_error : NotReadyError
new_not_ready_error = record {
  reason = "";
  message = "";
  requeue_after = none;
  requeue = false;
  no_requeue = false;
}

abbrev pub with_requeue : NotReadyError → NotReadyError
with_requeue e = record e { requeue = true }

abbrev pub with_requeue_after : ℤ → NotReadyError → NotReadyError
with_requeue_after duration e = record e { requeue_after = some duration }

abbrev pub with_no_requeue : NotReadyError → NotReadyError
with_no_requeue e = record e { no_requeue = true }

abbrev pub with_reason : String → NotReadyError → NotReadyError
with_reason reason e = record e { reason = reason }

abbrev pub with_message : String → NotReadyError → NotReadyError
with_message message e = record e { message = message }
