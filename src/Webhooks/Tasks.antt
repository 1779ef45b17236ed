-- ===== src/Webhooks/Tasks.antt =====
-- controllers/webhooks/workloads/tasks/validator.go: what may be changed of a task.
pub mod Updates
use korifi.Base.{
  String, List, [], ◌∷◌, Bool, true, false, not, ◌&&◌, ◌||◌, Option, none, some, ◌==◌, eqb, len,
  concat, if◌then◌else◌,
}
use korifi.Base.Int.{ℤ, pos, is_negative, int_eqb}
use korifi.Kube.Conditions.{Condition, ConditionsApi}
use korifi.Validation.{ValidationError}

pub record Task : Type 0 where
  pub namespace : String
  pub name : String
  pub is_deleting : Bool
  pub command : String
  pub app_ref_name : String
  pub canceled : Bool
  pub sequence_id : ℤ  -- int64
  pub conditions : List Condition

abbrev pub succeeded_condition : String
succeeded_condition = "Succeeded"

abbrev pub failed_condition : String
failed_condition = "Failed"

abbrev task_error : String → Task → String → ValidationError
task_error error_type t problem = record {
  error_type = error_type;
  message = concat ("task " ∷ t.namespace ∷ ":" ∷ t.name ∷ problem ∷ []);
}

unfoldable pub validate_create : Task → Option ValidationError
validate_create t =
    if eqb (len t.command) 0
    then some (task_error "MissingRequiredFieldError" t " is missing required field 'Spec.Command'")
    else if t.app_ref_name == ""
    then some
        (task_error "MissingRequiredFieldError" t " is missing required field 'Spec.AppRef.Name'")
    else none

abbrev cancelation_error : String → Option ValidationError
cancelation_error state =
    if not (state == "")
    then some (record {
      error_type = "CancelationNotPossibleError";
      message = concat ("Task state is " ∷ state ∷ " and therefore cannot be canceled" ∷ []);
    })
    else none

module _ (meta : ConditionsApi) where
  open meta use {is_status_condition_true}

  abbrev pub final_state : Task → String
  final_state t =
      if is_status_condition_true t.conditions succeeded_condition
      then "SUCCEEDED"
      else if is_status_condition_true t.conditions failed_condition
      then "FAILED"
      else ""

  unfoldable pub validate_update : Task → Task → Option ValidationError
  validate_update old new =
      if new.is_deleting
      then none
      else if is_negative new.sequence_id
      then some (task_error "InvalidFieldValueError" new " Status.SequenceID cannot be negative")
      else if not (int_eqb old.sequence_id (pos 0)) && not (int_eqb new.sequence_id old.sequence_id)
      then some (task_error "ImmutableFieldModificationError" new " Status.SequenceID is immutable")
      else if old.canceled || not new.canceled
      then none
      else cancelation_error (final_state new)
