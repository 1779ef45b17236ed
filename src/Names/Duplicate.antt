-- ===== src/Names/Duplicate.antt =====
-- controllers/webhooks/validation/duplicate_validator.go, over the `NameRegistry` interface. A
-- call returns the registry's new state and the admission error, if any. Logging is left out.
pub mod Owners
pub mod Rename
pub mod Steps
pub mod Invariant
pub mod Laws
use korifi.Base.{String, Bool, true, false, Option, none, some, ◌==◌, if◌then◌else◌}
use korifi.Kube.Errors.{ApiError, Result, ok, err, is_not_found, is_already_exists}
use korifi.Validation.{UniqueObject, ValidationError, duplicate_error, unknown_error}
use korifi.Names.Interface.{Context, NameRegistry}

-- The admission error for the outcome of a registration.
abbrev pub registration_error : UniqueObject → Option ApiError → Option ValidationError
registration_error obj none = none
registration_error obj (some e) =
    some (if is_already_exists e then duplicate_error obj else unknown_error)

abbrev pub deletion_error : Option ApiError → Option ValidationError
deletion_error none = none
deletion_error (some e) = if is_not_found e then none else some unknown_error

abbrev pub ownership_error : Result ApiError Bool → Option ValidationError
ownership_error (ok true) = none
ownership_error (ok false) = some unknown_error
ownership_error (err e) = some unknown_error

module _ (registry : NameRegistry) where
  open registry use {
    State, register_name, deregister_name, try_lock_name, unlock_name, check_name_ownership,
  }

  unfoldable pub validate_create :
      Context → String → UniqueObject → State → State × Option ValidationError
  validate_create ctx ns obj s =
      let (s', e) = register_name ctx ns obj.unique_name obj.namespace obj.name s in
      (s', registration_error obj e)

  -- The last step of a rename: a failure to free the old name is only logged.
  abbrev rename_done :
      Context
      → String
      → UniqueObject
      → UniqueObject
      → State × Option ApiError
      → State × Option ValidationError
  rename_done ctx ns old obj (s, none) = ((deregister_name ctx ns old.unique_name s).0, none)
  rename_done ctx ns old obj (s, some e) =
      ((unlock_name ctx ns old.unique_name s).0, registration_error obj (some e))

  -- What follows the attempt to lock the old name.
  abbrev rename_locked :
      Context
      → String
      → UniqueObject
      → UniqueObject
      → State × Option ApiError
      → State × Option ValidationError
  rename_locked ctx ns old obj (s, none) =
      rename_done ctx ns old obj (register_name ctx ns obj.unique_name obj.namespace obj.name s)
  rename_locked ctx ns old obj (s, some e) = (
    s,
    if is_not_found e
        then ownership_error (check_name_ownership ctx ns obj.unique_name obj.namespace obj.name s)
        else some unknown_error,
  )

  unfoldable pub validate_update :
      Context → String → UniqueObject → UniqueObject → State → State × Option ValidationError
  validate_update ctx ns old obj s =
      if old.unique_name == obj.unique_name
      then (s, none)
      else rename_locked ctx ns old obj (try_lock_name ctx ns old.unique_name s)

  unfoldable pub validate_delete :
      Context → String → UniqueObject → State → State × Option ValidationError
  validate_delete ctx ns obj s =
      let (s', e) = deregister_name ctx ns obj.unique_name s in (s', deletion_error e)
