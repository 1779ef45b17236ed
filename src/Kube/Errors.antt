-- ===== src/Kube/Errors.antt =====
-- Errors of the Kubernetes API, as far as the program tells them apart (k8s.io/apimachinery's
-- `IsNotFound` and `IsAlreadyExists`), and the results of fallible Go functions.
use korifi.Base.{String, [], ◌∷◌, Bool, true, false, Option, none, some, concat}

pub data Reason : Type 0 where
  not_found already_exists : Reason
  other_reason : String → Reason

pub record ApiError : Type 0 where
  pub reason : Reason
  pub message : String

abbrev is_not_found_reason : Reason → Bool
is_not_found_reason Reason.not_found = true
is_not_found_reason _ = false

abbrev is_already_exists_reason : Reason → Bool
is_already_exists_reason Reason.already_exists = true
is_already_exists_reason _ = false

abbrev pub is_not_found : ApiError → Bool
is_not_found e = is_not_found_reason e.reason

abbrev pub is_already_exists : ApiError → Bool
is_already_exists e = is_already_exists_reason e.reason

-- `fmt.Errorf("...: %w", err)`: the cause stays visible to the tests above.
abbrev pub wrap : String → ApiError → ApiError
wrap context e = record e { message = concat (context ∷ ": " ∷ e.message ∷ []) }

abbrev pub wrap_option : String → Option ApiError → Option ApiError
wrap_option context none = none
wrap_option context (some e) = some (wrap context e)

-- `client.IgnoreNotFound`
abbrev ignore_by : Bool → ApiError → Option ApiError
ignore_by true e = none
ignore_by false e = some e

abbrev pub ignore_not_found : Option ApiError → Option ApiError
ignore_not_found none = none
ignore_not_found (some e) = ignore_by (is_not_found e) e

-- A Go function's value and error.
pub data Result {ℓ} (E : Type 0) (A : Type ℓ) : Type ℓ where
  ok : A → Result E A
  err : E → Result E A
