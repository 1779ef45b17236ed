-- ===== src/Validation.antt =====
-- controllers/webhooks/validation: the errors with which admission webhooks refuse a request, and
-- what they ask of an object with a unique name.
use korifi.Base.{String, [], ◌∷◌, concat}

-- The error that `ExportJSONError` renders as a JSON text in a status of code 403.
pub record ValidationError : Type 0 where
  pub error_type : String
  pub message : String

-- `webhooks.UniqueClientObject`.
pub record UniqueObject : Type 0 where
  pub namespace : String
  pub name : String
  pub unique_name : String
  pub unique_validation_error_message : String

abbrev pub duplicate_error : UniqueObject → ValidationError
duplicate_error obj = record {
  error_type = "DuplicateNameError";
  message = obj.unique_validation_error_message;
}

abbrev pub unknown_error : ValidationError
unknown_error = record { error_type = "UnknownError"; message = "An unknown error has occurred" }

abbrev pub immutable_field_error : String → ValidationError
immutable_field_error field = record {
  error_type = "ImmutableFieldError";
  message = concat ("'" ∷ field ∷ "' field is immutable" ∷ []);
}
