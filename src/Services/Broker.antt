-- ===== src/Services/Broker.antt =====
-- controllers/controllers/services/osbapi: the requests to a service broker, its answers and its
-- errors (types.go and the head of client.go), and the interface of its clients. `Json` stands for
-- `map[string]any`; nil is `none`.
pub mod Client
use korifi.Base.{
  ℕ, String, [], ◌∷◌, Bool, true, false, Option, none, some, ◌==◌, ◌||◌, concat, if◌then◌else◌,
}
use korifi.Kube.Errors.{Result, ok, err}
use korifi.Kube.NotReady.{GoError, other_error}

pub record Broker : Type 0 where
  pub url : String
  pub username : String
  pub password : String

pub record ProvisionRequest (Json : Type 0) : Type 0 where
  pub service_id : String
  pub plan_id : String
  pub space_guid : String
  pub org_guid : String
  pub parameters : Option Json

pub record ProvisionPayload (Json : Type 0) : Type 0 where
  pub instance_id : String
  pub request : ProvisionRequest Json

pub record ProvisionResponse : Type 0 where
  pub is_async : Bool
  pub operation : String

pub record DeprovisionPayload : Type 0 where
  pub instance_id : String
  pub service_id : String
  pub plan_id : String

pub record InstanceLastOperationRequest : Type 0 where
  pub instance_id : String
  pub service_id : String
  pub plan_id : String
  pub operation : String

pub record BindingLastOperationRequest : Type 0 where
  pub instance_id : String
  pub binding_id : String
  pub service_id : String
  pub plan_id : String
  pub operation : String

pub record LastOperationResponse : Type 0 where
  pub state : String
  pub description : String

pub record BindRequest (Json : Type 0) : Type 0 where
  pub service_id : String
  pub plan_id : String
  pub app_guid : String
  pub bind_resource : String
  pub parameters : Option Json

pub record BindPayload (Json : Type 0) : Type 0 where
  pub binding_id : String
  pub instance_id : String
  pub request : BindRequest Json

pub record BindResponse (Json : Type 0) : Type 0 where
  pub credentials : Option Json
  pub operation : String
  pub is_async : Bool

pub record UnbindPayload : Type 0 where
  pub binding_id : String
  pub instance_id : String
  pub service_id : String
  pub plan_id : String

pub record UnbindResponse : Type 0 where
  pub is_async : Bool
  pub operation : String

-- `LastOperationResponseState.Value`
abbrev pub value : String → String
value state = if (state == "succeeded") || (state == "failed") then state else "in progress"

-- The errors of a client: `GoneError`, `UnrecoverableError` with its status, and any other one.
pub data BrokerError : Type 0 where
  gone_error : BrokerError
  unrecoverable_error : ℕ → BrokerError
  request_error : String → BrokerError

-- `IgnoreGone`
abbrev pub ignore_gone : BrokerError → Option BrokerError
ignore_gone gone_error = none
ignore_gone (unrecoverable_error status) = some (unrecoverable_error status)
ignore_gone (request_error text) = some (request_error text)

-- `IsUnrecoveralbeError`, of an error that is not nil.
abbrev pub is_unrecoverable_error : BrokerError → Bool
is_unrecoverable_error gone_error = false
is_unrecoverable_error (unrecoverable_error status) = true
is_unrecoverable_error (request_error text) = false

-- The error's text; `print` is the verb `%d`.
abbrev pub broker_error_text : (ℕ → String) → BrokerError → String
broker_error_text print gone_error = "The operation resource is gone"
broker_error_text print (unrecoverable_error status) =
    concat ("The server responded with status: " ∷ print status ∷ [])
broker_error_text print (request_error text) = text

abbrev pub to_go_error : (ℕ → String) → BrokerError → GoError
to_go_error print e = other_error (broker_error_text print e)

-- The interface `BrokerClient`, as far as the controllers use it.
pub record BrokerClient (Json : Type 0) : Type 0 where
  pub provision : ProvisionPayload Json → Result BrokerError ProvisionResponse
  pub deprovision : DeprovisionPayload → Result BrokerError ProvisionResponse
  pub get_service_instance_last_operation :
      InstanceLastOperationRequest → Result BrokerError LastOperationResponse
  pub bind : BindPayload Json → Result BrokerError (BindResponse Json)
  pub unbind : UnbindPayload → Result BrokerError UnbindResponse
  pub get_service_binding_last_operation :
      BindingLastOperationRequest → Result BrokerError LastOperationResponse
