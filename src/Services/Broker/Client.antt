-- ===== src/Services/Broker/Client.antt =====
-- controllers/controllers/services/osbapi/client.go: the client of a service broker. The HTTP
-- exchange of `sendRequest` and the decoding of JSON are parameters (`Transport`).
use korifi.Base.{
  ℕ, String, List, [], ◌∷◌, Bool, true, false, Option, none, some, ◌||◌, eqb, leb, not, concat,
  if◌then◌else◌,
}
use korifi.Kube.Errors.{Result, ok, err}
use korifi.Services.Broker.{
  ProvisionRequest, ProvisionPayload, ProvisionResponse, DeprovisionPayload,
  InstanceLastOperationRequest, BindingLastOperationRequest, LastOperationResponse, BindRequest,
  BindPayload, BindResponse, UnbindPayload, UnbindResponse, BrokerError, gone_error,
  unrecoverable_error, request_error, BrokerClient,
}

-- What a request carries: `payload` is `none` for nil, and `accepts_incomplete` is that of `async`.
pub data Payload (Json : Type 0) : Type 0 where
  provisioning : ProvisionRequest Json → Payload Json
  binding : BindRequest Json → Payload Json

pub record BrokerRequest (Json : Type 0) : Type 0 where
  pub path : String
  pub method : String
  pub query : List (String × String)
  pub payload : Option (Payload Json)
  pub accepts_incomplete : Bool

-- `sendRequest` answers a status and a body, or an error by its text. `json.Unmarshal` overwrites
-- the fields of a given value that the body names.
pub record Transport (Json Body : Type 0) : Type 0 where
  pub send_request : BrokerRequest Json → Result String (ℕ × Body)
  pub unmarshal_provision : Body → ProvisionResponse → Result String ProvisionResponse
  pub unmarshal_bind : Body → BindResponse Json → Result String (BindResponse Json)
  pub unmarshal_unbind : Body → UnbindResponse → Result String UnbindResponse
  pub unmarshal_last_operation : Body → Result String LastOperationResponse
  pub print : ℕ → String

abbrev instance_path : String → String
instance_path id = concat ("/v2/service_instances/" ∷ id ∷ [])

abbrev binding_path : String → String → String
binding_path id binding_id =
    concat ("/v2/service_instances/" ∷ id ∷ "/service_bindings/" ∷ binding_id ∷ [])

abbrev catalog_query : String → String → List (String × String)
catalog_query service_id plan_id = ("service_id", service_id) ∷ ("plan_id", plan_id) ∷ []

-- `json.Unmarshal` of the body, with its error wrapped.
abbrev decoded {ℓ} : {A : Type ℓ} → Result String A → Result BrokerError A
decoded (ok response) = ok response
decoded (err text) = err (request_error (concat ("failed to unmarshal response: " ∷ text ∷ [])))

module _ {Json Body : Type 0} (transport : Transport Json Body) where
  open transport use {
    send_request, unmarshal_provision, unmarshal_bind, unmarshal_unbind, unmarshal_last_operation,
    print,
  }

  abbrev failure : String → String → BrokerError
  failure context text = request_error (concat (context ∷ text ∷ []))

  abbrev provision_answer : Result String (ℕ × Body) → Result BrokerError ProvisionResponse
  provision_answer (err text) = err (failure "provision request failed: " text)
  provision_answer (ok (status, body)) =
      if eqb status 400 || (eqb status 409 || eqb status 422)
      then err (unrecoverable_error status)
      else if leb 300 status
      then err (failure "provision request failed with status code: " (print status))
      else decoded (unmarshal_provision body (record { is_async = eqb status 202; operation = "" }))

  unfoldable pub provision : ProvisionPayload Json → Result BrokerError ProvisionResponse
  provision p = provision_answer (
      send_request (record {
        path = instance_path p.instance_id;
        method = "PUT";
        query = [];
        payload = some (provisioning p.request);
        accepts_incomplete = true;
      }))

  abbrev deprovision_answer : Result String (ℕ × Body) → Result BrokerError ProvisionResponse
  deprovision_answer (err text) = err (failure "deprovision request failed: " text)
  deprovision_answer (ok (status, body)) =
      if eqb status 410
      then err gone_error
      else if eqb status 400 || eqb status 422
      then err (unrecoverable_error status)
      else if leb 300 status
      then err (failure "deprovision request failed with status code: " (print status))
      else decoded (unmarshal_provision body (record { is_async = eqb status 202; operation = "" }))

  unfoldable pub deprovision : DeprovisionPayload → Result BrokerError ProvisionResponse
  deprovision p = deprovision_answer (
      send_request (record {
        path = instance_path p.instance_id;
        method = "DELETE";
        query = catalog_query p.service_id p.plan_id;
        payload = none;
        accepts_incomplete = true;
      }))

  abbrev last_operation_answer :
      String → Result String (ℕ × Body) → Result BrokerError LastOperationResponse
  last_operation_answer what (err text) =
      err (failure (concat (what ∷ " last operation request failed: " ∷ [])) text)
  last_operation_answer what (ok (status, body)) =
      if eqb status 410
      then err gone_error
      else if not (eqb status 200)
      then err (
          failure (concat (what ∷ " last operation request failed with code: " ∷ []))
            (print status))
      else decoded (unmarshal_last_operation body)

  abbrev last_operation_query : String → String → String → List (String × String)
  last_operation_query service_id plan_id operation =
      ("service_id", service_id) ∷ ("plan_id", plan_id) ∷ ("operation", operation) ∷ []

  unfoldable pub get_service_instance_last_operation :
      InstanceLastOperationRequest → Result BrokerError LastOperationResponse
  get_service_instance_last_operation r = last_operation_answer "getting service instance" (
      send_request (record {
        path = concat (instance_path r.instance_id ∷ "/last_operation" ∷ []);
        method = "GET";
        query = last_operation_query r.service_id r.plan_id r.operation;
        payload = none;
        accepts_incomplete = false;
      }))

  abbrev bind_answer : Result String (ℕ × Body) → Result BrokerError (BindResponse Json)
  bind_answer (err text) = err (failure "bind request failed: " text)
  bind_answer (ok (status, body)) =
      if eqb status 400 || (eqb status 409 || eqb status 422)
      then err (unrecoverable_error status)
      else if leb 300 status
      then err (failure "binding request failed with code: " (print status))
      else decoded (
          unmarshal_bind body
            (record { credentials = none; operation = ""; is_async = eqb status 202 }))

  unfoldable pub bind : BindPayload Json → Result BrokerError (BindResponse Json)
  bind p = bind_answer (
      send_request (record {
        path = binding_path p.instance_id p.binding_id;
        method = "PUT";
        query = [];
        payload = some (binding p.request);
        accepts_incomplete = true;
      }))

  abbrev unbind_answer : Result String (ℕ × Body) → Result BrokerError UnbindResponse
  unbind_answer (err text) = err (failure "unbind request failed: " text)
  unbind_answer (ok (status, body)) =
      if eqb status 410
      then err gone_error
      else if eqb status 400 || eqb status 422
      then err (unrecoverable_error status)
      else if leb 300 status
      then err (failure "unbind request failed with status code: " (print status))
      else decoded (unmarshal_unbind body (record { is_async = eqb status 202; operation = "" }))

  unfoldable pub unbind : UnbindPayload → Result BrokerError UnbindResponse
  unbind p = unbind_answer (
      send_request (record {
        path = binding_path p.instance_id p.binding_id;
        method = "DELETE";
        query = catalog_query p.service_id p.plan_id;
        payload = none;
        accepts_incomplete = true;
      }))

  unfoldable pub get_service_binding_last_operation :
      BindingLastOperationRequest → Result BrokerError LastOperationResponse
  get_service_binding_last_operation r = last_operation_answer "getting service binding" (
      send_request (record {
        path = concat (binding_path r.instance_id r.binding_id ∷ "/last_operation" ∷ []);
        method = "GET";
        query = last_operation_query r.service_id r.plan_id r.operation;
        payload = none;
        accepts_incomplete = false;
      }))

  -- The client, as the controllers see it.
  abbrev pub new_client : BrokerClient Json
  new_client = record {
    provision = provision;
    deprovision = deprovision;
    get_service_instance_last_operation = get_service_instance_last_operation;
    bind = bind;
    unbind = unbind;
    get_service_binding_last_operation = get_service_binding_last_operation;
  }
