-- ===== src/Services/UserProvided.antt =====
-- controllers/controllers/services/instances/upsi/controller.go: the reconciler of user-provided
-- service instances, with the fields that it reads or writes.
pub mod Settled
use korifi.Base.{
  ℕ, String, List, [], ◌∷◌, Bool, true, false, not, ◌&&◌, Option, none, some, ◌==◌, concat, eqb,
  if◌then◌else◌,
}
use korifi.Base.Int.{ℤ, pos}
use korifi.Kube.Errors.{ApiError, Result, ok, err, is_not_found}
use korifi.Kube.NotReady.{
  GoError, NotReadyError, not_ready_because, other_error, wrapping, new_not_ready_error,
  with_reason, with_no_requeue, with_requeue_after,
}
use korifi.Services.Assets.{from_api_error}
use korifi.Services.Instances.World.{LastOperation, FinalizersApi, NamespacedName}
use korifi.Services.Instances.Release.{instance_finalizer}

pub record UserProvided : Type 0 where
  pub name : String
  pub namespace : String
  pub generation : ℕ
  pub deletion_timestamp : ℕ  -- 0 for the zero time
  pub finalizers : List String
  pub secret_name : String
  pub observed_generation : ℕ
  pub credentials : String
  pub credentials_observed_version : String
  pub last_operation : LastOperation

pub record CredentialsSecret : Type 0 where
  pub name : String
  pub resource_version : String
  pub credentials : Option String

-- `unmarshal` is the error of decoding the credentials, and `ensure_no_service_bindings` that of
-- instances/finalize.go for the instance.
pub record UserWorld : Type 0 where
  pub get_secret : NamespacedName → Result ApiError CredentialsSecret
  pub unmarshal : Option String → Option GoError
  pub ensure_no_service_bindings : NamespacedName → Option GoError
  pub quote : String → String  -- the verb `%q`

abbrev pub operation : String → String → LastOperation
operation operation_type state = record {
  operation_type = operation_type;
  state = state;
  description = "";
}

abbrev pub reconcile_last_operation : UserProvided → CredentialsSecret → LastOperation
reconcile_last_operation i secret =
    if i.credentials_observed_version == ""
    then operation "create" "succeeded"
    else if not (i.credentials_observed_version == secret.resource_version)
        && not (i.credentials_observed_version == "")
    then operation "update" "succeeded"
    else i.last_operation

abbrev secret_unavailable : ApiError → NotReadyError
secret_unavailable e =
    let why = with_reason "CredentialsSecretNotAvailable" new_not_ready_error in
    if is_not_found e then with_requeue_after (pos 2000000000) why else why

module _ (world : UserWorld) (finalizers : FinalizersApi) where
  abbrev pub key_of : UserProvided → NamespacedName
  key_of i = record { namespace = i.namespace; name = i.secret_name }

  abbrev validate_credentials : CredentialsSecret → Option GoError
  validate_credentials secret = world.unmarshal secret.credentials

  abbrev pub validated :
      UserProvided → CredentialsSecret → Option GoError → UserProvided × Option GoError
  validated i secret (some e) = (
    record i { last_operation = operation "create" "failed" },
    some (
        not_ready_because (with_no_requeue (with_reason "SecretInvalid" new_not_ready_error))
          (wrapping (concat ("invalid credentials secret " ∷ world.quote secret.name ∷ [])) e)),
  )
  validated i secret none = (
    record i {
      credentials = secret.name;
      last_operation = reconcile_last_operation i secret;
      credentials_observed_version = secret.resource_version;
    },
    none,
  )

  abbrev pub with_secret :
      UserProvided → Result ApiError CredentialsSecret → UserProvided × Option GoError
  with_secret i (err e) = (i, some (not_ready_because (secret_unavailable e) (from_api_error e)))
  with_secret i (ok secret) = validated i secret (validate_credentials secret)

  abbrev unbound : UserProvided → Option GoError → UserProvided × Option GoError
  unbound i (some e) = (i, some e)
  unbound i none =
      (record i { finalizers = finalizers.remove_finalizer i.finalizers instance_finalizer }, none)

  unfoldable pub finalize_cf_service_instance : UserProvided → UserProvided × Option GoError
  finalize_cf_service_instance i =
      if finalizers.contains_finalizer i.finalizers instance_finalizer
      then unbound i
          (world.ensure_no_service_bindings (record { namespace = i.namespace; name = i.name }))
      else (i, none)

  -- The instance and the error; the result is always the empty one.
  unfoldable pub reconcile_resource : UserProvided → UserProvided × Option GoError
  reconcile_resource i =
      let observed = record i { observed_generation = i.generation } in
      if eqb i.deletion_timestamp 0
      then with_secret observed (world.get_secret (key_of observed))
      else finalize_cf_service_instance observed
