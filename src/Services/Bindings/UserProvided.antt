-- ===== src/Services/Bindings/UserProvided.antt =====
-- controllers/controllers/services/bindings/upsi/controller.go: the reconciler of bindings to
-- user-provided service instances, to which that of controllers/controllers/services/bindings
-- delegates, with the functions of credentials/credentials.go that it calls.
pub mod Mounted
use korifi.Base.{
  ℕ, String, List, [], ◌∷◌, ◌++◌, Bool, true, false, not, Option, none, some, ◌==◌, concat, eqb,
  is_some, lookup, insert, if◌then◌else◌,
}
use korifi.Base.Int.{pos}
use korifi.Kube.Errors.{ApiError, Result, ok, err}
use korifi.Kube.Conditions.{ConditionsApi}
use korifi.Kube.NotReady.{
  GoError, not_ready, wrapping, other_error, new_not_ready_error, with_reason, with_message,
  with_requeue_after,
}
use korifi.Services.Assets.{from_api_error}
use korifi.Services.Instances.World.{CfServiceInstance, FinalizersApi, NamespacedName}
use korifi.Services.Bindings.World.{
  CfServiceBinding, Secret, BindingWorld, BindingEvent, stored, deleted, BindingAttempt, fails,
  succeeds,
}
use korifi.Services.Bindings.Secrets.{get_service_binding_io_secret_data}
use korifi.Services.Bindings.Unbind.{binding_finalizer}
use korifi.Services.Bindings.Reconciler

module _ {Json : Type 0} (world : BindingWorld Json) where
  open world use {
    get_instance, get_secret, create_or_patch, set_controller_reference, delete_secret, is_invalid,
    unmarshal_credentials, entries, as_string,
  }

  abbrev unmarshalled : Result GoError (Option Json) → Result GoError (Option Json)
  unmarshalled (ok creds) = ok creds
  unmarshalled (err e) = err (wrapping "failed to unmarshal secret data" e)

  abbrev credentials_text : String → Option String → Result GoError (Option Json)
  credentials_text name none = err (
      other_error (
        concat (
          "data of secret "
          ∷ world.quote name
          ∷ " does not contain the "
          ∷ world.quote "credentials"
          ∷ " key"
          ∷ [])))
  credentials_text name (some text) = unmarshalled (unmarshal_credentials text)

  unfoldable pub get_credentials : String → List (String × String) → Result GoError (Option Json)
  get_credentials name content = credentials_text name (lookup "credentials" content)

  abbrev typed_by : Option String → String
  typed_by (some type_name) = concat ("servicebinding.io/" ∷ type_name ∷ [])
  typed_by none = "servicebinding.io/user-provided"

  abbrev as_text : Option Json → Option String
  as_text none = none
  as_text (some v) = as_string v

  abbrev pub get_binding_secret_type : Result GoError (Option Json) → Result GoError String
  get_binding_secret_type (err e) = err e
  get_binding_secret_type (ok creds) = ok (typed_by (as_text (lookup "type" (entries creds))))

  abbrev with_type :
      Result GoError (List (String × String)) → Result GoError (List (String × String))
  with_type (err e) = err e
  with_type (ok content) =
      ok
        (if is_some (lookup "type" content) then content else insert "type" "user-provided" content)

  abbrev pub get_user_provided_io_secret_data :
      Result GoError (Option Json) → Result GoError (List (String × String))
  get_user_provided_io_secret_data (err e) = err e
  get_user_provided_io_secret_data (ok creds) =
      with_type (get_service_binding_io_secret_data world creds)

  abbrev filled_with :
      CfServiceBinding
      → Secret
      → Result GoError String
      → Result GoError (List (String × String))
      → Result GoError Secret
  filled_with b s (err e) content = err e
  filled_with b s (ok type_name) (err e) = err e
  filled_with b s (ok type_name) (ok content) =
      set_controller_reference b (record s { secret_type = type_name; content = content })

  abbrev made : Result GoError Secret → Result GoError Secret
  made (ok s) = ok s
  made (err e) = err (wrapping "failed to create binding secret" e)

  abbrev from_credentials :
      CfServiceInstance
      → CfServiceBinding
      → Result ApiError (List (String × String))
      → Result GoError Secret
  from_credentials i b (err e) = err (
      wrapping
        (concat (
          "failed to get service instance credentials secret "
          ∷ world.quote i.credentials_name
          ∷ []))
        (from_api_error e))
  from_credentials i b (ok content) =
      let creds = get_credentials i.credentials_name content in
      made (
        create_or_patch (record { namespace = b.namespace; name = b.name })
          (λ s.
            filled_with b s (get_binding_secret_type creds)
              (get_user_provided_io_secret_data creds)))

  unfoldable pub create_mount_secret : CfServiceInstance → CfServiceBinding → Result GoError Secret
  unfolding get_credentials
  create_mount_secret i b =
      from_credentials i b
        (get_secret (record { namespace = i.namespace; name = i.credentials_name }))

  -- `errors.Wrap` of an error, or of nil.
  abbrev pub outdated : CfServiceBinding → NamespacedName → Option ApiError → BindingAttempt Json
  outdated b key none = succeeds b (deleted key ∷ [])
  outdated b key (some e) =
      fails b (deleted key ∷ [])
        (wrapping "failed to delete outdated binding secret" (from_api_error e))

  abbrev pub mounted : CfServiceBinding → Result GoError Secret → BindingAttempt Json
  mounted b (ok s) = succeeds (record b { mount_secret_name = s.name }) (stored s ∷ [])
  mounted b (err e) =
      let key : NamespacedName = record { namespace = b.namespace; name = b.name } in
      if is_invalid e then outdated b key (delete_secret key) else fails b [] e

  abbrev pub with_instance :
      CfServiceBinding → Result ApiError CfServiceInstance → BindingAttempt Json
  with_instance b (err e) = fails b [] (from_api_error e)
  with_instance b (ok i) =
      if i.credentials_name == ""
      then fails b [] (
          not_ready (
            with_requeue_after (pos 1000000000) (
              with_message "Service instance credentials not available yet"
                (with_reason "CredentialsSecretNotAvailable" new_not_ready_error))))
      else (let b' = record b { env_secret_name = i.credentials_name } in
          mounted b' (create_mount_secret i b'))

  module _ (finalizers : FinalizersApi) where
    unfoldable pub reconcile_user_provided : CfServiceBinding → BindingAttempt Json
    unfolding create_mount_secret
    reconcile_user_provided b =
        if eqb b.deletion_timestamp 0
        then with_instance b
            (get_instance (record { namespace = b.namespace; name = b.service_name }))
        else succeeds
            (record b { finalizers = finalizers.remove_finalizer b.finalizers binding_finalizer })
            []

    -- The reconciler of all bindings, with this delegate.
    unfoldable pub reconcile_binding : ConditionsApi → ℕ → CfServiceBinding → BindingAttempt Json
    unfolding reconcile_user_provided Reconciler.reconcile_resource
    reconcile_binding meta now b =
        Reconciler.reconcile_resource meta world now finalizers reconcile_user_provided b
