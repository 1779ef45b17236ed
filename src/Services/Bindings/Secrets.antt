-- ===== src/Services/Bindings/Secrets.antt =====
-- The secrets of a service binding (controllers/controllers/services/bindings/managed/controller.go,
-- controllers/controllers/services/credentials/credentials.go and tools/secrets.go).
use korifi.Base.{String, List, [], ◌∷◌, Option, none, some, concat}
use korifi.Kube.Errors.{Result, ok, err}
use korifi.Kube.NotReady.{GoError, wrapping, other_error}
use korifi.Services.Bindings.World.{CfServiceBinding, Secret, BindingWorld}

abbrev pub mount_secret_type : String
mount_secret_type = "servicebinding.io/managed"

abbrev pub mount_name : CfServiceBinding → String
mount_name b = concat (b.name ∷ "-sbio" ∷ [])

module _ {Json : Type 0} (world : BindingWorld Json) where
  open world use {create_or_patch, set_controller_reference, marshal, entries, as_string}

  abbrev marshalled : Result GoError String → Result GoError (List (String × String))
  marshalled (err e) = err (other_error "failed to marshal secret value")
  marshalled (ok text) = ok (("credentials", text) ∷ [])

  unfoldable pub to_credentials_secret_data : Option Json → Result GoError (List (String × String))
  to_credentials_secret_data creds = marshalled (marshal creds)

  abbrev bytes_of : Json → Option String → Result GoError String
  bytes_of v (some text) = ok text
  bytes_of v none = marshal (some v)

  abbrev to_bytes : Json → Result GoError String
  to_bytes v = bytes_of v (as_string v)

  abbrev with_entry :
      String
      → Result GoError String
      → Result GoError (List (String × String))
      → Result GoError (List (String × String))
  with_entry k (err e) rest =
      err
        (wrapping (concat ("failed to convert value of key " ∷ world.quote k ∷ " to bytes" ∷ [])) e)
  with_entry k (ok text) (err e) = err e
  with_entry k (ok text) (ok content) = ok ((k, text) ∷ content)

  abbrev all_entries : List (String × Json) → Result GoError (List (String × String))
  all_entries [] = ok []
  all_entries (kv ∷ kvs) = let rest = all_entries kvs in with_entry kv.0 (to_bytes kv.1) rest

  unfoldable pub get_service_binding_io_secret_data :
      Option Json → Result GoError (List (String × String))
  get_service_binding_io_secret_data creds = all_entries (entries creds)

  -- The function that `CreateOrPatch` applies to a secret.
  abbrev pub filled :
      CfServiceBinding → Result GoError (List (String × String)) → Secret → Result GoError Secret
  filled b (err e) s = err e
  filled b (ok content) s = set_controller_reference b (record s { content = content })

  unfoldable pub create_env_secret : CfServiceBinding → Option Json → Result GoError Secret
  create_env_secret b creds =
      create_or_patch (record { namespace = b.namespace; name = b.name })
        (filled b (to_credentials_secret_data creds))

  unfoldable pub create_mount_secret : CfServiceBinding → Option Json → Result GoError Secret
  create_mount_secret b creds =
      create_or_patch (record { namespace = b.namespace; name = mount_name b })
        (λ s.
          filled b (get_service_binding_io_secret_data creds)
            (record s { secret_type = mount_secret_type }))
