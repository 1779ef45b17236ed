-- ===== src/Services/Bindings/UserProvided/Mounted.antt =====
-- The secret to mount of a binding to a user-provided instance
-- (controllers/controllers/services/bindings/upsi/controller.go).
use korifi.Base.{[], ◌∷◌, ◌≡◌, true, false, none, some, ◌⊎◌, ◌↔◌, ◌≢◌}
use korifi.Kube.Errors.{Result, ok, err}
use korifi.Kube.NotReady.{GoError}
use korifi.Services.Instances.World.{CfServiceInstance}
use korifi.Services.Bindings.World.{
  CfServiceBinding, Secret, BindingWorld, stored, deleted, BindingAttempt,
}
use korifi.Services.Bindings.UserProvided.{create_mount_secret}

module _ {Json : Type 0} (world : BindingWorld Json) where
  -- The secret to mount that is made for the binding with the credentials of the instance.
  abbrev pub attempted : CfServiceInstance → CfServiceBinding → Result GoError Secret
  attempted i b = create_mount_secret world i (record b { env_secret_name = i.credentials_name })

  -- The end of a reconciliation `a` of `b` with the instance `i`, when the secret was attempted.
  unfoldable pub MountsWith : CfServiceInstance → CfServiceBinding → BindingAttempt Json → Type 0
  MountsWith i b a =
      ((s : Secret) × (attempted i b ≡ ok s)
        × (a.events ≡ stored s ∷ [])
        × (a.object.mount_secret_name ≡ s.name)
        × (a.failure ≡ none))
      ⊎ ((e : GoError) × (attempted i b ≡ err e)
          × (world.is_invalid e ≡ true)
          × (a.events ≡ deleted (record { namespace = b.namespace; name = b.name }) ∷ [])
          × (a.object.mount_secret_name ≡ b.mount_secret_name)
          × ((a.failure ≡ none)
              ↔ (world.delete_secret (record { namespace = b.namespace; name = b.name }) ≡ none)))
      ⊎ ((e : GoError) × (attempted i b ≡ err e)
          × (world.is_invalid e ≡ false)
          × (a.events ≡ [])
          × (a.failure ≡ some e))

  -- The instance is there and has credentials, and the secret is attempted; or there is an error,
  -- and no secret is stored or deleted.
  unfoldable pub Mounts : CfServiceBinding → BindingAttempt Json → Type 0
  unfolding MountsWith
  Mounts b a =
      ((i : CfServiceInstance) × (world.get_instance
            (record { namespace = b.namespace; name = b.service_name })
          ≡ ok i)
        × (i.credentials_name ≢ "")
        × MountsWith i b a)
      ⊎ ((a.events ≡ []) × ((e : GoError) × (a.failure ≡ some e)))
