-- ===== src/Names/Registry.antt =====
-- controllers/coordination/name_registry.go: the registry of names, over leases. `sha1_hex` is
-- the hexadecimal SHA-1 digest of a text.
pub mod Claims
use korifi.Base.{
  String, ◌≡◌, List, [], ◌∷◌, Bool, true, false, ◌&&◌, Option, none, some, ◌==◌, concat, value_at,
  if◌then◌else◌,
}
use korifi.Kube.Errors.{ApiError, Result, ok, err, wrap_option, ignore_not_found}
use korifi.Names.Interface.{
  Context, is_dry_run, Owner, Claim, unlocked_identity, locked_identity, owner_of, NameRegistry,
}
use korifi.Names.Lease.{Lease, LeaseApi, swap_holder}

abbrev pub owner_namespace_annotation : String
owner_namespace_annotation = "coordination.cloudfoundry.org/owner-namespace"

abbrev pub owner_name_annotation : String
owner_name_annotation = "coordination.cloudfoundry.org/owner-name"

abbrev lease_annotations : String → String → String → String → String → List (String × String)
lease_annotations entity ns name owner_ns owner =
    ("coordination.cloudfoundry.org/entity-type", entity)
    ∷ ("coordination.cloudfoundry.org/namespace", ns)
    ∷ ("coordination.cloudfoundry.org/name", name)
    ∷ (owner_namespace_annotation, owner_ns)
    ∷ (owner_name_annotation, owner)
    ∷ []

module _ (sha1_hex : String → String) (entity_type : String) where
  unfoldable pub hash_name : String → String
  hash_name name = concat ("n-" ∷ sha1_hex (concat (entity_type ∷ "::" ∷ name ∷ [])) ∷ [])

  pub name_lease : String → String → String → String → Lease
  name_lease ns name owner_ns owner = record {
    name = hash_name name;
    namespace = ns;
    annotations = lease_annotations entity_type ns name owner_ns owner;
    holder_identity = unlocked_identity;
  }

is_owned_by : Lease → String → String → Bool
is_owned_by l owner_ns owner =
    value_at owner_namespace_annotation l.annotations == owner_ns
    && value_at owner_name_annotation l.annotations == owner

owned_result : Result ApiError Lease → String → String → Result ApiError Bool
unfolding is_owned_by
owned_result (ok l) owner_ns owner = ok (is_owned_by l owner_ns owner)
owned_result (err e) owner_ns owner = err e

module _ (sha1_hex : String → String) (entity_type : String) (api : LeaseApi) where
  open api use {Cluster, lease_at, create, delete, patch, get}

  unfoldable pub register_name :
      Context → String → String → String → String → Cluster → Cluster × Option ApiError
  unfolding name_lease
  register_name ctx ns name owner_ns owner c =
      let (c', e) = create (name_lease sha1_hex entity_type ns name owner_ns owner) c in
      if is_dry_run ctx then (c, none) else (c', wrap_option "creating a lease failed" e)

  unfoldable pub deregister_name : Context → String → String → Cluster → Cluster × Option ApiError
  deregister_name ctx ns name c =
      let (c', e) = delete ns (hash_name sha1_hex entity_type name) c in
      if is_dry_run ctx
      then (c, none)
      else (c', wrap_option "deleting a lease failed" (ignore_not_found e))

  unfoldable pub try_lock_name : Context → String → String → Cluster → Cluster × Option ApiError
  try_lock_name ctx ns name c =
      let swap = swap_holder unlocked_identity locked_identity in
      let (c', e) = patch ns (hash_name sha1_hex entity_type name) swap c in
      if is_dry_run ctx then (c, none) else (c', wrap_option "failed to acquire lock on lease" e)

  unfoldable pub unlock_name : Context → String → String → Cluster → Cluster × Option ApiError
  unlock_name ctx ns name c =
      let swap = swap_holder locked_identity unlocked_identity in
      let (c', e) = patch ns (hash_name sha1_hex entity_type name) swap c in
      if is_dry_run ctx then (c, none) else (c', wrap_option "failed to release lock on lease" e)

  unfoldable pub check_name_ownership :
      Context → String → String → String → String → Cluster → Result ApiError Bool
  unfolding owned_result
  check_name_ownership ctx ns name owner_ns owner c =
      owned_result (get ns (hash_name sha1_hex entity_type name) c) owner_ns owner
