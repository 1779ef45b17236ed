-- ===== src/Names/Registry/Claims.antt =====
-- The registry over leases keeps the promises of the `NameRegistry` interface.
use korifi.Base.{
  String, ◌≡◌, refl, true, false, ◌&&◌, Option, none, some, ◌==◌, eq_iff, value_at, lookup,
  if◌then◌else◌, arith, Option-cases, inl, inr, ap,
}
use korifi.Kube.Errors.{ApiError, Result, ok, err}
use korifi.Names.Interface.{
  Context, is_dry_run, Claim, unlocked_identity, locked_identity, owner_of, NameRegistry,
}
use korifi.Names.Lease.{Lease, LeaseApi, swap_holder}
use korifi.Names.Registry.{
  owner_namespace_annotation, owner_name_annotation, hash_name, name_lease, is_owned_by,
  owned_result, register_name, deregister_name, try_lock_name, unlock_name, check_name_ownership,
}

abbrev pub lease_claim : Lease → Claim
lease_claim l = record {
  owner = record {
    owner_namespace = value_at owner_namespace_annotation l.annotations;
    owner_name = value_at owner_name_annotation l.annotations;
  };
  holder = l.holder_identity;
}

abbrev pub claim_of : Option Lease → Option Claim
claim_of none = none
claim_of (some l) = some (lease_claim l)

module _ (sha1_hex : String → String) (entity_type : String) (api : LeaseApi) where
  open api use {Cluster, lease_at, create, delete, patch, get}

  abbrev pub claim : Cluster → String → String → Option Claim
  claim c ns k = claim_of (lease_at c ns k)

  abbrev pub key : String → String
  key = hash_name sha1_hex entity_type

  pub register_ok :
      (ctx : Context) (ns name owner_ns owner : String) (c : Cluster)
      → is_dry_run ctx ≡ false
      → (register_name sha1_hex entity_type api ctx ns name owner_ns owner c).1 ≡ none
      → (claim c ns (key name) ≡ none)
        × ((ns' k : String)
            → claim (register_name sha1_hex entity_type api ctx ns name owner_ns owner c).0 ns' k
              ≡ (if ns == ns' && key name == k
                  then some (record {
                    owner = record { owner_namespace = owner_ns; owner_name = owner };
                    holder = unlocked_identity;
                  })
                  else claim c ns' k))
  unfolding register_name name_lease value_at lookup
  register_ok ctx ns name owner_ns owner c live done =
      let l = name_lease sha1_hex entity_type ns name owner_ns owner in
      let made : (create l c).1 ≡ none = ground arith in
      let (free, after) = api.create_ok l c made in
      (ap claim_of free, λ ns' k. ground (arith, after ns' k))

  pub register_err :
      (ctx : Context) (ns name owner_ns owner : String) (c : Cluster) (e : ApiError)
      → (register_name sha1_hex entity_type api ctx ns name owner_ns owner c).1 ≡ some e
      → (ns' k : String)
      → claim (register_name sha1_hex entity_type api ctx ns name owner_ns owner c).0 ns' k
        ≡ claim c ns' k
  unfolding register_name
  register_err ctx ns name owner_ns owner c e failed ns' k =
      let l = name_lease sha1_hex entity_type ns name owner_ns owner in
      elim (Option-cases (create l c).1) [
        | inl made ↦ ground (arith)
        | inr (e', failed') ↦ ground (arith, api.create_err l c e' failed' ns' k)
      ]

  pub deregister_ok :
      (ctx : Context) (ns name : String) (c : Cluster)
      → is_dry_run ctx ≡ false
      → (deregister_name sha1_hex entity_type api ctx ns name c).1 ≡ none
      → (ns' k : String)
      → claim (deregister_name sha1_hex entity_type api ctx ns name c).0 ns' k
        ≡ (if ns == ns' && key name == k then none else claim c ns' k)
  unfolding deregister_name
  deregister_ok ctx ns name c live done ns' k = elim (Option-cases (delete ns (key name) c).1) [
    | inl gone ↦ ground (arith, api.delete_ok ns (key name) c gone ns' k)
    | inr (e, failed) ↦ ground (
      arith,
      api.delete_err ns (key name) c e failed ns' k,
      api.delete_not_found ns (key name) c e failed,
      eq_iff ns ns',
      eq_iff (key name) k,
    )
  ]

  pub deregister_err :
      (ctx : Context) (ns name : String) (c : Cluster) (e : ApiError)
      → (deregister_name sha1_hex entity_type api ctx ns name c).1 ≡ some e
      → (ns' k : String)
      → claim (deregister_name sha1_hex entity_type api ctx ns name c).0 ns' k ≡ claim c ns' k
  unfolding deregister_name
  deregister_err ctx ns name c e failed ns' k = elim (Option-cases (delete ns (key name) c).1) [
    | inl gone ↦ ground arith
    | inr (e', failed') ↦ ground (arith, api.delete_err ns (key name) c e' failed' ns' k)
  ]

  -- Both locking and unlocking are a patch that swaps the holder.
  swap_ok :
      (ns n from to : String) (c : Cluster)
      → (patch ns n (swap_holder from to) c).1 ≡ none
      → (m : Claim) × (claim c ns n ≡ some m)
        × (m.holder ≡ from)
        × ((ns' k : String)
            → claim (patch ns n (swap_holder from to) c).0 ns' k
              ≡ (if ns == ns' && n == k then some (record m { holder = to }) else claim c ns' k))
  swap_ok ns n from to c done =
      let (l, found, held, after) = api.patch_ok ns n from to c done in
      (lease_claim l, ap claim_of found, held, λ ns' k. ground (arith, after ns' k))

  pub try_lock_ok :
      (ctx : Context) (ns name : String) (c : Cluster)
      → is_dry_run ctx ≡ false
      → (try_lock_name sha1_hex entity_type api ctx ns name c).1 ≡ none
      → (m : Claim) × (claim c ns (key name) ≡ some m)
        × (m.holder ≡ unlocked_identity)
        × ((ns' k : String)
            → claim (try_lock_name sha1_hex entity_type api ctx ns name c).0 ns' k ≡ (
                if ns == ns' && key name == k
                then some (record m { holder = locked_identity })
                else claim c ns' k))
  unfolding try_lock_name
  try_lock_ok ctx ns name c live done =
      let swap = swap_holder unlocked_identity locked_identity in
      let swapped : (patch ns (key name) swap c).1 ≡ none = ground arith in
      rw live (swap_ok ns (key name) unlocked_identity locked_identity c swapped)

  pub try_lock_err :
      (ctx : Context) (ns name : String) (c : Cluster) (e : ApiError)
      → (try_lock_name sha1_hex entity_type api ctx ns name c).1 ≡ some e
      → (ns' k : String)
      → claim (try_lock_name sha1_hex entity_type api ctx ns name c).0 ns' k ≡ claim c ns' k
  unfolding try_lock_name
  try_lock_err ctx ns name c e failed ns' k =
      let swap = swap_holder unlocked_identity locked_identity in
      elim (Option-cases (patch ns (key name) swap c).1) [
        | inl done ↦ ground arith
        | inr (e', failed') ↦ ground (arith, api.patch_err ns (key name) swap c e' failed' ns' k)
      ]

  pub unlock_ok :
      (ctx : Context) (ns name : String) (c : Cluster)
      → is_dry_run ctx ≡ false
      → (unlock_name sha1_hex entity_type api ctx ns name c).1 ≡ none
      → (m : Claim) × (claim c ns (key name) ≡ some m)
        × (m.holder ≡ locked_identity)
        × ((ns' k : String)
            → claim (unlock_name sha1_hex entity_type api ctx ns name c).0 ns' k ≡ (
                if ns == ns' && key name == k
                then some (record m { holder = unlocked_identity })
                else claim c ns' k))
  unfolding unlock_name
  unlock_ok ctx ns name c live done =
      let swap = swap_holder locked_identity unlocked_identity in
      let swapped : (patch ns (key name) swap c).1 ≡ none = ground arith in
      rw live (swap_ok ns (key name) locked_identity unlocked_identity c swapped)

  pub unlock_err :
      (ctx : Context) (ns name : String) (c : Cluster) (e : ApiError)
      → (unlock_name sha1_hex entity_type api ctx ns name c).1 ≡ some e
      → (ns' k : String)
      → claim (unlock_name sha1_hex entity_type api ctx ns name c).0 ns' k ≡ claim c ns' k
  unfolding unlock_name
  unlock_err ctx ns name c e failed ns' k =
      let swap = swap_holder locked_identity unlocked_identity in
      elim (Option-cases (patch ns (key name) swap c).1) [
        | inl done ↦ ground arith
        | inr (e', failed') ↦ ground (arith, api.patch_err ns (key name) swap c e' failed' ns' k)
      ]

  owned_by :
      (l : Lease) (owner_ns owner : String)
      → is_owned_by l owner_ns owner ≡ true
      → (lease_claim l).owner ≡ record { owner_namespace = owner_ns; owner_name = owner }
  unfolding is_owned_by
  owned_by l owner_ns owner h = ground (
    arith,
    eq_iff (value_at owner_namespace_annotation l.annotations) owner_ns,
    eq_iff (value_at owner_name_annotation l.annotations) owner,
  )

  owned_result-ok :
      (r : Result ApiError Lease) (owner_ns owner : String)
      → owned_result r owner_ns owner ≡ ok true
      → (l : Lease) × (r ≡ ok l) × (is_owned_by l owner_ns owner ≡ true)
  unfolding owned_result
  owned_result-ok (ok l) owner_ns owner h = (l, refl, ground arith)
  owned_result-ok (err e) owner_ns owner h = cc

  pub ownership_ok :
      (ctx : Context) (ns name owner_ns owner : String) (c : Cluster)
      → check_name_ownership sha1_hex entity_type api ctx ns name owner_ns owner c ≡ ok true
      → owner_of (claim c ns (key name))
        ≡ some (record { owner_namespace = owner_ns; owner_name = owner })
  unfolding check_name_ownership
  ownership_ok ctx ns name owner_ns owner c h =
      let (l, got, owned) = owned_result-ok (get ns (key name) c) owner_ns owner h in
      rw (api.get_ok ns (key name) c l got) (ap some (owned_by l owner_ns owner owned))

  pub dry_run :
      (ctx : Context) (ns name owner_ns owner : String) (c : Cluster)
      → is_dry_run ctx ≡ true
      → (register_name sha1_hex entity_type api ctx ns name owner_ns owner c ≡ (c, none))
        × (deregister_name sha1_hex entity_type api ctx ns name c ≡ (c, none))
        × (try_lock_name sha1_hex entity_type api ctx ns name c ≡ (c, none))
        × (unlock_name sha1_hex entity_type api ctx ns name c ≡ (c, none))
  unfolding register_name deregister_name try_lock_name unlock_name
  dry_run ctx ns name owner_ns owner c h = (rw h, rw h, rw h, rw h)

  -- The registry as the interface that its clients use.
  abbrev pub leased_names : NameRegistry
  leased_names = record {
    State = Cluster;
    key = key;
    claim = claim;
    register_name = register_name sha1_hex entity_type api;
    deregister_name = deregister_name sha1_hex entity_type api;
    try_lock_name = try_lock_name sha1_hex entity_type api;
    unlock_name = unlock_name sha1_hex entity_type api;
    check_name_ownership = check_name_ownership sha1_hex entity_type api;
    register_ok = register_ok;
    register_err = register_err;
    deregister_ok = deregister_ok;
    deregister_err = deregister_err;
    try_lock_ok = try_lock_ok;
    try_lock_err = try_lock_err;
    unlock_ok = unlock_ok;
    unlock_err = unlock_err;
    ownership_ok = ownership_ok;
    dry_run = dry_run;
  }
