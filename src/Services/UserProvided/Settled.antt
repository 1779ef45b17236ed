-- ===== src/Services/UserProvided/Settled.antt =====
-- User-provided instances whose secret stays as it is
-- (controllers/controllers/services/instances/upsi/controller.go).
use korifi.Base.{◌≡◌, ◌≢◌, refl, sym, ap, ◌∙◌, subst, Option, none, eq_iff, eqb, arith, if_true}
use korifi.Kube.Errors.{ok}
use korifi.Kube.NotReady.{GoError}
use korifi.Services.Instances.World.{LastOperation, FinalizersApi}
use korifi.Services.UserProvided.{
  UserProvided, CredentialsSecret, UserWorld, reconcile_last_operation, key_of, validated,
  with_secret, reconcile_resource,
}

-- The operation that was recorded stays when the version that was observed is the secret's.
operation_stays :
    (i : UserProvided) (secret : CredentialsSecret)
    → i.credentials_observed_version ≡ secret.resource_version
    → secret.resource_version ≢ ""
    → reconcile_last_operation i secret ≡ i.last_operation
operation_stays i secret same versioned = ground (
  arith,
  eq_iff i.credentials_observed_version "",
  eq_iff i.credentials_observed_version secret.resource_version,
  same,
  versioned,
)

module _ (world : UserWorld) (finalizers : FinalizersApi) where
  -- The reconciliation succeeds with this secret.
  pub Reconciles : UserProvided → CredentialsSecret → Type 0
  Reconciles i secret =
      (world.get_secret (key_of world finalizers i) ≡ ok secret)
      × (world.unmarshal secret.credentials ≡ none)
      × (i.deletion_timestamp ≡ 0)

  reconciled :
      (i : UserProvided) (secret : CredentialsSecret)
      → Reconciles i secret
      → reconcile_resource world finalizers i
        ≡ validated world finalizers (record i { observed_generation = i.generation }) secret none
  unfolding reconcile_resource Reconciles
  reconciled i secret (got, valid, kept) =
      let observed = record i { observed_generation = i.generation } in
      if_true (eqb i.deletion_timestamp 0) _ _ (ap (λ t. eqb t 0) kept)
      ∙ ap (with_secret world finalizers observed) got
      ∙ ap (validated world finalizers observed secret) valid

  -- An instance that is not being deleted, whose secret has a version, is found and can be decoded:
  -- its reconciliation ends without an error, with the name and the version of that secret, and
  -- as long as the secret stays the same, another reconciliation changes nothing.
  pub reconcile_settles :
      (i : UserProvided) (secret : CredentialsSecret)
      → world.get_secret (key_of world finalizers i) ≡ ok secret
      → world.unmarshal secret.credentials ≡ none
      → i.deletion_timestamp ≡ 0
      → secret.resource_version ≢ ""
      → let next = (reconcile_resource world finalizers i).0 in
        ((reconcile_resource world finalizers i).1 ≡ none)
        × (next.credentials ≡ secret.name)
        × (next.credentials_observed_version ≡ secret.resource_version)
        × (reconcile_resource world finalizers next ≡ (next, none))
  unfolding Reconciles
  reconcile_settles i secret got valid kept versioned =
      let observed = record i { observed_generation = i.generation } in
      let first = validated world finalizers observed secret none in
      let stays = operation_stays first.0 secret refl versioned in
      let again : reconcile_resource world finalizers first.0 ≡ (first.0, none) =
        reconciled first.0 secret (got, valid, kept)
        ∙ ap (λ (o : LastOperation). (record first.0 { last_operation = o }, none)) stays in
      subst
        (λ (r : UserProvided × Option GoError).
          (r.1 ≡ none)
          × (r.0.credentials ≡ secret.name)
          × (r.0.credentials_observed_version ≡ secret.resource_version)
          × (reconcile_resource world finalizers r.0 ≡ (r.0, none)))
        (sym (reconciled i secret (got, valid, kept))) (refl, refl, refl, again)
