-- ===== src/Names/Duplicate/Laws.antt =====
-- When the duplicate validator admits and refuses, and when it writes nothing.
use korifi.Base.{
  String, ◌≡◌, ◌≢◌, true, false, none, some, ◌==◌, eq_iff, eq_refl, arith, Option-cases, Bool-cases,
  inl, inr, ◌⊎◌,
}
use korifi.Validation.{UniqueObject, duplicate_error, unknown_error}
use korifi.Names.Interface.{
  Context, is_dry_run, Claim, NameRegistry, locked_identity, unlocked_identity,
}
use korifi.Names.Duplicate.{validate_create, validate_update, validate_delete}

module _ (registry : NameRegistry) (ctx : Context) (scope : String) where
  open registry use {State, key, claim, register_name, try_lock_name}

  -- A creation, not in a dry run, that asks for a claimed name is refused, by the error that
  -- names the duplicate or by the unknown error, and no claim changes.
  pub create_taken :
      (obj : UniqueObject) (s : State) (c : Claim)
      → is_dry_run ctx ≡ false
      → claim s scope (key obj.unique_name) ≡ some c
      → (((validate_create registry ctx scope obj s).1 ≡ some (duplicate_error obj))
          ⊎ ((validate_create registry ctx scope obj s).1 ≡ some unknown_error))
        × ((ns k : String) → claim (validate_create registry ctx scope obj s).0 ns k ≡ claim s ns k)
  unfolding validate_create
  create_taken obj s c live taken =
      elim (Option-cases (register_name ctx scope obj.unique_name obj.namespace obj.name s).1) [
        | inl done ↦
            let (free, _) =
              registry.register_ok ctx scope obj.unique_name obj.namespace obj.name s live done in
            absurd (cc (free, taken))
        | inr (e, failed) ↦ (
          ground arith,
          registry.register_err ctx scope obj.unique_name obj.namespace obj.name s e failed,
        )
      ]

  -- A dry run of a creation, an update or a deletion is admitted, and leaves the registry as it
  -- was.
  pub dry_run_unchanged :
      (old obj : UniqueObject) (s : State)
      → is_dry_run ctx ≡ true
      → (validate_create registry ctx scope obj s ≡ (s, none))
        × (validate_update registry ctx scope old obj s ≡ (s, none))
        × (validate_delete registry ctx scope obj s ≡ (s, none))
  unfolding validate_create validate_update validate_delete
  dry_run_unchanged old obj s dry =
      let (r, d, _, _) = registry.dry_run ctx scope obj.unique_name obj.namespace obj.name s dry in
      let (_, d', l, u) = registry.dry_run ctx scope old.unique_name obj.namespace obj.name s dry in
      (
        rw r,
        elim (Bool-cases (old.unique_name == obj.unique_name)) [
          | inl same ↦ rw same
          | inr renamed ↦ rw (renamed, l, r, d')
        ],
        rw d,
      )

  -- Outside a dry run, a name that was just locked cannot be locked again.
  pub try_lock_twice :
      (name : String) (s : State)
      → is_dry_run ctx ≡ false
      → (try_lock_name ctx scope name s).1 ≡ none
      → (try_lock_name ctx scope name (try_lock_name ctx scope name s).0).1 ≢ none
  try_lock_twice name s live first second =
      let (c, _, _, after) = registry.try_lock_ok ctx scope name s live first in
      let (c', held, free, _) =
        registry.try_lock_ok ctx scope name (try_lock_name ctx scope name s).0 live second in
      ground (
        arith,
        after scope (key name),
        eq_refl scope,
        eq_refl (key name),
        eq_iff locked_identity unlocked_identity,
      )
