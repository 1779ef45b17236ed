-- ===== src/Names/Duplicate/Owners.antt =====
-- What one call of the duplicate validator does to the owners of names.
use korifi.Base.{
  String, ◌≡◌, ◌≢◌, false, none, some, eq_iff, eq_refl, arith, Option-cases, inl, inr, sym, ◌∙◌, ap,
}
use korifi.Validation.{UniqueObject, ValidationError}
use korifi.Names.Interface.{Context, is_dry_run, Owner, owner_of, NameRegistry}
use korifi.Names.Duplicate.{validate_create, validate_delete}

abbrev pub identity : UniqueObject → Owner
identity obj = record { owner_namespace = obj.namespace; owner_name = obj.name }

module _ (registry : NameRegistry) (scope : String) where
  open registry use {State, key, claim, register_name, deregister_name, try_lock_name, unlock_name}

  -- The name of an object is claimed, and the claim names the object.
  abbrev pub Owns : State → UniqueObject → Type 0
  Owns s obj = owner_of (claim s scope (key obj.unique_name)) ≡ some (identity obj)

module _ (registry : NameRegistry) (scope : String) (ctx : Context)
    (live : is_dry_run ctx ≡ false) where
  open registry use {State, key, claim, register_name, deregister_name, try_lock_name, unlock_name}

  pub lock_keeps :
      (name k : String) (s : State)
      → owner_of (claim (try_lock_name ctx scope name s).0 scope k) ≡ owner_of (claim s scope k)
  lock_keeps name k s = elim (Option-cases (try_lock_name ctx scope name s).1) [
    | inl done ↦
        let (c, held, _, after) = registry.try_lock_ok ctx scope name s live done in
        ground (arith, after scope k, eq_refl scope, eq_iff (key name) k)
    | inr (e, failed) ↦ ap owner_of (registry.try_lock_err ctx scope name s e failed scope k)
  ]

  pub unlock_keeps :
      (name k : String) (s : State)
      → owner_of (claim (unlock_name ctx scope name s).0 scope k) ≡ owner_of (claim s scope k)
  unlock_keeps name k s = elim (Option-cases (unlock_name ctx scope name s).1) [
    | inl done ↦
        let (c, held, _, after) = registry.unlock_ok ctx scope name s live done in
        ground (arith, after scope k, eq_refl scope, eq_iff (key name) k)
    | inr (e, failed) ↦ ap owner_of (registry.unlock_err ctx scope name s e failed scope k)
  ]

  pub register_keeps :
      (obj p : UniqueObject) (s : State)
      → Owns registry scope s p
      → Owns registry scope (register_name ctx scope obj.unique_name obj.namespace obj.name s).0 p
  register_keeps obj p s own =
      elim (Option-cases (register_name ctx scope obj.unique_name obj.namespace obj.name s).1) [
        | inl done ↦
            let (free, after) =
              registry.register_ok ctx scope obj.unique_name obj.namespace obj.name s live done in
            ground (
              arith,
              after scope (key p.unique_name),
              eq_refl scope,
              eq_iff (key obj.unique_name) (key p.unique_name),
            )
        | inr (e, failed) ↦
            ap owner_of (
              registry.register_err ctx scope obj.unique_name obj.namespace obj.name s e failed
                scope (key p.unique_name))
            ∙ own
      ]

  pub register-Owns :
      (obj : UniqueObject) (s : State)
      → (register_name ctx scope obj.unique_name obj.namespace obj.name s).1 ≡ none
      → Owns registry scope (register_name ctx scope obj.unique_name obj.namespace obj.name s).0 obj
  register-Owns obj s done =
      let (free, after) =
        registry.register_ok ctx scope obj.unique_name obj.namespace obj.name s live done in
      ground
        (arith, after scope (key obj.unique_name), eq_refl scope, eq_refl (key obj.unique_name))

  pub deregister_keeps :
      (name : String) (p : UniqueObject) (s : State)
      → key name ≢ key p.unique_name
      → Owns registry scope s p
      → Owns registry scope (deregister_name ctx scope name s).0 p
  deregister_keeps name p s apart own = elim (Option-cases (deregister_name ctx scope name s).1) [
    | inl done ↦ ground (
      arith,
      registry.deregister_ok ctx scope name s live done scope (key p.unique_name),
      eq_iff (key name) (key p.unique_name),
    )
    | inr (e, failed) ↦
        ap owner_of (registry.deregister_err ctx scope name s e failed scope (key p.unique_name))
        ∙ own
  ]

  -- An admitted creation claims the name for the object, and takes no other object's claim.
  pub create-Owns :
      (obj : UniqueObject) (s : State)
      → (validate_create registry ctx scope obj s).1 ≡ none
      → Owns registry scope (validate_create registry ctx scope obj s).0 obj
  unfolding validate_create
  create-Owns obj s admitted =
      elim (Option-cases (register_name ctx scope obj.unique_name obj.namespace obj.name s).1) [
        | inl done ↦ register-Owns obj s done
        | inr (e, failed) ↦ ground arith
      ]

  pub create_keeps :
      (obj p : UniqueObject) (s : State)
      → Owns registry scope s p
      → Owns registry scope (validate_create registry ctx scope obj s).0 p
  unfolding validate_create
  create_keeps obj p s own = register_keeps obj p s own

  pub delete_keeps :
      (obj p : UniqueObject) (s : State)
      → Owns registry scope s obj
      → identity obj ≢ identity p
      → Owns registry scope s p
      → Owns registry scope (validate_delete registry ctx scope obj s).0 p
  unfolding validate_delete
  delete_keeps obj p s mine apart own =
      deregister_keeps obj.unique_name p s
        (λ same. let e = sym mine ∙ ap (λ k. owner_of (claim s scope k)) same ∙ own in apart (cc e))
        own

  pub delete_refused_keeps :
      (obj p : UniqueObject) (s : State) (e : ValidationError)
      → (validate_delete registry ctx scope obj s).1 ≡ some e
      → Owns registry scope s p
      → Owns registry scope (validate_delete registry ctx scope obj s).0 p
  unfolding validate_delete
  delete_refused_keeps obj p s e refused own =
      elim (Option-cases (deregister_name ctx scope obj.unique_name s).1) [
        | inl done ↦ ground arith
        | inr (e', failed) ↦
            ap owner_of (
              registry.deregister_err ctx scope obj.unique_name s e' failed scope
                (key p.unique_name))
            ∙ own
      ]
