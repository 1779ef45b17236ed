-- ===== src/Names/Duplicate/Rename.antt =====
-- What an update of an object's name does to the owners of names.
use korifi.Base.{
  String, ◌≡◌, refl, ◌≢◌, Bool, true, false, Option, none, some, ◌==◌, eq_iff, arith, Option-cases,
  Bool-cases, inl, inr, sym, ◌∙◌, ap,
}
use korifi.Kube.Errors.{ApiError, Result, ok, err}
use korifi.Validation.{UniqueObject, ValidationError}
use korifi.Names.Interface.{Context, is_dry_run, owner_of, NameRegistry}
use korifi.Names.Duplicate.{ownership_error, rename_done, validate_update}
use korifi.Names.Duplicate.Owners.{
  identity, Owns, lock_keeps, unlock_keeps, register_keeps, register-Owns, deregister_keeps,
}

ownership_error-none : (r : Result ApiError Bool) → ownership_error r ≡ none → r ≡ ok true
ownership_error-none (ok true) h = refl
ownership_error-none (ok false) h = cc
ownership_error-none (err e) h = cc

module _ (registry : NameRegistry) (scope : String) (ctx : Context) (live : is_dry_run ctx ≡ false)
    (old obj : UniqueObject) where
  open registry use {
    State, key, claim, register_name, deregister_name, try_lock_name, unlock_name,
    check_name_ownership,
  }

  abbrev registered : State → State × Option ApiError
  registered s = register_name ctx scope obj.unique_name obj.namespace obj.name s

  abbrev owned_result : State → Result ApiError Bool
  owned_result s = check_name_ownership ctx scope obj.unique_name obj.namespace obj.name s

  -- Freeing the old name leaves the new claim: a name that was free is not the locked one.
  done-Owns :
      (s : State)
      → Owns registry scope s old
      → (rename_done registry ctx scope old obj (registered s)).1 ≡ none
      → Owns registry scope (rename_done registry ctx scope old obj (registered s)).0 obj
  done-Owns s mine admitted = elim (Option-cases (registered s).1) [
    | inl done ↦
        let (free, _) =
          registry.register_ok ctx scope obj.unique_name obj.namespace obj.name s live done in
        let claimed = register-Owns registry scope ctx live obj s done in
        let kept =
          deregister_keeps registry scope ctx live old.unique_name obj (registered s).0
            (λ same.
              let e = sym mine ∙ ap (λ k. owner_of (claim s scope k)) same ∙ ap owner_of free in
              cc e)
            claimed in
        ground (arith, kept)
    | inr (e, failed) ↦ ground arith
  ]

  done_keeps :
      (p : UniqueObject) (s : State)
      → Owns registry scope s old
      → identity old ≢ identity p
      → Owns registry scope s p
      → Owns registry scope (rename_done registry ctx scope old obj (registered s)).0 p
  done_keeps p s mine apart own =
      let kept = register_keeps registry scope ctx live obj p s own in
      let mine' = register_keeps registry scope ctx live obj old s mine in
      let freed =
        deregister_keeps registry scope ctx live old.unique_name p (registered s).0
          (λ same.
            let e = sym mine' ∙ ap (λ k. owner_of (claim (registered s).0 scope k)) same ∙ kept in
            apart (cc e))
          kept in
      let locked =
        unlock_keeps registry scope ctx live old.unique_name (key p.unique_name) (registered s).0
        ∙ kept in
      elim (Option-cases (registered s).1) [
        | inl done ↦ ground (arith, freed)
        | inr (e, failed) ↦ ground (arith, locked)
      ]

  done_refused_keeps :
      (p : UniqueObject) (s : State) (e : ValidationError)
      → (rename_done registry ctx scope old obj (registered s)).1 ≡ some e
      → Owns registry scope s p
      → Owns registry scope (rename_done registry ctx scope old obj (registered s)).0 p
  done_refused_keeps p s e refused own =
      let kept = register_keeps registry scope ctx live obj p s own in
      let locked =
        unlock_keeps registry scope ctx live old.unique_name (key p.unique_name) (registered s).0
        ∙ kept in
      ground (arith, locked)

  -- An admitted update of an object makes its new name's claim its own.
  pub update-Owns :
      (s : State)
      → identity old ≡ identity obj
      → Owns registry scope s old
      → (validate_update registry ctx scope old obj s).1 ≡ none
      → Owns registry scope (validate_update registry ctx scope old obj s).0 obj
  unfolding validate_update
  update-Owns s same mine admitted =
      let s1 = (try_lock_name ctx scope old.unique_name s).0 in
      let kept =
        lock_keeps registry scope ctx live old.unique_name (key old.unique_name) s ∙ mine in
      elim (Bool-cases (old.unique_name == obj.unique_name)) [
        | inl unchanged ↦
            let names = (eq_iff old.unique_name obj.unique_name).0 unchanged in
            rw unchanged
              (ap (λ n. owner_of (claim s scope (key n))) (sym names) ∙ mine ∙ ap some same)
        | inr renamed ↦ elim (Option-cases (try_lock_name ctx scope old.unique_name s).1) [
          | inl locked ↦ ground (arith, done-Owns s1 kept)
          | inr (e, failed) ↦ ground (
            arith,
            ownership_error-none (owned_result s1),
            registry.ownership_ok ctx scope obj.unique_name obj.namespace obj.name s1,
          )
        ]
      ]

  -- An update of one object leaves the claims of the others, admitted or not.
  pub update_keeps :
      (p : UniqueObject) (s : State)
      → Owns registry scope s old
      → identity old ≢ identity p
      → Owns registry scope s p
      → Owns registry scope (validate_update registry ctx scope old obj s).0 p
  unfolding validate_update
  update_keeps p s mine apart own =
      let s1 = (try_lock_name ctx scope old.unique_name s).0 in
      let mine1 =
        lock_keeps registry scope ctx live old.unique_name (key old.unique_name) s ∙ mine in
      let own1 = lock_keeps registry scope ctx live old.unique_name (key p.unique_name) s ∙ own in
      elim (Option-cases (try_lock_name ctx scope old.unique_name s).1) [
        | inl locked ↦ ground (arith, done_keeps p s1 mine1 apart own1)
        | inr (e, failed) ↦ ground (arith, own1)
      ]

  -- A refused update leaves every claim with its owner, the old name's too.
  pub update_refused_keeps :
      (p : UniqueObject) (s : State) (e : ValidationError)
      → (validate_update registry ctx scope old obj s).1 ≡ some e
      → Owns registry scope s p
      → Owns registry scope (validate_update registry ctx scope old obj s).0 p
  unfolding validate_update
  update_refused_keeps p s e refused own =
      let s1 = (try_lock_name ctx scope old.unique_name s).0 in
      let own1 = lock_keeps registry scope ctx live old.unique_name (key p.unique_name) s ∙ own in
      elim (Option-cases (try_lock_name ctx scope old.unique_name s).1) [
        | inl locked ↦ ground (arith, done_refused_keeps p s1 e, own1)
        | inr (e', failed) ↦ ground (arith, own1)
      ]
