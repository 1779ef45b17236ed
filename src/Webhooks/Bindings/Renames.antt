-- ===== src/Webhooks/Bindings/Renames.antt =====
-- Updates of service bindings: what is fixed, and what becomes of the name of a binding that is
-- given another display name.
use korifi.Base.{
  ◌≡◌, refl, ◌≢◌, subst, ap, sym, ◌∙◌, false, Option, none, some, eq_iff, arith, ◌↔◌, inl, inr,
}
use korifi.Names.Interface.{Context, is_dry_run, Owner, Claim, owner_of, NameRegistry}
use korifi.Names.Duplicate
use korifi.Names.Duplicate.Owners.{Owns, create-Owns, deregister_keeps}
use korifi.Names.Duplicate.Laws.{create_taken}
use korifi.Webhooks.Bindings.{
  ServiceBinding, unique_binding, validate_create, validate_update, validate_delete,
}

-- An update of a binding that is not being deleted is admitted exactly when it keeps the app and
-- the service, by name and namespace; the display name may change.
pub binding_update_iff :
    (old b : ServiceBinding)
    → b.is_deleting ≡ false
    → (validate_update old b ≡ none) ↔ (
        (old.app_ref_name ≡ b.app_ref_name)
        × (old.service_name ≡ b.service_name)
        × (old.service_namespace ≡ b.service_namespace))
unfolding validate_update
binding_update_iff old b live = ground (
  arith,
  eq_iff old.app_ref_name b.app_ref_name,
  eq_iff old.service_name b.service_name,
  eq_iff old.service_namespace b.service_namespace,
)

claimed : (o : Option Claim) {w : Owner} → owner_of o ≡ some w → (c : Claim) × (o ≡ some c)
claimed none h = cc
claimed (some c) h = (c, refl)

module _ (registry : NameRegistry) where
  open registry use {State, claim, key, deregister_name}

  -- Outside a dry run, a binding that was admitted is given another display name, so that the
  -- key of its unique name changes: the update is admitted, but when the binding is deleted
  -- after it, the claim on the first name stays with it, and a later binding of that unique name
  -- in the namespace is refused.
  pub binding_rename_leaks :
      (ctx : Context) (b renamed later : ServiceBinding) (s : State)
      → is_dry_run ctx ≡ false
      → (validate_create registry ctx b s).1 ≡ none
      → renamed.namespace ≡ b.namespace
      → renamed.app_ref_name ≡ b.app_ref_name
      → renamed.service_name ≡ b.service_name
      → renamed.service_namespace ≡ b.service_namespace
      → renamed.is_deleting ≡ false
      → key (unique_binding renamed).unique_name ≢ key (unique_binding b).unique_name
      → later.namespace ≡ b.namespace
      → (unique_binding later).unique_name ≡ (unique_binding b).unique_name
      → let made = (validate_create registry ctx b s).0 in
        let gone = (validate_delete registry ctx renamed made).0 in
        (validate_update b renamed ≡ none)
        × Owns registry b.namespace gone (unique_binding b)
        × ((validate_create registry ctx later gone).1 ≢ none)
  unfolding validate_create validate_delete Duplicate.validate_delete
  binding_rename_leaks ctx b renamed later s live admitted place app service place' kept apart home
        same =
      let made = (validate_create registry ctx b s).0 in
      let gone = (validate_delete registry ctx renamed made).0 in
      let owned = create-Owns registry b.namespace ctx live (unique_binding b) s admitted in
      let kept' =
        deregister_keeps registry b.namespace ctx live (unique_binding renamed).unique_name
          (unique_binding b) made apart owned in
      let kept'' : Owns registry b.namespace gone (unique_binding b) =
        subst
          (λ ns.
            Owns registry b.namespace
              (deregister_name ctx ns (unique_binding renamed).unique_name made).0
              (unique_binding b))
          (sym place) kept' in
      let (c, held) =
        claimed (claim gone b.namespace (key (unique_binding b).unique_name)) kept'' in
      let taken : claim gone later.namespace (key (unique_binding later).unique_name) ≡ some c =
        ap (λ ns. claim gone ns (key (unique_binding later).unique_name)) home
        ∙ ap (λ name. claim gone b.namespace (key name)) same
        ∙ held in
      let (refused, _) =
        create_taken registry ctx later.namespace (unique_binding later) gone c live taken in
      (
        (binding_update_iff b renamed kept).1 (sym app, sym service, sym place'),
        kept'',
        elim refused [ inl e ↦ λ h. cc | inr e ↦ λ h. cc ],
      )
